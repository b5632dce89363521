-- ===== src/Monitor/Suspension.antt =====
-- internal/monitor/monitor.go: what keeps alerts back.
use ludock.Common.{
  ℕ, String, Bool, true, false, Option, none, some, List, [], ◌∷◌, ◌-◌, ◌*◌, ◌&&◌, ◌||◌, ◌==◌, ◌≡◌,
  refl, arith, string_eq, bytes_eq, nat_eq, leb, any, Bool-cases, inl, inr, Result, ok, err, ◌⊎◌,
}
use ludock.Database.{Server, update_where}
use ludock.Monitor.{
  Policy, PolicyInput, Row, Tick, Event, Moment, unchanged, transition, recover, mark_outage,
  check_healthy, check_outage, parse_policy, suppressed, check_server, check_row, outage_start,
  container_of, is_running, is_well,
}
use ludock.Monitor.Operations.{has_server, set_intentional_stop, ensure_row}

update_where-none :
    (p : Row → Bool) (f : Row → Row) (rows : List Row)
    → any p rows ≡ false
    → update_where p f rows ≡ rows
update_where-none p f [] h = refl
update_where-none p f (row ∷ rows) h = ground (arith, update_where-none p f rows)

-- A result with no event, from the rows `rows` or from those that others left.
abbrev NothingDone : List Row → List Row → List Row × List Event → Type 0
NothingDone rows found (rows', events) = (events ≡ []) × ((rows' ≡ rows) ⊎ (rows' ≡ found))

overtaken_healthy :
    (m : Moment) (id : String) (r : Row) (rows : List Row)
    → any (unchanged id r) (m.meanwhile rows) ≡ false
    → NothingDone rows (m.meanwhile rows) (check_healthy m id r rows)
unfolding check_healthy transition
overtaken_healthy m id r rows h =
    ground (arith, update_where-none (unchanged id r) recover (m.meanwhile rows))

overtaken_outage :
    (m : Moment) (id : String) (r : Row) (grace now : ℕ) (unavailable : Bool) (state : String)
    (rows : List Row)
    → any (unchanged id r) (m.meanwhile rows) ≡ false
    → NothingDone rows (m.meanwhile rows) (check_outage m id r grace now unavailable state rows)
unfolding check_outage transition
overtaken_outage m id r grace now unavailable state rows h =
    let started = outage_start r.outage now in
    ground (
      arith,
      update_where-none (unchanged id r)
          (mark_outage started (leb (grace * 1000) (now - started) || r.notified) state)
          (m.meanwhile rows),
    )

flag_clear : (running intentional : Bool) → intentional ≡ false → (running && intentional) ≡ false
flag_clear running intentional h = ground arith

overtaken_check :
    (decode : String → Option PolicyInput) (tick : Tick) (first second : Moment) (server : Server)
    (r : Row) (rows : List Row) (read : Result Policy)
    → r.intentional ≡ false
    → any (unchanged server.id r) (second.meanwhile rows) ≡ false
    → NothingDone rows
        (second.meanwhile rows)
        (check_row decode tick first second server r rows read)
overtaken_check decode tick first second server r rows (err e) i h = (refl, inl refl)
overtaken_check decode tick first second server r rows (ok policy) i h =
    let c = container_of tick.current server.container_id in
    elim (Bool-cases (suppressed decode tick server.id policy r.suppressed)) [
      | inl silent ↦ rw silent (refl, inl refl)
      | inr monitored ↦ rw monitored (
          rw (flag_clear (is_running server c) r.intentional i)
            (elim (Bool-cases (is_running server c && is_well c)) [
              | inl well ↦ rw well (overtaken_healthy second server.id r rows h)
              | inr unwell ↦
                  rw unwell
                    (overtaken_outage second server.id r policy.grace_seconds tick.now _ _ rows h)
            ]))
    ]

-- After SetIntentionalStop with `true` no row of the server reads as one that was not stopped.
stop_changes :
    (id : String) (r : Row) (rows : List Row)
    → r.intentional ≡ false
    → any (unchanged id r) (
        update_where
          (has_server id)
          (λ row. record row { intentional = true; outage = none; notified = false })
          rows)
      ≡ false
unfolding unchanged
stop_changes id r [] i = refl
stop_changes id r (row ∷ rows) i = elim (Bool-cases (row.server_id == id)) [
  | inl hit ↦ ground (arith, stop_changes id r rows i)
  | inr miss ↦ ground (arith, stop_changes id r rows i)
]

-- A stop that is recorded after Check has read a server's row and before it writes wins: where the
-- row that was read had no stop, Check sends nothing for the server, and the table is the one it
-- found or the one with the stop.
pub check_server-overtaken :
    (decode : String → Option PolicyInput) (encode : Policy → String) (tick : Tick) (first : Moment)
    (saves : Bool) (server : Server) (r : Row) (rows : List Row)
    → r.intentional ≡ false
    → let stop = set_intentional_stop encode server.id true in
      let result =
        check_server decode tick first
          (record { meanwhile = stop; saves = saves })
          server
          (some r)
          rows in
      (result.1 ≡ []) × ((result.0 ≡ rows) ⊎ (result.0 ≡ stop rows))
unfolding check_server set_intentional_stop
check_server-overtaken decode encode tick first saves server r rows i =
    overtaken_check decode tick first
      (record { meanwhile = set_intentional_stop encode server.id true; saves = saves }) server r
      rows (parse_policy decode r.policy) i
      (stop_changes server.id r (ensure_row encode server.id rows) i)
