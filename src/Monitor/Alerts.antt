-- ===== src/Monitor/Alerts.antt =====
-- internal/monitor/monitor.go: what an alert rests on.
use ludock.Common.{
  ℕ, String, Bool, true, false, Option, none, some, List, [], ◌∷◌, ◌-◌, ◌*◌, ◌≤◌, ◌&&◌, ◌==◌, ◌≡◌,
  refl, arith, string_eq, bytes_eq, nat_eq, leb, any, Bool-cases, inl, inr, Result, ok, err, ◌⊎◌,
  Error,
}
use ludock.Database.{Server, update_where}
use ludock.Monitor.{
  Policy, PolicyInput, Row, Tick, Event, outage_alert, recovery_alert, page_changed, Moment,
  unchanged, transition, is_running, is_well, resume, mark_outage, outage_start, check_healthy,
  check_outage, parse_policy, suppressed, check_server, optional_beq, container_of, judge,
  check_monitored, resumed,
}

abbrev pub is_outage_alert : Event → Bool
is_outage_alert (outage_alert server_id started unavailable) = true
is_outage_alert (recovery_alert server_id started) = false
is_outage_alert (page_changed server_id) = false

-- A row of the server with an outage from `started` that was told.
abbrev pub told : String → ℕ → Row → Bool
told server_id started row =
    row.server_id == server_id && row.notified && optional_beq row.outage (some started)

any-update_where :
    (p q : Row → Bool) (f : Row → Row) (rows : List Row)
    → ((row : Row) → p row ≡ true → q (f row) ≡ true)
    → any p rows ≡ true
    → any q (update_where p f rows) ≡ true
any-update_where p q f [] k h = cc
any-update_where p q f (row ∷ rows) k h = elim (Bool-cases (p row)) [
  | inl hit ↦ ground (arith, k row)
  | inr miss ↦ ground (arith, any-update_where p q f rows k)
]

quiet-check_healthy :
    (m : Moment) (server_id : String) (r : Row) (rows : List Row)
    → any is_outage_alert (check_healthy m server_id r rows).1 ≡ false
unfolding check_healthy transition
quiet-check_healthy m server_id r rows = ground arith

saved_outage :
    (m : Moment) (server_id : String) (r : Row) (started : ℕ) (state : String) (rows : List Row)
    → any (unchanged server_id r) rows ≡ true
    → any
        (told server_id started)
        (update_where (unchanged server_id r) (mark_outage started true state) rows)
      ≡ true
unfolding unchanged
saved_outage m server_id r started state rows h =
    any-update_where (unchanged server_id r) (told server_id started)
      (mark_outage started true state) rows
      (λ row k. ground (arith, (nat_eq.beq_iff started started).1 refl)) h

-- What an alert of check_outage rests on.
record Due (m : Moment) (server_id : String) (r : Row) (grace now : ℕ) (unavailable : Bool)
    (state : String) (rows : List Row) : Type 0 where
  unheeded : r.notified ≡ false
  unintended : r.intentional ≡ false
  lasted : grace * 1000 ≤ now - outage_start r.outage now
  stored :
      any
        (told server_id (outage_start r.outage now))
        (check_outage m server_id r grace now unavailable state rows).0
      ≡ true
  sent :
      (check_outage m server_id r grace now unavailable state rows).1
      ≡ outage_alert server_id (outage_start r.outage now) unavailable ∷ page_changed server_id ∷ []

due :
    (m : Moment) (server_id : String) (r : Row) (grace now : ℕ) (unavailable : Bool)
    (state : String) (rows : List Row)
    → any is_outage_alert (check_outage m server_id r grace now unavailable state rows).1 ≡ true
    → Due m server_id r grace now unavailable state rows
unfolding check_outage transition
due m server_id r grace now unavailable state rows h =
    let started = outage_start r.outage now in
    let raise : leb (grace * 1000) (now - started) ≡ true = ground arith in
    let fresh : r.notified ≡ false = ground arith in
    let unintended : r.intentional ≡ false = ground arith in
    let found = m.meanwhile rows in
    let differs : (optional_beq r.outage (some started) && false && r.last_state == state) ≡ false =
      ground arith in
    let saves : m.saves ≡ true = ground arith in
    let changed : any (unchanged server_id r) found ≡ true = ground arith in
    record {
      unheeded = fresh;
      unintended = unintended;
      lasted = ground arith;
      stored = ground (arith, saved_outage m server_id r started state found changed);
      sent = ground arith;
    }

policy_cases :
    (p : Result Policy) → ((e : Error) × (p ≡ err e)) ⊎ ((policy : Policy) × (p ≡ ok policy))
policy_cases (err e) = inl (e, refl)
policy_cases (ok policy) = inr (policy, refl)

-- What an outage alert of Check for a server rests on.
pub record Raised (decode : String → Option PolicyInput) (tick : Tick) (server : Server) (r : Row)
    (rows' : List Row) : Type 0 where
  pub policy : Policy
  pub policy_read : parse_policy decode r.policy ≡ ok policy
  pub monitored : suppressed decode tick server.id policy r.suppressed ≡ false
  pub unheeded : r.notified ≡ false
  pub lasted : policy.grace_seconds * 1000 ≤ tick.now - outage_start r.outage tick.now
  pub unwell :
      (is_running server (container_of tick.current server.container_id)
        && is_well (container_of tick.current server.container_id))
      ≡ false
  pub stored : any (told server.id (outage_start r.outage tick.now)) rows' ≡ true

judged :
    (decode : String → Option PolicyInput) (tick : Tick) (m : Moment) (server : Server) (r : Row)
    (policy : Policy) (rows : List Row)
    → any is_outage_alert (judge decode tick m server r policy rows).1 ≡ true
    → (r.notified ≡ false)
      × (policy.grace_seconds * 1000 ≤ tick.now - outage_start r.outage tick.now)
      × ((is_running server (container_of tick.current server.container_id)
            && is_well (container_of tick.current server.container_id))
          ≡ false)
      × (any
            (told server.id (outage_start r.outage tick.now))
            (judge decode tick m server r policy rows).0
          ≡ true)
judged decode tick m server r policy rows h =
    let c = container_of tick.current server.container_id in
    elim (Bool-cases (is_running server c && is_well c)) [
      | inl well ↦ absurd (ground (arith, quiet-check_healthy m server.id r rows))
      | inr unwell ↦
          let d = due m server.id r policy.grace_seconds tick.now _ _ rows (rw unwell at h) in
          (d.unheeded, d.lasted, unwell, rw unwell d.stored)
    ]

resumed_alert :
    (decode : String → Option PolicyInput) (tick : Tick) (m : Moment) (server : Server) (r : Row)
    (policy : Policy) (saved : Option Bool × List Row)
    → any is_outage_alert (resumed decode tick m server r policy saved).1 ≡ true
    → (r.notified ≡ false)
      × (policy.grace_seconds * 1000 ≤ tick.now - outage_start r.outage tick.now)
      × ((is_running server (container_of tick.current server.container_id)
            && is_well (container_of tick.current server.container_id))
          ≡ false)
      × (any
            (told server.id (outage_start r.outage tick.now))
            (resumed decode tick m server r policy saved).0
          ≡ true)
resumed_alert decode tick m server r policy (none, rows) h = cc
resumed_alert decode tick m server r policy (some false, rows) h = cc
resumed_alert decode tick m server r policy (some true, rows) h =
    judged decode tick m server (resume r) policy rows h

monitored_alert :
    (decode : String → Option PolicyInput) (tick : Tick) (first second : Moment) (server : Server)
    (r : Row) (policy : Policy) (rows : List Row)
    → parse_policy decode r.policy ≡ ok policy
    → any is_outage_alert (check_monitored decode tick first second server r policy rows).1 ≡ true
    → Raised decode tick server r (check_monitored decode tick first second server r policy rows).0
monitored_alert decode tick first second server r policy rows read h =
    elim (Bool-cases (suppressed decode tick server.id policy r.suppressed)) [
      | inl silent ↦ absurd (ground arith)
      | inr monitored ↦
          let c = container_of tick.current server.container_id in
          elim (Bool-cases (is_running server c && r.intentional)) [
            | inr unintended ↦
                let (unheeded, lasted, unwell, stored) =
                  judged decode tick second server r policy rows
                    (rw (monitored, unintended) at h) in
                record {
                  policy = policy;
                  policy_read = read;
                  monitored = monitored;
                  unheeded = unheeded;
                  lasted = lasted;
                  unwell = unwell;
                  stored = rw (monitored, unintended) stored;
                }
            | inl resuming ↦
                let (unheeded, lasted, unwell, stored) =
                  resumed_alert decode tick second server r policy
                    (transition first server.id r resume rows) (rw (monitored, resuming) at h) in
                record {
                  policy = policy;
                  policy_read = read;
                  monitored = monitored;
                  unheeded = unheeded;
                  lasted = lasted;
                  unwell = unwell;
                  stored = rw (monitored, resuming) stored;
                }
          ]
    ]

-- An outage alert is sent only for a monitored server that is not running and well, whose outage was
-- not told before and has lasted for its grace period; and the row with that outage's start, told,
-- is then stored.
pub check_server-Raised :
    (decode : String → Option PolicyInput) (tick : Tick) (first second : Moment) (server : Server)
    (r : Row) (rows : List Row)
    → any is_outage_alert (check_server decode tick first second server (some r) rows).1 ≡ true
    → Raised decode tick server r (check_server decode tick first second server (some r) rows).0
unfolding check_server
check_server-Raised decode tick first second server r rows h =
    elim (policy_cases (parse_policy decode r.policy)) [
      | inl (e, invalid) ↦ absurd (ground arith)
      | inr (policy, read) ↦
          rw read
            (monitored_alert decode tick first second server r policy rows read (rw read at h))
    ]
