-- ===== src/Monitor/Operations.antt =====
-- internal/monitor/monitor.go: the other operations on the rows, the whole of Check, and Problems.
-- `encode` is json.Marshal of a policy; a server's row is unique, which the table's key ensures.
use ludock.Common.{
  ℕ, String, Bool, false, Option, none, some, List, [], ◌∷◌, ◌++◌, ◌-◌, ◌*◌, ◌+◌, ◌||◌, ◌==◌,
  string_eq, nat_eq, ltb, if◌then◌else◌, any, find, Result, Error, err, ok, ◌>>=◌,
}
use ludock.Database.{Server, Db, update_where}
use ludock.Accounts.{admin_mutation}
use ludock.Monitor.{
  Policy, PolicyInput, Row, Tick, Moment, Event, parse_policy, suppressed, check_server,
}

abbrev pub has_server : String → Row → Bool
has_server server_id row = row.server_id == server_id

abbrev pub default_policy : Policy
default_policy = record { enabled = false; maintenance = false; grace_seconds = 120 }

abbrev new_row : String → String → Row
new_row server_id policy = record {
  server_id = server_id;
  policy = policy;
  outage = none;
  notified = false;
  suppressed = 0;
  intentional = false;
  last_state = "";
}

-- Get's Availability: the policy and the state.
abbrev availability : Row → Policy → Policy × Option Row
availability r policy = (policy, some r)

module _ (decode : String → Option PolicyInput) where
  abbrev read_row : Option Row → Result (Policy × Option Row)
  read_row none = ok (default_policy, none)
  read_row (some r) = parse_policy decode r.policy >>= λ policy. ok (availability r policy)

  -- Get; without a row, the default policy and no state.
  unfoldable pub get : List Row → String → Result (Policy × Option Row)
  get rows server_id = read_row (find (has_server server_id) rows)

-- The write of Configure, in the transaction of AdminMutation.
unfoldable pub save_policy : String → String → List Row → List Row
save_policy server_id policy rows =
    if any (has_server server_id) rows
    then update_where (has_server server_id)
        (λ row. record row { policy = policy; outage = none; notified = false }) rows
    else new_row server_id policy ∷ rows

module _ (encode : Policy → String) where
  -- Configure up to its Get: the session and the role are those when the transaction runs.
  unfoldable pub configure :
      Db → List Row → String → String → String → Policy → ℕ → Result (List Row)
  configure db rows admin_id token_hash server_id policy now =
      admin_mutation db admin_id token_hash now (λ tx. ok tx) >>= λ tx.
      ok (save_policy server_id (encode policy) rows)

  unfoldable pub ensure_row : String → List Row → List Row
  ensure_row server_id rows =
      if any (has_server server_id) rows
      then rows
      else new_row server_id (encode default_policy) ∷ rows

  unfoldable pub set_intentional_stop : String → Bool → List Row → List Row
  set_intentional_stop server_id stopped rows =
      update_where (has_server server_id)
        (λ row. record row { intentional = stopped; outage = none; notified = false })
        (ensure_row server_id rows)

  -- Suppress after its Get: an error leaves the row that was made.
  abbrev after_get : String → ℕ → List Row → Result (Policy × Option Row) → Option Error × List Row
  after_get server_id now rows (err e) = (some e, rows)
  after_get server_id now rows (ok (policy, r)) = (
    none,
    update_where (has_server server_id)
        (λ row. record row {
          suppressed = now + policy.grace_seconds * 1000;
          outage = none;
          notified = false;
        })
        rows,
  )

  unfoldable pub suppress :
      (String → Option PolicyInput) → String → ℕ → List Row → Option Error × List Row
  suppress decode server_id now rows =
      let ensured = ensure_row server_id rows in
      after_get server_id now ensured (get decode ensured server_id)

pub record Problem : Type 0 where
  pub server_id : String
  pub state : String
  pub outage_started_at : ℕ

module _ (decode : String → Option PolicyInput) where
  -- One row of Problems, with its policy.
  unfoldable pub problem_of : Tick → Row → Policy → Option Problem
  problem_of tick r policy = elim r.outage [
    | none ↦ none
    | some started ↦
        if suppressed decode tick r.server_id policy r.suppressed
          || r.intentional
          || started == 0
          || ltb (tick.now - started) (policy.grace_seconds * 1000)
        then none
        else some (record {
          server_id = r.server_id;
          state = if r.last_state == "" then "unavailable" else r.last_state;
          outage_started_at = started;
        })
  ]

  abbrev with_problem : Option Problem → List Problem → List Problem
  with_problem none ps = ps
  with_problem (some p) ps = p ∷ ps

  unfoldable pub problems : Tick → List Row → Result (List Problem)
  problems tick [] = ok []
  problems tick (r ∷ rows) = parse_policy decode r.policy >>= λ policy.
      problems tick rows >>= λ ps. ok (with_problem (problem_of tick r policy) ps)

  -- Check's loop over the servers; `read` is what was read before it, `moments` what happens around
  -- the writes for each server.
  unfoldable pub check :
      Tick → (String → Moment × Moment) → List Row → List Server → List Row → List Row × List Event
  check tick moments read [] rows = (rows, [])
  check tick moments read (server ∷ servers) rows =
      let done =
        check_server decode tick (moments server.id).0 (moments server.id).1 server
          (find (has_server server.id) read) rows in
      let more = check tick moments read servers done.0 in (more.0, done.1 ++ more.1)
