-- ===== src/Monitor.antt =====
-- internal/monitor/monitor.go: availability and its alerts.
-- A policy is stored as JSON text, which `decode` reads: encoding/json's decoder is a parameter. A
-- JSON number is `whole` where it is a natural number; a null last_state is "". Times are in
-- milliseconds, and `until > now` and differences of times are those of natural numbers: where the
-- clock goes back the source has a negative difference, below every grace period, and this one 0.
pub mod Alerts
pub mod Operations
pub mod Suspension
use ludock.Common.{
  ℕ, String, Bool, true, false, not, Option, none, some, List, [], ◌∷◌, ◌++◌, ◌-◌, ◌*◌, ◌+◌, ◌&&◌,
  ◌||◌, ◌==◌, string_eq, bytes_eq, nat_eq, Bytes, ltb, leb, if◌then◌else◌, any, find, is_empty,
  Result, ok, err, invalid_request, codes,
}
use ludock.Database.{Server, Status, active, missing, ambiguous, review_required, update_where}
use ludock.Identity.{is_active}

pub record Policy : Type 0 where
  pub enabled : Bool
  pub maintenance : Bool
  pub grace_seconds : ℕ

pub data Number : Type 0 where
  whole : ℕ → Number
  other : Number

pub record PolicyInput : Type 0 where
  pub enabled : Option Bool
  pub maintenance : Option Bool
  pub grace_seconds : Option Number

abbrev grace_of : Option Number → Option ℕ
grace_of none = some 120
grace_of (some other) = none
grace_of (some (whole n)) = if ltb n 10 || ltb 86400 n then none else some n

abbrev or_false : Option Bool → Bool
or_false none = false
or_false (some b) = b

abbrev policy_of : Bool → Option Bool → Option ℕ → Result Policy
policy_of enabled maintenance none = err invalid_request
policy_of enabled maintenance (some grace) =
    ok (record { enabled = enabled; maintenance = or_false maintenance; grace_seconds = grace })

abbrev validated : Option PolicyInput → Result Policy
validated none = err invalid_request
validated (some input) = elim input.enabled [
  | none ↦ err invalid_request
  | some enabled ↦ policy_of enabled input.maintenance (grace_of input.grace_seconds)
]

-- A row of `availability`.
pub record Row : Type 0 where
  pub server_id : String
  pub policy : String
  pub outage : Option ℕ
  pub notified : Bool
  pub suppressed : ℕ
  pub intentional : Bool
  pub last_state : String

pub record Container : Type 0 where
  pub state : String
  pub health : String

-- What Check is given and reads: `current` is nil where Docker is unreachable, `active` are the
-- servers with queued or running operations, `busy` is locks.Table.ServerBusy.
pub record Tick : Type 0 where
  pub now : ℕ
  pub current : Option (Bytes → Option Container)
  pub active : String → Bool
  pub busy : String → Bool

pub data Event : Type 0 where
  outage_alert : String → ℕ → Bool → Event
  recovery_alert : String → Option ℕ → Event
  page_changed : String → Event

-- What happens around one write of Check: the writes of others that come before it, and whether
-- the database takes it.
pub record Moment : Type 0 where
  pub meanwhile : List Row → List Row
  pub saves : Bool

abbrev optional_beq : Option ℕ → Option ℕ → Bool
optional_beq none none = true
optional_beq (some a) (some b) = a == b
optional_beq none (some b) = false
optional_beq (some a) none = false

abbrev bool_beq : Bool → Bool → Bool
bool_beq a b = if a then b else not b

-- The condition of `transition`: the row still has the policy and the state that were read.
unfoldable pub unchanged : String → Row → Row → Bool
unchanged server_id r row =
    row.server_id == server_id
    && row.policy == r.policy
    && optional_beq row.outage r.outage
    && bool_beq row.notified r.notified
    && row.suppressed == r.suppressed
    && bool_beq row.intentional r.intentional

-- `none` is an error; `server_id` is the table's key, so that at most one row is affected.
unfoldable pub transition : Moment → String → Row → (Row → Row) → List Row → Option Bool × List Row
transition m server_id r set rows =
    let found = m.meanwhile rows in
    if m.saves
    then (some (any (unchanged server_id r) found), update_where (unchanged server_id r) set found)
    else (none, found)

abbrev container_of : Option (Bytes → Option Container) → Bytes → Option Container
container_of none id = none
container_of (some current) id = current id

abbrev pub is_running : Server → Option Container → Bool
is_running server none = false
is_running server (some c) =
    is_active server.status && not (is_empty server.container_id) && c.state == "running"

abbrev pub is_well : Option Container → Bool
is_well none = true
is_well (some c) = not (c.health == "unhealthy") && not (c.health == "starting")

abbrev status_text : Status → String
status_text active = "active"
status_text missing = "missing"
status_text ambiguous = "ambiguous"
status_text review_required = "review_required"

abbrev state_of : Option (Bytes → Option Container) → Server → Option Container → String
state_of none server c = "docker_unavailable"
state_of (some current) server none = status_text server.status
state_of (some current) server (some c) =
    if is_empty server.container_id then status_text server.status else c.state

abbrev pub resume : Row → Row
resume row = record row { intentional = false }

abbrev pub recover : Row → Row
recover row = record row {
  outage = none;
  notified = false;
  intentional = false;
  last_state = "running";
}

abbrev pub mark_outage : ℕ → Bool → String → Row → Row
mark_outage started notified state row = record row {
  outage = some started;
  notified = notified;
  last_state = state;
}

abbrev outage_start : Option ℕ → ℕ → ℕ
outage_start none now = now
outage_start (some started) now = started

abbrev is_some {ℓ} : {A : Type ℓ} → Option A → Bool
is_some none = false
is_some (some a) = true

abbrev when : Bool → List Event → List Event
when b events = if b then events else []

abbrev after_recovery : String → Row → Option Bool × List Row → List Row × List Event
after_recovery server_id r (none, rows) = (rows, [])
after_recovery server_id r (some changed, rows) = (
  rows,
  when (changed && r.notified) (recovery_alert server_id r.outage ∷ [])
      ++ when (changed && is_some r.outage) (page_changed server_id ∷ []),
)

abbrev after_outage : String → ℕ → Bool → Bool → Option Bool × List Row → List Row × List Event
after_outage server_id started raise unavailable (none, rows) = (rows, [])
after_outage server_id started raise unavailable (some changed, rows) = (
  rows,
  when (changed && raise)
      (outage_alert server_id started unavailable ∷ page_changed server_id ∷ []),
)

-- The part of Check for a server that is running and well.
unfoldable pub check_healthy : Moment → String → Row → List Row → List Row × List Event
check_healthy m server_id r rows =
    if not (is_some r.outage) && not r.notified && not r.intentional && r.last_state == "running"
    then (rows, [])
    else after_recovery server_id r (transition m server_id r recover rows)

-- The part of Check for a server that is not.
unfoldable pub check_outage :
    Moment → String → Row → ℕ → ℕ → Bool → String → List Row → List Row × List Event
check_outage m server_id r grace now unavailable state rows =
    let started = outage_start r.outage now in
    let raise = leb (grace * 1000) (now - started) in
    let notified = raise || r.notified in
    if r.intentional
    then (rows, [])
    else if optional_beq r.outage (some started)
        && bool_beq r.notified notified
        && r.last_state == state
    then (rows, [])
    else after_outage server_id started (raise && not r.notified) unavailable
        (transition m server_id r (mark_outage started notified state) rows)

module _ (decode : String → Option PolicyInput) where
  unfoldable pub parse_policy : String → Result Policy
  parse_policy raw = validated (decode raw)

  unfoldable pub suppressed : Tick → String → Policy → ℕ → Bool
  suppressed tick server_id policy until =
      not policy.enabled
      || policy.maintenance
      || ltb tick.now until
      || tick.active server_id
      || tick.busy server_id

  abbrev judge : Tick → Moment → Server → Row → Policy → List Row → List Row × List Event
  judge tick m server r policy rows =
      let c = container_of tick.current server.container_id in
      if is_running server c && is_well c
      then check_healthy m server.id r rows
      else check_outage m server.id r policy.grace_seconds tick.now (not (is_some tick.current))
          (state_of tick.current server c) rows

  -- The rest of Check where the flag of an intentional stop was to be cleared first.
  abbrev resumed :
      Tick → Moment → Server → Row → Policy → Option Bool × List Row → List Row × List Event
  resumed tick m server r policy (none, rows) = (rows, [])
  resumed tick m server r policy (some changed, rows) =
      if changed then judge tick m server (resume r) policy rows else (rows, [])

  abbrev check_monitored :
      Tick → Moment → Moment → Server → Row → Policy → List Row → List Row × List Event
  check_monitored tick first second server r policy rows =
      if suppressed tick server.id policy r.suppressed
      then (rows, [])
      else if is_running server (container_of tick.current server.container_id) && r.intentional
      then resumed tick second server r policy (transition first server.id r resume rows)
      else judge tick second server r policy rows

  abbrev check_row :
      Tick → Moment → Moment → Server → Row → List Row → Result Policy → List Row × List Event
  check_row tick first second server r rows (err e) = (rows, [])
  check_row tick first second server r rows (ok policy) =
      check_monitored tick first second server r policy rows

  -- One turn of Check's loop: `r` is the row that was read before the loop, `rows` the table now.
  unfoldable pub check_server :
      Tick → Moment → Moment → Server → Option Row → List Row → List Row × List Event
  check_server tick first second server none rows = (rows, [])
  check_server tick first second server (some r) rows =
      check_row tick first second server r rows (parse_policy r.policy)
