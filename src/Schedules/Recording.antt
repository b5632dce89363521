-- ===== src/Schedules/Recording.antt =====
-- internal/schedules/schedules.go: what runOne records of an attempt, and Run.
use Prim.Native.String
use ludock.Common.{
  ℕ, String, Bool, true, false, Option, none, some, List, [], ◌∷◌, if◌then◌else◌, any, take, driver,
}
use ludock.Database.{update_where}
use ludock.Schedtime.Clock.{Slot}
use ludock.Schedules.Authority.{
  Row, Reason, Failure, unavailable, missed, schedule_changed, access_changed, other, owner_missing,
  owner_disabled, owner_access_removed, action_access_removed, changed_binding, unavailable_binding,
}
use ludock.Schedules.Run.{
  Library, Store, Turn, Attempt, idle, queued, refused, at_revision, set_refused, attempt,
}

abbrev pub max_total : ℕ
max_total = 1000

-- unavailableMessages
abbrev pub reason_text : Reason → String
reason_text owner_missing = "Suspended: the schedule owner no longer exists"
reason_text owner_disabled = "Suspended: the schedule owner's account is disabled"
reason_text owner_access_removed = "Suspended: required access to manage schedules has been removed"
reason_text action_access_removed =
    "Suspended: required access for this scheduled action has been removed"
reason_text changed_binding =
    "Suspended: server configuration changed; recreate this schedule after reviewing the server"
reason_text unavailable_binding =
    "Suspended: the server binding is unavailable or requires administrator review"

-- What is recorded of a failure; nothing of one that the next check meets again.
abbrev pub failure_text : Failure → Option String
failure_text (unavailable reason) = some (reason_text reason)
failure_text (missed true) = some "Missed: the scheduled local time doesn't exist in its time zone"
failure_text (missed false) = some "Missed: Ludock was not running at the scheduled time"
failure_text schedule_changed = none
failure_text access_changed = none
failure_text (other driver) = none
failure_text (other e) = some "Skipped: server state or a conflicting operation prevented this run"

abbrev pub refusal_text : (configuration_valid : Bool) → Failure → Option String
refusal_text false f =
    some "Suspended: saved schedule configuration is invalid; recreate this schedule"
refusal_text true f = failure_text f

module _ {Recovery : Type 0} (lib : Library Recovery) where
  abbrev slot_key : Option Slot → String
  slot_key none = "invalid"
  slot_key (some slot) = lib.slot_text slot

  abbrev notification : Row → Option Slot → String
  notification r slot = String.◌++◌ "schedule:" (String.◌++◌ r.id (String.◌++◌ ":" (slot_key slot)))

  -- With the key of the notification, if one is sent.
  unfoldable pub record_refusal :
      Store → Row → Option Slot → ℕ → Option String → Store × Option String
  record_refusal store r slot now none = (store, none)
  record_refusal store r slot now (some reason) = (
    record store {
      schedules = update_where (at_revision r) (set_refused slot now reason) store.schedules;
    },
    if any (at_revision r) store.schedules then some (notification r slot) else none,
  )

  abbrev pub settle : Store → Row → Turn → Attempt → Store × Option String
  settle store r turn idle = (store, none)
  settle store r turn (queued slot store') = (store', none)
  settle store r turn (refused slot valid f) =
      record_refusal (turn.before_record store) r slot turn.now (refusal_text valid f)

  unfoldable pub run_one : Store → Row → Turn → Store × Option String
  unfolding record_refusal
  run_one store r turn = settle store r turn (attempt lib store r turn)

  abbrev noted : Option String → List String → List String
  noted none keys = keys
  noted (some key) keys = key ∷ keys

  unfoldable pub run_each : Store → List Row → (turns : String → Turn) → Store × List String
  run_each store [] turns = (store, [])
  run_each store (r ∷ rows) turns =
      let (store', key) = run_one store r (turns r.id) in
      let (store'', keys) = run_each store' rows turns in (store'', noted key keys)

  -- The rows are read at once, in the order of rowid, and MaxTotal of them are evaluated.
  unfoldable pub run : Store → (turns : String → Turn) → Store × List String
  unfolding run_each
  run store turns = run_each store (take max_total store.schedules) turns
