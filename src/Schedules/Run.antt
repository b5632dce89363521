-- ===== src/Schedules/Run.antt =====
-- internal/schedules/schedules.go: Run for one schedule, which is runOne.
-- The JSON of the settings, the printing of slots and revisions, Go's time zones, the hash of request
-- keys and the JSON of operations are parameters (Library). What others write between runOne's reads,
-- its transaction and its last write is an argument (Turn).
use Prim.Native.String
use ludock.Common.{
  ℕ, ◌+◌, String, Bool, true, false, not, Option, none, some, List, [], ◌∷◌, ◌&&◌, ◌||◌, ◌==◌,
  string_eq, nat_beq, ltb, if◌then◌else◌, any, Result, ok, err, driver,
}
use ludock.Database.{update_where, Db}
use ludock.Ops.Job as Job
use ludock.Ops.Job.{Json, EnqueueOptions, Object}
use ludock.Ops.Queue.{enqueue}
use ludock.Accounts.{SessionUser}
use ludock.Schedtime.Clock.{Slot, Zones, is_slot, grace}
use ludock.Schedtime.Next.{one_time_slot, one_time_run}
use ludock.Schedtime.Next as Next
use ludock.Schedules.Settings.{Settings, clock, clock_time, validate}
use ludock.Schedules.Authority.{
  Row, Failure, missed, schedule_changed, other, Checked, failed, passed, ◌>>=◌, call, authority,
}
use ludock.Schedules.State.{AuthorityState, authority_state, assert_unchanged}

pub record Library (Recovery : Type 0) : Type 0 where
  pub decode : String → Option Settings
  pub zones : Zones
  pub slot_text : Slot → String
  pub revision_text : ℕ → String
  pub digest : String → String
  pub json : Json Recovery

pub record Store : Type 0 where
  pub schedules : List Row
  pub operations : Job.Store

-- The time of the check, the fresh id and the time of the operation, and the writes of others:
-- before the authority is checked, before the transaction, and before a refusal is recorded.
pub record Turn : Type 0 where
  pub now : ℕ
  pub operation_id : String
  pub queued_at : ℕ
  pub before_check : Store → Store
  pub before_queue : Store → Store
  pub before_record : Store → Store

pub data Attempt : Type 0 where
  idle : Attempt
  queued : Slot → Store → Attempt
  refused : (slot : Option Slot) → (configuration_valid : Bool) → Failure → Attempt

abbrev pub database : Store → Db
database store = store.operations.db

-- WHERE id=? AND revision=?
abbrev pub at_revision : Row → Row → Bool
at_revision r x = x.id == r.id && nat_beq x.revision r.revision

abbrev pub set_queued : Slot → ℕ → (operation_id : String) → Row → Row
set_queued slot now operation_id r = record r {
  last_slot = some slot;
  last_run_at = some now;
  last_operation_id = some operation_id;
  last_result = some (String.◌++◌ "Queued operation " operation_id);
}

abbrev pub set_refused : Option Slot → ℕ → (reason : String) → Row → Row
set_refused none now reason r = record r { last_result = some reason }
set_refused (some slot) now reason r = record r {
  last_slot = some slot;
  last_run_at = some now;
  last_operation_id = none;
  last_result = some reason;
}

abbrev pub is_once : Settings → Bool
is_once s = s.kind == "once"

abbrev is_same : Option Slot → Option Slot → Bool
is_same none last = false
is_same (some s) last = is_slot s last

module _ {Recovery : Type 0} (lib : Library Recovery) where
  abbrev pub settings_slot : Settings → Option Slot
  settings_slot s = elim (clock_time s.time) [
    | none ↦ none
    | some time ↦ one_time_slot lib.zones (clock s) time
  ]

  unfoldable pub one_time_completed : Row → Settings → Bool
  one_time_completed r s = is_once s && is_same (settings_slot s) r.last_slot

  abbrev saved : Option Settings → Result Settings
  saved none = err driver
  saved (some s) = validate lib.zones s

  -- ParseSaved
  unfoldable pub parse_saved : String → Result Settings
  parse_saved raw = saved (lib.decode raw)

  abbrev backup_first : Settings → Object
  backup_first s = if s.create_backup then ("createBackup", Job.boolean true) ∷ [] else []

  abbrev pub request :
      Row → Settings → Slot → (actor_id : String) → (binding_revision : ℕ) → EnqueueOptions
  request r s slot actor_id binding_revision = record {
    server_id = r.server_id;
    actor_id = actor_id;
    kind = s.action;
    binding_revision = binding_revision;
    input = some (
        ("scheduleId", Job.text r.id)
        ∷ ("scheduleRevision", Job.other (lib.revision_text r.revision))
        ∷ backup_first s);
    idempotency_key =
        String.◌++◌ "schedule:" (String.◌++◌ r.id (String.◌++◌ ":" (lib.slot_text slot)));
  }

  abbrev pub marked : Store → Row → Slot → ℕ → (Job.Store × Job.Job Recovery) → Checked Store
  marked store r slot now (operations, job) =
      if any (at_revision r) store.schedules
      then passed (record {
        schedules = update_where (at_revision r) (set_queued slot now job.id) store.schedules;
        operations = operations;
      })
      else failed schedule_changed

  -- The transaction that queues the operation and notes it in the schedule's row.
  unfoldable pub queue_run :
      Store
      → Row
      → Settings
      → Slot
      → Turn
      → AuthorityState
      → SessionUser
      → (binding_revision : ℕ) → Checked Store
  queue_run store r s slot turn state actor binding_revision =
      assert_unchanged state (database store) r.server_id (r.owner_id ∷ []) >>= λ unchanged.
      call (
        enqueue lib.json lib.digest store.operations (request r s slot actor.id binding_revision)
          turn.operation_id turn.queued_at)
      >>= λ queued_job. marked store r slot turn.now queued_job

  unfoldable pub start : Store → Row → Settings → Slot → Turn → Checked Store
  unfolding queue_run
  start store r s slot turn =
      let state = authority_state (database store) r.server_id (r.owner_id ∷ []) in
      let checked = turn.before_check store in
      authority (database checked) r.server_id r.owner_id r.binding_revision s
      >>= λ (actor, binding).
          queue_run (turn.before_queue checked) r s slot turn state actor binding.binding_revision

  abbrev pub attempted : Slot → Checked Store → Attempt
  attempted slot (passed store) = queued slot store
  attempted slot (failed f) = refused (some slot) true f

  abbrev pub on_slot : Store → Row → Settings → Turn → Option Slot → Attempt
  on_slot store r s turn none = idle
  on_slot store r s turn (some slot) =
      if is_slot slot r.last_slot then idle else attempted slot (start store r s slot turn)

  -- A one-time schedule without a slot now: its run is ahead, or it was missed.
  abbrev pub ahead_or_missed : Settings → ℕ → Option ℕ → Attempt
  ahead_or_missed s now none = refused (settings_slot s) true (missed true)
  ahead_or_missed s now (some run_at) =
      if ltb now (run_at + grace) then idle else refused (settings_slot s) true (missed false)

  abbrev pub evaluate : Store → Row → Turn → Settings → Attempt
  evaluate store r turn s =
      if not s.enabled || one_time_completed r s
      then idle
      else elim (Next.slot lib.zones (clock s) turn.now) [
        | some slot ↦ on_slot store r s turn (some slot)
        | none ↦
            if is_once s
            then ahead_or_missed s turn.now (one_time_run lib.zones (clock s))
            else idle
      ]

  abbrev pub configured : Store → Row → Turn → Result Settings → Attempt
  configured store r turn (err e) = refused none false (other e)
  configured store r turn (ok s) = evaluate store r turn s

  unfoldable pub attempt : Store → Row → Turn → Attempt
  attempt store r turn = configured store r turn (parse_saved r.input)
