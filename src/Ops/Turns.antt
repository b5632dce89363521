-- ===== src/Ops/Turns.antt =====
-- internal/ops/ops.go: the turns of run, from the claim of a row to its outcome or its way back.
use ludock.Common.{
  ℕ, String, Bool, true, false, Option, none, some, List, ◌∷◌, ◌&&◌, ◌||◌, string_eq, find,
  if◌then◌else◌, ok, err, Error, unsupported_operation,
}
use ludock.Database.{update_where}
use ludock.Ops.Job.{
  Status, succeeded, already_current, failed, Object, Json, Row, Job, has_id, is_queued, is_true,
  member, job_of,
}
use ludock.Ops.Queue.{start_row, requeue_row, finish}
use ludock.Ops.Runner.{
  is_starting, is_executing, is_held, has_requeued, Task, World, without, runs, set_stage, when_at,
  set_operations, Reply, or_object, starting, executing, requeued, held, returned, busy, errored,
  completed,
}

abbrev pub outcome_status : Object → Status
outcome_status o = if is_true (member "alreadyCurrent" o) then already_current else succeeded

unfoldable pub start : String → (now : ℕ) → World → World
start id now w = when_at is_starting id w (λ r.
    let (rows, claimed) = start_row id now w.store.operations in
    record (set_operations rows w) {
      tasks = set_stage id (if claimed then executing else returned) w.tasks;
    })

module _ {Recovery : Type 0} (json : Json Recovery) where
  -- Damaged saved state and an unknown kind fail the job before any handler runs.
  unfoldable pub handle :
      (public : Error → String) → (handlers : String → Option (Job Recovery → Reply)) → Row → Reply
  handle public handlers r = elim (job_of json r) [
    | err e ↦ errored (public e)
    | ok job ↦ elim (handlers job.kind) [
      | none ↦ errored (public unsupported_operation)
      | some run ↦ run job
    ]
  ]

  -- The rest of a turn of run, from the reply on.
  unfoldable pub settle : Reply → Row → (now : ℕ) → World → World
  settle (busy holds) r now w =
      record (set_operations (requeue_row r.id now w.store.operations) w) {
        tasks = set_stage r.id (requeued holds) w.tasks;
      }
  settle (errored message) r now w = record w {
    store = finish r failed none message now w.store;
    tasks = set_stage r.id returned w.tasks;
  }
  settle (completed result) r now w = record w {
    store =
        finish r (outcome_status (or_object result)) (some (json.object_text (or_object result))) ""
          now w.store;
    tasks = set_stage r.id returned w.tasks;
  }

  unfoldable pub execute : Reply → String → (now : ℕ) → World → World
  execute reply id now w = when_at is_executing id w (λ r. settle reply r now w)

-- The job is held in the queue, or waits outside its lane.
unfoldable pub hold : String → World → World
hold id w =
    when_at (has_requeued true) id w
      (λ r. record w { yielded = id ∷ w.yielded; tasks = set_stage id held w.tasks })

unfoldable pub wait : String → World → World
wait id w =
    when_at (has_requeued false) id w
      (λ r. record w { waiting = id ∷ w.waiting; tasks = set_stage id returned w.tasks })

unfoldable pub release_waiting : String → World → World
release_waiting id w = record w { waiting = without id w.waiting }

abbrev pub set_row : String → Row → List Task → List Task
set_row id r = update_where (runs id) (λ t. record t { row = r; stage = starting })

abbrev pub resumable : World → Row → Bool
resumable w r = w.enabled && is_queued r.status

abbrev pub resume_with : String → World → Option Row → World
resume_with id w none = record w { tasks = set_stage id returned w.tasks }
resume_with id w (some current) =
    if resumable w current
    then record w { tasks = set_row id current w.tasks }
    else record w { tasks = set_stage id returned w.tasks }

-- After the `select`: the row is read again.
abbrev pub resumed : String → World → World
resumed id w = resume_with id w (find (has_id id) w.store.operations)

unfoldable pub resume : String → World → World
resume id w = when_at is_held id w (λ r. resumed id w)

-- persist gives up where the runner has stopped or the context has ended.
unfoldable pub give_up : String → World → World
give_up id w =
    when_at (λ s. is_starting s || is_executing s) id w
      (λ r. record w { tasks = set_stage id returned w.tasks })
