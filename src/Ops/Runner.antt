-- ===== src/Ops/Runner.antt =====
-- internal/ops/ops.go: the runner as a state.
-- A goroutine of `fill` is a Task, with the place in `run` that it has reached; a move is what a
-- goroutine does under the mutex or in one statement on the table. What the database does not save
-- is tried again by `persist`, so a move is the attempt that succeeds, or giving up. A handler is
-- any code: its outcome is an argument of the move.
use ludock.Common.{
  ℕ, String, Bool, true, false, Option, none, some, List, [], ◌&&◌, ◌||◌, ◌==◌, string_eq, find,
  if◌then◌else◌, not, select, leb,
}
use ludock.Database.{update_where}
use ludock.Ops.Job.{Object, Json, Row, Store, is_true, member}

pub data Lane : Type 0 where
  lifecycle_lane data_lane : Lane

abbrev pub lane_beq : Lane → Lane → Bool
lane_beq lifecycle_lane lifecycle_lane = true
lane_beq data_lane data_lane = true
lane_beq _ _ = false

abbrev pub lane_capacity : Lane → ℕ
lane_capacity lifecycle_lane = 4
lane_capacity data_lane = 1

-- Where a goroutine is: before the claim of its row; in the handler, or saving what came of it;
-- back in the queue; in the `select`; past `run`.
pub data Stage : Type 0 where
  starting executing : Stage
  requeued : (holds_queue : Bool) → Stage
  held returned : Stage

abbrev pub is_starting : Stage → Bool
is_starting starting = true
is_starting _ = false

abbrev pub is_executing : Stage → Bool
is_executing executing = true
is_executing _ = false

abbrev pub is_held : Stage → Bool
is_held held = true
is_held _ = false

abbrev pub is_returned : Stage → Bool
is_returned returned = true
is_returned _ = false

abbrev pub has_requeued : Bool → Stage → Bool
has_requeued holds (requeued b) = if holds then b else not b
has_requeued _ _ = false

pub record Task : Type 0 where
  pub row : Row
  pub lane : Lane
  pub stage : Stage

-- The maps of the runner are lists of the keys that are set.
pub record World : Type 0 where
  pub store : Store
  pub enabled : Bool
  pub claimed : List String
  pub yielded : List String
  pub waiting : List String
  pub lifecycle_load : ℕ
  pub data_load : ℕ
  pub tasks : List Task
  -- the rows that `fill` has read and not gone through yet
  pub filling : List Row

abbrev pub lane_load : Lane → World → ℕ
lane_load lifecycle_lane w = w.lifecycle_load
lane_load data_lane w = w.data_load

abbrev pub lanes_full : World → Bool
lanes_full w =
    leb (lane_capacity lifecycle_lane) w.lifecycle_load && leb (lane_capacity data_lane) w.data_load

abbrev pub without : String → List String → List String
without id = select (λ x. not (x == id))

abbrev lane_of_restart : Option Object → Lane
lane_of_restart none = data_lane
lane_of_restart (some input) =
    if is_true (member "createBackup" input) then data_lane else lifecycle_lane

unfoldable pub lane_for : {Recovery : Type 0} → Json Recovery → Row → Lane
lane_for json r =
    if r.kind == "start" || r.kind == "stop"
    then lifecycle_lane
    else if r.kind == "restart"
    then lane_of_restart (json.parse_object r.input)
    else data_lane

abbrev pub runs : String → Task → Bool
runs id t = t.row.id == id

abbrev pub at : (Stage → Bool) → String → Task → Bool
at stage id t = runs id t && stage t.stage

abbrev pub set_stage : String → Stage → List Task → List Task
set_stage id stage = update_where (runs id) (λ t. record t { stage = stage })

-- A move of the goroutine of `id`, made only where it is at the stage.
abbrev pub when_at : (Stage → Bool) → String → World → (Row → World) → World
when_at stage id w move = elim (find (at stage id) w.tasks) [ none ↦ w | some t ↦ move t.row ]

abbrev pub set_operations : List Row → World → World
set_operations rows w = record w { store = record w.store { operations = rows } }

-- What a handler comes back with: resourcesBusy, another error by its public message, or a result.
pub data Reply : Type 0 where
  busy : (holds_queue : Bool) → Reply
  errored : (message : String) → Reply
  completed : Option Object → Reply

-- What a recovery comes to: the context has ended or the outcome was not saved, the handler or the
-- saved state failed it, or it is done.
pub data Recovered : Type 0 where
  cancelled unrecovered : Recovered
  recovered : Option Object → Recovered

abbrev pub or_object : Option Object → Object
or_object none = []
or_object (some o) = o
