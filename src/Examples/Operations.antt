-- ===== src/Examples/Operations.antt =====
-- The theorems on operations (internal/ops/ops.go) at concrete inputs.
use ludock.Common.{
  find, ◌>>=◌, err, ◌≡◌, ◌≤◌, refl, String, true, false, not, none, some, [], ◌∷◌, ok, codes, any,
  ◌||◌, ◌==◌, string_eq, ==_false, contains, if◌then◌else◌,
}
use ludock.Database.{Db, Server, active, count_where}
use ludock.Ops.Journal.{Recovery}
use ludock.Ops.Job.{
  Row, Json, Job, Store, EnqueueOptions, has_id, active_on, job_of, queued, interrupted, is_running,
}
use ludock.Accounts.{write_audit}
use ludock.Ops.Queue.{
  request_key, set_running, enqueue, answer_request, insert_operation, start_row, finish,
  finish_row, new_row, progress, committed_store,
}
use ludock.Ops.Job.{requested_with}
use ludock.Ops.Resent.{Later, at_once, moved, enqueue-Later}
use ludock.Ops.Runner.{
  World, lifecycle_lane, lane_load, lane_capacity, completed, recovered, runs, lane_for,
}
use ludock.Ops.Filling.{look, fill, claim_rows, claim_row}
use ludock.Ops.Turns.{start, execute}
use ludock.Ops.Restart.{restart, recover_interrupted, recover_rows, recover_row}
use ludock.Ops.Moves.{
  Reachable, idle_world, committed, enqueues, looks, fills, starts, executes, restarts, created,
  stepped,
}
use ludock.Ops.Places.{running_row}
use ludock.Ops.Exclusion.{OneActive-Reachable, exclusion-Reachable}
use ludock.Ops.Ended.{has_status}
use ludock.Ops.Lifecycle.{Goes, status_of, status_of-Step}
use ludock.Ops.Recovery.{recover_interrupted-done}
use ludock.Ops.Lanes.{lanes-Reachable}
use ludock.Ops.Loads.{in_lane}

abbrev server : Server
server = record {
  id = "one";
  host_id = "local";
  external_identity = [];
  container_id = codes "c1";
  display_name = "srv";
  game_type = "generic";
  status = active;
  binding_revision = 1;
  binding_fingerprint = "f0";
  pending_fingerprint = "";
  pending_game_type = "";
  review_required = false;
  first_seen_at = 1;
  last_seen_at = 2;
}

abbrev db : Db
db = record {
  users = [];
  sessions = [];
  login_attempts = [];
  audit_log = [];
  server_grants = [];
  logical_servers = server ∷ [];
  server_bindings = [];
}

abbrev blank : Recovery
blank = record {
  container_id = "";
  fingerprint = "";
  lock_keys = [];
  initial_running = none;
  stop_started = false;
  stop_settled = false;
  stop_recovery_deadline_at = 0;
  stop_initial_started_at = none;
  stop_recovery_timed_out = false;
  force_stopped = false;
  stopped_started_at = "";
  start_requested = false;
  state_restored = false;
  save_status = "";
  save_reason = "";
  data_helper_id = "";
  backup_id = "";
  backup_destination = "";
  backup_complete = false;
  data_unsafe = false;
  restore = "";
  swap = "";
}

abbrev stopping : Recovery → Recovery
stopping r = record r { stop_started = true }

-- Empty objects, and the state with and without a stop.
abbrev json : Json Recovery
json = record {
  parse_object = λ text. if text == "{}" then some [] else none;
  object_text = λ o. "{}";
  parse_recovery = λ text. if text == "{}" then some blank else some (stopping blank);
  recovery_text = λ r. if r.stop_started then some "{\"stopStarted\":true}" else some "{}";
}

abbrev digest : String → String
digest text = text

abbrev options : EnqueueOptions
options = record {
  server_id = "one";
  actor_id = "ann";
  kind = "start";
  binding_revision = 1;
  input = none;
  idempotency_key = "k";
}

abbrev w0 : World
w0 = restart json (λ r. recovered none) 50 (idle_world db)

abbrev w1 : World
w1 = committed w0 (enqueue json digest w0.store options "op1" 100)

abbrev w2 : World
w2 = look (λ rows. rows) w1

abbrev w3 : World
w3 = fill json w2

abbrev w4 : World
w4 = start "op1" 200 w3

abbrev w5 : World
w5 = execute json (completed none) "op1" 300 w4

reached1 : Reachable json digest w1
reached1 =
    stepped (stepped (created db) (restarts (λ r. recovered none) 50)) (enqueues options "op1" 100)

reached2 : Reachable json digest w2
reached2 = stepped reached1 (looks (λ rows. rows))

reached4 : Reachable json digest w4
reached4 = stepped (stepped reached2 fills) (starts "op1" 200)

reached5 : Reachable json digest w5
reached5 = stepped reached4 (executes (completed none) "op1" 300)

abbrev queued_job : Job Recovery
queued_job = record {
  id = "op1";
  server_id = "one";
  kind = "start";
  status = queued;
  phase = "queued";
  created_at = 100;
  updated_at = 100;
  error = "";
  result = none;
  actor_id = "ann";
  input = [];
  recovery = blank;
  binding_revision = 1;
}

-- The request is sent again when its job has ended.
ran : Later json digest w1 w5
ran =
    moved (moved (moved (moved at_once (looks (λ rows. rows))) fills) (starts "op1" 200))
      (executes (completed none) "op1" 300)

reached0 : Reachable json digest w0
reached0 = stepped (created db) (restarts (λ r. recovered none) 50)

enqueue-Later_example :
    (r : Row) × (find (requested_with (request_key digest options)) w5.store.operations ≡ some r)
    × (r.id ≡ "op1")
    × (enqueue json digest w5.store options "op2" 400
        ≡ (job_of json r >>= λ again. ok (w5.store, again)))
unfolding enqueue answer_request insert_operation job_of restart recover_interrupted recover_rows
    write_audit
enqueue-Later_example =
    enqueue-Later json digest w0 w5 options "op1" "op2" 100 400 w1.store queued_job
      (==_false "k" "" refl) reached0 refl ran

exclusion-Reachable_example : ◌≡◌ {A = String} "op1" "op1"
unfolding enqueue answer_request insert_operation job_of restart recover_interrupted recover_rows
    write_audit look fill claim_rows claim_row lane_for start start_row
exclusion-Reachable_example =
    exclusion-Reachable json digest w4 "one" "op1" "op1" reached4 refl refl refl refl

OneActive-Reachable_example :
    (count_where (has_id "op1") w4.store.operations ≤ 1)
    × (count_where (active_on "one") w4.store.operations ≤ 1)
OneActive-Reachable_example = OneActive-Reachable json digest w4 "one" "op1" reached4

lanes-Reachable_example :
    (count_where (runs "op1") w4.tasks ≤ 1)
    × ((not (any (runs "op1") w4.tasks) || contains w4.claimed "op1") ≡ true)
    × (lane_load lifecycle_lane w4 ≡ count_where (in_lane lifecycle_lane) w4.tasks)
    × (lane_load lifecycle_lane w4 ≤ lane_capacity lifecycle_lane)
lanes-Reachable_example = lanes-Reachable json digest w4 "op1" lifecycle_lane reached4

recover_interrupted-done_example :
    (any
        (λ r. is_running r.status)
        (recover_interrupted json (λ r. recovered none) 500 w4.store).0.operations
      ≡ false)
    × (any
          (has_status "op1" interrupted)
          (recover_interrupted json (λ r. recovered none) 500 w4.store).0.operations
        ≡ (any (has_status "op1" interrupted) w4.store.operations
            || any (running_row "op1") w4.store.operations))
unfolding enqueue answer_request insert_operation job_of restart recover_interrupted recover_rows
    write_audit look fill claim_rows claim_row lane_for start start_row recover_row finish
    finish_row
recover_interrupted-done_example =
    recover_interrupted-done json (λ r. recovered none) 500 w4.store "op1" refl

-- The handler has the job of the row before it was set running.
abbrev stop_saved : Store
stop_saved =
    committed_store w4.store (progress json w4.store queued_job "stopping" stopping none 250)

abbrev running_row_1 : Row
running_row_1 = set_running 200 (new_row options "{}" (some (digest "ann:one:start:k")) "op1" 100)

abbrev running_job : Job Recovery
unfolding job_of
running_job = elim (job_of json running_row_1) [ err e ↦ queued_job | ok job ↦ job ]

status_of-Step_example :
    Goes (status_of "op1" w4.store.operations) (status_of "op1" w5.store.operations)
status_of-Step_example =
    status_of-Step json digest "op1" w4 w5 reached4 (executes (completed none) "op1" 300)
