-- ===== src/Ops/Queue.antt =====
-- internal/ops/ops.go: what Enqueue, Progress and the runner write to the table of operations.
use Prim.Native.String.{◌++◌}
use ludock.Common.{
  ℕ, String, Bool, Option, none, some, List, [], ◌∷◌, ◌&&◌, ◌==◌, string_eq, any, find,
  if◌then◌else◌, Result, ok, err, ◌>>=◌, operation_conflict, idempotency_conflict, driver, not,
}
use ludock.Database.{Db, AuditEntry, Server, update_where}
use ludock.Accounts.{find_user_by_id, write_audit}
use ludock.Ops.Job.{
  Status, queued, running, Object, Json, Row, Job, Store, EnqueueOptions, has_id, active_on,
  requested_with, job_of, status_text, is_queued,
}

abbrev pub or_empty : Option Object → Object
or_empty none = []
or_empty (some o) = o

-- The hash that stands for the request; the empty key asks for none.
abbrev pub request_key : (String → String) → EnqueueOptions → Option String
request_key digest o =
    if o.idempotency_key == ""
    then none
    else some
        (digest (o.actor_id ++ ":" ++ o.server_id ++ ":" ++ o.kind ++ ":" ++ o.idempotency_key))

-- The row of the INSERT, with the column defaults.
abbrev pub new_row :
    EnqueueOptions → (input : String) → (key : Option String) → (id : String) → ℕ → Row
new_row o input key id now = record {
  id = id;
  server_id = o.server_id;
  actor_id = o.actor_id;
  kind = o.kind;
  status = queued;
  phase = "queued";
  input = input;
  recovery = "{}";
  revision = o.binding_revision;
  created_at = now;
  updated_at = now;
  error_text = none;
  result = none;
  request_key = key;
}

-- The constraints of the table: `id` and `request_key` are unique, `server_id` refers to a server.
abbrev pub insertable : Store → Row → Bool
insertable store r =
    not (any (has_id r.id) store.operations)
    && not (any (requested_with r.request_key) store.operations)
    && any (λ (s : Server). s.id == r.server_id) store.db.logical_servers

abbrev queued_audit : EnqueueOptions → AuditEntry
queued_audit o = record {
  user_id = o.actor_id;
  action = "server." ++ o.kind ++ ".queued";
  target_type = "server";
  target_id = o.server_id;
  ip_address = "";
}

module _ {Recovery : Type 0} (json : Json Recovery) (digest : String → String) where
  unfoldable pub insert_operation : Store → EnqueueOptions → Row → Result (Store × Job Recovery)
  unfolding write_audit
  insert_operation store o r =
      if any (active_on o.server_id) store.operations
      then err operation_conflict
      else if insertable store r
      then (job_of json r >>= λ job. ok (
        record { operations = r ∷ store.operations; db = write_audit store.db (queued_audit o) },
        job,
      ))
      else err driver

  -- The answer to a request, from the row of an earlier one with its key.
  unfoldable pub answer_request :
      Store → EnqueueOptions → Row → Option Row → Result (Store × Job Recovery)
  answer_request store o r none = insert_operation store o r
  answer_request store o r (some prior) =
      if prior.input == r.input
      then (job_of json prior >>= λ job. ok (store, job))
      else err idempotency_conflict

  -- The transaction of Enqueue: what commits, and the job that is returned.
  unfoldable pub enqueue :
      Store → EnqueueOptions → (id : String) → (now : ℕ) → Result (Store × Job Recovery)
  enqueue store o id now =
      let key = request_key digest o in
      answer_request store o (new_row o (json.object_text (or_empty o.input)) key id now)
        (find (requested_with key) store.operations)

-- UPDATE operations SET status='running' … WHERE id=? AND status='queued'
abbrev pub claimable : String → Row → Bool
claimable id r = has_id id r && is_queued r.status

abbrev pub set_running : ℕ → Row → Row
set_running now r = record r { status = running; phase = "validating"; updated_at = now }

-- With RowsAffected: whether the row was claimed.
unfoldable pub start_row : String → ℕ → List Row → List Row × Bool
start_row id now rows =
    (update_where (claimable id) (set_running now) rows, any (claimable id) rows)

abbrev pub set_queued : ℕ → Row → Row
set_queued now r = record r { status = queued; phase = "queued"; updated_at = now }

unfoldable pub requeue_row : String → ℕ → List Row → List Row
requeue_row id now rows = update_where (has_id id) (set_queued now) rows

-- COALESCE(?, result_json)
abbrev coalesce : Option String → Option String → Option String
coalesce none old = old
coalesce (some new) old = some new

abbrev error_value : String → Option String
error_value error = if error == "" then none else some error

abbrev pub set_finished : Status → Option String → String → ℕ → Row → Row
set_finished status result error now r = record r {
  status = status;
  phase = status_text status;
  result = coalesce result r.result;
  error_text = error_value error;
  updated_at = now;
}

unfoldable pub finish_row :
    String → Status → (result : Option String) → (error : String) → ℕ → List Row → List Row
finish_row id status result error now rows =
    update_where (has_id id) (set_finished status result error now) rows

-- The actor may have been deleted since; the entry then names nobody.
abbrev pub outcome_audit : Db → (server kind actor : String) → Status → AuditEntry
unfolding find_user_by_id
outcome_audit db server kind actor status = record {
  user_id = elim (find_user_by_id db actor) [ none ↦ "" | some user ↦ actor ];
  action = "server." ++ kind ++ "." ++ status_text status;
  target_type = "server";
  target_id = server;
  ip_address = "";
}

-- The fields of the job that `finish` reads are those of its row.
unfoldable pub finish :
    Row → Status → (result : Option String) → (error : String) → ℕ → Store → Store
unfolding finish_row write_audit
finish r status result error now store = record {
  operations = finish_row r.id status result error now store.operations;
  db = write_audit store.db (outcome_audit store.db r.server_id r.kind r.actor_id status);
}

abbrev pub or_else : Option Object → Option Object → Option Object
or_else none old = old
or_else (some new) old = some new

abbrev pub set_progress : String → String → Option String → ℕ → Row → Row
set_progress phase recovery result now r = record r {
  phase = phase;
  recovery = recovery;
  result = result;
  updated_at = now;
}

unfoldable pub progress_row :
    String → (phase recovery : String) → (result : Option String) → ℕ → List Row → List Row
progress_row id phase recovery result now rows =
    update_where (has_id id) (set_progress phase recovery result now) rows

module _ {Recovery : Type 0} (json : Json Recovery) where
  abbrev pub result_text : Option Object → Option String
  result_text none = none
  result_text (some o) = some (json.object_text o)

  unfoldable pub saved_progress :
      Store
      → Job Recovery
      → String
      → Recovery
      → Option Object
      → ℕ
      → Option String
      → Result (Store × Job Recovery)
  unfolding progress_row
  saved_progress store job phase merged result now none = err driver
  saved_progress store job phase merged result now (some recovery) = ok (
    record store {
      operations = progress_row job.id phase recovery (result_text result) now store.operations;
    },
    record job { recovery = merged; result = result; phase = phase },
  )

  -- Context.Progress: the row and the job in memory.
  unfoldable pub progress :
      Store
      → Job Recovery
      → (phase : String) → (change : Recovery → Recovery) → Option Object
      → ℕ
      → Result (Store × Job Recovery)
  progress store job phase change result now =
      let merged = change job.recovery in
      saved_progress store job phase merged (or_else result job.result) now
        (json.recovery_text merged)

-- DB.Tx around a write of these tables.
abbrev pub committed_store {ℓ} : {A : Type ℓ} → Store → Result (Store × A) → Store
committed_store store (err e) = store
committed_store store (ok (written, value)) = written
