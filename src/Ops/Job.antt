-- ===== src/Ops/Job.antt =====
-- internal/ops/ops.go: saved operations, Enqueue, Get, Progress and the writes of the runner.
-- encoding/json is the parameter `json`, the hash of the request key the parameter `digest`; the
-- fresh id and the time of a call are arguments. The map[string]any of an input or a result is an
-- association list with a key once. Recovery is read and written whole, by the handlers only, so
-- it is the parameter `Recovery`.
use ludock.Common.{
  ℕ, String, Bool, true, false, Option, none, some, List, [], ◌∷◌, ◌&&◌, ◌||◌, ◌==◌, string_eq,
  find, if◌then◌else◌, Result, ok, err, ◌>>=◌, invalid_operation_state,
}
use ludock.Database.{Db}

pub data Status : Type 0 where
  queued running succeeded already_current failed interrupted : Status

abbrev pub status_text : Status → String
status_text queued = "queued"
status_text running = "running"
status_text succeeded = "succeeded"
status_text already_current = "already_current"
status_text failed = "failed"
status_text interrupted = "interrupted"

abbrev pub is_queued : Status → Bool
is_queued queued = true
is_queued _ = false

abbrev pub is_running : Status → Bool
is_running running = true
is_running _ = false

-- status IN ('queued','running')
abbrev pub is_active : Status → Bool
is_active s = is_queued s || is_running s

-- A value of a decoded object; numbers, arrays and objects in it are not looked at.
pub data Value : Type 0 where
  null : Value
  boolean : Bool → Value
  text : String → Value
  other : String → Value

abbrev pub Object : Type 0
Object = List (String × Value)

abbrev pub member : String → Object → Option Value
member key [] = none
member key ((name, value) ∷ rest) = if name == key then some value else member key rest

abbrev pub is_true : Option Value → Bool
is_true (some (boolean b)) = b
is_true _ = false

-- `none` is an error, or the JSON null where a pointer or a map is decoded into.
pub record Json (Recovery : Type 0) : Type 0 where
  pub parse_object : String → Option Object
  pub object_text : Object → String
  pub parse_recovery : String → Option Recovery
  pub recovery_text : Recovery → Option String

-- A row of the table, with the request key that no code reads back.
pub record Row : Type 0 where
  pub id : String
  pub server_id : String
  pub actor_id : String
  pub kind : String
  pub status : Status
  pub phase : String
  pub input : String
  pub recovery : String
  pub revision : ℕ
  pub created_at : ℕ
  pub updated_at : ℕ
  pub error_text : Option String
  pub result : Option String
  pub request_key : Option String

pub record Job (Recovery : Type 0) : Type 0 where
  pub id : String
  pub server_id : String
  pub kind : String
  pub status : Status
  pub phase : String
  pub created_at : ℕ
  pub updated_at : ℕ
  pub error : String
  pub result : Option Object
  pub actor_id : String
  pub input : Object
  pub recovery : Recovery
  pub binding_revision : ℕ

-- The tables that the runner works on.
pub record Store : Type 0 where
  pub operations : List Row
  pub db : Db

pub record EnqueueOptions : Type 0 where
  pub server_id : String
  pub actor_id : String
  pub kind : String
  pub binding_revision : ℕ
  pub input : Option Object
  pub idempotency_key : String

abbrev pub has_id : String → Row → Bool
has_id id r = r.id == id

abbrev pub active_on : String → Row → Bool
active_on server r = r.server_id == server && is_active r.status

abbrev pub same_key : Option String → Option String → Bool
same_key (some key) (some k) = k == key
same_key _ _ = false

-- request_key = ?; NULL equals nothing
abbrev pub requested_with : Option String → Row → Bool
requested_with key r = same_key key r.request_key

abbrev pub null_string : Option String → String
null_string none = ""
null_string (some s) = s

abbrev pub from_option {ℓ} : {A : Type ℓ} → Option A → Result A
from_option none = err invalid_operation_state
from_option (some a) = ok a

abbrev pub job_from : {Recovery : Type 0} → Row → Option Object → Object → Recovery → Job Recovery
job_from r result input recovery = record {
  id = r.id;
  server_id = r.server_id;
  kind = r.kind;
  status = r.status;
  phase = r.phase;
  created_at = r.created_at;
  updated_at = r.updated_at;
  error = null_string r.error_text;
  result = result;
  actor_id = r.actor_id;
  input = input;
  recovery = recovery;
  binding_revision = r.revision;
}

module _ {Recovery : Type 0} (json : Json Recovery) where
  abbrev pub parse_object : String → Result Object
  parse_object value = from_option (json.parse_object value)

  abbrev pub parse_result : Option String → Result (Option Object)
  parse_result none = ok none
  parse_result (some value) = parse_object value >>= λ o. ok (some o)

  unfoldable pub job_of : Row → Result (Job Recovery)
  job_of r = parse_result r.result >>= λ result. parse_object r.input >>= λ input.
      from_option (json.parse_recovery r.recovery) >>= λ recovery.
      ok (job_from r result input recovery)

  unfoldable pub read_job : Option Row → Result (Option (Job Recovery))
  read_job none = ok none
  read_job (some r) = job_of r >>= λ job. ok (some job)

  unfoldable pub get : Store → String → Result (Option (Job Recovery))
  get store id = read_job (find (has_id id) store.operations)
