-- ===== src/Ops/Journal.antt =====
-- internal/ops/ops.go: the state that an operation saves for its recovery. Only the handlers look
-- at it; the runner writes and reads it whole.
use ludock.Common.{ℕ, String, Bool, Option, List}

pub record Recovery : Type 0 where
  pub container_id : String
  pub fingerprint : String
  pub lock_keys : List String
  pub initial_running : Option Bool
  pub stop_started : Bool
  pub stop_settled : Bool
  pub stop_recovery_deadline_at : ℕ
  pub stop_initial_started_at : Option ℕ
  pub stop_recovery_timed_out : Bool
  pub force_stopped : Bool
  pub stopped_started_at : String
  pub start_requested : Bool
  pub state_restored : Bool
  pub save_status : String
  pub save_reason : String
  pub data_helper_id : String
  pub backup_id : String
  pub backup_destination : String
  pub backup_complete : Bool
  pub data_unsafe : Bool
  -- raw JSON
  pub restore : String
  pub swap : String
