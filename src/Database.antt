-- ===== src/Database.antt =====
-- The tables of Ludock's SQLite database (internal/db/migrations.go) that the modelled code reads
-- and writes, a record for each row, and the statements that touch several rows.
-- A text column that is NULL is the empty text, as the code reads it back. `updated_at` columns
-- that no code reads are left out. A transaction (DB.Tx) is a function into `Result Db`: on an
-- error the caller keeps the database that it had.
mod Rows
mod Updates
mod Queries
mod Keys
pub use Rows.*
pub use Updates.*
pub use Queries.*
pub use Keys.*
use ludock.Common.{ℕ, String, Bool, true, false, List, Option, Result, ok, err, Bytes}

pub data Role : Type 0 where
  admin operator viewer : Role

abbrev pub is_admin : Role → Bool
is_admin admin = true
is_admin _ = false

pub record User : Type 0 where
  pub id : String
  pub username : String
  pub password_hash : String
  pub role : Role
  pub disabled : Bool
  pub created_at : ℕ

pub record Session : Type 0 where
  pub token_hash : String
  pub session_id : String
  pub user_id : String
  pub created_at : ℕ
  pub expires_at : ℕ
  pub last_seen_at : ℕ
  pub ip_address : String
  pub user_agent : String

pub record Attempt : Type 0 where
  pub attempt_key : String
  pub failures : ℕ
  pub window_started_at : ℕ
  pub blocked_until : ℕ
  pub updated_at : ℕ

pub record AuditEntry : Type 0 where
  pub user_id : String
  pub action : String
  pub target_type : String
  pub target_id : String
  pub ip_address : String

-- `capabilities_json` decoded: `none` where the text is no JSON array, and `none` for an element
-- that is no JSON string.
abbrev pub StoredCapabilities : Type 0
StoredCapabilities = Option (List (Option String))

pub record GrantRow : Type 0 where
  pub user_id : String
  pub server_id : String
  pub capabilities : StoredCapabilities
  pub updated_at : ℕ

pub data Status : Type 0 where
  active missing ambiguous review_required : Status

pub record Server : Type 0 where
  pub id : String
  pub host_id : String
  pub external_identity : Bytes
  pub container_id : Bytes
  pub display_name : String
  pub game_type : String
  pub status : Status
  pub binding_revision : ℕ
  pub binding_fingerprint : String
  pub pending_fingerprint : String
  pub pending_game_type : String
  pub review_required : Bool
  pub first_seen_at : ℕ
  pub last_seen_at : ℕ

pub record BindingRow : Type 0 where
  pub server_id : String
  pub binding_revision : ℕ
  pub container_id : Bytes
  pub binding_fingerprint : String
  pub observed_at : ℕ
  pub accepted : Bool

pub record Db : Type 0 where
  pub users : List User
  pub sessions : List Session
  pub login_attempts : List Attempt
  pub audit_log : List AuditEntry
  pub server_grants : List GrantRow
  pub logical_servers : List Server
  pub server_bindings : List BindingRow

-- DB.Tx: commits what `body` returns, and rolls back on its error.
abbrev pub transact : Db → Result Db → Db
transact db (ok db') = db'
transact db (err e) = db
