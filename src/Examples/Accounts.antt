-- ===== src/Examples/Accounts.antt =====
-- The theorems on accounts (internal/db/accounts.go) at concrete inputs.
use ludock.Common.{
  ◌≡◌, refl, String, true, false, not, some, [], ◌∷◌, ◌&&◌, ◌==◌, string_eq, any, ==_false, ok,
  Result, arith,
}
use ludock.Database.{admin, operator, User, Session, Attempt, AuditEntry, Db, transact}
use ludock.Accounts.{
  SessionInput, find_session_user, create_session, update_user_access, update_user_password,
  delete_user, change_password, session_valid,
}
use ludock.Accounts.Attempts.{count_failure}
use ludock.Accounts.Sessions.{revocation, signs_in, create_session-find_session_user}
use ludock.Accounts.Passwords.{change_password_lem, has_password}
use ludock.Accounts.Throttle.{failures_block, fail_each}

abbrev ann : User
ann = record {
  id = "ann";
  username = "ann";
  password_hash = "h1";
  role = admin;
  disabled = false;
  created_at = 1;
}

abbrev bob : User
bob = record ann { id = "bob"; username = "bob"; role = operator }

abbrev session_of : String → String → Session
session_of token user = record {
  token_hash = token;
  session_id = token;
  user_id = user;
  created_at = 10;
  expires_at = 100;
  last_seen_at = 10;
  ip_address = "";
  user_agent = "";
}

abbrev attempt : Attempt
attempt = record {
  attempt_key = "ip:1";
  failures = 2;
  window_started_at = 5;
  blocked_until = 0;
  updated_at = 7;
}

abbrev db : Db
db = record {
  users = ann ∷ bob ∷ [];
  sessions = session_of "t1" "ann" ∷ session_of "t2" "bob" ∷ session_of "t3" "ann" ∷ [];
  login_attempts = attempt ∷ [];
  audit_log = [];
  server_grants = [];
  logical_servers = [];
  server_bindings = [];
}

abbrev entry : AuditEntry
entry = record {
  user_id = "ann";
  action = "test";
  target_type = "user";
  target_id = "bob";
  ip_address = "";
}

abbrev sign_in : SessionInput
sign_in = record {
  session_id = "s4";
  token_hash = "t4";
  user_id = "bob";
  created_at = 20;
  expires_at = 120;
  ip_address = "";
  user_agent = "";
  password_hash = "h1";
  audit = some entry;
}

revocation_example :
    (signs_in (update_user_access db "ann" admin true) "t1" 20 "ann" ≡ false)
    × (signs_in (update_user_password db "ann" "h2" entry) "t1" 20 "ann" ≡ false)
    × (signs_in (delete_user db "ann") "t1" 20 "ann" ≡ false)
revocation_example = revocation db "ann" admin "h2" entry "t1" 20

create_session-find_session_user_example :
    (db' : Db) × (create_session db sign_in ≡ ok db')
    × ((find_session_user db' "t4" 20).0
        ≡ some (record { id = "bob"; username = "bob"; role = operator }))
create_session-find_session_user_example =
    create_session-find_session_user db sign_in bob refl refl (omega arith) refl

abbrev changed : Result Db
changed = change_password db "bob" "t2" "h1" "h2" "account:bob" sign_in entry

change_password_lem_example :
    (session_valid db "bob" "t2" 20 ≡ true)
    × (any (has_password "bob" "h1") db.users ≡ true)
    × (any (has_password "bob" "h1") (transact db changed).users ≡ false)
    × ((session_valid (transact db changed) "bob" "t2" 30 && not (◌==◌ {A = String} "t2" "t4"))
        ≡ false)
unfolding change_password session_valid
change_password_lem_example =
    change_password_lem db (transact db changed) "bob" "t2" "h1" "h2" "account:bob" sign_in entry
      "t2" 30 (==_false "h1" "h2" refl) refl

failures_block_example :
    ((count_failure (fail_each db "ip:2" 60 3 300 (100 ∷ 110 ∷ [])) "ip:2" 120 60 3 300).0.failures
      ≡ 3)
    × ((count_failure
          (fail_each db "ip:2" 60 3 300 (100 ∷ 110 ∷ []))
          "ip:2"
          120
          60
          3
          300).0.blocked_until
        ≡ 420)
failures_block_example =
    failures_block db "ip:2" 100 120 60 3 300 (110 ∷ []) refl (omega arith, tt) (omega arith)
      (omega arith)
