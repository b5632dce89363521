-- ===== src/Examples/Signin.antt =====
-- The theorems on signing in (internal/auth/service.go) at concrete inputs.
use Prim.Native.String.{◌++◌}
use ludock.Common.{refl, true, false, [], ◌∷◌, ◌&&◌, ◌==◌, string_eq, Result, err, driver}
use ludock.Database.{Db, User, operator}
use ludock.Accounts.{create_session, insert_session, find_user_by_id}
use ludock.Accounts.Attempts.{get_login_throttle, get_throttle, clear_login_throttle}
use ludock.Signin.Authenticate.{
  Library, Client, Principal, Turn, State, too_many, valid_username, valid_password, authenticate,
  check_password,
}
use ludock.Signin.Login.{login, sign_in}
use ludock.Signin.Verification.{Proven, login-Proven}

abbrev lib : Library
lib = record {
  trim_space = λ s. s;
  to_lower = λ s. s;
  same_name = λ a b. a == b;
  hash_token = λ t. "#" ++ t;
  hash_password = λ p. err driver;
  verify = λ p h. p == "correct horse battery" && h == "h1";
  needs_upgrade = λ h. false;
}

abbrev ann : User
ann = record {
  id = "u1";
  username = "ann";
  password_hash = "h1";
  role = operator;
  disabled = false;
  created_at = 1;
}

abbrev db : Db
db = record {
  users = ann ∷ [];
  sessions = [];
  login_attempts = [];
  audit_log = [];
  server_grants = [];
  logical_servers = [];
  server_bindings = [];
}

abbrev turn : Turn
turn = record {
  now = 1000;
  failed_at = 1100;
  created_at = 1200;
  session_id = "s1";
  token = "t1";
  admitted = true;
  during = λ db. db;
  after = λ db. db;
}

abbrev client : Client
client = record { ip = "10.0.0.1"; user_agent = "browser" }

abbrev before : State
before = record { db = db; since_prune = 0 }

abbrev signed_in : Result Principal × State
signed_in = login lib turn before "ann" "correct horse battery" client

abbrev principal : Principal
principal = record {
  user = record { id = "u1"; username = "ann"; role = operator };
  token = "t1";
  token_hash = "#t1";
}

login-Proven_example :
    Proven lib turn before.db.users "ann" client "correct horse battery" principal signed_in.1.db
unfolding login too_many get_login_throttle get_throttle valid_username valid_password authenticate
    check_password find_user_by_id sign_in clear_login_throttle create_session insert_session
login-Proven_example =
    login-Proven lib turn before signed_in.1 "ann" "correct horse battery" client principal refl
      (λ e. cc) refl
