-- ===== src/Signin/Login.antt =====
-- internal/auth/service.go: Login.
use Prim.Native.String.{◌++◌}
use ludock.Common.{
  ℕ, ◌+◌, ◌-◌, ◌*◌, ◌/◌, ◌^◌, String, not, Option, none, some, List, [], ◌∷◌, ◌||◌, ltb, leb, ◌==◌,
  string_eq, if◌then◌else◌, Result, ok, err, is_empty, too_many_attempts, invalid_credentials,
  account_changed, Error,
}
use ludock.Database.{AuditEntry, Db}
use ludock.Accounts.{SessionUser, SessionInput, write_audit, create_session}
use ludock.Accounts.Attempts.{get_login_throttle, record_login_failure, clear_login_throttle}
use ludock.Signin.Authenticate.{
  truncate_runes, Library, Client, Principal, Turn, State, session_ttl, login_window, source,
  valid_username, valid_password, throttle_key, too_many, Verified, authenticate,
}

-- min(5000, 250 << min(5, …)); in Go the quotient of a negative number is not positive either.
abbrev pub cooldown_ms : ℕ → ℕ
cooldown_ms failures =
    let step = (failures + 1 - 20) / 5 in
    let cooldown = 250 * 2 ^ (if leb step 5 then step else 5) in
    if leb cooldown 5000 then cooldown else 5000

abbrev pub count_failed : State → (key : String) → ℕ → (most : ℕ) → (block : ℕ) → State
count_failed s key now most block =
    let (throttle, db, since) =
      record_login_failure s.since_prune s.db key now login_window most block in
    record { db = db; since_prune = since }

-- The keys that a request counts under.
pub record Keys : Type 0 where
  pub source_key : String
  pub account_source_key : Option String
  pub account_key : String

abbrev pub requested_name : Library → String → String
requested_name lib username = truncate_runes (lib.to_lower (lib.trim_space username)) 32

abbrev pub login_keys : Library → String → Client → Keys
login_keys lib username client =
    let requested = requested_name lib username in
    record {
      source_key = throttle_key lib "login-source" (source client);
      account_source_key =
          if requested == ""
          then none
          else some (throttle_key lib "login-account-source" (source client ++ "\0" ++ requested));
      account_key = throttle_key lib "login-account-failures" requested;
    }

abbrev pub checked_keys : Keys → List String
checked_keys keys =
    keys.source_key ∷ (elim keys.account_source_key [ none ↦ [] | some key ↦ key ∷ [] ])

abbrev count_source : Option String → ℕ → State → State
count_source none now s = s
count_source (some key) now s = count_failed s key now 5 0

abbrev failed_audit : Client → AuditEntry
failed_audit client = record {
  user_id = "";
  action = "auth.login.failed";
  target_type = "user";
  target_id = "";
  ip_address = client.ip;
}

-- What wrong credentials leave: three failures counted, and the audit entry.
unfoldable pub login_failed : Keys → Client → ℕ → State → State
login_failed keys client now s =
    let counted =
      count_source keys.account_source_key now (count_failed s keys.source_key now 20 0) in
    let (current, read) = get_login_throttle counted.db keys.account_key now login_window in
    let blocked =
      count_failed (record counted { db = read }) keys.account_key now 20
        (cooldown_ms current.failures) in
    record blocked { db = write_audit blocked.db (failed_audit client) }

abbrev clear_source : Option String → Db → Db
clear_source none db = db
clear_source (some key) db = clear_login_throttle db key

abbrev pub login_input : Library → Turn → Client → SessionUser → String → SessionInput
login_input lib turn client user hash = record {
  session_id = turn.session_id;
  token_hash = lib.hash_token turn.token;
  user_id = user.id;
  created_at = turn.created_at;
  expires_at = turn.created_at + session_ttl;
  ip_address = client.ip;
  user_agent = client.user_agent;
  password_hash = hash;
  audit = some (record {
    user_id = user.id;
    action = "auth.login";
    target_type = "session";
    target_id = "";
    ip_address = client.ip;
  });
}

-- ErrAccountChanged is told as wrong credentials.
abbrev pub session_error : Error → Error
session_error account_changed = invalid_credentials
session_error e = e

abbrev pub session_answer : Principal → State → Result Db → Result Principal × State
session_answer p s (ok db) = (ok p, record s { db = db })
session_answer p s (err e) = (err (session_error e), s)

abbrev pub cleared : Keys → Db → Db
cleared keys db = clear_login_throttle (clear_source keys.account_source_key db) keys.account_key

unfoldable pub sign_in :
    Library → Turn → Keys → Client → State → SessionUser → String → Result Principal × State
sign_in lib turn keys client s user hash =
    let input = login_input lib turn client user hash in
    let found = turn.after (cleared keys s.db) in
    session_answer (record { user = user; token = turn.token; token_hash = input.token_hash })
      (record s { db = found }) (create_session found input)

abbrev pub login_answer :
    Library → Turn → Keys → Client → State → Result Verified → Result Principal × State
login_answer lib turn keys client s (err e) = (err e, s)
login_answer lib turn keys client s (ok none) =
    (err invalid_credentials, login_failed keys client turn.failed_at s)
login_answer lib turn keys client s (ok (some (user, hash))) =
    sign_in lib turn keys client s user hash

abbrev pub login_work :
    Library → Turn → Keys → Client → State → String → String → Result Principal × State
login_work lib turn keys client s name password =
    let (verified, db) = authenticate lib turn s.db name password in
    login_answer lib turn keys client (record s { db = db }) verified

-- From the account's cooldown on.
abbrev pub login_named :
    Library → Turn → Keys → Client → State → String → Option String → Result Principal × State
login_named lib turn keys client s password none = (err invalid_credentials, s)
login_named lib turn keys client s password (some name) =
    if not (valid_password password) || is_empty s.db.users
    then (err invalid_credentials, s)
    else (let (cooldown, read) = get_login_throttle s.db keys.account_key turn.now login_window in
        if ltb turn.now cooldown.blocked_until || not turn.admitted
        then (err too_many_attempts, record s { db = read })
        else login_work lib turn keys client (record s { db = read }) name password)

unfoldable pub login : Library → Turn → State → String → String → Client → Result Principal × State
login lib turn s username password client =
    let keys = login_keys lib username client in
    let (blocked, read) = too_many s.db turn.now (checked_keys keys) in
    if blocked
    then (err too_many_attempts, record s { db = read })
    else login_named lib turn keys client (record s { db = read }) password
        (valid_username lib username)
