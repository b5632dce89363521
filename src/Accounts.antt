-- ===== src/Accounts.antt =====
-- internal/db/accounts.go: accounts, their sessions, and the transaction that
-- guards every administrative change. Each method takes the database and returns it changed.

pub mod Attempts
pub mod Sessions
pub mod Passwords
pub mod Administration
pub mod Throttle
pub mod OtherKeys
use ludock.Common.{
  ℕ, ◌+◌, ◌-◌, String, Bool, true, false, not, Option, none, some, List, ◌∷◌, ◌&&◌, ◌||◌, ltb, leb,
  nat_beq, ◌==◌, string_eq, if◌then◌else◌, any, find, Result, ok, err, setup_complete, session_gone,
  password_changed, account_changed, driver, not_admin, user_not_found, is_empty,
}
use ludock.Database.{
  Role, is_admin, User, Session, Attempt, AuditEntry, Db, update_where, delete_where, count_where,
}

pub record SessionUser : Type 0 where
  pub id : String
  pub username : String
  pub role : Role

pub record SessionInput : Type 0 where
  pub session_id : String
  pub token_hash : String
  pub user_id : String
  pub created_at : ℕ
  pub expires_at : ℕ
  pub ip_address : String
  pub user_agent : String
  pub password_hash : String
  pub audit : Option AuditEntry

abbrev pub has_id : String → User → Bool
has_id id u = u.id == id

unfoldable pub find_user_by_id : Db → String → Option User
find_user_by_id db id = find (has_id id) db.users

-- WriteAudit: the insert; pruning of old entries is maintenance after the commit.
unfoldable pub write_audit : Db → AuditEntry → Db
write_audit db entry = record db { audit_log = entry ∷ db.audit_log }

unfoldable pub update_user_access : Db → String → Role → Bool → Db
update_user_access db id role disabled =
    let updated = record db {
      users =
          update_where (has_id id) (λ u. record u { role = role; disabled = disabled }) db.users;
    } in
    if disabled
    then record updated { sessions = delete_where (λ s. s.user_id == id) db.sessions }
    else updated

unfoldable pub update_user_password : Db → String → String → AuditEntry → Db
unfolding write_audit
update_user_password db id password_hash audit =
    write_audit
      (record db {
        users = update_where (has_id id) (λ u. record u { password_hash = password_hash }) db.users;
        sessions = delete_where (λ s. s.user_id == id) db.sessions;
      })
      audit

-- The rows of `sessions` and `server_grants` go with the account (ON DELETE CASCADE).
unfoldable pub delete_user : Db → String → Db
delete_user db id = record db {
  users = delete_where (has_id id) db.users;
  sessions = delete_where (λ s. s.user_id == id) db.sessions;
  server_grants = delete_where (λ g. g.user_id == id) db.server_grants;
}

abbrev pub session_row : SessionInput → Session
session_row input = record {
  token_hash = input.token_hash;
  session_id = input.session_id;
  user_id = input.user_id;
  created_at = input.created_at;
  expires_at = input.expires_at;
  last_seen_at = input.created_at;
  ip_address = input.ip_address;
  user_agent = input.user_agent;
}

abbrev pub audited : Db → Option AuditEntry → Db
audited db none = db
audited db (some entry) = record db { audit_log = entry ∷ db.audit_log }

-- The account that `INSERT … SELECT … FROM users WHERE` selects.
abbrev pub verified_account : SessionInput → User → Bool
verified_account input u =
    has_id input.user_id u && u.password_hash == input.password_hash && not u.disabled

-- A stored session with the same token or the same id, which the keys of the table do not allow.
abbrev pub clashes : SessionInput → List Session → Bool
clashes input sessions =
    any (λ s. s.token_hash == input.token_hash || s.session_id == input.session_id) sessions

-- A text that is not set is empty; the insert then takes the values as they are.
unfoldable pub insert_session : Db → SessionInput → Result Db
insert_session db input =
    if not (input.password_hash == "") && not (any (verified_account input) db.users)
    then err account_changed
    else if clashes input db.sessions || not (any (has_id input.user_id) db.users)
    then err driver
    else ok (audited (record db { sessions = session_row input ∷ db.sessions }) input.audit)

unfoldable pub create_session : Db → SessionInput → Result Db
unfolding insert_session
create_session db input =
    insert_session
      (record db { sessions = delete_where (λ s. leb s.expires_at input.created_at) db.sessions })
      input

abbrev pub last_seen_write_interval : ℕ
last_seen_write_interval = 60_000

unfoldable pub delete_session : Db → String → Db
delete_session db token_hash = record db {
  sessions = delete_where (λ s. s.token_hash == token_hash) db.sessions;
}

abbrev pub has_token : String → Session → Bool
has_token token_hash s = s.token_hash == token_hash

abbrev session_user : User → SessionUser
session_user u = record { id = u.id; username = u.username; role = u.role }

-- The branches after the row of `sessions JOIN users` is read. `now - lastSeenAt` may be negative,
-- and is below the interval then, as the subtraction that stops at 0 is.
unfoldable pub resolve_session :
    Db → String → ℕ → Option Session → Option User → Option SessionUser × Db
unfolding delete_session
resolve_session db token_hash now (some s) (some u) =
    if u.disabled || leb s.expires_at now then (none, delete_session db token_hash) else (
      some (session_user u),
      if leb last_seen_write_interval (now - s.last_seen_at)
          then record db {
            sessions =
                update_where (has_token token_hash) (λ t. record t { last_seen_at = now })
                  db.sessions;
          }
          else db,
    )
resolve_session db token_hash now _ _ = (none, db)

abbrev owner : Db → Option Session → Option User
owner db none = none
owner db (some s) = find (has_id s.user_id) db.users

unfoldable pub find_session_user : Db → String → ℕ → Option SessionUser × Db
unfolding resolve_session
find_session_user db token_hash now =
    let s = find (has_token token_hash) db.sessions in
    resolve_session db token_hash now s (owner db s)

unfoldable pub logout : Db → String → AuditEntry → Db
unfolding delete_session write_audit
logout db token_hash audit = write_audit (delete_session db token_hash) audit

-- SELECT COUNT(*) FROM sessions JOIN users … : `token_hash` and `users.id` are keys, so the count
-- is 1 where such a pair of rows exists and 0 where none does.
abbrev pub live_session : Db → String → String → ℕ → Session → Bool
live_session db user_id token_hash now s =
    has_token token_hash s
    && (s.user_id == user_id)
    && ltb now s.expires_at
    && any (λ u. has_id user_id u && not u.disabled) db.users

unfoldable pub session_valid : Db → String → String → ℕ → Bool
session_valid db user_id token_hash now = any (live_session db user_id token_hash now) db.sessions

unfoldable pub create_first_user : Db → User → AuditEntry → SessionInput → Result Db
unfolding insert_session write_audit
create_first_user db user audit session =
    if is_empty db.users
    then insert_session
        (write_audit (record db { users = (record user { disabled = false }) ∷ db.users }) audit)
        session
    else err setup_complete

unfoldable pub upgrade_password_hash_if_unchanged : Db → String → String → String → Db
upgrade_password_hash_if_unchanged db id old_hash new_hash = record db {
  users =
      update_where (λ u. has_id id u && u.password_hash == old_hash && not u.disabled)
        (λ u. record u { password_hash = new_hash }) db.users;
}

unfoldable pub change_password :
    Db → String → String → String → String → String → SessionInput → AuditEntry → Result Db
unfolding session_valid write_audit
change_password db user_id token_hash old_hash new_hash throttle_key session audit =
    if not (session_valid db user_id token_hash session.created_at)
    then err session_gone
    else if not (any (λ u. has_id user_id u && u.password_hash == old_hash) db.users)
    then err password_changed
    else if clashes session (delete_where (λ s. s.user_id == user_id) db.sessions)
    then err driver
    else ok (
        write_audit
          (record db {
            users =
                update_where (λ u. has_id user_id u && u.password_hash == old_hash)
                  (λ u. record u { password_hash = new_hash }) db.users;
            sessions =
                session_row (record session { user_id = user_id })
                ∷ delete_where (λ s. s.user_id == user_id) db.sessions;
            login_attempts = delete_where (λ a. a.attempt_key == throttle_key) db.login_attempts;
          })
          audit)

-- The transaction of AdminMutation around `body`; SELECT role reads no row where the account is gone.
unfoldable pub admin_mutation : Db → String → String → ℕ → (Db → Result Db) → Result Db
unfolding session_valid find_user_by_id
admin_mutation db admin_id token_hash now body =
    if not (session_valid db admin_id token_hash now)
    then err session_gone
    else elim (find_user_by_id db admin_id) [
      | none ↦ err user_not_found
      | some u ↦ if is_admin u.role then body db else err not_admin
    ]

abbrev pub enabled_admin : User → Bool
enabled_admin u = is_admin u.role && not u.disabled

unfoldable pub removes_last_admin : Db → String → Role → Bool → Result Bool
unfolding find_user_by_id
removes_last_admin db target role disabled = elim (find_user_by_id db target) [
  | none ↦ err user_not_found
  | some u ↦
      if not (is_admin u.role) || u.disabled || (is_admin role && not disabled)
      then ok false
      else ok (leb (count_where enabled_admin db.users) 1)
]
