-- ===== src/Accounts/Sessions.antt =====
-- internal/db/accounts.go: who a session token signs in, and when it stops doing so.
use ludock.Common.{
  ℕ, ◌<◌, String, ◌≡◌, ◌≢◌, refl, Bool, true, false, Option, none, some, ◌∷◌, arith, ◌==◌,
  string_eq, any, find, find-holds, ok, err, account_changed, leb, Option-cases, inl, inr,
}
use text.Mathlib.TextEquality.{eq_iff}
use text.Mathlib.TextPositions.{eq_refl}
use ludock.Database.{
  Role, User, Session, AuditEntry, Db, delete_where, any-delete_where, find-any_also,
}
use ludock.Accounts.{
  SessionUser, SessionInput, has_id, has_token, session_row, verified_account, update_user_access,
  delete_user, create_session, resolve_session, find_session_user, update_user_password, clashes,
  session_user, audited, owner,
}

-- The row and the account that a principal comes from.
pub record SignedIn (db : Db) (token : String) (now : ℕ) (p : SessionUser) : Type 0 where
  pub session : Session
  pub user : User
  pub found : find (has_token token) db.sessions ≡ some session
  pub owned : find (has_id session.user_id) db.users ≡ some user
  pub enabled : user.disabled ≡ false
  pub unexpired : now < session.expires_at
  pub named : p ≡ record { id = user.id; username = user.username; role = user.role }

resolve_session-SignedIn :
    (db : Db) (token : String) (now : ℕ) (s : Option Session) (u : Option User) (p : SessionUser)
    → find (has_token token) db.sessions ≡ s
    → owner db s ≡ u
    → (resolve_session db token now s u).0 ≡ some p
    → SignedIn db token now p
unfolding resolve_session
resolve_session-SignedIn db token now none u p f o h = absurd (ground arith)
resolve_session-SignedIn db token now (some s) none p f o h = absurd (ground arith)
resolve_session-SignedIn db token now (some s) (some u) p f o h = record {
  session = s;
  user = u;
  found = f;
  owned = o;
  enabled = ground arith;
  unexpired = ground arith;
  named = ground arith;
}

-- FindSessionUser returns a principal only for a stored session that has not expired and whose
-- account exists and is enabled, and the principal carries the account's current role.
pub find_session_user-SignedIn :
    (db : Db) (token : String) (now : ℕ) (p : SessionUser)
    → (find_session_user db token now).0 ≡ some p
    → SignedIn db token now p
unfolding find_session_user
find_session_user-SignedIn db token now p h =
    resolve_session-SignedIn db token now _ _ p refl refl h

abbrev pub owned_by : String → Session → Bool
owned_by id s = s.user_id == id

-- No token signs the account in, at any time.
abbrev SignedOut : Db → String → Type 0
SignedOut db id =
    (token : String) (now : ℕ) (p : SessionUser)
    → (find_session_user db token now).0 ≡ some p
    → p.id ≢ id

SignedOut-of_no_session :
    (db : Db) (id : String) → any (owned_by id) db.sessions ≡ false → SignedOut db id
SignedOut-of_no_session db id gone token now p h same =
    let s = find_session_user-SignedIn db token now p h in
    let user_id = find-holds (has_id s.session.user_id) db.users s.user s.owned in
    let e : s.session.user_id ≡ id = ground (arith, eq_iff s.user.id s.session.user_id, s.named) in
    let here =
      find-any_also (has_token token) (owned_by id) db.sessions s.session s.found
        ((eq_iff s.session.user_id id).1 e) in
    cc (gone, here)

-- Whether a token signs an account in.
abbrev is_principal : String → Option SessionUser → Bool
is_principal id none = false
is_principal id (some p) = p.id == id

unfoldable pub signs_in : Db → String → ℕ → String → Bool
signs_in db token now id = is_principal id (find_session_user db token now).0

signed_out :
    (db : Db) (id token : String) (now : ℕ) → SignedOut db id → signs_in db token now id ≡ false
unfolding signs_in
signed_out db id token now out = elim (Option-cases (find_session_user db token now).0) [
  | inl nobody ↦ rw nobody refl
  | inr (p, somebody) ↦ rw somebody (ground (arith, out token now p, somebody, eq_iff p.id id))
]

-- Disabling an account, setting its password by an administrator and deleting it each sign it out
-- everywhere: no token, at any time, resolves to a principal with its id.
pub revocation :
    (db : Db) (id : String) (role : Role) (hash : String) (audit : AuditEntry) (token : String)
    (now : ℕ)
    → (signs_in (update_user_access db id role true) token now id ≡ false)
      × (signs_in (update_user_password db id hash audit) token now id ≡ false)
      × (signs_in (delete_user db id) token now id ≡ false)
unfolding update_user_access update_user_password delete_user
revocation db id role hash audit token now =
    let gone = any-delete_where (owned_by id) db.sessions in
    (
      signed_out _ id token now (SignedOut-of_no_session _ id gone),
      signed_out _ id token now (SignedOut-of_no_session _ id gone),
      signed_out _ id token now (SignedOut-of_no_session _ id gone),
    )

find_session_user_live :
    (db : Db) (token : String) (now : ℕ) (s : Session) (u : User)
    → find (has_token token) db.sessions ≡ some s
    → find (has_id s.user_id) db.users ≡ some u
    → u.disabled ≡ false
    → now < s.expires_at
    → (find_session_user db token now).0 ≡ some (session_user u)
unfolding find_session_user
find_session_user_live db token now s u f o e x = rw f (rw o (ground arith))

pub users-audited : (db : Db) (a : Option AuditEntry) → (audited db a).users ≡ db.users
users-audited db none = refl
users-audited db (some entry) = refl

pub sessions-audited : (db : Db) (a : Option AuditEntry) → (audited db a).sessions ≡ db.sessions
sessions-audited db none = refl
sessions-audited db (some entry) = refl

-- Where the account still has the verified hash and is enabled, the session ends after it begins, and
-- no session that has not expired has its token or its id, CreateSession succeeds, and the token of the
-- new session resolves to the account at once.
pub create_session-find_session_user :
    (db : Db) (input : SessionInput) (u : User)
    → find (has_id input.user_id) db.users ≡ some u
    → verified_account input u ≡ true
    → input.created_at < input.expires_at
    → clashes input (delete_where (λ s. leb s.expires_at input.created_at) db.sessions) ≡ false
    → (db' : Db) × (create_session db input ≡ ok db')
      × ((find_session_user db' input.token_hash input.created_at).0 ≡ some (session_user u))
unfolding create_session
create_session-find_session_user db input u f v h new =
    let cleaned = record db {
      sessions = delete_where (λ s. leb s.expires_at input.created_at) db.sessions;
    } in
    let stored = record cleaned { sessions = session_row input ∷ cleaned.sessions } in
    let db' = audited stored input.audit in
    let own = find-holds (has_id input.user_id) db.users u f in
    let verified = find-any_also (has_id input.user_id) (verified_account input) db.users u f v in
    let present = find-any_also (has_id input.user_id) (has_id input.user_id) db.users u f own in
    (
      db',
      rw verified (rw new (rw present (ground arith))),
      find_session_user_live db' input.token_hash input.created_at (session_row input) u
          (rw (sessions-audited stored input.audit) (rw (eq_refl input.token_hash)))
          (rw (users-audited stored input.audit) f) (ground arith) h,
    )

-- A reset, a disable or a deletion that comes between the verification and the sign-in wins: where
-- no account has the id, the verified hash, which is not empty, and is enabled, CreateSession fails
-- with ErrAccountChanged.
pub create_session_refused :
    (db : Db) (input : SessionInput)
    → input.password_hash ≢ ""
    → any (verified_account input) db.users ≡ false
    → create_session db input ≡ err account_changed
unfolding create_session
create_session_refused db input set gone = rw gone (ground (arith, eq_iff input.password_hash ""))
