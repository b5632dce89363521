-- ===== src/Accounts/Passwords.antt =====
-- internal/db/accounts.go: what changing a password leaves valid.
use text.Mathlib.TextEquality.{eq_iff}
use ludock.Common.{
  not, ◌==◌, ◌&&◌, ℕ, String, ◌≡◌, ◌≢◌, refl, Bool, true, false, List, [], ◌∷◌, arith, string_eq,
  any, ok,
}
use ludock.Database.{
  User, Session, AuditEntry, Db, update_where, delete_where, any-delete_where_none,
}
use ludock.Accounts.{
  SessionInput, has_id, session_row, live_session, session_valid, change_password,
}

abbrev pub has_password : String → String → User → Bool
has_password id hash u = has_id id u && u.password_hash == hash

-- After UPDATE … SET password_hash = new WHERE id AND password_hash = old, no row has the old one.
old_password_gone :
    (id old new : String) (users : List User)
    → old ≢ new
    → any (has_password id old) (
        update_where
          (λ u. has_id id u && u.password_hash == old)
          (λ u. record u { password_hash = new })
          users)
      ≡ false
old_password_gone id old new [] ne = refl
old_password_gone id old new (u ∷ users) ne =
    ground (arith, eq_iff new old, old_password_gone id old new users ne)

-- Where the account's sessions are the row of `session` alone, its token is the only live one.
only_session :
    (db : Db) (id other : String) (now : ℕ) (session : SessionInput) (old : List Session)
    → db.sessions ≡ session_row session ∷ delete_where (λ s. s.user_id == id) old
    → session_valid db id other now ≡ true
    → other ≡ session.token_hash
unfolding session_valid
only_session db id other now session old e h =
    let none_left =
      any-delete_where_none (λ s. s.user_id == id) (live_session db id other now) old
        (λ s. ground arith) in
    let live = rw e at h in ground (arith, none_left, live, eq_iff session.token_hash other)

change_password_writes :
    (db db' : Db) (id token old new key : String) (session : SessionInput) (audit : AuditEntry)
    → change_password db id token old new key session audit ≡ ok db'
    → (db'.users
        ≡ update_where
            (λ u. has_id id u && u.password_hash == old)
            (λ u. record u { password_hash = new })
            db.users)
      × (db'.sessions
          ≡ session_row (record session { user_id = id })
            ∷ delete_where (λ s. s.user_id == id) db.sessions)
unfolding change_password
change_password_writes db db' id token old new key session audit h = ground arith

-- A password change to another hash that succeeds leaves the account no valid token but the new
-- session's, at any time; no row of the account has the old hash any more; and it needed the old
-- hash and the requesting session.
pub change_password_lem :
    (db db' : Db) (id token old new key : String) (session : SessionInput) (audit : AuditEntry)
    (other : String) (now : ℕ)
    → old ≢ new
    → change_password db id token old new key session audit ≡ ok db'
    → (session_valid db id token session.created_at ≡ true)
      × (any (has_password id old) db.users ≡ true)
      × (any (has_password id old) db'.users ≡ false)
      × ((session_valid db' id other now && not (other == session.token_hash)) ≡ false)
change_password_lem db db' id token old new key session audit other now ne h =
    let (users, sessions) = change_password_writes db db' id token old new key session audit h in
    (
      unfold change_password in ground arith,
      unfold change_password in ground arith,
      rw users (old_password_gone id old new db.users ne),
      ground (
        arith,
        eq_iff other session.token_hash,
        only_session db' id other now (record session { user_id = id }) db.sessions sessions,
      ),
    )
