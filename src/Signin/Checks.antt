-- ===== src/Signin/Checks.antt =====
-- internal/auth/service.go: what the parts of Login check and store.
use ludock.Common.{
  find-holds, false, String, true, false, not, Option, none, some, ◌∷◌, ◌&&◌, ◌||◌, leb, ◌==◌, ◌≡◌,
  ◌≢◌, ◌⊎◌, refl, ap, ◌∙◌, subst, arith, string_eq, if_in, any, Result, ok, err, Bool-cases, inl,
  inr, ==_refl,
}
use ludock.Database.{User, Db, delete_where}
use ludock.Accounts.{
  SessionUser, SessionInput, find_user_by_id, verified_account, insert_session, create_session,
  has_token, session_row, clashes, has_id,
}
use ludock.Accounts.Sessions.{users-audited, sessions-audited}
use ludock.Signin.Authenticate.{
  Library, Turn, Verified, check_password, confirm, confirmed, no_account, upgrade_of, some_hash,
  session_user,
}

-- The password was verified against the hash of the account `r`, which is enabled; the session is for
-- that account, with that hash or with a stronger one of the same password.
pub record Checked (lib : Library) (password : String) (r : User) (user : SessionUser)
    (hash : String) : Type 0 where
  pub verified : lib.verify password r.password_hash ≡ true
  pub enabled : r.disabled ≡ false
  pub own : user.id ≡ r.id
  pub stored :
      (hash ≡ r.password_hash)
      ⊎ ((lib.needs_upgrade r.password_hash ≡ true) × (lib.hash_password password ≡ ok hash))

no_account-refused :
    {A : Type 0} (h : Result String) (db : Db) (user : SessionUser) (hash : String)
    → (no_account h db).0 ≡ ok (some (user, hash))
    → A
no_account-refused (err e) db user hash h = cc
no_account-refused (ok made) db user hash h = cc

-- The account that is read again.
confirm-user :
    (r : User) (upgraded : Option String) (o : Option User) (db : Db) (user : SessionUser)
    (hash : String)
    → (confirm r upgraded o db).0 ≡ some (user, hash)
    → (c : User) × (o ≡ some c)
      × (user ≡ session_user c)
      × ((hash ≡ r.password_hash) ⊎ (upgraded ≡ some hash))
confirm-user r upgraded none db user hash = λ h. cc
confirm-user r none (some c) db user hash =
    if_in
      (λ (v : Verified × Db).
        v.0 ≡ some (user, hash)
        → (d : User) × (some c ≡ some d)
          × (user ≡ session_user d)
          × ((hash ≡ r.password_hash) ⊎ (◌≡◌ {A = Option String} none (some hash))))
      (c.disabled || not (c.password_hash == r.password_hash)) (λ wrong h. cc)
      (λ right h. (c, refl, cc, inl cc))
confirm-user r (some made) (some c) db user hash =
    if_in
      (λ (v : Verified × Db).
        v.0 ≡ some (user, hash)
        → (d : User) × (some c ≡ some d)
          × (user ≡ session_user d)
          × ((hash ≡ r.password_hash) ⊎ (◌≡◌ {A = Option String} (some made) (some hash))))
      (c.disabled || not (c.password_hash == r.password_hash)) (λ wrong h. cc)
      (λ right h. (c, refl, cc, inr cc))

some_hash-made :
    (made : Result String) (hash : String) → some_hash made ≡ ok (some hash) → made ≡ ok hash
some_hash-made (err e) hash h = cc
some_hash-made (ok made) hash h = cc

upgrade_of-made :
    (lib : Library) (r : User) (password hash : String)
    → upgrade_of lib r password ≡ ok (some hash)
    → (lib.needs_upgrade r.password_hash ≡ true) × (lib.hash_password password ≡ ok hash)
upgrade_of-made lib r password hash =
    if_in
      (λ (x : Result (Option String)).
        x ≡ ok (some hash)
        → (lib.needs_upgrade r.password_hash ≡ true) × (lib.hash_password password ≡ ok hash))
      (lib.needs_upgrade r.password_hash)
      (λ weak h. (weak, some_hash-made (lib.hash_password password) hash h)) (λ strong h. cc)

confirmed-Checked :
    (lib : Library) (password : String) (r : User) (upgraded : Result (Option String)) (db : Db)
    (user : SessionUser) (hash : String)
    → r.disabled ≡ false
    → lib.verify password r.password_hash ≡ true
    → upgrade_of lib r password ≡ upgraded
    → (confirmed r upgraded db).0 ≡ ok (some (user, hash))
    → Checked lib password r user hash
unfolding find_user_by_id
confirmed-Checked lib password r (err e) db user hash enabled right made h = cc
confirmed-Checked lib password r (ok upgraded) db user hash enabled right made h =
    let (c, found, same, stored) =
      confirm-user r upgraded (find_user_by_id db r.id) db user hash cc in
    let own : c.id ≡ r.id =
      (string_eq.beq_iff c.id r.id).0 (find-holds (has_id r.id) db.users c found) in
    record {
      verified = right;
      enabled = enabled;
      own = ap (λ (x : SessionUser). x.id) same ∙ own;
      stored = elim stored [
        | inl kept ↦ inl kept
        | inr new ↦ inr (upgrade_of-made lib r password hash (made ∙ ap ok new))
      ];
    }

pub check_password-Checked :
    (lib : Library) (turn : Turn) (db : Db) (password : String) (o : Option User)
    (user : SessionUser) (hash : String)
    → (check_password lib turn db password o).0 ≡ ok (some (user, hash))
    → (r : User) × (o ≡ some r) × Checked lib password r user hash
unfolding check_password
check_password-Checked lib turn db password none user hash =
    no_account-refused (lib.hash_password password) (turn.during db) user hash
check_password-Checked lib turn db password (some r) user hash =
    if_in
      (λ (x : Result Verified × Db).
        x.0 ≡ ok (some (user, hash))
        → (u : User) × (some r ≡ some u) × Checked lib password u user hash)
      r.disabled
      (λ disabled. no_account-refused (lib.hash_password password) (turn.during db) user hash)
      (λ enabled.
        if_in
          (λ (x : Result Verified × Db).
            x.0 ≡ ok (some (user, hash))
            → (u : User) × (some r ≡ some u) × Checked lib password u user hash)
          (lib.verify password r.password_hash)
          (λ right h. (
            r,
            refl,
            confirmed-Checked lib password r (upgrade_of lib r password) (turn.during db) user hash
                enabled right refl h,
          ))
          (λ wrong h. cc))

-- What a session that is stored shows of the database.
abbrev pub Entered : SessionInput → Db → Type 0
Entered input db =
    (any (verified_account input) db.users ≡ true)
    × (any (has_token input.token_hash) db.sessions ≡ true)

pub create_session-Entered :
    (db db' : Db) (input : SessionInput)
    → input.password_hash ≢ ""
    → create_session db input ≡ ok db'
    → Entered input db'
unfolding create_session insert_session
create_session-Entered db db' input set =
    let cleaned = record db {
      sessions = delete_where (λ s. leb s.expires_at input.created_at) db.sessions;
    } in
    let stored = record cleaned { sessions = session_row input ∷ cleaned.sessions } in
    if_in (λ (r : Result Db). r ≡ ok db' → Entered input db')
      (not (input.password_hash == "") && not (any (verified_account input) db.users))
      (λ changed h. cc)
      (λ verified.
        if_in (λ (r : Result Db). r ≡ ok db' → Entered input db')
          (clashes input cleaned.sessions || not (any (has_id input.user_id) db.users))
          (λ clash h. cc)
          (λ new h.
            let unset = ==_empty input.password_hash set in
            subst (Entered input) (ok-injective h) (
              rw (users-audited stored input.audit) (ground arith),
              rw (sessions-audited stored input.audit) (rw (==_refl input.token_hash) refl),
            )))
  where
    ==_empty : (a : String) → a ≢ "" → (a == "") ≡ false
    ==_empty a differs = elim (Bool-cases (a == "")) [
      | inl same ↦ absurd (differs ((string_eq.beq_iff a "").0 same))
      | inr other ↦ other
    ]

    ok-injective : {a b : Db} → ok a ≡ ok b → a ≡ b
    ok-injective h = cc
