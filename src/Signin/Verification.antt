-- ===== src/Signin/Verification.antt =====
-- internal/auth/service.go: Login signs in only the account whose password was verified.
use ludock.Common.{
  ℕ, Bool, List, [], ◌∷◌, String, true, false, not, Option, none, some, ◌||◌, ltb, ◌≡◌, ◌≢◌, refl,
  sym, ap, ◌∙◌, subst, string_eq, if_in, find, Result, ok, err, is_empty, inl, inr, Error,
  invalid_credentials, too_many_attempts,
}
use ludock.Database.{Db, User}
use ludock.Accounts.{SessionUser, create_session}
use ludock.Accounts.Attempts.{get_login_throttle}
use ludock.Signin.Authenticate.{
  Library, Client, Principal, Turn, State, Verified, check_password, authenticate, login_window,
  valid_password, too_many, valid_username,
}
use ludock.Signin.Login.{
  Keys, session_answer, session_error, sign_in, login_input, login_answer, login_work, login_named,
  login, cleared, login_keys, checked_keys,
}
use ludock.Signin.Checks.{Checked, check_password-Checked, Entered, create_session-Entered}

-- What a sign-in rests on: the account of the name, against whose hash the password was verified; and
-- that account is enabled and has the hash, or a stronger one of the same password, when the session
-- is stored.
pub record Proven (lib : Library) (turn : Turn) (users : List User) (username : String)
    (client : Client) (password : String) (p : Principal) (db : Db) : Type 0 where
  pub name : String
  pub account : User
  pub hash : String
  pub valid : valid_username lib username ≡ some name
  pub named : find (λ u. lib.same_name u.username name) users ≡ some account
  pub checked : Checked lib password account p.user hash
  pub entered : Entered (login_input lib turn client p.user hash) db
  pub token : p.token_hash ≡ lib.hash_token turn.token

refused :
    {A : Type 0} (e : Error) (s s' : State) (p : Principal)
    → ◌≡◌ {A = Result Principal × State} (err e, s) (ok p, s')
    → A
refused e s s' p h = absurd (cc (ap (λ (x : Result Principal × State). x.0) h))

session_answer-ok :
    (p q : Principal) (s s' : State) (r : Result Db)
    → session_answer p s r ≡ (ok q, s')
    → (db : Db) × (r ≡ ok db) × (p ≡ q) × (s'.db ≡ db)
session_answer-ok p q s s' (err e) h = refused (session_error e) s s' q h
session_answer-ok p q s s' (ok db) h = (
  db,
  refl,
  cc (ap (λ (x : Result Principal × State). x.0) h),
  ap (λ (x : Result Principal × State). x.1.db) (sym h),
)

module _ (lib : Library) (turn : Turn) (keys : Keys) (client : Client) (password : String)
    (p : Principal) (s' : State) (blank : lib.verify password "" ≡ false)
    (made : lib.hash_password password ≢ ok "") where
  hash_filled :
      (r : User) (user : SessionUser) (hash : String) → Checked lib password r user hash → hash ≢ ""
  hash_filled r user hash checked empty = elim checked.stored [
    | inl same ↦
        let unset : r.password_hash ≡ "" = sym same ∙ empty in
        let wrong = subst (λ x. lib.verify password x ≡ true) unset checked.verified in
        cc (wrong, blank)
    | inr (weak, new) ↦ made (new ∙ ap ok empty)
  ]

  sign_in-Proven :
      (s : State) (users : List User) (username name : String) (r : User) (user : SessionUser)
      (hash : String)
      → valid_username lib username ≡ some name
      → find (λ u. lib.same_name u.username name) users ≡ some r
      → Checked lib password r user hash
      → sign_in lib turn keys client s user hash ≡ (ok p, s')
      → Proven lib turn users username client password p s'.db
  unfolding sign_in
  sign_in-Proven s users username name r user hash valid named checked h =
      let input = login_input lib turn client user hash in
      let found = turn.after (cleared keys s.db) in
      let (db, stored, same, e) = session_answer-ok _ p _ s' (create_session found input) h in
      let entered =
        create_session-Entered found db input (hash_filled r user hash checked) stored in
      subst (λ (q : Principal). Proven lib turn users username client password q s'.db) same
        (record {
          name = name;
          account = r;
          hash = hash;
          valid = valid;
          named = named;
          checked = checked;
          entered = rw e entered;
          token = refl;
        })

  module _ (users : List User) (username : String) where
    abbrev Fine : Result Principal × State → Type 0
    Fine x = x ≡ (ok p, s') → Proven lib turn users username client password p s'.db

    login_answer-Proven :
        (s : State) (name : String) (verified : Result Verified)
        → valid_username lib username ≡ some name
        → ((user : SessionUser) (hash : String)
            → verified ≡ ok (some (user, hash))
            → (r : User) × (find (λ u. lib.same_name u.username name) users ≡ some r)
              × Checked lib password r user hash)
        → Fine (login_answer lib turn keys client s verified)
    login_answer-Proven s name (err e) valid checked h = refused e s s' p h
    login_answer-Proven s name (ok none) valid checked h = refused invalid_credentials _ s' p h
    login_answer-Proven s name (ok (some (user, hash))) valid checked h =
        let (r, named, right) = checked user hash refl in
        sign_in-Proven s users username name r user hash valid named right h

    login_work-Proven :
        (s : State) (name : String)
        → s.db.users ≡ users
        → valid_username lib username ≡ some name
        → Fine (login_work lib turn keys client s name password)
    unfolding authenticate
    login_work-Proven s name same valid =
        let found = find (λ u. lib.same_name u.username name) s.db.users in
        let (verified, db) = check_password lib turn s.db password found in
        login_answer-Proven (record s { db = db }) name verified valid
          (λ user hash e.
            let (r, there, right) =
              check_password-Checked lib turn s.db password found user hash e in
            (
              r,
              subst (λ us. find (λ u. lib.same_name u.username name) us ≡ some r) same there,
              right,
            ))

    login_named-Proven :
        (s : State) (o : Option String)
        → s.db.users ≡ users
        → valid_username lib username ≡ o
        → Fine (login_named lib turn keys client s password o)
    unfolding get_login_throttle
    login_named-Proven s none same valid = refused invalid_credentials s s' p
    login_named-Proven s (some name) same valid =
        let (cooldown, read) = get_login_throttle s.db keys.account_key turn.now login_window in
        let s_read = record s { db = read } in
        if_in Fine (not (valid_password password) || is_empty s.db.users)
          (λ wrong. refused invalid_credentials s s' p)
          (λ accepted.
            if_in Fine (ltb turn.now cooldown.blocked_until || not turn.admitted)
              {x = (err too_many_attempts, s_read)}
              {y = login_work lib turn keys client s_read name password}
              (λ busy. refused too_many_attempts s_read s' p)
              (λ admitted. login_work-Proven s_read name same valid))

too_many-users :
    (db : Db) (now : ℕ) (keys : List String) → (too_many db now keys).1.users ≡ db.users
unfolding too_many get_login_throttle
too_many-users db now [] = refl
too_many-users db now (key ∷ keys) =
    let (throttle, read) = get_login_throttle db key now login_window in
    if_in (λ (x : Bool × Db). x.1.users ≡ db.users) (ltb now throttle.blocked_until)
      (λ blocked. refl) (λ clear. too_many-users read now keys)

-- A sign-in succeeds only for the account that had the name when Login began, was enabled, and had a
-- hash against which the password was verified. The principal is that account; when its session is
-- stored it is enabled and has that hash, or, where that was too weak, one made of the same password,
-- whatever others write during the password work and before the session. No password matches the empty
-- hash, and none is made.
pub login-Proven :
    (lib : Library) (turn : Turn) (s s' : State) (username password : String) (client : Client)
    (p : Principal)
    → lib.verify password "" ≡ false
    → lib.hash_password password ≢ ok ""
    → login lib turn s username password client ≡ (ok p, s')
    → Proven lib turn s.db.users username client password p s'.db
unfolding login
login-Proven lib turn s s' username password client p blank made =
    let keys = login_keys lib username client in
    let (blocked, read) = too_many s.db turn.now (checked_keys keys) in
    let s_read = record s { db = read } in
    if_in (Fine lib turn keys client password p s' blank made s.db.users username) blocked
      {x = (err too_many_attempts, s_read)}
      {y = login_named lib turn keys client s_read password (valid_username lib username)}
      (λ busy. refused too_many_attempts s_read s' p)
      (λ clear.
        login_named-Proven lib turn keys client password p s' blank made s.db.users username s_read
          (valid_username lib username) (too_many-users s.db turn.now (checked_keys keys)) refl)
