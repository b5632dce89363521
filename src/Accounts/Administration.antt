-- ===== src/Accounts/Administration.antt =====
-- internal/db/accounts.go: the guard of administrative transactions, and the last administrator.
use ludock.Common.{
  Option-cases, leb, ℕ, ◌+◌, ◌≤◌, ◌<◌, String, ◌≡◌, refl, Bool, true, false, not, some, List, [],
  ◌∷◌, arith, string_eq, any, find, Result, ok, inl, inr, ◌&&◌, ◌||◌, if◌then◌else◌,
}
use ludock.Database.{Role, is_admin, User, Db, update_where, count_where}
use ludock.Accounts.{
  has_id, session_valid, find_user_by_id, admin_mutation, enabled_admin, removes_last_admin,
  update_user_access,
}

-- AdminMutation commits what its body returns only for a live session of an account that is an
-- administrator when the transaction runs.
pub admin_mutation-ok :
    (db db' : Db) (id token : String) (now : ℕ) (body : Db → Result Db)
    → admin_mutation db id token now body ≡ ok db'
    → (u : User) × (session_valid db id token now ≡ true)
      × (find_user_by_id db id ≡ some u)
      × (is_admin u.role ≡ true)
      × (body db ≡ ok db')
unfolding admin_mutation
admin_mutation-ok db db' id token now body h = elim (Option-cases (find_user_by_id db id)) [
  | inl gone ↦ absurd (ground arith)
  | inr (u, found) ↦ (u, ground arith, found, ground arith, ground arith)
]

module _ (target : String) (role : Role) (disabled : Bool) where
  updated : List User → List User
  updated = update_where (has_id target) (λ u. record u { role = role; disabled = disabled })

  -- One row at most is changed, so one administrator at most is lost.
  count-updated :
      (users : List User)
      → count_where enabled_admin users
        ≤ count_where enabled_admin (updated users) + count_where (has_id target) users
  unfolding updated
  count-updated [] = omega arith
  count-updated (u ∷ users) = ground (arith, count-updated users)

  untouched : (users : List User) → count_where (has_id target) users ≤ 0 → updated users ≡ users
  unfolding updated
  untouched [] h = refl
  untouched (u ∷ users) h = ground (arith, untouched users)

  any-count :
      (users : List User) → 0 < count_where enabled_admin users → any enabled_admin users ≡ true
  any-count [] h = absurd (omega arith)
  any-count (u ∷ users) h = ground (arith, any-count users)

  none-count :
      (users : List User) → count_where enabled_admin users ≤ 0 → any enabled_admin users ≡ false
  none-count [] h = refl
  none-count (u ∷ users) h = ground (arith, none-count users)

  count-any :
      (users : List User) → any enabled_admin users ≡ true → 0 < count_where enabled_admin users
  count-any [] h = absurd (ground arith)
  count-any (u ∷ users) h = ground (arith, count-any users)

  found_counts :
      (users : List User) (u : User)
      → find (has_id target) users ≡ some u
      → enabled_admin u ≡ true
      → 0 < count_where enabled_admin users
  found_counts [] u f e = absurd (ground arith)
  found_counts (x ∷ users) u f e = ground (arith, found_counts users u)

  promoted :
      (users : List User) (u : User)
      → find (has_id target) users ≡ some u
      → enabled_admin (record u { role = role; disabled = disabled }) ≡ true
      → any enabled_admin (updated users) ≡ true
  unfolding updated
  promoted [] u f p = absurd (ground arith)
  promoted (x ∷ users) u f p = ground (arith, promoted users u)

  bystander :
      (users : List User) (u : User)
      → count_where (has_id target) users ≤ 1
      → find (has_id target) users ≡ some u
      → enabled_admin u ≡ false
      → any enabled_admin users ≡ true
      → any enabled_admin (updated users) ≡ true
  unfolding updated
  bystander [] u c f n a = absurd (ground arith)
  bystander (x ∷ users) u c f n a = ground (arith, bystander users u, untouched users)

  last_one :
      (users : List User) (u : User)
      → count_where (has_id target) users ≤ 1
      → find (has_id target) users ≡ some u
      → enabled_admin u ≡ true
      → enabled_admin (record u { role = role; disabled = disabled }) ≡ false
      → count_where enabled_admin users ≤ 1
      → any enabled_admin (updated users) ≡ false
  unfolding updated
  last_one [] u c f e n k = refl
  last_one (x ∷ users) u c f e n k =
      ground (arith, last_one users u, untouched users, none-count users, found_counts users u)

users-update_user_access :
    (db : Db) (target : String) (role : Role) (disabled : Bool)
    → (update_user_access db target role disabled).users ≡ updated target role disabled db.users
unfolding update_user_access updated
users-update_user_access db target role disabled = ground arith

decided :
    (target : String) (role : Role) (disabled : Bool) (users : List User) (u : User)
    (removes : Bool)
    → count_where (has_id target) users ≤ 1
    → find (has_id target) users ≡ some u
    → any enabled_admin users ≡ true
    → (if not (is_admin u.role) || u.disabled || (is_admin role && not disabled)
        then false
        else leb (count_where enabled_admin users) 1)
      ≡ removes
    → any enabled_admin (updated target role disabled users) ≡ not removes
decided target role disabled users u removes c f a h = ground (
  arith,
  promoted target role disabled users u,
  bystander target role disabled users u,
  last_one target role disabled users u,
  count-updated target role disabled users,
  any-count target role disabled (updated target role disabled users),
)

-- RemovesLastAdmin decides it: with ids unique and an enabled administrator present, it answers
-- `true` exactly when UpdateUserAccess with the same arguments would leave none.
pub removes_last_admin_lem :
    (db : Db) (target : String) (role : Role) (disabled removes : Bool)
    → count_where (has_id target) db.users ≤ 1
    → any enabled_admin db.users ≡ true
    → removes_last_admin db target role disabled ≡ ok removes
    → any enabled_admin (update_user_access db target role disabled).users ≡ not removes
unfolding removes_last_admin
removes_last_admin_lem db target role disabled removes unique some_admin h =
    elim (Option-cases (find_user_by_id db target)) [
      | inl gone ↦ absurd (ground arith)
      | inr (u, found) ↦
          rw (users-update_user_access db target role disabled)
            (decided target role disabled db.users u removes unique found some_admin (ground arith))
    ]
