-- ===== src/Schedules/Owners.antt =====
-- internal/schedules: a run queues only what its owner may do.
use ludock.Common.{
  ℕ, String, Bool, true, false, Option, none, some, List, [], ◌∷◌, ◌≡◌, refl, sym, ap, ◌∙◌, subst,
  arith, string_eq, contains, All, Bool-cases, inl, inr, Result, ok, err, find, >>=-eq-ok,
  find-holds,
}
use ludock.Database.{Db, Server, User}
use ludock.Accounts.{has_id, SessionUser, find_user_by_id}
use ludock.Identity.{resolve_binding}
use ludock.Authz.{Capability, has, effective, access}
use ludock.Authz.Access.{Holds, access-Holds}
use ludock.Schedules.Settings.{Settings, capabilities}
use ludock.Schedules.Authority.{
  Failure, Checked, failed, passed, ◌>>=◌, require, call, schedules_manage, has_each, authority,
  owner_of, resolved, actor_of, check_grant, check_binding,
}

pub >>=-passed {ℓ κ} :
    {A : Type ℓ} {B : Type κ} (m : Checked A) (next : A → Checked B) {b : B}
    → (m >>= next) ≡ passed b
    → (a : A) × (m ≡ passed a) × (next a ≡ passed b)
>>=-passed (failed f) next h = cc
>>=-passed (passed a) next h = (a, refl, h)

pub has-Holds :
    (db : Db) (actor : SessionUser) (server_id : String) (c : Capability)
    → has db (some actor) server_id c ≡ ok true
    → Holds db actor server_id c
unfolding has effective
has-Holds db actor server_id c h =
    let (cs, given, held) =
      >>=-eq-ok (effective db (some actor) server_id) (λ cs. ok (contains cs c)) h in
    let ((all, s), read, same) =
      >>=-eq-ok (access db (some actor) server_id) (λ (r : List Capability × Option Server). ok r.0)
        given in
    access-Holds db actor server_id all s c read (ground arith)

pub call-passed : {A : Type 0} (r : Result A) {a : A} → call r ≡ passed a → r ≡ ok a
call-passed (err e) h = cc
call-passed (ok a) h = cc

pub require-passed : (b : Bool) (f : Failure) → require b f ≡ passed tt → b ≡ true
require-passed true f h = refl
require-passed false f h = cc

has_each-Holds :
    (db : Db) (actor : SessionUser) (server_id : String) (cs : List Capability)
    → has_each db actor server_id cs ≡ passed tt
    → All (Holds db actor server_id) cs
unfolding has_each
has_each-Holds db actor server_id [] h = tt
has_each-Holds db actor server_id (c ∷ cs) h =
    let (yes_no, asked, rest) = >>=-passed (call (has db (some actor) server_id c)) _ h in
    let (done, needed, more) = >>=-passed (require yes_no _) _ rest in
    let held = require-passed yes_no _ needed in
    (
      has-Holds db actor server_id c (call-passed _ asked ∙ ap ok held),
      has_each-Holds db actor server_id cs more,
    )

owner_of-found : (o : Option User) (u : User) → owner_of o ≡ passed u → o ≡ some u
owner_of-found none u h = cc
owner_of-found (some x) u h = elim (Bool-cases x.disabled) [
  | inl off ↦ ground (arith, off, h)
  | inr on ↦ ground (arith, on, h)
]

-- What the check of an owner's authority gives.
pub authority-Holds :
    (db : Db) (server_id owner_id : String) (revision : ℕ) (s : Settings) (actor : SessionUser)
    (binding : Server)
    → authority db server_id owner_id revision s ≡ passed (actor, binding)
    → All (Holds db actor server_id) (schedules_manage ∷ capabilities s) × (actor.id ≡ owner_id)
unfolding authority find_user_by_id
authority-Holds db server_id owner_id revision s actor binding h =
    let (user, known, h1) = >>=-passed (owner_of (find_user_by_id db owner_id)) _ h in
    let (allowed, grant, h2) = >>=-passed (check_grant db user server_id s) _ h1 in
    let (same, bound, h3) = >>=-passed (check_binding db server_id revision) _ h2 in
    let (found, resolves, h4) = >>=-passed (resolved (resolve_binding db server_id none)) _ h3 in
    let (held, each, h5) =
      >>=-passed (has_each db (actor_of user) server_id (schedules_manage ∷ capabilities s)) _ h4 in
    let owner : actor_of user ≡ actor = cc in
    let found_there = owner_of-found (find (has_id owner_id) db.users) user known in
    (
      subst (λ a. All (Holds db a server_id) (schedules_manage ∷ capabilities s)) owner
          (has_each-Holds db (actor_of user) server_id (schedules_manage ∷ capabilities s) each),
      ap (λ (a : SessionUser). a.id) (sym owner)
          ∙ (string_eq.beq_iff user.id owner_id).0
              (find-holds (has_id owner_id) db.users user found_there),
    )
