-- ===== src/Schedules/Authority.antt =====
-- internal/schedules/schedules.go: the rows, and authority.
-- The slot of a row is the record that the stored text prints.

use ludock.Common.{
  ℕ, String, Bool, true, false, not, Option, none, some, List, [], ◌∷◌, ◌&&◌, ◌||◌, ◌==◌, string_eq,
  bytes_eq, nat_beq, if◌then◌else◌, contains, find, Result, ok, err, Error, driver,
}
use ludock.Database.{Role, operator, is_admin, User, Server, BindingRow, Db}
use ludock.Accounts.{SessionUser, find_user_by_id}
use ludock.Identity.{get, resolve_binding}
use ludock.Authz.{Capability, has, is_grant_of, stored_capabilities}
use ludock.Schedtime.Clock.{Slot}
use ludock.Schedules.Settings.{Settings, capabilities}

-- A row of `schedules`; `input` is the text of the settings.
pub record Row : Type 0 where
  pub id : String
  pub server_id : String
  pub owner_id : String
  pub input : String
  pub binding_revision : ℕ
  pub revision : ℕ
  pub last_slot : Option Slot
  pub last_result : Option String
  pub last_operation_id : Option String
  pub last_run_at : Option ℕ
  pub created_at : ℕ

pub data Reason : Type 0 where
  owner_missing owner_disabled owner_access_removed action_access_removed : Reason
  changed_binding unavailable_binding : Reason

-- The UnavailableError of a reason, or any other error.
pub data Failure : Type 0 where
  unavailable : Reason → Failure
  missed : (nonexistent : Bool) → Failure
  schedule_changed access_changed : Failure
  other : Error → Failure

pub data Checked {ℓ} (A : Type ℓ) : Type ℓ where
  failed : Failure → Checked A
  passed : A → Checked A

infixl 5 ◌>>=◌
abbrev pub ◌>>=◌ {ℓ κ} : {A : Type ℓ} {B : Type κ} → Checked A → (A → Checked B) → Checked B
failed f >>= next = failed f
passed a >>= next = next a

abbrev pub require : Bool → Failure → Checked (Unit {0})
require true f = passed tt
require false f = failed f

-- An error of a call, returned as it is.
abbrev pub call {ℓ} : {A : Type ℓ} → Result A → Checked A
call (err e) = failed (other e)
call (ok a) = passed a

abbrev pub schedules_manage : Capability
schedules_manage = "schedules.manage"

abbrev is_operator : Role → Bool
is_operator operator = true
is_operator role = false

abbrev contains_all : List Capability → List Capability → Bool
contains_all have [] = true
contains_all have (c ∷ cs) = contains have c && contains_all have cs

-- Authz.UserGrant of a user that is no administrator.
abbrev granted : Role → List Capability → Settings → Checked (Unit {0})
granted role have settings =
    if not (is_operator role)
      || not (contains have "server.view")
      || not (contains have schedules_manage)
    then failed (unavailable owner_access_removed)
    else require (contains_all have (capabilities settings)) (unavailable action_access_removed)

unfoldable pub check_grant : Db → User → String → Settings → Checked (Unit {0})
check_grant db user server_id settings =
    if is_admin user.role
    then passed tt
    else granted user.role
        (stored_capabilities (find (is_grant_of user.id server_id) db.server_grants)) settings

abbrev pub owner_of : Option User → Checked User
owner_of none = failed (unavailable owner_missing)
owner_of (some user) = if user.disabled then failed (unavailable owner_disabled) else passed user

abbrev is_accepted : String → ℕ → BindingRow → Bool
is_accepted server_id revision b =
    b.server_id == server_id && nat_beq b.binding_revision revision && b.accepted

abbrev original_fingerprint : Option BindingRow → String
original_fingerprint none = ""
original_fingerprint (some b) = b.binding_fingerprint

abbrev same_binding : String → Option Server → Checked (Unit {0})
same_binding original none = failed (unavailable unavailable_binding)
same_binding original (some s) =
    require (not (original == "") && original == s.binding_fingerprint)
      (unavailable changed_binding)

unfoldable pub check_binding : Db → (server_id : String) → (revision : ℕ) → Checked (Unit {0})
check_binding db server_id revision =
    call (get db server_id)
    >>= same_binding
        (original_fingerprint (find (is_accepted server_id revision) db.server_bindings))

-- A public error of ResolveBinding is the reason, any other is returned.
abbrev pub resolved : Result Server → Checked Server
resolved (ok s) = passed s
resolved (err driver) = failed (other driver)
resolved (err e) = failed (unavailable unavailable_binding)

abbrev reason_for : Capability → Reason
reason_for c = if c == schedules_manage then owner_access_removed else action_access_removed

-- The final gate: Authz.Has for each capability.
unfoldable pub has_each : Db → SessionUser → String → List Capability → Checked (Unit {0})
has_each db actor server_id [] = passed tt
has_each db actor server_id (c ∷ cs) =
    let rest = has_each db actor server_id cs in
    call (has db (some actor) server_id c) >>= λ yes_no.
    require yes_no (unavailable (reason_for c)) >>= λ done. rest

abbrev pub actor_of : User → SessionUser
actor_of user = record { id = user.id; username = user.username; role = user.role }

-- authority: the owner as an actor, and the server.
unfoldable pub authority :
    Db → (server_id owner_id : String) → (revision : ℕ) → Settings → Checked (SessionUser × Server)
authority db server_id owner_id revision settings =
    owner_of (find_user_by_id db owner_id) >>= λ user.
    check_grant db user server_id settings >>= λ allowed.
    check_binding db server_id revision >>= λ same.
    resolved (resolve_binding db server_id none) >>= λ binding.
    has_each db (actor_of user) server_id (schedules_manage ∷ capabilities settings) >>= λ held.
    passed (actor_of user, binding)
