-- ===== src/Schedules/State.antt =====
-- internal/schedules/schedules.go: authorityState and assertUnchanged. The text of a grant's
-- capabilities is compared as what it decodes to.
use ludock.Common.{
  ℕ, String, Bool, true, false, not, Option, none, some, List, [], ◌∷◌, ◌&&◌, ◌==◌, string_eq,
  bytes_eq, nat_beq, find, Bytes, Eq, option_eq, list_eq, ◌≡◌, ◌↔◌, arith,
}
use ludock.Database.{
  Role, admin, operator, viewer, User, Server, Status, active, missing, ambiguous, review_required,
  GrantRow, StoredCapabilities, Db,
}
use ludock.Accounts.{find_user_by_id}
use ludock.Identity.{has_server_id}
use ludock.Authz.{is_grant_of}
use ludock.Schedules.Authority.{Checked, require, access_changed}

-- authorityState: the rows that the checks depend on.
pub record UserState : Type 0 where
  pub role : Role
  pub disabled : Bool
  pub grant : Option StoredCapabilities

pub record ServerState : Type 0 where
  pub status : Status
  pub review : Bool
  pub revision : ℕ
  pub fingerprint : String
  pub container : Bytes

abbrev pub grant_text : Option GrantRow → Option StoredCapabilities
grant_text none = none
grant_text (some g) = some g.capabilities

abbrev pub user_state : Db → String → Option User → Option UserState
user_state db server_id none = none
user_state db server_id (some u) = some (record {
  role = u.role;
  disabled = u.disabled;
  grant = grant_text (find (is_grant_of u.id server_id) db.server_grants);
})

abbrev pub server_state : Option Server → Option ServerState
server_state none = none
server_state (some s) = some (record {
  status = s.status;
  review = s.review_required;
  revision = s.binding_revision;
  fingerprint = s.binding_fingerprint;
  container = s.container_id;
})

unfoldable pub user_states : Db → String → List String → List (Option UserState)
user_states db server_id [] = []
user_states db server_id (id ∷ ids) =
    user_state db server_id (find_user_by_id db id) ∷ user_states db server_id ids

abbrev pub AuthorityState : Type 0
AuthorityState = List (Option UserState) × Option ServerState

unfoldable pub authority_state :
    Db → (server_id : String) → (user_ids : List String) → AuthorityState
unfolding user_states
authority_state db server_id user_ids = (
  user_states db server_id user_ids,
  server_state (find (has_server_id server_id) db.logical_servers),
)

abbrev role_beq : Role → Role → Bool
role_beq admin admin = true
role_beq operator operator = true
role_beq viewer viewer = true
role_beq a b = false

abbrev bool_beq : Bool → Bool → Bool
bool_beq true b = b
bool_beq false b = not b

abbrev status_beq : Status → Status → Bool
status_beq active active = true
status_beq missing missing = true
status_beq ambiguous ambiguous = true
status_beq review_required review_required = true
status_beq a b = false

abbrev pub grant_eq : Eq (Option StoredCapabilities)
grant_eq = option_eq (option_eq (list_eq (option_eq string_eq)))

abbrev pub user_beq : UserState → UserState → Bool
user_beq a b =
    role_beq a.role b.role && bool_beq a.disabled b.disabled && grant_eq.beq a.grant b.grant

abbrev pub server_beq : ServerState → ServerState → Bool
server_beq a b =
    status_beq a.status b.status
    && bool_beq a.review b.review
    && nat_beq a.revision b.revision
    && a.fingerprint == b.fingerprint
    && a.container == b.container

role_beq_iff : (a b : Role) → (role_beq a b ≡ true) ↔ (a ≡ b)
role_beq_iff a b = ground arith

status_beq_iff : (a b : Status) → (status_beq a b ≡ true) ↔ (a ≡ b)
status_beq_iff a b = ground arith

pub user_beq_iff : (a b : UserState) → (user_beq a b ≡ true) ↔ (a ≡ b)
user_beq_iff a b = ground (arith, role_beq_iff a.role b.role, grant_eq.beq_iff a.grant b.grant)

pub server_beq_iff : (a b : ServerState) → (server_beq a b ≡ true) ↔ (a ≡ b)
server_beq_iff a b = ground (
  arith,
  status_beq_iff a.status b.status,
  bytes_eq.beq_iff a.container b.container,
  string_eq.beq_iff a.fingerprint b.fingerprint,
)

abbrev pub user_state_eq : Eq UserState
user_state_eq = record { beq = user_beq; beq_iff = user_beq_iff }

abbrev server_state_eq : Eq ServerState
server_state_eq = record { beq = server_beq; beq_iff = server_beq_iff }

-- The comparison of the encoded states.
unfoldable pub same_state : AuthorityState → AuthorityState → Bool
same_state (users, server) (users', server') =
    (list_eq (option_eq user_state_eq)).beq users users'
    && (option_eq server_state_eq).beq server server'

-- assertUnchanged
abbrev pub assert_unchanged :
    AuthorityState → Db → (server_id : String) → (user_ids : List String) → Checked (Unit {0})
assert_unchanged before db server_id user_ids =
    require (same_state before (authority_state db server_id user_ids)) access_changed

pub same_state-eq : (a b : AuthorityState) → same_state a b ≡ true → a ≡ b
unfolding same_state
same_state-eq (users, server) (users', server') h = ground (
  arith,
  (list_eq (option_eq user_state_eq)).beq_iff users users',
  (option_eq server_state_eq).beq_iff server server',
)
