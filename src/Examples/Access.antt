-- ===== src/Examples/Access.antt =====
-- The theorems on authority (internal/authz/authz.go) at concrete inputs.
use ludock.Common.{◌≡◌, refl, String, false, some, List, [], ◌∷◌, Result, find, string_eq, ==_false}
use ludock.Database.{admin, operator, User, Session, Server, active, Db, transact}
use ludock.Accounts.{SessionUser, session_valid, admin_mutation, find_user_by_id}
use ludock.Authz.{
  Capability, server_view, files_read, role_capabilities, role_ceiling, usable, access,
  assert_capability, assigned, current_actor, parse_capabilities, assert_administrator, in_order,
}
use ludock.Authz.Access.{Holds, assert_capability-Holds, assert_capability-nondisclosure}
use ludock.Grants.{
  GrantInput, set_user_grants, mentions, validate_grants, validate_grant, has_duplicates,
}
use ludock.Grants.Replacement.{requested, assigned-set_user_grants}
use ludock.Observation.{valid_id}

abbrev pub s1 : String
s1 = "00000000-0000-4000-8000-000000000001"

abbrev s2 : String
s2 = "00000000-0000-4000-8000-000000000002"

abbrev pub server : Server
server = record {
  id = s1;
  host_id = "local";
  external_identity = [];
  container_id = [];
  display_name = "srv";
  game_type = "generic";
  status = active;
  binding_revision = 1;
  binding_fingerprint = "f0";
  pending_fingerprint = "";
  pending_game_type = "";
  review_required = false;
  first_seen_at = 1;
  last_seen_at = 2;
}

abbrev pub ann : User
ann = record {
  id = "ann";
  username = "ann";
  password_hash = "h1";
  role = admin;
  disabled = false;
  created_at = 1;
}

abbrev pub bob : User
bob = record ann { id = "bob"; username = "bob"; role = operator }

abbrev pub principal : User → SessionUser
principal u = record { id = u.id; username = u.username; role = u.role }

abbrev pub session : Session
session = record {
  token_hash = "t1";
  session_id = "s1";
  user_id = "ann";
  created_at = 10;
  expires_at = 100;
  last_seen_at = 10;
  ip_address = "";
  user_agent = "";
}

abbrev pub db : Db
db = record {
  users = ann ∷ bob ∷ [];
  sessions = session ∷ [];
  login_attempts = [];
  audit_log = [];
  server_grants =
      (record {
        user_id = "bob";
        server_id = s1;
        capabilities = some (some "server.view" ∷ some "files.read" ∷ []);
        updated_at = 1;
      })
      ∷ [];
  logical_servers = server ∷ record server { id = "00000000-0000-4000-8000-000000000003" } ∷ [];
  server_bindings = [];
}

abbrev view_files : List Capability
view_files = "server.view" ∷ "files.read" ∷ []

assert_capability-Holds_example :
    Holds db (principal bob) s1 server_view
    × Holds db (principal bob) s1 files_read
    × ((assert_capability db (some (principal bob)) s1 files_read).1 ≡ db)
unfolding assert_capability access assigned role_capabilities usable parse_capabilities role_ceiling
    valid_id
assert_capability-Holds_example =
    assert_capability-Holds db (principal bob) s1 files_read server refl

assert_capability-nondisclosure_example :
    assert_capability db (some (principal bob)) "00000000-0000-4000-8000-000000000003" files_read
    ≡ assert_capability db (some (principal bob)) s2 files_read
unfolding access assigned role_capabilities usable parse_capabilities role_ceiling valid_id
assert_capability-nondisclosure_example =
    assert_capability-nondisclosure db (principal bob) "00000000-0000-4000-8000-000000000003" s2
      files_read [] (some (record server { id = "00000000-0000-4000-8000-000000000003" })) refl refl
      refl refl

abbrev inputs : List GrantInput
inputs =
    (record { server_id = s1; capabilities = "files.write" ∷ "files.read" ∷ "server.view" ∷ [] })
    ∷ []

abbrev replaced : Result Db
replaced = set_user_grants db "bob" inputs (some (principal ann)) "t1" 20

assigned-set_user_grants_example :
    (assigned (transact db replaced) "bob" s1 ≡ requested (find (mentions s1) inputs))
    × (assigned (transact db replaced) "ann" s1 ≡ assigned db "ann" s1)
unfolding set_user_grants assert_administrator current_actor find_user_by_id admin_mutation
    session_valid validate_grants validate_grant role_ceiling has_duplicates in_order
assigned-set_user_grants_example =
    assigned-set_user_grants db (transact db replaced) "bob" "ann" s1 inputs (some (principal ann))
      "t1" 20 refl (==_false "ann" "bob" refl)
