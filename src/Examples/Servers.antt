-- ===== src/Examples/Servers.antt =====
-- The theorems on stored servers (internal/identity/identity.go) at concrete inputs.
use ludock.Common.{
  ◌≡◌, refl, String, true, false, none, some, [], ◌∷◌, Bytes, codes, ok, err, Result, arith,
  if◌then◌else◌, is_empty, binding_changed, ==_false, string_eq,
}
use ludock.Database.{admin, User, Session, Server, active, review_required, Db, transact}
use ludock.Observation.{
  Observation, Material, external_identity, binding_material, valid_id, valid_container_id,
  valid_identity_part, escape,
}
use ludock.Accounts.{session_valid, admin_mutation, find_user_by_id}
use ludock.Identity.{
  fingerprint, resolve_binding, assert_observed_binding, review_binding, accept_pending, get,
  list_servers, revision_differs,
}
use ludock.Reconcile.{apply, group_observations}
use ludock.Reconcile.Keeps.{apply-Kept}
use ludock.Reconcile.Changes.{Kept}
use ludock.Reconcile.Review.{Bound, assert_observed_binding-Bound, review-assert_observed_binding}

abbrev digest : Material → String
digest m = if is_empty m.mounts then "f0" else "f1"

abbrev id : String
id = "00000000-0000-4000-8000-000000000001"

abbrev plain : Observation
plain = record {
  container_id = codes "c1";
  name = codes "/srv";
  display_name = "srv";
  game_type = "generic";
  compose = none;
  mounts = [];
  game_configuration = [];
}

abbrev mounted : Observation
mounted = record plain {
  container_id = codes "c2";
  mounts =
      (record {
        kind = codes "bind";
        source = codes "/data";
        destination = codes "/data";
        writable = true;
        name = [];
      })
      ∷ [];
}

abbrev neighbour : Observation
neighbour = record plain { container_id = codes "c3"; name = codes "/web"; display_name = "web" }

abbrev server : Server
server = record {
  id = id;
  host_id = "local";
  external_identity = codes "standalone:srv";
  container_id = codes "c1";
  display_name = "srv";
  game_type = "generic";
  status = active;
  binding_revision = 3;
  binding_fingerprint = "f0";
  pending_fingerprint = "";
  pending_game_type = "";
  review_required = false;
  first_seen_at = 1;
  last_seen_at = 2;
}

abbrev boss : User
boss = record {
  id = "ann";
  username = "ann";
  password_hash = "h1";
  role = admin;
  disabled = false;
  created_at = 1;
}

abbrev session : Session
session = record {
  token_hash = "t1";
  session_id = "s1";
  user_id = "ann";
  created_at = 10;
  expires_at = 100;
  last_seen_at = 10;
  ip_address = "";
  user_agent = "";
}

abbrev db : Db
db = record {
  users = boss ∷ [];
  sessions = session ∷ [];
  login_attempts = [];
  audit_log = [];
  server_grants = [];
  logical_servers = server ∷ [];
  server_bindings = [];
}

abbrev new_id : Bytes → String
new_id key = "00000000-0000-4000-8000-000000000002"

abbrev substituted : Result Db
substituted = apply digest new_id 50 db (neighbour ∷ mounted ∷ []) "local" 50

abbrev pending : Server
pending = record server {
  status = review_required;
  container_id = codes "c2";
  pending_fingerprint = "f1";
  pending_game_type = "generic";
  review_required = true;
}

abbrev waiting : Db
waiting = record db { logical_servers = pending ∷ [] }

assert_observed_binding-Bound_example :
    Bound digest db id plain server × (revision_differs (some 3) server ≡ false)
unfolding assert_observed_binding resolve_binding get external_identity fingerprint valid_id
    valid_container_id valid_identity_part escape binding_material
assert_observed_binding-Bound_example =
    assert_observed_binding-Bound digest db id plain (some 3) server refl

apply-Kept_example : Kept server (transact db substituted)
unfolding apply group_observations external_identity valid_identity_part list_servers valid_id
    valid_container_id
apply-Kept_example =
    apply-Kept digest new_id 50 db (transact db substituted) (neighbour ∷ mounted ∷ []) "local" 50
      server (λ key. ==_false "00000000-0000-4000-8000-000000000002" id refl) (omega arith) refl
      refl

abbrev reviewed : Result Db
reviewed = review_binding waiting "ann" "t1" id "f1" (some 3) 50

review-assert_observed_binding_example :
    (session_valid waiting "ann" "t1" 50 ≡ true)
    × (assert_observed_binding digest (transact waiting reviewed) id mounted (some 4)
        ≡ ok (accept_pending pending))
    × (assert_observed_binding digest (transact waiting reviewed) id mounted (some 3)
        ≡ err binding_changed)
unfolding review_binding get admin_mutation session_valid find_user_by_id external_identity
    valid_identity_part escape valid_id valid_container_id fingerprint binding_material
review-assert_observed_binding_example =
    review-assert_observed_binding digest waiting (transact waiting reviewed) "ann" "t1" mounted
      (some 3) 50 pending refl refl refl refl refl
