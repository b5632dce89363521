-- ===== src/Identity.antt =====
-- internal/identity/identity.go: the store of logical servers and their bindings to containers.
-- The digest of a binding's material and the ids of new rows are parameters.
use ludock.Common.{
  ℕ, ◌+◌, String, Bool, true, false, not, Option, none, some, List, ◌∷◌, ◌&&◌, ◌||◌, nat_beq, ◌==◌,
  string_eq, bytes_eq, if◌then◌else◌, all, find, select, Result, ok, err, ◌>>=◌, Bytes, codes,
  is_empty, server_not_found, binding_unavailable, binding_changed, review_changed,
  invalid_stored_identity,
}
use ludock.Database.{Server, Status, active, missing, ambiguous, review_required, Db, update_where}
use ludock.Accounts.{admin_mutation}
use ludock.Observation.{
  Observation, Material, external_identity, binding_material, valid_id, valid_container_id,
}

abbrev pub is_active : Status → Bool
is_active active = true
is_active _ = false

abbrev pub is_missing : Status → Bool
is_missing missing = true
is_missing _ = false

abbrev pub is_ambiguous : Status → Bool
is_ambiguous ambiguous = true
is_ambiguous _ = false

abbrev pub needs_review : Status → Bool
needs_review review_required = true
needs_review _ = false

-- scanServer rejects a row whose ids are damaged.
abbrev pub valid_row : Server → Bool
valid_row s =
    valid_id (codes s.id) && (is_empty s.container_id || valid_container_id s.container_id)

abbrev pub of_host : String → Server → Bool
of_host host s = s.host_id == host

abbrev pub has_server_id : String → Server → Bool
has_server_id id s = s.id == id

-- listServers for one host; the order by name plays no part below.
unfoldable pub list_servers : Db → String → Result (List Server)
list_servers db host =
    let rows = select (of_host host) db.logical_servers in
    if all valid_row rows then ok rows else err invalid_stored_identity

abbrev scanned : Option Server → Result (Option Server)
scanned none = ok none
scanned (some s) = if valid_row s then ok (some s) else err invalid_stored_identity

unfoldable pub get : Db → String → Result (Option Server)
get db id = scanned (find (has_server_id id) db.logical_servers)

-- `expectedRevision < 0`, which skips the check, is `none`.
abbrev pub revision_differs : Option ℕ → Server → Bool
revision_differs none s = false
revision_differs (some r) s = not (nat_beq s.binding_revision r)

abbrev usable_binding : Option ℕ → Option Server → Result Server
usable_binding expected none = err server_not_found
usable_binding expected (some s) =
    if not (is_active s.status) || s.review_required || is_empty s.container_id
    then err binding_unavailable
    else if revision_differs expected s
    then err binding_changed
    else ok s

unfoldable pub resolve_binding : Db → String → Option ℕ → Result Server
unfolding get
resolve_binding db id expected = get db id >>= usable_binding expected

module _ (digest : Material → String) where
  unfoldable pub fingerprint : Observation → String
  fingerprint o = digest (binding_material o)

  abbrev pub matches_observation : Server → Observation → Bytes → Bool
  matches_observation s o external =
      (s.container_id == o.container_id)
      && (s.external_identity == external)
      && (s.binding_fingerprint == fingerprint o)

  unfoldable pub assert_observed_binding : Db → String → Observation → Option ℕ → Result Server
  unfolding resolve_binding fingerprint
  assert_observed_binding db id o expected = do
    s ← resolve_binding db id expected
    external ← external_identity o
    if matches_observation s o external then ok s else err binding_changed

abbrev reviewable : String → Option ℕ → Server → Bool
reviewable expected_fingerprint expected s =
    needs_review s.status
    && not (is_empty s.container_id)
    && not (s.pending_fingerprint == "")
    && (s.pending_fingerprint == expected_fingerprint)
    && not (revision_differs expected s)

abbrev pub accept_pending : Server → Server
accept_pending s = record s {
  status = active;
  binding_revision = s.binding_revision + 1;
  binding_fingerprint = s.pending_fingerprint;
  game_type = s.pending_game_type;
  pending_fingerprint = "";
  pending_game_type = "";
  review_required = false;
}

abbrev accept : ℕ → Db → String → String → Option ℕ → Option Server → Result Db
accept now db id fingerprint expected none = err server_not_found
accept now db id fingerprint expected (some s) =
    if reviewable fingerprint expected s
    then ok (record db {
      logical_servers = update_where (has_server_id id) accept_pending db.logical_servers;
      server_bindings =
          (record {
            server_id = id;
            binding_revision = s.binding_revision + 1;
            container_id = s.container_id;
            binding_fingerprint = fingerprint;
            observed_at = now;
            accepted = true;
          })
          ∷ db.server_bindings;
    })
    else err review_changed

-- The transaction of ReviewBinding; its caller reads the server back by `get`.
unfoldable pub review_binding : Db → String → String → String → String → Option ℕ → ℕ → Result Db
unfolding get
review_binding db admin_id token_hash id fingerprint expected now =
    admin_mutation db admin_id token_hash now
      (λ tx. get tx id >>= λ s. accept now tx id fingerprint expected s)
