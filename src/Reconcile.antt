-- ===== src/Reconcile.antt =====
-- Apply of internal/identity/identity.go: one complete snapshot of containers against the stored
-- servers. `digest` is the keyed digest of a binding's material, `new_id` NewUUID for the row of a key.
pub mod Changes
pub mod Keeps
pub mod Groups
pub mod Review
pub mod Substitution
use ludock.Common.{
  ℕ, ◌+◌, ◌-◌, String, Bool, true, false, not, Option, none, some, List, [], ◌∷◌, ◌++◌, ◌&&◌, ◌||◌,
  ltb, nat_beq, ◌==◌, string_eq, bytes_eq, if◌then◌else◌, any, find, Result, ok, err, ◌>>=◌, Bytes,
  is_empty, invalid_snapshot, contains,
}
use ludock.Database.{
  Server, active, missing, ambiguous, review_required, BindingRow, Db, update_where,
}
use ludock.Observation.{Observation, Material, external_identity}
use ludock.Identity.{
  list_servers, fingerprint, has_server_id, is_active, is_missing, is_ambiguous, needs_review,
}

pub record Snapshot : Type 0 where
  pub external : Bytes
  pub group : List Observation

-- One observation into the groups, in the order in which their keys came.
abbrev pub add_to_group : Bytes → Observation → List Snapshot → List Snapshot
add_to_group key o [] = record { external = key; group = o ∷ [] } ∷ []
add_to_group key o (g ∷ gs) =
    if g.external == key
    then record g { group = g.group ++ o ∷ [] } ∷ gs
    else g ∷ add_to_group key o gs

-- The first loop of Apply, with the containers seen so far.
unfoldable pub group_observations :
    List Bytes → List Snapshot → List Observation → Result (List Snapshot)
group_observations seen groups [] = ok groups
group_observations seen groups (o ∷ rest) = external_identity o >>= λ key.
    let later = group_observations (o.container_id ∷ seen) (add_to_group key o groups) rest in
    if contains seen o.container_id then err invalid_snapshot else later

abbrev pub last_seen_write_interval : ℕ
last_seen_write_interval = 60_000

-- What the second loop decides for one stored server and the single observation under its key.
pub data Decision : Type 0 where
  keep : Decision
  write : Server → Option BindingRow → Decision

abbrev pub decide_ambiguous : ℕ → Server → Decision
decide_ambiguous now s =
    if is_ambiguous s.status
      && is_empty s.container_id
      && ltb (now - s.last_seen_at) last_seen_write_interval
    then keep
    else write (record s { status = ambiguous; container_id = []; last_seen_at = now }) none

abbrev add_binding : Option BindingRow → List BindingRow → List BindingRow
add_binding none rows = rows
add_binding (some row) rows = row ∷ rows

-- The UPDATE of the row. Inside the transaction the stored row is the one that was read, so the
-- columns that a statement does not set keep the values read.
abbrev pub save : Decision → Db → Db
save keep db = db
save (write s row) db = record db {
  logical_servers = update_where (has_server_id s.id) (λ old. s) db.logical_servers;
  server_bindings = add_binding row db.server_bindings;
}

abbrev pub has_external : Bytes → Server → Bool
has_external external s = s.external_identity == external

abbrev pub is_several : List Observation → Bool
is_several (o ∷ []) = false
is_several _ = true

abbrev pub observed : List Snapshot → Server → Bool
observed groups s = any (λ g. s.external_identity == g.external) groups

-- The last loop: a stored server whose key was not observed loses its container.
unfoldable pub mark_missing : List Snapshot → List Server → Db → Db
mark_missing groups [] db = db
mark_missing groups (s ∷ rest) db = mark_missing groups rest (
    if observed groups s || (is_missing s.status && is_empty s.container_id)
    then db
    else record db {
      logical_servers =
          update_where (has_server_id s.id) (λ t. record t { status = missing; container_id = [] })
            db.logical_servers;
    })

module _ (digest : Material → String) where
  abbrev pub is_material : Server → Observation → Bool
  is_material s o =
      not (s.binding_fingerprint == "") && not (fingerprint digest o == s.binding_fingerprint)

  abbrev pub under_review : Server → Observation → Bool
  under_review s o = s.review_required || is_material s o

  abbrev pub binding_changes : Server → Observation → Bool
  binding_changes s o =
      not (s.container_id == o.container_id)
      || (if under_review s o
          then not (s.pending_fingerprint == fingerprint digest o)
          else not (s.binding_fingerprint == fingerprint digest o))

  -- `now - LastSeenAt` may be negative, and is below the interval then.
  abbrev pub row_unchanged : ℕ → Server → Observation → Bool
  row_unchanged now s o =
      not (binding_changes s o)
      && ltb (now - s.last_seen_at) last_seen_write_interval
      && (s.display_name == o.display_name)
      && (if under_review s o
          then needs_review s.status && s.review_required && (s.pending_game_type == o.game_type)
          else is_active s.status && (s.game_type == o.game_type))

  abbrev pub next_revision : Server → Observation → ℕ
  next_revision s o = if binding_changes s o then s.binding_revision + 1 else s.binding_revision

  abbrev recorded : ℕ → Server → Observation → Option BindingRow
  recorded now s o =
      if binding_changes s o
      then some (record {
        server_id = s.id;
        binding_revision = next_revision s o;
        container_id = o.container_id;
        binding_fingerprint = fingerprint digest o;
        observed_at = now;
        accepted = not (under_review s o);
      })
      else none

  unfoldable pub decide_single : ℕ → Server → Observation → Decision
  unfolding fingerprint
  decide_single now s o =
      if row_unchanged now s o
      then keep
      else if under_review s o
      then write
          (record s {
            container_id = o.container_id;
            display_name = o.display_name;
            status = review_required;
            binding_revision = next_revision s o;
            pending_fingerprint = fingerprint digest o;
            pending_game_type = o.game_type;
            review_required = true;
            last_seen_at = now;
          })
          (recorded now s o)
      else write
          (record s {
            container_id = o.container_id;
            display_name = o.display_name;
            game_type = o.game_type;
            status = active;
            binding_revision = next_revision s o;
            binding_fingerprint = fingerprint digest o;
            last_seen_at = now;
          })
          (recorded now s o)

  abbrev pub new_server : String → String → ℕ → Bytes → Observation → Bool → Server
  new_server id host now external o several = record {
    id = id;
    host_id = host;
    external_identity = external;
    container_id = if several then [] else o.container_id;
    display_name = o.display_name;
    game_type = if several then "unknown" else o.game_type;
    status = if several then ambiguous else active;
    binding_revision = if several then 0 else 1;
    binding_fingerprint = if several then "" else fingerprint digest o;
    pending_fingerprint = "";
    pending_game_type = "";
    review_required = false;
    first_seen_at = now;
    last_seen_at = now;
  }

  abbrev first_binding : String → ℕ → Observation → Bool → Option BindingRow
  first_binding id now o true = none
  first_binding id now o false = some (record {
    server_id = id;
    binding_revision = 1;
    container_id = o.container_id;
    binding_fingerprint = fingerprint digest o;
    observed_at = now;
    accepted = true;
  })

  abbrev pub decide : ℕ → Server → Observation → Bool → Decision
  decide now s o several = if several then decide_ambiguous now s else decide_single now s o

  abbrev pub apply_observation :
      String → String → ℕ → Bytes → Observation → Bool → Option Server → Db → Db
  apply_observation id host now external o several none db = record db {
    logical_servers = new_server id host now external o several ∷ db.logical_servers;
    server_bindings = add_binding (first_binding id now o several) db.server_bindings;
  }
  apply_observation id host now external o several (some s) db = save (decide now s o several) db

  -- One round of the second loop; `new_id` is NewUUID for the row of a key.
  abbrev pub apply_group : (Bytes → String) → String → ℕ → List Server → Snapshot → Db → Db
  apply_group new_id host now existing g db = elim g.group [
    | [] ↦ db
    | o ∷ rest ↦
        apply_observation (new_id g.external) host now g.external o (is_several (o ∷ rest))
          (find (has_external g.external) existing) db
  ]

  unfoldable pub apply_groups :
      (Bytes → String) → String → ℕ → List Server → List Snapshot → Db → Db
  unfolding decide_single fingerprint
  apply_groups new_id host now existing [] db = db
  apply_groups new_id host now existing (g ∷ gs) db =
      apply_groups new_id host now existing gs (apply_group new_id host now existing g db)

  -- Apply with its host named; `clock` is the current time, taken where `now` is 0.
  unfoldable pub apply : (Bytes → String) → ℕ → Db → List Observation → String → ℕ → Result Db
  unfolding group_observations list_servers apply_groups mark_missing
  apply new_id clock db observations host now = do
    groups ← group_observations [] [] observations
    existing ← list_servers db host
    let time = if nat_beq now 0 then clock else now
    ok (mark_missing groups existing (apply_groups new_id host time existing groups db))
