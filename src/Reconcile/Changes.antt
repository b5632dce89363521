-- ===== src/Reconcile/Changes.antt =====
-- internal/identity/identity.go: what Apply writes to the row of a stored server.
use text.Mathlib.TextEquality.{eq_iff}
use ludock.Common.{
  not, ◌||◌, ◌==◌, ◌&&◌, ℕ, ◌≤◌, String, Bool, true, false, Option, some, List, [], ◌∷◌, ◌≡◌, ◌≢◌,
  refl, ◌∙◌, sym, arith, string_eq, bytes_eq, if◌then◌else◌, find, Bool-cases, inl, inr, is_empty,
}
use ludock.Database.{Server, missing, BindingRow, Db, update_where, find-update_where}
use ludock.Observation.{Observation, Material}
use ludock.Identity.{has_server_id, fingerprint, is_missing}
use ludock.Reconcile.{Snapshot, write, decide, decide_single, save, mark_missing, observed}

-- The stored row of an id.
abbrev pub row_of : Db → String → Option Server
row_of db id = find (has_server_id id) db.logical_servers

abbrev pub unbind : Server → Server
unbind s = record s { status = missing; container_id = [] }

-- How a stored row may differ from the row `s` that a snapshot found.
pub record Preserved (s t : Server) : Type 0 where
  pub same_id : t.id ≡ s.id
  pub same_host : t.host_id ≡ s.host_id
  pub same_external : t.external_identity ≡ s.external_identity
  pub same_age : t.first_seen_at ≡ s.first_seen_at
  pub review : (not s.review_required || t.review_required) ≡ true
  pub accepted :
      (s.binding_fingerprint == "" || t.binding_fingerprint == s.binding_fingerprint) ≡ true
  pub revision : s.binding_revision ≤ t.binding_revision

-- `Preserved` with the choices as functions.
pub record Careful (s t : Server) : Type 0 where
  same_id : t.id ≡ s.id
  same_host : t.host_id ≡ s.host_id
  same_external : t.external_identity ≡ s.external_identity
  same_age : t.first_seen_at ≡ s.first_seen_at
  review : s.review_required ≡ true → t.review_required ≡ true
  accepted : s.binding_fingerprint ≢ "" → t.binding_fingerprint ≡ s.binding_fingerprint
  revision : s.binding_revision ≤ t.binding_revision

either : (p q : Bool) → (p ≡ false → q ≡ true) → (p || q) ≡ true
either true q f = refl
either false q f = f refl

pub preserved : (s t : Server) → Careful s t → Preserved s t
preserved s t c = record {
  same_id = c.same_id;
  same_host = c.same_host;
  same_external = c.same_external;
  same_age = c.same_age;
  review = ground (arith, c.review);
  accepted =
      either (s.binding_fingerprint == "") (t.binding_fingerprint == s.binding_fingerprint) (λ set.
        (eq_iff t.binding_fingerprint s.binding_fingerprint).1
          (c.accepted (λ e. cc (set, (eq_iff s.binding_fingerprint "").1 e))));
  revision = c.revision;
}

module _ (digest : Material → String) where
  decide-Careful :
      (now : ℕ) (s t : Server) (o : Observation) (several : Bool) (row : Option BindingRow)
      → decide digest now s o several ≡ write t row
      → Careful s t
  unfolding decide_single
  decide-Careful now s t o true row e = ground arith
  decide-Careful now s t o false row e = ground (
    arith,
    eq_iff (fingerprint digest o) s.binding_fingerprint,
    eq_iff s.binding_fingerprint "",
    eq_iff s.binding_fingerprint (fingerprint digest o),
  )

  pub decide-Preserved :
      (now : ℕ) (s t : Server) (o : Observation) (several : Bool) (row : Option BindingRow)
      → decide digest now s o several ≡ write t row
      → Preserved s t
  decide-Preserved now s t o several row e = preserved s t (decide-Careful now s t o several row e)

-- The row of `s` is there, and differs from `s` as allowed.
pub record Kept (s : Server) (db : Db) : Type 0 where
  pub row : Server
  pub stored : row_of db s.id ≡ some row
  pub preserved : Preserved s row

Preserved-unbind : (s t : Server) → Preserved s t → Preserved s (unbind t)
Preserved-unbind s t p = ground arith

pub row_of-update :
    (id : String) (f : Server → Server) (db : Db) (other : String) (t : Server)
    → ((x : Server) → has_server_id id x ≡ true → (f x).id ≡ id)
    → row_of db other ≡ some t
    → find (has_server_id other) (update_where (has_server_id id) f db.logical_servers)
      ≡ some (if has_server_id id t then f t else t)
row_of-update id f db other t keeps found =
    find-update_where (has_server_id id) (has_server_id other) f db.logical_servers
      (λ x h. ground (arith, keeps x h, eq_iff x.id id))
    ∙ rw found

Kept-unbind :
    (s : Server) (db : Db) (id : String)
    → Kept s db
    → Kept s
        (record db { logical_servers = update_where (has_server_id id) unbind db.logical_servers })
Kept-unbind s db id k = record {
  row = if has_server_id id k.row then unbind k.row else k.row;
  stored = row_of-update id unbind db s.id k.row (λ x h. (eq_iff x.id id).0 h) k.stored;
  preserved = elim (Bool-cases (has_server_id id k.row)) [
    | inl hit ↦ rw hit (Preserved-unbind s k.row k.preserved)
    | inr miss ↦ rw miss k.preserved
  ];
}

pub Kept-mark_missing :
    (groups : List Snapshot) (rest : List Server) (s : Server) (db : Db)
    → Kept s db
    → Kept s (mark_missing groups rest db)
unfolding mark_missing
Kept-mark_missing groups [] s db k = k
Kept-mark_missing groups (t ∷ rest) s db k =
    elim (Bool-cases (observed groups t || (is_missing t.status && is_empty t.container_id))) [
      | inl skip ↦ rw skip (Kept-mark_missing groups rest s db k)
      | inr gone ↦ rw gone (Kept-mark_missing groups rest s _ (Kept-unbind s db t.id k))
    ]

pub Kept-save :
    (s : Server) (db : Db) (t : Server) (row : Option BindingRow)
    → (t.id ≡ s.id → Preserved s t)
    → Kept s db
    → Kept s (save (write t row) db)
Kept-save s db t row allowed k = record {
  row = if has_server_id t.id k.row then t else k.row;
  stored = row_of-update t.id (λ x. t) db s.id k.row (λ x h. refl) k.stored;
  preserved = elim (Bool-cases (has_server_id t.id k.row)) [
    | inl hit ↦ rw hit (allowed (sym ((eq_iff k.row.id t.id).0 hit) ∙ k.preserved.same_id))
    | inr miss ↦ rw miss k.preserved
  ];
}
