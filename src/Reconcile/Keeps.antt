-- ===== src/Reconcile/Keeps.antt =====
-- What a snapshot never does to a stored server: forget a review, replace an accepted fingerprint,
-- turn a revision back or move a row to another identity.
use text.Mathlib.TextEquality.{eq_iff}
use ludock.Common.{
  ◌&&◌, ℕ, ◌≤◌, String, Bool, Option, none, some, List, [], ◌∷◌, ◌≡◌, ◌≢◌, refl, ◌∙◌, sym, subst,
  arith, string_eq, bytes_eq, Bytes, if◌then◌else◌, find, ok, >>=-eq-ok, nat_beq, select,
}
use ludock.Database.{Server, BindingRow, Db, count_where, find_unique, find-select}
use ludock.Observation.{Observation, Material}
use ludock.Identity.{has_server_id, list_servers, of_host}
use ludock.Reconcile.{
  Snapshot, Decision, keep, write, decide, save, apply_observation, apply_groups, mark_missing,
  apply, has_external, is_several, group_observations,
}
use ludock.Reconcile.Changes.{
  row_of, Preserved, decide-Preserved, Kept, Kept-mark_missing, Kept-save,
}

-- The rows that were read hold `s` as the one row of its id.
abbrev pub Only : Server → List Server → Type 0
Only s existing =
    (external : Bytes) (u : Server)
    → find (has_external external) existing ≡ some u
    → u.id ≡ s.id
    → u ≡ s

Kept-insert :
    (s t : Server) (db : Db) (rows : List BindingRow)
    → t.id ≢ s.id
    → Kept s db
    → Kept s (record db { logical_servers = t ∷ db.logical_servers; server_bindings = rows })
Kept-insert s t db rows other k = record {
  row = k.row;
  stored = ground (arith, eq_iff t.id s.id, k.stored);
  preserved = k.preserved;
}

module _ (digest : Material → String) (new_id : Bytes → String) (host : String) (now : ℕ) where
  Kept-decision :
      (s u : Server) (o : Observation) (several : Bool) (d : Decision) (db : Db)
      → decide digest now u o several ≡ d
      → (u.id ≡ s.id → u ≡ s)
      → Kept s db
      → Kept s (save d db)
  Kept-decision s u o several keep db e only k = k
  Kept-decision s u o several (write t row) db e only k =
      let p = decide-Preserved digest now u t o several row e in
      Kept-save s db t row (λ same. subst (λ v. Preserved v t) (only (sym p.same_id ∙ same)) p) k

  Kept-apply_observation :
      (s : Server) (id : String) (external : Bytes) (o : Observation) (several : Bool)
      (found : Option Server) (db : Db)
      → id ≢ s.id
      → ((u : Server) → found ≡ some u → u.id ≡ s.id → u ≡ s)
      → Kept s db
      → Kept s (apply_observation digest id host now external o several found db)
  Kept-apply_observation s id external o several none db fresh only k = Kept-insert s _ db _ fresh k
  Kept-apply_observation s id external o several (some u) db fresh only k =
      Kept-decision s u o several _ db refl (only u refl) k

  pub Kept-apply_groups :
      (s : Server) (existing : List Server) (groups : List Snapshot) (db : Db)
      → ((key : Bytes) → new_id key ≢ s.id)
      → Only s existing
      → Kept s db
      → Kept s (apply_groups digest new_id host now existing groups db)
  unfolding apply_groups
  Kept-apply_groups s existing [] db fresh only k = k
  Kept-apply_groups s existing (g ∷ gs) db fresh only k =
      Kept-apply_groups s existing gs _ fresh only (one g.group k)
    where
      one :
          (group : List Observation)
          → Kept s db
          → Kept s (elim group [
            | [] ↦ db
            | o ∷ rest ↦
                apply_observation digest
                  (new_id g.external)
                  host
                  now
                  g.external
                  o
                  (is_several (o ∷ rest))
                  (find (has_external g.external) existing)
                  db
          ])
      one [] k = k
      one (o ∷ rest) k =
          Kept-apply_observation s (new_id g.external) g.external o (is_several (o ∷ rest))
            (find (has_external g.external) existing) db (fresh g.external) (only g.external) k

pub Preserved-refl : (s : Server) → Preserved s s
Preserved-refl s = ground (arith, eq_iff s.binding_fingerprint s.binding_fingerprint)

pub list_servers-ok :
    (db : Db) (host : String) (existing : List Server)
    → list_servers db host ≡ ok existing
    → existing ≡ select (of_host host) db.logical_servers
unfolding list_servers
list_servers-ok db host existing h = ground arith

pub Only-existing :
    (db : Db) (host : String) (existing : List Server) (s : Server)
    → count_where (has_server_id s.id) db.logical_servers ≤ 1
    → row_of db s.id ≡ some s
    → list_servers db host ≡ ok existing
    → Only s existing
Only-existing db host existing s unique here e external u found same =
    find_unique (has_server_id s.id) (λ t. of_host host t && has_external external t)
      db.logical_servers s u unique here
      (sym (find-select (of_host host) (has_external external) db.logical_servers)
        ∙ rw (← list_servers-ok db host existing e) found)
      ((eq_iff u.id s.id).1 same)

-- One complete snapshot, whatever it observes, keeps every stored server's row: it stays under its
-- id, host and external identity; a review stays required; a fingerprint that was accepted is never
-- replaced; and its revision never falls. Ids are unique, and NewUUID makes no id that is in use.
pub apply-Kept :
    (digest : Material → String) (new_id : Bytes → String) (clock : ℕ) (db db' : Db)
    (observations : List Observation) (host : String) (now : ℕ) (s : Server)
    → ((key : Bytes) → new_id key ≢ s.id)
    → count_where (has_server_id s.id) db.logical_servers ≤ 1
    → row_of db s.id ≡ some s
    → apply digest new_id clock db observations host now ≡ ok db'
    → Kept s db'
unfolding apply
apply-Kept digest new_id clock db db' observations host now s fresh unique here h =
    let (groups, g, h1) = >>=-eq-ok (group_observations [] [] observations) _ h in
    let (existing, e, h2) = >>=-eq-ok (list_servers db host) _ h1 in
    let time = if nat_beq now 0 then clock else now in
    let done : mark_missing groups existing
          (apply_groups digest new_id host time existing groups db)
        ≡ db' =
      cc in
    rw (← done) (
      Kept-mark_missing groups existing s _ (
        Kept-apply_groups digest new_id host time s existing groups db fresh
          (Only-existing db host existing s unique here e)
          (record { row = s; stored = here; preserved = Preserved-refl s })))
