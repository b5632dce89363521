-- ===== src/Reconcile/Review.antt =====
-- A binding is used only for the container, identity and fingerprint that were accepted, and an
-- administrator's review is what accepts another.
use text.Mathlib.TextEquality.{eq_iff}
use text.Mathlib.TextPositions.{eq_refl}
use ludock.Common.{
  ℕ, ◌+◌, String, true, false, Option, some, ◌≡◌, refl, ◌∙◌, ap, subst, arith, string_eq, bytes_eq,
  if◌then◌else◌, find, ok, err, inl, inr, Option-cases, >>=-eq-ok, nat_beq, is_empty, bytes_beq_iff,
  binding_changed,
}
use ludock.Database.{Server, active, Db, update_where, find-update_where}
use ludock.Observation.{Observation, Material, external_identity}
use ludock.Accounts.{session_valid}
use ludock.Accounts.Administration.{admin_mutation-ok}
use ludock.Identity.{
  has_server_id, fingerprint, resolve_binding, assert_observed_binding, review_binding,
  accept_pending, valid_row, revision_differs, matches_observation,
}
use ludock.Reconcile.Changes.{row_of}

-- What an accepted use of a binding relies on.
pub record Bound (digest : Material → String) (db : Db) (id : String) (o : Observation) (s : Server)
    : Type 0 where
  pub stored : row_of db id ≡ some s
  pub in_use : s.status ≡ active
  pub reviewed : s.review_required ≡ false
  pub container : s.container_id ≡ o.container_id
  pub identity : external_identity o ≡ ok s.external_identity
  pub material : s.binding_fingerprint ≡ fingerprint digest o

pub resolved :
    (db : Db) (id : String) (expected : Option ℕ) (s : Server)
    → resolve_binding db id expected ≡ ok s
    → (row_of db id ≡ some s)
      × (s.status ≡ active)
      × (s.review_required ≡ false)
      × (revision_differs expected s ≡ false)
unfolding resolve_binding
resolved db id expected s h = elim (Option-cases (row_of db id)) [
  | inl gone ↦ absurd (ground arith)
  | inr (t, found) ↦
      let same : t ≡ s = ground arith in
      let facts : (t.status ≡ active)
          × (t.review_required ≡ false)
          × (revision_differs expected t ≡ false) =
        ground arith in
      (rw (← same) found, rw (← same) facts.0, rw (← same) facts.1, rw (← same) facts.2)
]

-- AssertObservedBinding passes only the active, reviewed server whose container, external identity
-- and accepted fingerprint are those of the fresh observation, and only at the expected revision.
pub assert_observed_binding-Bound :
    (digest : Material → String) (db : Db) (id : String) (o : Observation) (expected : Option ℕ)
    (s : Server)
    → assert_observed_binding digest db id o expected ≡ ok s
    → Bound digest db id o s × (revision_differs expected s ≡ false)
unfolding assert_observed_binding
assert_observed_binding-Bound digest db id o expected s h =
    let (t, r, h1) = >>=-eq-ok (resolve_binding db id expected) _ h in
    let (external, e, h2) = >>=-eq-ok (external_identity o) _ h1 in
    let same : t ≡ s = ground arith in
    let facts = resolved db id expected s (r ∙ rw same) in
    let accepted : matches_observation digest t o external ≡ true = ground arith in
    let passed = subst (λ v. matches_observation digest v o external ≡ true) same accepted in
    (
      record {
        stored = facts.0;
        in_use = facts.1;
        reviewed = facts.2;
        container = ground (arith, passed, bytes_beq_iff s.container_id o.container_id);
        identity = e ∙ ground (arith, passed, bytes_beq_iff s.external_identity external);
        material = ground (arith, passed, eq_iff s.binding_fingerprint (fingerprint digest o));
      },
      facts.3,
    )

resolve_binding_live :
    (db : Db) (id : String) (expected : Option ℕ) (s : Server)
    → row_of db id ≡ some s
    → valid_row s ≡ true
    → s.status ≡ active
    → s.review_required ≡ false
    → is_empty s.container_id ≡ false
    → resolve_binding db id expected
      ≡ (if revision_differs expected s then err binding_changed else ok s)
unfolding resolve_binding
resolve_binding_live db id expected s here v a r c = rw here (rw (v, a, r, c))

-- What a review that commits has checked and written.
record Reviewed (db db' : Db) (s : Server) : Type 0 where
  valid : valid_row s ≡ true
  bound : is_empty s.container_id ≡ false
  written : row_of db' s.id ≡ some (accept_pending s)

reviewed :
    (db db' : Db) (admin token fingerprint : String) (expected : Option ℕ) (now : ℕ) (s : Server)
    → row_of db s.id ≡ some s
    → review_binding db admin token s.id fingerprint expected now ≡ ok db'
    → (session_valid db admin token now ≡ true) × Reviewed db db' s
unfolding review_binding
reviewed db db' admin token fingerprint expected now s here h =
    let (u, live, _, _, body) = admin_mutation-ok db db' admin token now _ h in
    let servers : db'.logical_servers
        ≡ update_where (has_server_id s.id) accept_pending db.logical_servers =
      ground arith in
    (
      live,
      record {
        valid = ground arith;
        bound = ground arith;
        written =
            ap (find (has_server_id s.id)) servers
            ∙ find-update_where (has_server_id s.id) (has_server_id s.id) accept_pending
                db.logical_servers (λ x hit. refl)
            ∙ rw here (rw (eq_refl s.id));
      },
    )

-- After a review the reviewed container passes at the next revision and no longer at the old one.
pub review-assert_observed_binding :
    (digest : Material → String) (db db' : Db) (admin token : String) (o : Observation)
    (expected : Option ℕ) (now : ℕ) (s : Server)
    → row_of db s.id ≡ some s
    → s.container_id ≡ o.container_id
    → s.pending_fingerprint ≡ fingerprint digest o
    → external_identity o ≡ ok s.external_identity
    → review_binding db admin token s.id (fingerprint digest o) expected now ≡ ok db'
    → (session_valid db admin token now ≡ true)
      × (assert_observed_binding digest db' s.id o (some (s.binding_revision + 1))
          ≡ ok (accept_pending s))
      × (assert_observed_binding digest db' s.id o (some s.binding_revision) ≡ err binding_changed)
unfolding assert_observed_binding
review-assert_observed_binding digest db db' admin token o expected now s here c p e h =
    let (live, r) = reviewed db db' admin token (fingerprint digest o) expected now s here h in
    let resolve = λ (q : Option ℕ).
      resolve_binding_live db' s.id q (accept_pending s) r.written r.valid refl refl r.bound in
    let matching : matches_observation digest (accept_pending s) o s.external_identity ≡ true =
      ground (
        arith,
        bytes_beq_iff s.container_id o.container_id,
        bytes_beq_iff s.external_identity s.external_identity,
        eq_iff s.pending_fingerprint (fingerprint digest o),
      ) in
    let next : nat_beq (s.binding_revision + 1) (s.binding_revision + 1) ≡ true = ground arith in
    let past : nat_beq (s.binding_revision + 1) s.binding_revision ≡ false = ground arith in
    (live, rw resolve (rw next (rw e (rw matching))), rw resolve (rw past))
