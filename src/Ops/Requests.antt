-- ===== src/Ops/Requests.antt =====
-- internal/ops/ops.go: what Enqueue promises for repeated requests and for busy servers.
use Prim.Native.String.{◌++◌}
use ludock.Common.{
  ℕ, String, Bool, true, false, Option, none, some, List, ◌∷◌, Error, operation_conflict,
  idempotency_conflict, ◌==◌, string_eq, any, if◌then◌else◌, Result, ok, err, ◌>>=◌, ◌≡◌, ◌≢◌, refl,
  arith, Bool-cases, inl, inr, ◌≤◌, ◌⊎◌, ==_refl,
}
use text.Mathlib.TextEquality.{eq_iff}
use ludock.Database.{count_where, count-any}
use ludock.Ops.Job.{Json, Row, Job, Store, EnqueueOptions, active_on, requested_with, job_of}
use ludock.Ops.Queue.{
  or_empty, request_key, new_row, insertable, insert_operation, enqueue, answer_request,
  committed_store,
}

-- Two guards before a call that may fail, each with its error.
guarded-ok :
    {A B : Type 0} (stop pass : Bool) (first second : Error) (call : Result A) (f : A → B) {b : B}
    → (if stop then err first else if pass then (call >>= λ a. ok (f a)) else err second) ≡ ok b
    → (stop ≡ false) × (pass ≡ true) × (a : A) × (call ≡ ok a) × (f a ≡ b)
guarded-ok true pass first second call f h = cc
guarded-ok false false first second call f h = cc
guarded-ok false true first second (err e) f h = cc
guarded-ok false true first second (ok a) f h = (refl, refl, a, refl, cc)

module _ {Recovery : Type 0} (json : Json Recovery) (digest : String → String) where
  insert_operation-ok :
      (store : Store) (o : EnqueueOptions) (r : Row) {store' : Store} {job : Job Recovery}
      → insert_operation json digest store o r ≡ ok (store', job)
      → (any (active_on o.server_id) store.operations ≡ false)
        × (insertable store r ≡ true)
        × (job_of json r ≡ ok job)
        × (store'.operations ≡ r ∷ store.operations)
  unfolding insert_operation
  insert_operation-ok store o r h =
      let (free, valid, job', parsed, e) = guarded-ok _ _ _ _ (job_of json r) _ h in
      (free, valid, cc, cc)

  abbrev pub row_of : EnqueueOptions → String → ℕ → Row
  row_of o id now = new_row o (json.object_text (or_empty o.input)) (request_key digest o) id now

  pub answer_request-cases :
      (store : Store) (o : EnqueueOptions) (r : Row) (p : Option Row) {store' : Store}
      {job : Job Recovery}
      → answer_request json digest store o r p ≡ ok (store', job)
      → ((prior : Row) × (p ≡ some prior)
          × (store' ≡ store)
          × ((prior.input == r.input) ≡ true)
          × (job_of json prior ≡ ok job))
        ⊎ ((p ≡ none)
            × (any (active_on o.server_id) store.operations ≡ false)
            × (insertable store r ≡ true)
            × (job_of json r ≡ ok job)
            × (store'.operations ≡ r ∷ store.operations))
  unfolding answer_request
  answer_request-cases store o r none h =
      let (free, valid, parsed, stored) = insert_operation-ok store o r h in
      inr (refl, free, valid, parsed, stored)
  answer_request-cases store o r (some prior) h =
      let (_, same, job', parsed, e) =
        guarded-ok false _ operation_conflict idempotency_conflict (job_of json prior) _ h in
      inl (prior, refl, cc, same, cc)

  pub new_row_requested :
      (o : EnqueueOptions) (id : String) (now : ℕ)
      → o.idempotency_key ≢ ""
      → requested_with (request_key digest o) (row_of o id now) ≡ true
  new_row_requested o id now set = elim (Bool-cases (o.idempotency_key == "")) [
    | inl unset ↦ absurd (ground (arith, set, eq_iff o.idempotency_key ""))
    | inr keyed ↦ rw keyed (
        ==_refl
          (digest (o.actor_id ++ ":" ++ o.server_id ++ ":" ++ o.kind ++ ":" ++ o.idempotency_key)))
  ]

  count-new_row :
      (server : String) (o : EnqueueOptions) (id : String) (now : ℕ) (rows : List Row)
      → any (active_on o.server_id) rows ≡ false
      → count_where (active_on server) rows ≤ 1
      → count_where (active_on server) (row_of o id now ∷ rows) ≤ 1
  count-new_row server o id now rows free few = elim (Bool-cases (o.server_id == server)) [
    | inl same ↦
        let e = (string_eq.beq_iff o.server_id server).0 same in
        let empty : count_where (active_on server) rows ≤ 0 = count-any _ rows (rw (← e) free) in
        rw same (omega arith)
    | inr other ↦ rw other few
  ]

  -- No server gets a second operation that is queued or running.
  pub count-enqueue :
      (server : String) (store : Store) (o : EnqueueOptions) (id : String) (now : ℕ)
      (store' : Store) (job : Job Recovery)
      → enqueue json digest store o id now ≡ ok (store', job)
      → count_where (active_on server) store.operations ≤ 1
      → count_where (active_on server) store'.operations ≤ 1
  unfolding enqueue
  count-enqueue server store o id now store' job h few =
      elim (answer_request-cases store o (row_of o id now) _ h) [
        | inl (prior, found, unchanged, same, parsed) ↦ rw unchanged few
        | inr (missing, free, valid, parsed, stored) ↦
            rw stored (count-new_row server o id now store.operations free few)
      ]

  -- What Enqueue does to the table.
  pub enqueue-cases :
      (P : List Row → Type 0) (store : Store) (o : EnqueueOptions) (id : String) (now : ℕ)
      (answer : Result (Store × Job Recovery))
      → enqueue json digest store o id now ≡ answer
      → P store.operations
      → (any (active_on o.server_id) store.operations ≡ false
          → insertable store (row_of o id now) ≡ true
          → P (row_of o id now ∷ store.operations))
      → P (committed_store store answer).operations
  unfolding enqueue
  enqueue-cases P store o id now (err e) h old new = old
  enqueue-cases P store o id now (ok (store', job)) h old new =
      elim (answer_request-cases store o (row_of o id now) _ h) [
        | inl (prior, found, unchanged, same, parsed) ↦ rw unchanged old
        | inr (missing, free, valid, parsed, stored) ↦ rw stored (new free valid)
      ]
