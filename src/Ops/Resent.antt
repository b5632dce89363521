-- ===== src/Ops/Resent.antt =====
-- internal/ops/ops.go: a request that is sent again, however much later.
use ludock.Common.{
  ℕ, String, Bool, true, false, Option, none, some, List, ◌==◌, string_eq, any, find, Result, ok,
  ◌>>=◌, >>=-eq-ok, ◌≡◌, ◌≢◌, refl, ap, ◌∙◌, subst, Bool-cases, inl, inr,
}
use ludock.Database.{find-any, update_where, find-update_where}
use ludock.Ops.Job.{
  Json, Row, Job, Store, EnqueueOptions, requested_with, same_key, job_of, job_from, has_id,
  from_option, parse_result, parse_object,
}
use ludock.Ops.Queue.{
  or_empty, request_key, enqueue, answer_request, start_row, requeue_row, finish_row, progress_row,
  claimable, set_running, set_queued, set_finished, set_progress,
}
use ludock.Ops.Requests.{answer_request-cases, new_row_requested, row_of}
use ludock.Ops.Runner.{World}
use ludock.Ops.Moves.{Step, Reachable, stepped, enqueues, committed}
use ludock.Ops.Table.{Kept, Step-kept}
use ludock.Ops.Exclusion.{Keyed, Keyed-Kept, Keyed-Reachable}

-- The first row with the key is one operation, with the input of its request.
abbrev Asked : (key : Option String) (id input : String) → List Row → Type 0
Asked key id input rows =
    Keyed rows
    × ((r : Row) × (find (requested_with key) rows ≡ some r) × (r.id ≡ id) × (r.input ≡ input))

-- An UPDATE that changes neither ids nor keys nor inputs.
asked-update :
    (key : Option String) (id input : String) (p : Row → Bool) (f : Row → Row) (rows : List Row)
    → ((r : Row) → requested_with key (f r) ≡ requested_with key r)
    → ((r : Row) → (f r).id ≡ r.id)
    → ((r : Row) → (f r).input ≡ r.input)
    → ((r : Row) × (find (requested_with key) rows ≡ some r) × (r.id ≡ id) × (r.input ≡ input))
    → (r : Row) × (find (requested_with key) (update_where p f rows) ≡ some r)
      × (r.id ≡ id)
      × (r.input ≡ input)
asked-update key id input p f rows keys ids inputs (r, found, named, same) =
    let written = find-update_where p (requested_with key) f rows (λ x k. keys x) in
    elim (Bool-cases (p r)) [
      | inl hit ↦ (f r, written ∙ rw found (rw hit refl), ids r ∙ named, inputs r ∙ same)
      | inr miss ↦ (r, written ∙ rw found (rw miss refl), named, same)
    ]

-- Keys are unique.
other_request :
    (key : Option String) (r : Row) (rows : List Row) (found : Row)
    → any (requested_with r.request_key) rows ≡ false
    → find (requested_with key) rows ≡ some found
    → requested_with key r ≡ false
other_request none r rows found unrequested there = refl
other_request (some k) r rows found unrequested there = by_key r.request_key refl
  where
    by_key : (o : Option String) → r.request_key ≡ o → same_key (some k) o ≡ false
    by_key none e = refl
    by_key (some l) e = elim (Bool-cases (l == k)) [
      | inl same ↦
          let here : any (requested_with (some l)) rows ≡ true =
            rw ((string_eq.beq_iff l k).0 same) (find-any (requested_with (some k)) rows there) in
          let gone : any (requested_with (some l)) rows ≡ false = rw (← e) unrequested in cc
      | inr apart ↦ apart
    ]

Asked-Kept : (key : Option String) (id input : String) → Kept (Asked key id input)
unfolding start_row requeue_row finish_row progress_row
Asked-Kept key id input = record {
  keys = λ rows h. h.0;
  inserts = λ rows r fresh unrequested free fresh_status h. (
    Keyed-Kept.inserts rows r fresh unrequested free fresh_status h.0,
    let (found, there, named, same) = h.1 in
        (found, rw (other_request key r rows found unrequested there) there, named, same),
  );
  starts = λ i now rows h. (
    Keyed-Kept.starts i now rows h.0,
    asked-update key id input (claimable i) (set_running now) rows (λ r. refl) (λ r. refl)
        (λ r. refl) h.1,
  );
  requeues = λ i now rows live h. (
    Keyed-Kept.requeues i now rows live h.0,
    asked-update key id input (has_id i) (set_queued now) rows (λ r. refl) (λ r. refl) (λ r. refl)
        h.1,
  );
  finishes = λ i outcome result error now rows live ended h. (
    Keyed-Kept.finishes i outcome result error now rows live ended h.0,
    asked-update key id input (has_id i) (set_finished outcome result error now) rows (λ r. refl)
        (λ r. refl) (λ r. refl) h.1,
  );
  progresses = λ i phase recovery result now rows h. (
    Keyed-Kept.progresses i phase recovery result now rows h.0,
    asked-update key id input (has_id i) (set_progress phase recovery result now) rows (λ r. refl)
        (λ r. refl) (λ r. refl) h.1,
  );
}

module _ {Recovery : Type 0} (json : Json Recovery) (digest : String → String) where
  -- One state after another, by any moves.
  pub data Later : World → World → Type 0 where
    at_once : {w : World} → Later w w
    moved : {w u v : World} → Later w u → Step json digest u v → Later w v

  Reachable-Later : (w v : World) → Reachable json digest w → Later w v → Reachable json digest v
  Reachable-Later w _ reached at_once = reached
  Reachable-Later w _ reached (moved l s) = stepped (Reachable-Later w _ reached l) s

  Asked-Later :
      (key : Option String) (id input : String) (w v : World)
      → Reachable json digest w
      → Later w v
      → Asked key id input w.store.operations
      → Asked key id input v.store.operations
  Asked-Later key id input w _ reached at_once h = h
  Asked-Later key id input w _ reached (moved l s) h =
      Step-kept json (Asked key id input) (Asked-Kept key id input) digest
        (Reachable-Later w _ reached l) s (Asked-Later key id input w _ reached l h)

  job_of-id : (r : Row) (job : Job Recovery) → job_of json r ≡ ok job → r.id ≡ job.id
  unfolding job_of
  job_of-id r job h =
      let (result, parsed_result, h1) = >>=-eq-ok (parse_result json r.result) _ h in
      let (input, parsed_input, h2) = >>=-eq-ok (parse_object json r.input) _ h1 in
      let (recovery, parsed_recovery, h3) =
        >>=-eq-ok (from_option (json.parse_recovery r.recovery)) _ h2 in
      let whole : job_from r result input recovery ≡ job = cc in
      ap (λ (j : Job Recovery). j.id) whole

  -- What Enqueue leaves of a request with a key.
  enqueue-Asked :
      (w : World) (o : EnqueueOptions) (id : String) (now : ℕ) (store' : Store) (job : Job Recovery)
      → o.idempotency_key ≢ ""
      → Reachable json digest w
      → enqueue json digest w.store o id now ≡ ok (store', job)
      → Reachable json digest (record w { store = store' })
        × Asked
            (request_key digest o)
            job.id
            (json.object_text (or_empty o.input))
            store'.operations
  unfolding enqueue
  enqueue-Asked w o id now store' job set reached h =
      let after : Reachable json digest (record w { store = store' }) =
        subst (λ (a : Result (Store × Job Recovery)). Reachable json digest (committed w a)) h
          (stepped reached (enqueues o id now)) in
      (
        after,
        (
          Keyed-Reachable json digest _ after,
          elim (answer_request-cases json digest w.store o (row_of json digest o id now) _ h) [
            | inl (prior, found, unchanged, same, parsed) ↦ (
              prior,
              rw unchanged found,
              job_of-id prior job parsed,
              (string_eq.beq_iff _ _).0 same,
            )
            | inr (missing, free, valid, parsed, stored) ↦ (
              row_of json digest o id now,
              rw stored (rw (new_row_requested json digest o id now set) refl),
              job_of-id (row_of json digest o id now) job parsed,
              refl,
            )
          ],
        ),
      )

  answered :
      (store : Store) (o : EnqueueOptions) (id : String) (now : ℕ) (prior : Row)
      → find (requested_with (request_key digest o)) store.operations ≡ some prior
      → prior.input ≡ json.object_text (or_empty o.input)
      → enqueue json digest store o id now ≡ (job_of json prior >>= λ job. ok (store, job))
  unfolding enqueue answer_request
  answered store o id now prior found same =
      rw found
        (rw ((string_eq.beq_iff prior.input (json.object_text (or_empty o.input))).1 same) refl)

  -- A request with a key that is sent again, after any moves of the runner and of its callers, is
  -- answered with the job of the operation that the first one was answered with, as its row is then,
  -- and nothing is written, whatever id and time the second call has. Where the row does not parse
  -- the answer is that error.
  pub enqueue-Later :
      (w v : World) (o : EnqueueOptions) (id later_id : String) (now later : ℕ) (store' : Store)
      (job : Job Recovery)
      → o.idempotency_key ≢ ""
      → Reachable json digest w
      → enqueue json digest w.store o id now ≡ ok (store', job)
      → Later (record w { store = store' }) v
      → (r : Row) × (find (requested_with (request_key digest o)) v.store.operations ≡ some r)
        × (r.id ≡ job.id)
        × (enqueue json digest v.store o later_id later
            ≡ (job_of json r >>= λ again. ok (v.store, again)))
  enqueue-Later w v o id later_id now later store' job set reached h moves =
      let (after, asked) = enqueue-Asked w o id now store' job set reached h in
      let (keyed, (r, found, named, same)) = Asked-Later _ _ _ _ v after moves asked in
      (r, found, named, answered v.store o later_id later r found same)
