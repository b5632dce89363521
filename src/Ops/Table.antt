-- ===== src/Ops/Table.antt =====
-- internal/ops/ops.go: what every move keeps of the table of operations.
use ludock.Common.{
  ℕ, String, Bool, true, false, Option, none, some, List, [], ◌∷◌, ◌≡◌, refl, ◌≤◌, arith, find, any,
  not, Bool-cases, inl, inr, ◌&&◌, string_eq, ==_refl, ==_flip, find-holds, subst, all, select,
  option_in, if_in,
}
use ludock.Database.{
  update_where, count_where, find-any, count-select, all-implies, all-not-any, all-and,
  all-select-any, count-head,
}
use ludock.Ops.Job.{
  Json, Row, Store, Status, queued, has_id, active_on, requested_with, is_running, is_active,
  failed, interrupted, is_true, member,
}
use ludock.Ops.Queue.{
  start_row, requeue_row, finish_row, progress_row, finish, set_finished, result_text,
}
use ludock.Ops.Requests.{enqueue-cases, row_of}
use ludock.Ops.Runner.{
  World, Task, Reply, busy, errored, completed, Recovered, cancelled, unrecovered, recovered, at,
  is_executing, is_returned, or_object,
}
use ludock.Ops.Filling.{look, fill, leave, stop, leave_at}
use ludock.Ops.Turns.{
  start, execute, settle, hold, wait, release_waiting, resume, give_up, resume_with, resumable,
  outcome_status,
}
use ludock.Ops.Restart.{
  restart, recover_interrupted, recover_rows, recover_row, attention, restarted,
}
use ludock.Ops.Moves.{
  Step, Reachable, enqueues, progresses, looks, fills, starts, executes, holds, waits, releases,
  resumes, locks, gives_up, leaves, stops, restarts, others,
}
use ludock.Ops.Running.{progress-holds, claim_rows-store, running-Reachable}
use ludock.Ops.Places.{when_at-holds, running_row, other_row}

-- The key of the table.
abbrev pub OneRow : String → List Row → Type 0
OneRow id rows = count_where (has_id id) rows ≤ 1

-- The writes of the table, with what is known when each is made.
pub record Kept (P : List Row → Type 0) : Type 0 where
  pub keys : (rows : List Row) → P rows → (id : String) → OneRow id rows
  pub inserts :
      (rows : List Row) (r : Row)
      → any (has_id r.id) rows ≡ false
      → any (requested_with r.request_key) rows ≡ false
      → any (active_on r.server_id) rows ≡ false
      → r.status ≡ queued
      → P rows
      → P (r ∷ rows)
  pub starts : (id : String) (now : ℕ) (rows : List Row) → P rows → P (start_row id now rows).0
  pub requeues :
      (id : String) (now : ℕ) (rows : List Row)
      → any (running_row id) rows ≡ true
      → P rows
      → P (requeue_row id now rows)
  pub finishes :
      (id : String) (status : Status) (result : Option String) (error : String) (now : ℕ)
      (rows : List Row)
      → any (running_row id) rows ≡ true
      → is_active status ≡ false
      → P rows
      → P (finish_row id status result error now rows)
  pub progresses :
      (id phase recovery : String) (result : Option String) (now : ℕ) (rows : List Row)
      → P rows
      → P (progress_row id phase recovery result now rows)

-- The same for what holds before a move and after it. A move makes one write, but a restart ends
-- several rows; `R` is what holds between them.
pub record Written (P R Q : List Row → Type 0) : Type 0 where
  pub keys : (rows : List Row) → P rows → (id : String) → OneRow id rows
  pub stays : (rows : List Row) → P rows → Q rows
  pub inserts :
      (rows : List Row) (r : Row)
      → any (has_id r.id) rows ≡ false
      → any (requested_with r.request_key) rows ≡ false
      → any (active_on r.server_id) rows ≡ false
      → r.status ≡ queued
      → P rows
      → Q (r ∷ rows)
  pub starts : (id : String) (now : ℕ) (rows : List Row) → P rows → Q (start_row id now rows).0
  pub requeues :
      (id : String) (now : ℕ) (rows : List Row)
      → any (running_row id) rows ≡ true
      → P rows
      → Q (requeue_row id now rows)
  pub finishes :
      (id : String) (status : Status) (result : Option String) (error : String) (now : ℕ)
      (rows : List Row)
      → any (running_row id) rows ≡ true
      → is_active status ≡ false
      → P rows
      → Q (finish_row id status result error now rows)
  pub progresses :
      (id phase recovery : String) (result : Option String) (now : ℕ) (rows : List Row)
      → P rows
      → Q (progress_row id phase recovery result now rows)
  pub restarts : (rows : List Row) → P rows → R rows
  pub recovers :
      (id : String) (result : Option String) (error : String) (now : ℕ) (rows : List Row)
      → any (running_row id) rows ≡ true
      → R rows
      → R (finish_row id interrupted result error now rows)
  pub restarted_all : (rows : List Row) → R rows → Q rows

Written-Kept : (P : List Row → Type 0) → Kept P → Written P P P
Written-Kept P kept = record {
  keys = kept.keys;
  stays = λ rows h. h;
  inserts = kept.inserts;
  starts = kept.starts;
  requeues = kept.requeues;
  finishes = kept.finishes;
  progresses = kept.progresses;
  restarts = λ rows h. h;
  recovers = λ id result error now rows live h.
      kept.finishes id interrupted result error now rows live refl h;
  restarted_all = λ rows h. h;
}

-- The row of a task in its handler is running.
live_row :
    {Recovery : Type 0} {json : Json Recovery} {digest : String → String} (id : String) (w : World)
    (t : Task)
    → find (at is_executing id) w.tasks ≡ some t
    → Reachable json digest w
    → any (running_row t.row.id) w.store.operations ≡ true
live_row id w t found reached =
    let live = running-Reachable _ _ w id reached (find-any (at is_executing id) w.tasks found) in
    let here = find-holds (at is_executing id) w.tasks t found in
    let same : t.row.id ≡ id = (string_eq.beq_iff t.row.id id).0 (ground arith) in rw same live

count-tail :
    {A : Type 0} (p : A → Bool) (x : A) (xs : List A)
    → count_where p (x ∷ xs) ≤ 1
    → count_where p xs ≤ 1
count-tail p x xs h = elim (Bool-cases (p x)) [
  | inl e ↦ let c = rw e at h in omega (arith, c)
  | inr e ↦ let c = rw e at h in omega (arith, c)
]

-- The finish of a recovery is of its own row.
pub recover_row-finish :
    {Recovery : Type 0} (json : Json Recovery) (o : Recovered) (r : Row) (now : ℕ)
    (store saved : Store)
    → recover_row json o r now store ≡ some saved
    → (result : Option String) × (error : String) × (saved.operations
        ≡ update_where (has_id r.id) (set_finished interrupted result error now) store.operations)
unfolding recover_row finish finish_row
recover_row-finish json cancelled r now store saved e = cc
recover_row-finish json unrecovered r now store saved e = (none, attention, cc)
recover_row-finish json (recovered result) r now store saved e =
    (result_text json result, restarted, cc)

-- A recovery leaves the rows of the others running.
still_running :
    {Recovery : Type 0} (json : Json Recovery) (o : Recovered) (r : Row) (now : ℕ)
    (store saved : Store) (rs : List Row)
    → recover_row json o r now store ≡ some saved
    → OneRow r.id (r ∷ rs)
    → all (λ x. any (running_row x.id) store.operations) rs ≡ true
    → all (λ x. any (running_row x.id) saved.operations) rs ≡ true
still_running json o r now store saved rs e once live =
    let (result, error, written) = recover_row-finish json o r now store saved e in
    all-implies (λ x. not (has_id r.id x) && any (running_row x.id) store.operations) _ rs
      (λ x h. rw written (
        rw
          (other_row x.id r.id (set_finished interrupted result error now) store.operations
            (λ y. refl) (==_flip x.id r.id (ground arith)))
          (ground arith)))
      (all-and (λ x. not (has_id r.id x)) _ rs
        (all-not-any (has_id r.id) rs (count-head (has_id r.id) r rs (==_refl r.id) once)) live)

module _ {Recovery : Type 0} (json : Json Recovery) (P R Q : List Row → Type 0)
    (written : Written P R Q) where
  abbrev Holds : World → Type 0
  Holds w = Q w.store.operations

  abbrev Held : World → Type 0
  Held w = P w.store.operations

  abbrev Saved : Option Store → Type 0
  Saved none = Unit
  Saved (some store) = R store.operations

  recover_row-kept :
      (o : Recovered) (r : Row) (now : ℕ) (store : Store)
      → any (running_row r.id) store.operations ≡ true
      → R store.operations
      → Saved (recover_row json o r now store)
  unfolding recover_row finish
  recover_row-kept cancelled r now store live h = tt
  recover_row-kept unrecovered r now store live h =
      written.recovers r.id none attention now _ live h
  recover_row-kept (recovered result) r now store live h =
      written.recovers r.id (result_text json result) restarted now _ live h

  recover_rows-kept :
      (outcome : Row → Recovered) (now : ℕ) (rs : List Row) (store : Store)
      → ((id : String) → OneRow id rs)
      → all (λ r. any (running_row r.id) store.operations) rs ≡ true
      → R store.operations
      → R (recover_rows json outcome now rs store).0.operations
  unfolding recover_rows
  recover_rows-kept outcome now [] store distinct live h = h
  recover_rows-kept outcome now (r ∷ rs) store distinct live h =
      option_in
        (λ o.
          R
            (elim o as (λ _. Store × Bool) [
              | none ↦ (store, false)
              | some saved ↦ recover_rows json outcome now rs saved
            ]).0.operations)
        (recover_row json (outcome r) r now store) h
        (λ saved e.
          recover_rows-kept outcome now rs saved (λ id. count-tail (has_id id) r rs (distinct id))
            (still_running json (outcome r) r now store saved rs e (distinct r.id) (ground arith))
            (subst Saved e (recover_row-kept (outcome r) r now store (ground arith) h)))

  settle-kept :
      (reply : Reply) (r : Row) (now : ℕ) (w : World)
      → any (running_row r.id) w.store.operations ≡ true
      → Held w
      → Holds (settle json reply r now w)
  unfolding settle finish
  settle-kept (busy holds_queue) r now w live h =
      written.requeues r.id now w.store.operations live h
  settle-kept (errored message) r now w live h =
      written.finishes r.id failed none message now _ live refl h
  settle-kept (completed result) r now w live h =
      let o = or_object result in
      written.finishes r.id (outcome_status o) (some (json.object_text o)) "" now _ live
        (if_in (λ s. is_active s ≡ false) (is_true (member "alreadyCurrent" o)) (λ e. refl)
          (λ e. refl))
        h

  pub Step-written :
      (digest : String → String) {w v : World}
      → Reachable json digest w
      → Step json digest w v
      → Held w
      → Holds v
  unfolding look fill start execute hold wait release_waiting resume give_up leave stop restart
      recover_interrupted
  Step-written digest reached (enqueues {w} o id now) h =
      enqueue-cases json digest Q w.store o id now _ refl (written.stays _ h) (λ free valid.
        written.inserts w.store.operations (row_of json digest o id now) (ground arith)
          (ground arith) free refl h)
  Step-written digest reached (progresses {w} job phase change result now) h =
      progress-holds json digest Q w.store job phase change result now (written.stays _ h)
        (λ recovery saved. written.progresses job.id phase recovery saved now w.store.operations h)
  Step-written digest reached (looks {w} ordered) h =
      if_in Holds _ (λ e. written.stays _ h) (λ e. written.stays _ h)
  Step-written digest reached (fills {w}) h =
      rw (claim_rows-store json w.filling (record w { filling = [] })) (written.stays _ h)
  Step-written digest reached (starts {w} id now) h =
      when_at-holds Holds _ id w _ (written.stays _ h)
        (λ t found. written.starts id now w.store.operations h)
  Step-written digest reached (executes {w} reply id now) h =
      when_at-holds Holds _ id w _ (written.stays _ h)
        (λ t found. settle-kept reply t.row now w (live_row id w t found reached) h)
  Step-written digest reached (holds {w} id) h =
      when_at-holds Holds _ id w _ (written.stays _ h) (λ t found. written.stays _ h)
  Step-written digest reached (waits {w} id) h =
      when_at-holds Holds _ id w _ (written.stays _ h) (λ t found. written.stays _ h)
  Step-written digest reached (releases {w} id) h = written.stays _ h
  Step-written digest reached (resumes {w} id) h =
      when_at-holds Holds _ id w _ (written.stays _ h) (λ t found.
        option_in (λ o. Holds (resume_with id w o)) (find (has_id id) w.store.operations)
          (written.stays _ h)
          (λ r current.
            if_in Holds (resumable w r) (λ e. written.stays _ h) (λ e. written.stays _ h)))
  Step-written digest reached (locks {w} id) h = written.stays _ h
  Step-written digest reached (gives_up {w} id) h =
      when_at-holds Holds _ id w _ (written.stays _ h) (λ t found. written.stays _ h)
  Step-written digest reached (leaves {w} id) h =
      option_in (λ o. Holds (leave_at id w o)) (find (at is_returned id) w.tasks)
        (written.stays _ h) (λ t found. written.stays _ h)
  Step-written digest reached (stops {w}) h = written.stays _ h
  Step-written digest reached (restarts {w} outcome now) h =
      let rows = w.store.operations in
      written.restarted_all _ (
        recover_rows-kept outcome now (select (λ r. is_running r.status) rows) w.store
          (λ id.
            let few = written.keys rows h id in
            omega (arith, count-select (λ r. is_running r.status) (has_id id) rows))
          (all-select-any (λ r. is_running r.status) (λ r. running_row r.id) rows
            (λ r running. rw (==_refl r.id) running))
          (written.restarts _ h))
  Step-written digest reached (others {w} db) h = written.stays _ h

pub Step-kept :
    {Recovery : Type 0} (json : Json Recovery) (P : List Row → Type 0)
    → Kept P
    → (digest : String → String) {w v : World} → Reachable json digest w
    → Step json digest w v
    → P w.store.operations
    → P v.store.operations
Step-kept json P kept digest reached step h =
    Step-written json P P P (Written-Kept P kept) digest reached step h
