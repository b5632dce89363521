-- ===== src/Ops/Running.antt =====
-- internal/ops/ops.go: a job is in its handler only while its row is saved as running.
use ludock.Common.{
  ℕ, String, Bool, true, false, Option, List, [], ◌∷◌, ◌≡◌, refl, ◌∙◌, arith, find, any, Result,
  Bool-cases, inl, inr, ◌==◌, string_eq, if◌then◌else◌, option_in, if_in,
}
use ludock.Database.{
  update_where, any-update_where, any-update_where_back, any-update_where_on, any-delete_where_back,
}
use ludock.Ops.Job.{Json, Row, Job, Store, has_id, Object}
use ludock.Ops.Queue.{
  progress, start_row, requeue_row, finish_row, progress_row, finish, or_else, saved_progress,
  committed_store, claimable, set_running, set_progress,
}
use ludock.Ops.Requests.{enqueue-cases}
use ludock.Ops.Runner.{
  World, Task, Stage, executing, requeued, held, returned, Reply, busy, errored, completed, at,
  is_starting, is_executing, runs, set_stage, lane_for, is_returned,
}
use ludock.Ops.Filling.{look, fill, leave, stop, claim_row, claim_rows, passed_over, leave_at}
use ludock.Ops.Turns.{
  start, execute, settle, hold, wait, release_waiting, resume, give_up, resumed, resume_with,
  set_row, resumable,
}
use ludock.Ops.Restart.{restart}
use ludock.Ops.Moves.{
  Step, Reachable, enqueues, progresses, looks, fills, starts, executes, holds, waits, releases,
  resumes, locks, gives_up, leaves, stops, restarts, others, created, stepped,
}
use ludock.Ops.Places.{
  when_at-holds, running_row, same_id, set_stage-back, other_task, left_task, other_row,
}

-- In its handler only with a row that is running.
abbrev Backed : String → World → Type 0
Backed i w = any (at is_executing i) w.tasks ≡ true → any (running_row i) w.store.operations ≡ true

no_true : {A : Type 0} (b : Bool) → b ≡ false → b ≡ true → A
no_true b off on = cc

start_rows-other :
    (i id : String) (now : ℕ) (rows : List Row)
    → (id == i) ≡ false
    → any (running_row i) (update_where (claimable id) (set_running now) rows)
      ≡ any (running_row i) rows
start_rows-other i id now rows other =
    any-update_where (claimable id) (running_row i) (set_running now) rows
      (λ r k. rw (same_id r.id id (ground arith)) (rw other refl))

started-running :
    (i id : String) (now : ℕ) (rows : List Row) (tasks : List Task) (claimed : Bool)
    → any (claimable id) rows ≡ claimed
    → (id == i) ≡ true
    → any (at is_executing i) (set_stage id (if claimed then executing else returned) tasks) ≡ true
    → any (running_row i) (update_where (claimable id) (set_running now) rows) ≡ true
started-running i id now rows tasks true claimed same h =
    any-update_where_on (claimable id) (running_row i) (set_running now) rows
      (λ r k. rw (← same_id id i same) (ground arith)) claimed
started-running i id now rows tasks false stale same h =
    no_true _ (left_task i id returned tasks refl same) h

Backed-start : (i id : String) (now : ℕ) (w : World) → Backed i w → Backed i (start id now w)
unfolding start start_row
Backed-start i id now w h =
    let claimed = any (claimable id) w.store.operations in
    when_at-holds (Backed i) is_starting id w _ h (λ t found in_handler.
      elim (Bool-cases (id == i)) [
        | inr other ↦ rw (start_rows-other i id now w.store.operations other) (
            h (
              rw (← other_task i id (if claimed then executing else returned) w.tasks other)
                in_handler))
        | inl same ↦
            started-running i id now w.store.operations w.tasks claimed refl same in_handler
      ])

Backed-settled :
    (i id : String) (stage : Stage) (f : Row → Row) (w : World)
    → is_executing stage ≡ false
    → ((r : Row) → has_id i (f r) ≡ has_id i r)
    → Backed i w
    → any (at is_executing i) (set_stage id stage w.tasks) ≡ true
    → any (running_row i) (update_where (has_id id) f w.store.operations) ≡ true
Backed-settled i id stage f w off kept h in_handler = elim (Bool-cases (id == i)) [
  | inl same ↦ no_true _ (left_task i id stage w.tasks off same) in_handler
  | inr other ↦
      rw (other_row i id f w.store.operations kept other)
        (h (set_stage-back i id stage w.tasks off in_handler))
]

module _ {Recovery : Type 0} (json : Json Recovery) where
  Backed-settle :
      (i : String) (reply : Reply) (r : Row) (now : ℕ) (w : World)
      → Backed i w
      → Backed i (settle json reply r now w)
  unfolding settle requeue_row finish finish_row
  Backed-settle i (busy holds_queue) r now w h =
      Backed-settled i r.id (requeued holds_queue) _ w refl (λ r. refl) h
  Backed-settle i (errored message) r now w h =
      Backed-settled i r.id returned _ w refl (λ r. refl) h
  Backed-settle i (completed result) r now w h =
      Backed-settled i r.id returned _ w refl (λ r. refl) h

  claim_row-back :
      (i : String) (r : Row) (w : World)
      → any (at is_executing i) (claim_row json r w).tasks ≡ true
      → any (at is_executing i) w.tasks ≡ true
  unfolding claim_row
  claim_row-back i r w =
      if_in
        (λ (v : World).
          any (at is_executing i) v.tasks ≡ true → any (at is_executing i) w.tasks ≡ true)
        (passed_over (lane_for json r) r w) (λ p h. h) (λ p h. ground arith)

  claim_rows-back :
      (i : String) (rs : List Row) (w : World)
      → any (at is_executing i) (claim_rows json rs w).tasks ≡ true
      → any (at is_executing i) w.tasks ≡ true
  unfolding claim_rows
  claim_rows-back i [] w h = h
  claim_rows-back i (r ∷ rs) w h =
      claim_row-back i r w (claim_rows-back i rs (claim_row json r w) h)

  claim_row-store : (r : Row) (w : World) → (claim_row json r w).store ≡ w.store
  unfolding claim_row
  claim_row-store r w =
      if_in (λ (v : World). v.store ≡ w.store) (passed_over (lane_for json r) r w) (λ p. refl)
        (λ p. refl)

  pub claim_rows-store : (rs : List Row) (w : World) → (claim_rows json rs w).store ≡ w.store
  unfolding claim_rows
  claim_rows-store [] w = refl
  claim_rows-store (r ∷ rs) w = claim_rows-store rs (claim_row json r w) ∙ claim_row-store r w

Backed-stays :
    (i id : String) (stage : Stage) (w : World)
    → is_executing stage ≡ false
    → Backed i w
    → any (at is_executing i) (set_stage id stage w.tasks) ≡ true
    → any (running_row i) w.store.operations ≡ true
Backed-stays i id stage w off h in_handler = h (set_stage-back i id stage w.tasks off in_handler)

set_row-back :
    (i id : String) (r : Row) (tasks : List Task)
    → any (at is_executing i) (set_row id r tasks) ≡ true
    → any (at is_executing i) tasks ≡ true
set_row-back i id r tasks h =
    any-update_where_back (runs id) (at is_executing i) _ tasks (λ t k l. ground arith) h

Backed-resumed : (i id : String) (w : World) → Backed i w → Backed i (resumed id w)
Backed-resumed i id w h =
    option_in (λ o. Backed i (resume_with id w o)) (find (has_id id) w.store.operations)
      (Backed-stays i id returned w refl h)
      (λ r found.
        if_in (Backed i) (resumable w r)
          (λ e in_handler. h (set_row-back i id r w.tasks in_handler))
          (λ e. Backed-stays i id returned w refl h))

module _ {Recovery : Type 0} (json : Json Recovery) (digest : String → String) where
  pub progress-holds :
      (P : List Row → Type 0) (store : Store) (job : Job Recovery) (phase : String)
      (change : Recovery → Recovery) (result : Option Object) (now : ℕ)
      → P store.operations
      → ((recovery : String) (saved : Option String)
          → P (progress_row job.id phase recovery saved now store.operations))
      → P (committed_store store (progress json store job phase change result now)).operations
  unfolding progress saved_progress
  progress-holds P store job phase change result now stays writes =
      let merged = change job.recovery in
      let answer : Option String → Result (Store × Job Recovery) =
        saved_progress json store job phase merged (or_else result job.result) now in
      option_in (λ o. P (committed_store store (answer o)).operations) (json.recovery_text merged)
        stays (λ recovery e. writes recovery _)

  progress-running :
      (i id phase recovery : String) (saved : Option String) (now : ℕ) (rows : List Row)
      → any (running_row i) (progress_row id phase recovery saved now rows)
        ≡ any (running_row i) rows
  unfolding progress_row
  progress-running i id phase recovery saved now rows =
      any-update_where (has_id id) (running_row i) (set_progress phase recovery saved now) rows
        (λ r k. refl)

  Backed-Step : (i : String) {w v : World} → Step json digest w v → Backed i w → Backed i v
  unfolding look fill execute hold wait release_waiting resume give_up leave stop restart
  Backed-Step i (enqueues {w} o id now) h = λ in_handler.
      enqueue-cases json digest (λ rows. any (running_row i) rows ≡ true) w.store o id now _ refl
        (h in_handler) (λ free valid. let before = h in_handler in ground arith)
  Backed-Step i (progresses {w} job phase change result now) h = λ in_handler.
      progress-holds (λ rows. any (running_row i) rows ≡ true) w.store job phase change result now
        (h in_handler)
        (λ recovery saved.
          rw (progress-running i job.id phase recovery saved now w.store.operations) (h in_handler))
  Backed-Step i (looks {w} ordered) h = if_in (Backed i) _ (λ e. h) (λ e. h)
  Backed-Step i (fills {w}) h = λ in_handler.
      rw (claim_rows-store json w.filling (record w { filling = [] }))
        (h (claim_rows-back json i w.filling (record w { filling = [] }) in_handler))
  Backed-Step i (starts {w} id now) h = Backed-start i id now w h
  Backed-Step i (executes {w} reply id now) h =
      when_at-holds (Backed i) _ id w _ h (λ t found. Backed-settle json i reply t.row now w h)
  Backed-Step i (holds {w} id) h =
      when_at-holds (Backed i) _ id w _ h (λ t found. Backed-stays i id held w refl h)
  Backed-Step i (waits {w} id) h =
      when_at-holds (Backed i) _ id w _ h (λ t found. Backed-stays i id returned w refl h)
  Backed-Step i (releases {w} id) h = h
  Backed-Step i (resumes {w} id) h =
      when_at-holds (Backed i) _ id w _ h (λ t found. Backed-resumed i id w h)
  Backed-Step i (locks {w} id) h = h
  Backed-Step i (gives_up {w} id) h =
      when_at-holds (Backed i) _ id w _ h (λ t found. Backed-stays i id returned w refl h)
  Backed-Step i (leaves {w} id) h =
      option_in (λ o. Backed i (leave_at id w o)) (find (at is_returned id) w.tasks) h
        (λ t found in_handler.
          h (any-delete_where_back (runs id) (at is_executing i) w.tasks in_handler))
  Backed-Step i (stops {w}) h = h
  Backed-Step i (restarts {w} outcome now) h = λ in_handler. cc
  Backed-Step i (others {w} db) h = h

  -- However calls, handlers and goroutines interleave, and whenever the process restarts, a job is
  -- in its handler only while its row is saved as running.
  pub running-Reachable :
      (w : World) (id : String)
      → Reachable json digest w
      → any (at is_executing id) w.tasks ≡ true
      → any (running_row id) w.store.operations ≡ true
  running-Reachable _ id (created db) h = cc
  running-Reachable _ id (stepped r s) h = Backed-Step id s (running-Reachable _ id r) h
