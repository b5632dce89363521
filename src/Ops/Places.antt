-- ===== src/Ops/Places.antt =====
-- internal/ops/ops.go: reasoning about a goroutine that moves from one place of run to another.
use ludock.Common.{
  String, Bool, true, false, none, some, List, ◌≡◌, refl, arith, find, any, ◌==◌, ◌&&◌, string_eq,
  option_in,
}
use ludock.Database.{update_where, any-update_where, any-update_where_back, any-update_where_off}
use ludock.Ops.Job.{Row, has_id, is_running}
use ludock.Ops.Runner.{World, Task, Stage, when_at, at, is_executing, runs, set_stage}

-- What holds before a move, and after it wherever the goroutine is at its place, holds after it.
pub when_at-holds :
    (P : World → Type 0) (stage : Stage → Bool) (id : String) (w : World) (move : Row → World)
    → P w
    → ((t : Task) → find (at stage id) w.tasks ≡ some t → P (move t.row))
    → P (when_at stage id w move)
when_at-holds P stage id w move stays moves =
    option_in (λ o. P (elim o [ none ↦ w | some t ↦ move t.row ])) (find (at stage id) w.tasks)
      stays moves

abbrev pub running_row : String → Row → Bool
running_row id r = has_id id r && is_running r.status

pub same_id : (a b : String) → (a == b) ≡ true → a ≡ b
same_id a b = (string_eq.beq_iff a b).0

-- Where a goroutine leaves a place that is no handler, no other enters one.
pub set_stage-back :
    (i id : String) (stage : Stage) (tasks : List Task)
    → is_executing stage ≡ false
    → any (at is_executing i) (set_stage id stage tasks) ≡ true
    → any (at is_executing i) tasks ≡ true
set_stage-back i id stage tasks h =
    any-update_where_back (runs id) (at is_executing i) _ tasks (λ t k l. ground arith)

-- Neither a task nor a row of another id is touched.
pub other_task :
    (i id : String) (stage : Stage) (tasks : List Task)
    → (id == i) ≡ false
    → any (at is_executing i) (set_stage id stage tasks) ≡ any (at is_executing i) tasks
other_task i id stage tasks other =
    any-update_where (runs id) (at is_executing i) _ tasks
      (λ t h. rw (same_id t.row.id id h) (rw other refl))

pub left_task :
    (i id : String) (stage : Stage) (tasks : List Task)
    → is_executing stage ≡ false
    → (id == i) ≡ true
    → any (at is_executing i) (set_stage id stage tasks) ≡ false
left_task i id stage tasks off same =
    any-update_where_off (runs id) (at is_executing i) _ tasks
      (λ t h. rw (same_id id i same) (ground arith)) (λ t h. ground arith)

pub other_row :
    (i id : String) (f : Row → Row) (rows : List Row)
    → ((r : Row) → has_id i (f r) ≡ has_id i r)
    → (id == i) ≡ false
    → any (running_row i) (update_where (has_id id) f rows) ≡ any (running_row i) rows
other_row i id f rows kept other =
    any-update_where (has_id id) (running_row i) f rows
      (λ r h. rw (kept r) (rw (same_id r.id id h) (rw other refl)))
