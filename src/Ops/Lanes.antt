-- ===== src/Ops/Lanes.antt =====
-- internal/ops/ops.go: one goroutine per claimed job, and no lane beyond its capacity.
use ludock.Common.{
  ℕ, String, true, false, not, List, [], ◌∷◌, ◌≡◌, ◌≤◌, arith, any, find, contains, ◌||◌, string_eq,
  option_in, if_in, find-holds,
}
use ludock.Database.{count_where}
use ludock.Ops.Job.{Json, Row, has_id}
use ludock.Ops.Runner.{
  World, starting, requeued, held, returned, Lane, lifecycle_lane, data_lane, lane_capacity,
  lane_load, lane_for, Reply, busy, errored, completed, at, is_returned, runs,
}
use ludock.Ops.Filling.{
  look, fill, leave, stop, add_task, passed_over, claim_row, claim_rows, leave_at,
}
use ludock.Ops.Turns.{
  start, execute, settle, hold, wait, release_waiting, resume, give_up, resume_with, resumable,
}
use ludock.Ops.Restart.{restart}
use ludock.Ops.Moves.{
  Step, Reachable, enqueues, progresses, looks, fills, starts, executes, holds, waits, releases,
  resumes, locks, gives_up, leaves, stops, restarts, others, created, stepped,
}
use ludock.Ops.Places.{when_at-holds}
use ludock.Ops.Loads.{
  Sound-leave, empty_Sound, in_lane, SoundWorld, Sound-set_stage, Sound-set_row, Sound-add,
}

module _ {Recovery : Type 0} (json : Json Recovery) where
  Sound-claim_row : (r : Row) (w : World) → SoundWorld w → SoundWorld (claim_row json r w)
  unfolding claim_row
  Sound-claim_row r w h =
      if_in SoundWorld (passed_over (lane_for json r) r w) (λ passed. h)
        (λ open_lane. go (lane_for json r) open_lane)
    where
      go : (lane : Lane) → passed_over lane r w ≡ false → SoundWorld (add_task lane r w)
      go lifecycle_lane e =
          Sound-add lifecycle_lane r starting w.claimed w.lifecycle_load w.data_load w.tasks
            (ground arith) (ground arith) (let b = h.data_bound in omega arith) h
      go data_lane e =
          Sound-add data_lane r starting w.claimed w.lifecycle_load w.data_load w.tasks
            (ground arith) (let b = h.lifecycle_bound in omega arith) (ground arith) h

  Sound-claim_rows : (rs : List Row) (w : World) → SoundWorld w → SoundWorld (claim_rows json rs w)
  unfolding claim_rows
  Sound-claim_rows [] w h = h
  Sound-claim_rows (r ∷ rs) w h = Sound-claim_rows rs (claim_row json r w) (Sound-claim_row r w h)

  Sound-settle :
      (reply : Reply) (r : Row) (now : ℕ) (w : World)
      → SoundWorld w
      → SoundWorld (settle json reply r now w)
  unfolding settle
  Sound-settle (busy holds_queue) r now w = Sound-set_stage r.id (requeued holds_queue)
  Sound-settle (errored message) r now w = Sound-set_stage r.id returned
  Sound-settle (completed result) r now w = Sound-set_stage r.id returned

module _ {Recovery : Type 0} (json : Json Recovery) (digest : String → String) where
  Sound-Step : {w v : World} → Step json digest w v → SoundWorld w → SoundWorld v
  unfolding look fill start execute hold wait release_waiting resume give_up leave stop restart
  Sound-Step (enqueues o id now) h = h
  Sound-Step (progresses job phase change result now) h = h
  Sound-Step (looks {w} ordered) h = if_in SoundWorld _ (λ e. h) (λ e. h)
  Sound-Step (fills {w}) h = Sound-claim_rows json w.filling (record w { filling = [] }) h
  Sound-Step (starts {w} id now) h =
      when_at-holds SoundWorld _ id w _ h (λ t found. Sound-set_stage id _ h)
  Sound-Step (executes {w} reply id now) h =
      when_at-holds SoundWorld _ id w _ h (λ t found. Sound-settle json reply t.row now w h)
  Sound-Step (holds {w} id) h =
      when_at-holds SoundWorld _ id w _ h (λ t found. Sound-set_stage id held h)
  Sound-Step (waits {w} id) h =
      when_at-holds SoundWorld _ id w _ h (λ t found. Sound-set_stage id returned h)
  Sound-Step (releases id) h = h
  Sound-Step (resumes {w} id) h = when_at-holds SoundWorld _ id w _ h (λ t found.
      option_in (λ o. SoundWorld (resume_with id w o)) (find (has_id id) w.store.operations)
        (Sound-set_stage id returned h)
        (λ r current.
          if_in SoundWorld (resumable w r)
            (λ e. Sound-set_row id r (find-holds (has_id id) w.store.operations r current) h)
            (λ e. Sound-set_stage id returned h)))
  Sound-Step (locks id) h = h
  Sound-Step (gives_up {w} id) h =
      when_at-holds SoundWorld _ id w _ h (λ t found. Sound-set_stage id returned h)
  Sound-Step (leaves {w} id) h =
      option_in (λ o. SoundWorld (leave_at id w o)) (find (at is_returned id) w.tasks) h
        (λ t found. Sound-leave id t w.claimed w.lifecycle_load w.data_load w.tasks found h)
  Sound-Step stops h = h
  Sound-Step (restarts outcome now) h = empty_Sound
  Sound-Step (others db) h = h

  Sound-Reachable : (w : World) → Reachable json digest w → SoundWorld w
  Sound-Reachable _ (created db) = empty_Sound
  Sound-Reachable _ (stepped r s) = Sound-Step s (Sound-Reachable _ r)

  -- However calls, handlers and goroutines interleave, and whenever the process restarts, a job has
  -- one goroutine at most, and then it is claimed; the load of each lane is the number of its
  -- goroutines, and no more than its capacity.
  pub lanes-Reachable :
      (w : World) (id : String) (lane : Lane)
      → Reachable json digest w
      → (count_where (runs id) w.tasks ≤ 1)
        × ((not (any (runs id) w.tasks) || contains w.claimed id) ≡ true)
        × (lane_load lane w ≡ count_where (in_lane lane) w.tasks)
        × (lane_load lane w ≤ lane_capacity lane)
  lanes-Reachable w id lane reached =
      let h = Sound-Reachable w reached in
      let claimed = h.kept id in
      let (load, bound) = of_lane lane h in (h.single id, ground arith, load, bound)
    where
      of_lane :
          (lane : Lane)
          → SoundWorld w
          → (lane_load lane w ≡ count_where (in_lane lane) w.tasks)
            × (lane_load lane w ≤ lane_capacity lane)
      of_lane lifecycle_lane h = (h.lifecycle_counted, h.lifecycle_bound)
      of_lane data_lane h = (h.data_counted, h.data_bound)
