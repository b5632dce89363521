-- ===== src/Ops/Filling.antt =====
-- internal/ops/ops.go: fill, which claims queued jobs for their lanes, and the end of their
-- goroutines. ORDER BY is the parameter `ordered`.
use ludock.Common.{
  String, Bool, false, Option, none, some, List, [], ◌∷◌, ◌||◌, ◌-◌, ◌+◌, string_eq, find,
  if◌then◌else◌, not, select, contains, is_empty, leb,
}
use ludock.Database.{delete_where}
use ludock.Ops.Job.{Json, Row, is_queued}
use ludock.Ops.Runner.{
  Lane, lane_beq, lane_capacity, is_returned, Task, World, lane_load, lanes_full, without, lane_for,
  runs, at, lifecycle_lane, data_lane, starting,
}

-- The first half of fill: the rows that are queued are read where work may be claimed.
unfoldable pub look : (ordered : List Row → List Row) → World → World
look ordered w =
    if not w.enabled || not (is_empty w.yielded) || lanes_full w
    then w
    else record w { filling = ordered (select (λ r. is_queued r.status) w.store.operations) }

abbrev pub add_task : Lane → Row → World → World
add_task lane r w = record w {
  claimed = r.id ∷ w.claimed;
  tasks = record { row = r; lane = lane; stage = starting } ∷ w.tasks;
  lifecycle_load = w.lifecycle_load + (if lane_beq lane lifecycle_lane then 1 else 0);
  data_load = w.data_load + (if lane_beq lane data_lane then 1 else 0);
}

abbrev pub passed_over : Lane → Row → World → Bool
passed_over lane r w =
    not w.enabled
    || contains w.claimed r.id
    || contains w.waiting r.id
    || leb (lane_capacity lane) (lane_load lane w)

module _ {Recovery : Type 0} (json : Json Recovery) where
  unfoldable pub claim_row : Row → World → World
  claim_row r w =
      let lane = lane_for json r in if passed_over lane r w then w else add_task lane r w

  unfoldable pub claim_rows : List Row → World → World
  claim_rows [] w = w
  claim_rows (r ∷ rs) w = claim_rows rs (claim_row r w)

  -- The second half of fill.
  unfoldable pub fill : World → World
  fill w = claim_rows w.filling (record w { filling = [] })

abbrev pub leave_at : String → World → Option Task → World
leave_at id w none = w
leave_at id w (some t) = record w {
  claimed = without id w.claimed;
  yielded = without id w.yielded;
  tasks = delete_where (runs id) w.tasks;
  lifecycle_load = w.lifecycle_load - (if lane_beq t.lane lifecycle_lane then 1 else 0);
  data_load = w.data_load - (if lane_beq t.lane data_lane then 1 else 0);
}

-- What the goroutine does after run.
unfoldable pub leave : String → World → World
leave id w = leave_at id w (find (at is_returned id) w.tasks)

unfoldable pub stop : World → World
stop w = record w { enabled = false }
