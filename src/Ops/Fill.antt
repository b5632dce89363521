-- ===== src/Ops/Fill.antt =====
-- internal/ops/ops.go: fill leaves no queued job behind that it could claim.
use ludock.Common.{◌||◌, not, contains, nat_beq, Bool, string_eq}
use ludock.Database.{count_where}
use ludock.Ops.Loads.{in_lane}
use ludock.Ops.Job.{Json, Row}
use ludock.Ops.Runner.{lane_capacity, World, lane_for}
use ludock.Ops.Filling.{passed_over}

module _ {Recovery : Type 0} (json : Json Recovery) where
  abbrev settled_row : World → Row → Bool
  settled_row w r = passed_over (lane_for json r) r w

  -- A row that need not be claimed: the runner has stopped, the row has a goroutine or waits for the
  -- cleanup of another, or the goroutines of its lane are as many as it has places.
  abbrev pub attended : World → Row → Bool
  attended w r =
      not w.enabled
      || contains w.claimed r.id
      || contains w.waiting r.id
      || nat_beq (count_where (in_lane (lane_for json r)) w.tasks) (lane_capacity (lane_for json r))
