-- ===== src/Ops/Ended.antt =====
-- internal/ops/ops.go: an operation that has ended stays as it ended.
use ludock.Common.{
  ℕ, String, Bool, true, false, List, ◌≡◌, refl, arith, any, nat_beq, ◌&&◌, string_eq,
}
use ludock.Database.{any-update_where, any-update_where_key}
use ludock.Ops.Job.{
  Json, Row, Status, queued, running, succeeded, already_current, failed, interrupted, has_id,
  is_running, is_active,
}
use ludock.Ops.Queue.{
  start_row, requeue_row, finish_row, progress_row, claimable, set_running, set_queued,
  set_finished, set_progress,
}
use ludock.Ops.Runner.{World}
use ludock.Ops.Moves.{Step, Reachable}
use ludock.Ops.Table.{Kept, Step-kept}
use ludock.Ops.Exclusion.{Keyed, Keyed-Kept, Keyed-Reachable}

abbrev status_code : Status → ℕ
status_code queued = 0
status_code running = 1
status_code succeeded = 2
status_code already_current = 3
status_code failed = 4
status_code interrupted = 5

-- The row of the operation, with the status.
abbrev pub has_status : String → Status → Row → Bool
has_status id status r = has_id id r && nat_beq (status_code r.status) (status_code status)

abbrev Ended : String → Status → List Row → Type 0
Ended id status rows = Keyed rows × (any (has_status id status) rows ≡ true)

Ended-Kept : (id : String) (status : Status) → is_active status ≡ false → Kept (Ended id status)
unfolding start_row requeue_row finish_row progress_row
Ended-Kept id status over = record {
  keys = λ rows h. h.0;
  inserts = λ rows r fresh unrequested free fresh_status h. (
    Keyed-Kept.inserts rows r fresh unrequested free fresh_status h.0,
    let e = h.1 in ground arith,
  );
  starts = λ i now rows h. (
    Keyed-Kept.starts i now rows h.0,
    rw
        (any-update_where (claimable i) (has_status id status) (set_running now) rows
          (λ r k. ground arith))
        h.1,
  );
  requeues = λ i now rows live h. (
    Keyed-Kept.requeues i now rows live h.0,
    any-update_where_key (has_id i) (has_status id status) (λ r. is_running r.status)
        (set_queued now) rows (h.0 i) live (λ r l. ground arith) h.1,
  );
  finishes = λ i outcome result error now rows live ended h. (
    Keyed-Kept.finishes i outcome result error now rows live ended h.0,
    any-update_where_key (has_id i) (has_status id status) (λ r. is_running r.status)
        (set_finished outcome result error now) rows (h.0 i) live (λ r l. ground arith) h.1,
  );
  progresses = λ i phase recovery result now rows h. (
    Keyed-Kept.progresses i phase recovery result now rows h.0,
    rw
        (any-update_where (has_id i) (has_status id status) (set_progress phase recovery result now)
          rows (λ r k. refl))
        h.1,
  );
}

module _ {Recovery : Type 0} (json : Json Recovery) (digest : String → String) where
  -- An operation that has ended keeps its status in every move: it is not run, queued or finished
  -- again, and a restart does not mark it as interrupted.
  pub has_status-Step :
      (id : String) (status : Status) (w v : World)
      → Reachable json digest w
      → Step json digest w v
      → is_active status ≡ false
      → any (has_status id status) w.store.operations ≡ true
      → any (has_status id status) v.store.operations ≡ true
  has_status-Step id status w v reached step over h =
      (Step-kept json (Ended id status) (Ended-Kept id status over) digest reached step
        (Keyed-Reachable json digest w reached, h)).1
