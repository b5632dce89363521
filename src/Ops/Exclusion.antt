-- ===== src/Ops/Exclusion.antt =====
-- internal/ops/ops.go: no two operations act on a server together.
use ludock.Common.{
  String, true, List, ◌≡◌, refl, sym, ◌∙◌, ◌≤◌, arith, any, Bool-cases, inl, inr, ◌==◌, ◌&&◌,
  string_eq, find-holds,
}
use ludock.Database.{
  count_where, count-update_where, count-update_where_le, count-any, count-update_where_key,
  count-cons_fresh, any-meet, any-implies, any-find,
}
use ludock.Ops.Job.{Json, Row, has_id, active_on, is_running}
use ludock.Ops.Queue.{
  start_row, requeue_row, finish_row, progress_row, claimable, set_running, set_queued,
  set_finished, set_progress,
}
use ludock.Ops.Runner.{World, at, is_executing}
use ludock.Ops.Moves.{Reachable, created, stepped}
use ludock.Ops.Running.{running-Reachable}
use ludock.Ops.Table.{OneRow, Kept, Step-kept}

same_text : (a b : String) → (a == b) ≡ true → a ≡ b
same_text a b = (string_eq.beq_iff a b).0

abbrev pub Keyed : List Row → Type 0
Keyed rows = (id : String) → OneRow id rows

pub Keyed-Kept : Kept Keyed
unfolding start_row requeue_row finish_row progress_row
Keyed-Kept = record {
  keys = λ rows h. h;
  inserts = λ rows r fresh unrequested free fresh_status h id. elim (Bool-cases (r.id == id)) [
    | inl same ↦
        count-cons_fresh (has_id id) r rows (count-any _ rows (rw (← same_text r.id id same) fresh))
    | inr other ↦ rw other (h id)
  ];
  starts = λ i now rows h id.
      rw (count-update_where (claimable i) (has_id id) (set_running now) rows (λ r k. refl)) (h id);
  requeues = λ i now rows live h id.
      rw (count-update_where (has_id i) (has_id id) (set_queued now) rows (λ r k. refl)) (h id);
  finishes = λ i status result error now rows live ended h id.
      rw
        (count-update_where (has_id i) (has_id id) (set_finished status result error now) rows
          (λ r k. refl))
        (h id);
  progresses = λ i phase recovery result now rows h id.
      rw
        (count-update_where (has_id i) (has_id id) (set_progress phase recovery result now) rows
          (λ r k. refl))
        (h id);
}

-- With the key, at most one operation of the server is queued or running.
abbrev OneActive : String → List Row → Type 0
OneActive server rows = Keyed rows × (count_where (active_on server) rows ≤ 1)

OneActive-Kept : (server : String) → Kept (OneActive server)
unfolding start_row requeue_row finish_row progress_row
OneActive-Kept server = record {
  keys = λ rows h. h.0;
  inserts = λ rows r fresh unrequested free fresh_status h. (
    Keyed-Kept.inserts rows r fresh unrequested free fresh_status h.0,
    elim (Bool-cases (r.server_id == server)) [
      | inl same ↦
          count-cons_fresh (active_on server) r rows
            (count-any _ rows (rw (← same_text r.server_id server same) free))
      | inr other ↦ rw other h.1
    ],
  );
  starts = λ i now rows h. (
    Keyed-Kept.starts i now rows h.0,
    rw
        (count-update_where (claimable i) (active_on server) (set_running now) rows
          (λ r k. ground arith))
        h.1,
  );
  requeues = λ i now rows live h. (
    Keyed-Kept.requeues i now rows live h.0,
    rw
        (count-update_where_key (has_id i) (active_on server) (λ r. is_running r.status)
          (set_queued now) rows (h.0 i) live (λ r k l. ground arith))
        h.1,
  );
  finishes = λ i status result error now rows live ended h. (
    Keyed-Kept.finishes i status result error now rows live ended h.0,
    let fewer =
          count-update_where_le (has_id i) (active_on server) (set_finished status result error now)
            rows (λ r k l. ground arith) in
        omega (arith, h.1, fewer),
  );
  progresses = λ i phase recovery result now rows h. (
    Keyed-Kept.progresses i phase recovery result now rows h.0,
    rw
        (count-update_where (has_id i) (active_on server) (set_progress phase recovery result now)
          rows (λ r k. refl))
        h.1,
  );
}

module _ {Recovery : Type 0} (json : Json Recovery) (digest : String → String) where
  pub Keyed-Reachable : (w : World) → Reachable json digest w → Keyed w.store.operations
  Keyed-Reachable _ (created db) = λ id. omega arith
  Keyed-Reachable _ (stepped r s) = Step-kept json Keyed Keyed-Kept digest r s (Keyed-Reachable _ r)

  -- However calls, handlers and goroutines interleave, and whenever the process restarts, ids are
  -- unique and no server has two operations that are queued or running.
  pub OneActive-Reachable :
      (w : World) (server id : String)
      → Reachable json digest w
      → (count_where (has_id id) w.store.operations ≤ 1)
        × (count_where (active_on server) w.store.operations ≤ 1)
  OneActive-Reachable w server id reached = let h = all_rows server w reached in (h.0 id, h.1)
    where
      all_rows :
          (server : String) (w : World)
          → Reachable json digest w
          → OneActive server w.store.operations
      all_rows server _ (created db) = (λ i. omega arith, omega arith)
      all_rows server _ (stepped r s) =
          Step-kept json (OneActive server) (OneActive-Kept server) digest r s (all_rows server _ r)

  handled :
      (w : World) (server id : String)
      → Reachable json digest w
      → any (at is_executing id) w.tasks ≡ true
      → any (λ r. has_id id r && r.server_id == server) w.store.operations ≡ true
      → any (λ r. active_on server r && has_id id r) w.store.operations ≡ true
  handled w server id reached in_handler here =
      any-implies (λ r. has_id id r && (is_running r.status && r.server_id == server)) _
        w.store.operations (λ r h. ground arith)
        (any-meet (has_id id) (λ r. is_running r.status) (λ r. r.server_id == server)
          w.store.operations (OneActive-Reachable w server id reached).0
          (running-Reachable json digest w id reached in_handler) here)

  -- Two jobs that are in their handlers are never on one server.
  pub exclusion-Reachable :
      (w : World) (server id other : String)
      → Reachable json digest w
      → any (at is_executing id) w.tasks ≡ true
      → any (at is_executing other) w.tasks ≡ true
      → any (λ r. has_id id r && r.server_id == server) w.store.operations ≡ true
      → any (λ r. has_id other r && r.server_id == server) w.store.operations ≡ true
      → id ≡ other
  exclusion-Reachable w server id other reached h k here there =
      let (r, found) = any-find _ w.store.operations (
        any-meet (active_on server) (has_id id) (has_id other) w.store.operations
          (OneActive-Reachable w server id reached).1 (handled w server id reached h here)
          (handled w server other reached k there)) in
      let both = find-holds _ w.store.operations r found in
      let a = same_text r.id id (ground arith) in
      let b = same_text r.id other (ground arith) in sym a ∙ b
