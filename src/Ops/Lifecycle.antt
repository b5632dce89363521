-- ===== src/Ops/Lifecycle.antt =====
-- internal/ops/ops.go: the life of one operation, as its status alone, and that every run of the
-- runner follows it.
use mathlib.Core.Option
use ludock.Common.{
  sym, ◌∙◌, ap, ◌⊎◌, ℕ, String, Bool, true, false, Option, none, some, List, ◌≡◌, refl, subst,
  arith, any, find, ◌==◌, string_eq, Bool-cases, inl, inr, option_in, if_in, find-holds,
  if◌then◌else◌,
}
use ludock.Database.{update_where, find-update_where, find-any_key, any-find-none}
use ludock.Ops.Job.{
  Json, Row, Status, queued, running, interrupted, has_id, is_running, is_queued, is_active,
}
use ludock.Ops.Queue.{
  start_row, requeue_row, finish_row, progress_row, claimable, set_running, set_queued,
  set_finished, set_progress,
}
use ludock.Ops.Runner.{World}
use ludock.Ops.Moves.{Step, Reachable}
use ludock.Ops.Places.{running_row}
use ludock.Ops.Table.{Written, Step-written}
use ludock.Ops.Exclusion.{Keyed, Keyed-Kept, Keyed-Reachable}

abbrev status_in : Option Row → Option Status
status_in none = none
status_in (some r) = some r.status

-- The abstract view of the table: the status of one operation, where there is one.
abbrev pub status_of : String → List Row → Option Status
status_of id rows = status_in (find (has_id id) rows)

-- The moves that an operation may make.
pub data Turn : Option Status → Option Status → Type 0 where
  queues : Turn none (some queued)
  runs : Turn (some queued) (some running)
  returns : Turn (some running) (some queued)
  ends : (s : Status) → is_active s ≡ false → Turn (some running) (some s)

-- How the status of an operation may change in one move.
abbrev pub Goes : Option Status → Option Status → Type 0
Goes a b = (a ≡ b) ⊎ Turn a b

-- An UPDATE that keeps the ids changes the status of an operation only where it changes its row.
status-update :
    (P : Option Status → Type 0) (id : String) (p : Row → Bool) (f : Row → Row) (rows : List Row)
    → ((r : Row) → has_id id (f r) ≡ has_id id r)
    → ((r : Row)
        → find (has_id id) rows ≡ some r
        → p r ≡ true
        → P (some r.status)
        → P (some (f r).status))
    → P (status_of id rows)
    → P (status_of id (update_where p f rows))
status-update P id p f rows kept moves h =
    rw (find-update_where p (has_id id) f rows (λ r k. kept r)) (
      option_in
        (λ o.
          find (has_id id) rows ≡ o
          → P (status_in o)
          → P (status_in (Option.map (λ x. if p x then f x else x) o)))
        (find (has_id id) rows) (λ e l. l)
        (λ r found e l.
          if_in (λ (x : Row). P (some x.status)) (p r) (λ k. moves r found k l) (λ k. l))
        refl h)

-- Of a row that is found and running.
is_running-status : (s : Status) → is_running s ≡ true → s ≡ running
is_running-status s h = ground arith

is_queued-status : (s : Status) → is_queued s ≡ true → s ≡ queued
is_queued-status s h = ground arith

found_running :
    (i id : String) (rows : List Row) (r : Row)
    → Keyed rows
    → any (running_row i) rows ≡ true
    → find (has_id id) rows ≡ some r
    → has_id i r ≡ true
    → r.status ≡ running
found_running i id rows r keyed live found here =
    let own = find-holds (has_id id) rows r found in
    let same : i ≡ id =
      ground (arith, (string_eq.beq_iff r.id i).0 here, (string_eq.beq_iff r.id id).0 own) in
    is_running-status r.status (
      find-any_key (has_id id) (λ x. is_running x.status) rows r (keyed id) found
        (subst (λ x. any (running_row x) rows ≡ true) same live))

abbrev At : Option Status → String → List Row → Type 0
At a id rows = Keyed rows × (status_of id rows ≡ a)

abbrev Gone : Option Status → String → List Row → Type 0
Gone a id rows = Keyed rows × Goes a (status_of id rows)

-- Between the rows that a restart ends: the row is as it was, or was running and has ended.
abbrev Recovering : Option Status → Option Status → Type 0
Recovering a b = (a ≡ b) ⊎ ((a ≡ some running) × (b ≡ some interrupted))

abbrev Restarting : Option Status → String → List Row → Type 0
Restarting a id rows = Keyed rows × Recovering a (status_of id rows)

-- One write from the status `a`: the row that it changes has that status, and the write is a turn.
one_turn :
    (a : Option Status) (id : String) (p : Row → Bool) (f : Row → Row) (rows : List Row)
    → ((r : Row) → has_id id (f r) ≡ has_id id r)
    → ((r : Row)
        → find (has_id id) rows ≡ some r
        → p r ≡ true
        → Goes (some r.status) (some (f r).status))
    → status_of id rows ≡ a
    → Goes a (status_of id (update_where p f rows))
one_turn a id p f rows kept moves same =
    subst (λ x. Goes x (status_of id (update_where p f rows))) same
      (rw (find-update_where p (has_id id) f rows (λ r k. kept r)) (
        option_in
          (λ o.
            find (has_id id) rows ≡ o
            → Goes (status_in o) (status_in (Option.map (λ x. if p x then f x else x) o)))
          (find (has_id id) rows) (λ e. inl refl)
          (λ r found e.
            if_in (λ (x : Row). Goes (some r.status) (some x.status)) (p r) (λ k. moves r found k)
              (λ k. inl refl))
          refl))

Recovering-Goes : (a b : Option Status) → Recovering a b → Goes a b
Recovering-Goes a b (inl same) = inl same
Recovering-Goes a b (inr (was, is)) = inr (rw was (rw is (ends interrupted refl)))

-- A row that a restart ends is running, so it is the first that is done to it.
recovering :
    (a : Option Status) (id i : String) (result : Option String) (error : String) (now : ℕ)
    (rows : List Row)
    → Keyed rows
    → any (running_row i) rows ≡ true
    → Recovering a (status_of id rows)
    → Recovering a (status_of id (finish_row i interrupted result error now rows))
unfolding finish_row
recovering a id i result error now rows keyed live =
    status-update (Recovering a) id (has_id i) (set_finished interrupted result error now) rows
      (λ r. refl)
      (λ r found here before.
        let is_on = found_running i id rows r keyed live found here in
        elim before [
          | inl same ↦ inr (same ∙ ap some is_on, refl)
          | inr (was, over) ↦ absurd (ground (arith, is_on, over))
        ])

Written-Turn : (a : Option Status) (id : String) → Written (At a id) (Restarting a id) (Gone a id)
unfolding start_row requeue_row finish_row progress_row
Written-Turn a id = record {
  keys = λ rows h. h.0;
  stays = λ rows h. (h.0, inl (sym h.1));
  inserts = λ rows r fresh unrequested free fresh_status h. (
    Keyed-Kept.inserts rows r fresh unrequested free fresh_status h.0,
    elim (Bool-cases (r.id == id)) [
      | inl same ↦
          let missing =
            any-find-none (has_id id) rows (rw (← (string_eq.beq_iff r.id id).0 same) fresh) in
          let none_before : none ≡ a = sym (ap status_in missing) ∙ h.1 in
          rw same (rw fresh_status (inr (subst (λ x. Turn x (some queued)) none_before queues)))
      | inr other ↦ rw other (inl (sym h.1))
    ],
  );
  starts = λ i now rows h. (
    Keyed-Kept.starts i now rows h.0,
    one_turn a id (claimable i) (set_running now) rows (λ r. refl)
        (λ r found k. rw (is_queued-status r.status (ground arith)) (inr runs)) h.1,
  );
  requeues = λ i now rows live h. (
    Keyed-Kept.requeues i now rows live h.0,
    one_turn a id (has_id i) (set_queued now) rows (λ r. refl)
        (λ r found k. rw (found_running i id rows r h.0 live found k) (inr returns)) h.1,
  );
  finishes = λ i outcome result error now rows live ended h. (
    Keyed-Kept.finishes i outcome result error now rows live ended h.0,
    one_turn a id (has_id i) (set_finished outcome result error now) rows (λ r. refl)
        (λ r found k. rw (found_running i id rows r h.0 live found k) (inr (ends outcome ended)))
        h.1,
  );
  progresses = λ i phase recovery result now rows h. (
    Keyed-Kept.progresses i phase recovery result now rows h.0,
    one_turn a id (has_id i) (set_progress phase recovery result now) rows (λ r. refl)
        (λ r found k. inl refl) h.1,
  );
  restarts = λ rows h. (h.0, inl (sym h.1));
  recovers = λ i result error now rows live h. (
    Keyed-Kept.finishes i interrupted result error now rows live refl h.0,
    recovering a id i result error now rows h.0 live h.1,
  );
  restarted_all = λ rows h. (h.0, Recovering-Goes a (status_of id rows) h.1);
}

module _ {Recovery : Type 0} (json : Json Recovery) (digest : String → String) where
  -- In every reachable state, whatever call, handler, goroutine or restart moves next, the status of
  -- an operation stays or makes one turn of the abstract life: it comes into being queued, goes from
  -- queued to running, and from running back to queued or to an end; an end has no turn.
  pub status_of-Step :
      (id : String) (w v : World)
      → Reachable json digest w
      → Step json digest w v
      → Goes (status_of id w.store.operations) (status_of id v.store.operations)
  status_of-Step id w v reached step =
      (Step-written json _ _ _ (Written-Turn (status_of id w.store.operations) id) digest reached
        step (Keyed-Reachable json digest w reached, refl)).1
