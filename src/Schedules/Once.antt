-- ===== src/Schedules/Once.antt =====
-- internal/schedules: a slot that was queued, skipped or missed is not queued again while it is the last.
use ludock.Common.{
  ℕ, String, Bool, false, Option, none, some, List, ◌≡◌, refl, sym, ap, ◌∙◌, arith, string_eq, find,
  find-holds, inl, inr, Option-cases,
}
use ludock.Database.{update_where, find-update_where}
use ludock.Schedtime.Clock.{Slot, slot_beq, is_slot}
use ludock.Schedules.Authority.{Row}
use ludock.Schedules.Attempts.{attempt-Queued}
use ludock.Schedules.Run.{
  Library, Store, Turn, Attempt, idle, queued, refused, attempt, at_revision, set_queued,
  set_refused,
}
use ludock.Schedules.Recording.{refusal_text, run_one, settle, record_refusal}

-- The slot that an attempt is the last to have: it was queued, or the refusal is recorded with it.
abbrev recorded_slot : Option Slot → Option String → Option Slot
recorded_slot slot none = none
recorded_slot slot (some reason) = slot

abbrev pub decided : Attempt → Option Slot
decided idle = none
decided (queued slot store) = some slot
decided (refused slot valid f) = recorded_slot slot (refusal_text valid f)

updated :
    (p : Row → Bool) (f : Row → Row) (rows : List Row) (r : Row)
    → ((x : Row) → p (f x) ≡ p x)
    → find p (update_where p f rows) ≡ some r
    → (x : Row) × (r ≡ f x)
updated p f rows r same h =
    let found = sym (find-update_where p p f rows (λ x _. same x)) ∙ h in
    elim (Option-cases (find p rows)) [
      | inl gone ↦ ground (arith, gone, found)
      | inr (x, there) ↦ (x, ground (arith, there, found, find-holds p rows x there))
    ]

module _ {Recovery : Type 0} (lib : Library Recovery) where
  record_refusal-slot :
      (store : Store) (r : Row) (slot : Option Slot) (now : ℕ) (reason : Option String) (s : Slot)
      (r' : Row)
      → recorded_slot slot reason ≡ some s
      → find (at_revision r) (record_refusal lib store r slot now reason).0.schedules ≡ some r'
      → r'.last_slot ≡ some s
  unfolding record_refusal
  record_refusal-slot store r slot now none s r' d h = ground arith
  record_refusal-slot store r none now (some reason) s r' d h = ground arith
  record_refusal-slot store r (some x) now (some reason) s r' d h =
      let (old, e) =
        updated (at_revision r) (set_refused (some x) now reason) store.schedules r' (λ x. refl)
          h in
      ap (λ (y : Row). y.last_slot) e ∙ d

  settle-slot :
      (store : Store) (r : Row) (turn : Turn) (a : Attempt) (slot : Slot) (r' : Row)
      → attempt lib store r turn ≡ a
      → decided a ≡ some slot
      → find (at_revision r) (settle lib store r turn a).0.schedules ≡ some r'
      → r'.last_slot ≡ some slot
  settle-slot store r turn idle slot r' e d h = ground arith
  settle-slot store r turn (queued x store') slot r' e d h =
      let q = attempt-Queued lib store r turn x store' e in
      let (old, same) =
        updated (at_revision r) (set_queued x turn.now q.job.id)
          (turn.before_queue (turn.before_check store)).schedules r' (λ x. refl)
          (ap (find (at_revision r)) (sym q.noted) ∙ h) in
      ap (λ (y : Row). y.last_slot) same ∙ d
  settle-slot store r turn (refused x valid f) slot r' e d h =
      record_refusal-slot (turn.before_record store) r x turn.now (refusal_text valid f) slot r' d h

  -- When a run has queued an operation for a slot, or recorded that the slot was skipped or missed,
  -- it leaves that slot in the row of that revision. No later run of a row with the last slot that it left
  -- queues an operation for the slot, at any time and whatever else was written since, in the row too.
  -- It says nothing of a run after another slot has taken the place of the last one.
  pub run_one-once :
      (store later : Store) (r left r' : Row) (turn turn' : Turn) (slot slot' : Slot)
      (store' : Store)
      → decided (attempt lib store r turn) ≡ some slot
      → find (at_revision r) (run_one lib store r turn).0.schedules ≡ some left
      → r'.last_slot ≡ left.last_slot
      → attempt lib later r' turn' ≡ queued slot' store'
      → (left.last_slot ≡ some slot) × (slot_beq slot' slot ≡ false)
  unfolding run_one
  run_one-once store later r left r' turn turn' slot slot' store' d stored unchanged h =
      let last = settle-slot store r turn (attempt lib store r turn) slot left refl d stored in
      let q = attempt-Queued lib later r' turn' slot' store' h in
      (last, ap (is_slot slot') (sym (unchanged ∙ last)) ∙ q.fresh)
