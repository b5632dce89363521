-- ===== src/Schedtime/Runs.antt =====
-- internal/schedtime/schedtime.go: what is true of the next run.
use ludock.Common.{
  ℕ, ◌+◌, ◌-◌, ◌*◌, ◌≡◌, ap, ◌∙◌, inl, inr, true, false, Option, none, some, leb, ltb, Bool-cases,
  Option-cases, nat_eq, arith, sym, refl, ◌⊎◌,
}
use ludock.Schedtime.Clock.{
  Kind, Input, Offset, Zones, minute, day, grace, epoch, local_clock, both, Slot, is_slot,
  valid_clock, clock_slot, day_offsets, recurring, once,
}
use ludock.Schedtime.Next.{
  candidates, sort, on_wall, one_time_at, day_of, one_time_in, one_time_run, pending, slot_on,
  one_time_slot, unless_slot, slot_of, slot, next_of, next_run,
}
use ludock.Schedtime.Days.{Within, Due, sort-All, candidates-All, first_instant-All, run_within-Due}

abbrev pub NextSlot : Zones → Input → (now : ℕ) → Option Slot → (t : ℕ) → Type 0
NextSlot zones input now last t =
    (ltb now (t + grace) ≡ true)
    × (s : Slot) × (slot zones input t ≡ some s)
    × (is_slot s last ≡ false)

Kind-cases : (k : Kind) → (k ≡ recurring) ⊎ (k ≡ once)
Kind-cases recurring = inl refl
Kind-cases once = inr refl

next_of-Due :
    (zones : Zones) (input : Input) (zone : ℕ → Offset) (time now : ℕ) (last : Option Slot) (t : ℕ)
    → input.kind ≡ some recurring
    → valid_clock zones input now ≡ some (zone, time)
    → next_run zones input now last ≡ some t
    → Due input zone time (local_clock zone now).minute_start last t
unfolding next_run
next_of-Due zones input zone time now last t kind valid h =
    let current = local_clock zone now in
    run_within-Due 16 input zone time current.minute_start (current.day_number - 1) last t
      (ground (arith, kind, valid, h))

-- What makes a clock valid at one instant makes it valid at every instant since the Unix epoch.
valid_clock-later :
    (zones : Zones) (input : Input) (zone : ℕ → Offset) (time now t : ℕ)
    → valid_clock zones input now ≡ some (zone, time)
    → leb epoch t ≡ true
    → valid_clock zones input t ≡ some (zone, time)
unfolding valid_clock
valid_clock-later zones input zone time now t valid since = ground (arith, valid, since)

slot-recurring :
    (zones : Zones) (input : Input) (zone : ℕ → Offset) (time now : ℕ)
    → input.kind ≡ some recurring
    → valid_clock zones input now ≡ some (zone, time)
    → slot zones input now ≡ clock_slot input time (local_clock zone now)
unfolding slot
slot-recurring zones input zone time now kind valid =
    ap (λ k. slot_of zones input now k (valid_clock zones input now)) kind
    ∙ ap (slot_of zones input now (some recurring)) valid

recurring_run-slot :
    (zones : Zones) (input : Input) (zone : ℕ → Offset) (time now : ℕ) (last : Option Slot) (t : ℕ)
    → input.kind ≡ some recurring
    → valid_clock zones input now ≡ some (zone, time)
    → next_run zones input now last ≡ some t
    → NextSlot zones input now last t
unfolding local_clock
recurring_run-slot zones input zone time now last t kind valid h =
    let ((from, since), s, made, new) = next_of-Due zones input zone time now last t kind valid h in
    let later = valid_clock-later zones input zone time now t valid since in
    (ground (arith, from), s, slot-recurring zones input zone time t kind later ∙ made, new)

one_time_at-since :
    (zone : ℕ → Offset) (time number t : ℕ)
    → one_time_at zone time number ≡ some t
    → leb epoch t ≡ true
unfolding one_time_at
one_time_at-since zone time number t h =
    let wall = number * day + time * minute in
    let offsets = day_offsets zone number in
    (first_instant-All (Within 0) (on_wall zone number time) (sort (candidates offsets wall 0)) t
      (sort-All (Within 0) (candidates offsets wall 0) (candidates-All offsets wall 0)) h).0.1

-- A one-time schedule that has a run has a slot, and the run is no earlier than the Unix epoch.
one_time_in-since :
    (zones : Zones) (input : Input) (found : Option ((ℕ → Offset) × ℕ)) (t : ℕ)
    → one_time_in zones input found ≡ some t
    → (leb epoch t ≡ true) × (number : ℕ) × (day_of zones input ≡ some number)
one_time_in-since zones input none t h = ground arith
one_time_in-since zones input (some (zone, time)) t h = elim (Option-cases (day_of zones input)) [
  | inl absent ↦ ground (arith, absent, h)
  | inr (number, dated) ↦
      (one_time_at-since zone time number t (ground (arith, dated, h)), number, dated)
]

-- At its run a one-time schedule is due.
slot-once :
    (zones : Zones) (input : Input) (zone : ℕ → Offset) (time t : ℕ) (s : Slot)
    → input.kind ≡ some once
    → valid_clock zones input t ≡ some (zone, time)
    → one_time_run zones input ≡ some t
    → one_time_slot zones input time ≡ some s
    → slot zones input t ≡ some s
unfolding slot
slot-once zones input zone time t s kind valid run made =
    ap (λ k. slot_of zones input t k (valid_clock zones input t)) kind
    ∙ ap (slot_of zones input t (some once)) valid
    ∙ ground (arith, run, made)

pending-some :
    (now : ℕ) (run : Option ℕ) (t : ℕ)
    → pending now run ≡ some t
    → (run ≡ some t) × (ltb now (t + grace) ≡ true)
pending-some now none t h = ground arith
pending-some now (some u) t h = elim (Bool-cases (ltb now (u + grace))) [
  | inl early ↦ (ground arith, ground arith)
  | inr late ↦ ground arith
]

unless_slot-some :
    (slot last : Option Slot) (run : Option ℕ) (t : ℕ)
    → unless_slot slot last run ≡ some t
    → run ≡ some t
unless_slot-some none last run t h = h
unless_slot-some (some s) last run t h = ground (arith, h)

unless_slot-fresh :
    (s : Slot) (last : Option Slot) (run : Option ℕ) (t : ℕ)
    → unless_slot (some s) last run ≡ some t
    → is_slot s last ≡ false
unless_slot-fresh s last run t h = elim (Bool-cases (is_slot s last)) [
  | inl same ↦ ground (arith, same, h)
  | inr other ↦ other
]

next_of-once :
    (zones : Zones) (input : Input) (zone : ℕ → Offset) (time now : ℕ) (last : Option Slot)
    → input.kind ≡ some once
    → valid_clock zones input now ≡ some (zone, time)
    → next_run zones input now last
      ≡ unless_slot (one_time_slot zones input time) last (pending now (one_time_run zones input))
unfolding next_run
next_of-once zones input zone time now last kind valid =
    ap (λ k. next_of zones input now last k (valid_clock zones input now)) kind
    ∙ ap (next_of zones input now last (some once)) valid

one_time_run-slot :
    (zones : Zones) (input : Input) (zone : ℕ → Offset) (time now : ℕ) (last : Option Slot) (t : ℕ)
    → input.kind ≡ some once
    → valid_clock zones input now ≡ some (zone, time)
    → next_run zones input now last ≡ some t
    → NextSlot zones input now last t
unfolding one_time_run
one_time_run-slot zones input zone time now last t kind valid h =
    let next = sym (next_of-once zones input zone time now last kind valid) ∙ h in
    let waits = pending now (one_time_run zones input) in
    let (run, early) =
      pending-some now (one_time_run zones input) t
        (unless_slot-some (one_time_slot zones input time) last waits t next) in
    let (since, number, dated) =
      one_time_in-since zones input (both (zones.offset_at input.timezone) input.time) t run in
    let later = valid_clock-later zones input zone time now t valid since in
    let s : Slot = record { day_number = number; time = time; timezone = input.timezone } in
    let made = ap (slot_on input time) dated in
    (
      early,
      s,
      slot-once zones input zone time t s kind later run made,
      unless_slot-fresh s last waits t (ap (λ o. unless_slot o last waits) (sym made) ∙ next),
    )

next_run-none :
    (zones : Zones) (input : Input) (now : ℕ) (last : Option Slot)
    → valid_clock zones input now ≡ none
    → next_run zones input now last ≡ none
unfolding next_run
next_run-none zones input now last h = ap (next_of zones input now last input.kind) h

-- The next run of a schedule, when there is one, is no more than the grace period before now; at that
-- instant the schedule has a slot, and that slot is not the last one.
pub next_run-slot :
    (zones : Zones) (input : Input) (now : ℕ) (last : Option Slot) (t : ℕ)
    → next_run zones input now last ≡ some t
    → NextSlot zones input now last t
unfolding next_run
next_run-slot zones input now last t h = elim (Option-cases (valid_clock zones input now)) [
  | inl invalid ↦ ground (arith, next_run-none zones input now last invalid, h)
  | inr ((zone, time), valid) ↦ elim (Option-cases input.kind) [
    | inl unknown ↦ ground (arith, unknown, valid, h)
    | inr (kind, known) ↦ elim (Kind-cases kind) [
      | inl is ↦ recurring_run-slot zones input zone time now last t (known ∙ ap some is) valid h
      | inr is ↦ one_time_run-slot zones input zone time now last t (known ∙ ap some is) valid h
    ]
  ]
]
