-- ===== src/Schedtime/Next.antt =====
-- internal/schedtime/schedtime.go: OneTimeRun, Slot and NextRun.
use ludock.Common.{
  ℕ, zero, suc, ◌+◌, ◌-◌, ◌*◌, ◌%◌, Bool, false, not, Option, none, some, List, [], ◌∷◌, ◌&&◌,
  string_eq, nat_eq, nat_beq, ltb, leb, if◌then◌else◌, contains,
}
use ludock.Schedtime.Clock.{
  Kind, Input, Offset, Zones, minute, day, grace, epoch, to_instant, local_clock, both, Slot,
  is_slot, valid_clock, clock_slot, day_offsets, recurring, once,
}

abbrev pub keep_from : (from : ℕ) → Option ℕ → List ℕ → List ℕ
keep_from from none rest = rest
keep_from from (some t) rest = if leb from t && leb epoch t then t ∷ rest else rest

-- The instants of a wall time that are no earlier than `from`.
abbrev pub candidates : List Offset → (wall from : ℕ) → List ℕ
candidates [] wall from = []
candidates (o ∷ offsets) wall from =
    keep_from from (to_instant o wall) (candidates offsets wall from)

abbrev pub insert : ℕ → List ℕ → List ℕ
insert t [] = t ∷ []
insert t (x ∷ xs) = if leb t x then t ∷ x ∷ xs else x ∷ insert t xs

-- sort.Slice
unfoldable pub sort : List ℕ → List ℕ
sort [] = []
sort (t ∷ ts) = insert t (sort ts)

-- The first instant whose clock passes.
abbrev pub first_instant : (ℕ → Bool) → List ℕ → Option ℕ
first_instant passes [] = none
first_instant passes (t ∷ ts) = if passes t then some t else first_instant passes ts

abbrev pub on_wall : (ℕ → Offset) → (number time : ℕ) → ℕ → Bool
on_wall zone number time t =
    let c = local_clock zone t in nat_beq c.day_number number && nat_beq c.time time

unfoldable pub one_time_at : (ℕ → Offset) → (time number : ℕ) → Option ℕ
one_time_at zone time number =
    first_instant (on_wall zone number time)
      (sort (candidates (day_offsets zone number) (number * day + time * minute) 0))

abbrev pub one_time_day : (ℕ → Offset) → ℕ → Option ℕ → Option ℕ
one_time_day zone time none = none
one_time_day zone time (some number) = one_time_at zone time number

abbrev pub day_of : Zones → Input → Option ℕ
day_of zones input = elim input.date [ none ↦ none | some date ↦ zones.day_of_date date ]

abbrev pub one_time_in : Zones → Input → Option ((ℕ → Offset) × ℕ) → Option ℕ
one_time_in zones input none = none
one_time_in zones input (some (zone, time)) = one_time_day zone time (day_of zones input)

unfoldable pub one_time_run : Zones → Input → Option ℕ
one_time_run zones input =
    one_time_in zones input (both (zones.offset_at input.timezone) input.time)

abbrev pub pending : ℕ → Option ℕ → Option ℕ
pending now none = none
pending now (some run_at) = if ltb now (run_at + grace) then some run_at else none

abbrev pub slot_on : Input → (time : ℕ) → Option ℕ → Option Slot
slot_on input time none = none
slot_on input time (some number) =
    some (record { day_number = number; time = time; timezone = input.timezone })

abbrev pub one_time_slot : Zones → Input → ℕ → Option Slot
one_time_slot zones input time = slot_on input time (day_of zones input)

abbrev pub unless_slot : Option Slot → Option Slot → Option ℕ → Option ℕ
unless_slot none last run = run
unless_slot (some s) last run = if is_slot s last then none else run

abbrev pub due : ℕ → Option ℕ → Option Slot → Option Slot
due now none slot = none
due now (some run_at) slot = if leb run_at now then slot else none

abbrev pub slot_of : Zones → Input → ℕ → Option Kind → Option ((ℕ → Offset) × ℕ) → Option Slot
slot_of zones input now kind none = none
slot_of zones input now none (some (zone, time)) = none
slot_of zones input now (some once) (some (zone, time)) =
    due now (pending now (one_time_run zones input)) (one_time_slot zones input time)
slot_of zones input now (some recurring) (some (zone, time)) =
    clock_slot input time (local_clock zone now)

unfoldable pub slot : Zones → Input → ℕ → Option Slot
slot zones input now = slot_of zones input now input.kind (valid_clock zones input now)

-- A slot of the day that is not the last one.
abbrev pub fresh : Input → (ℕ → Offset) → (time number : ℕ) → Option Slot → ℕ → Bool
fresh input zone time number last t =
    let c = local_clock zone t in
    nat_beq c.day_number number
    && (elim (clock_slot input time c) [ none ↦ false | some s ↦ not (is_slot s last) ])

unfoldable pub run_on_day : Input → (ℕ → Offset) → (time from number : ℕ) → Option Slot → Option ℕ
run_on_day input zone time from number last =
    if not (contains input.days (number % 7))
    then none
    else first_instant (fresh input zone time number last)
        (sort (candidates (day_offsets zone number) (number * day + time * minute) from))

-- The days from `number` on.
unfoldable pub run_within :
    (days : ℕ) → Input → (ℕ → Offset) → (time from number : ℕ) → Option Slot → Option ℕ
run_within zero input zone time from number last = none
run_within (suc days) input zone time from number last =
    elim (run_on_day input zone time from number last) [
      | some t ↦ some t
      | none ↦ run_within days input zone time from (number + 1) last
    ]

abbrev pub next_of :
    Zones → Input → ℕ → Option Slot → Option Kind → Option ((ℕ → Offset) × ℕ) → Option ℕ
next_of zones input now last kind none = none
next_of zones input now last none (some (zone, time)) = none
next_of zones input now last (some once) (some (zone, time)) =
    unless_slot (one_time_slot zones input time) last (pending now (one_time_run zones input))
next_of zones input now last (some recurring) (some (zone, time)) =
    let current = local_clock zone now in
    run_within 16 input zone time current.minute_start (current.day_number - 1) last

unfoldable pub next_run : Zones → Input → ℕ → Option Slot → Option ℕ
next_run zones input now last =
    next_of zones input now last input.kind (valid_clock zones input now)
