-- ===== src/Schedtime/Days.antt =====
-- internal/schedtime/schedtime.go: the instants that NextRun looks at, day by day.
use ludock.Common.{
  ℕ, zero, suc, ◌+◌, ◌*◌, ◌%◌, ◌≡◌, inl, inr, Bool, true, false, Option, none, some, List, [], ◌∷◌,
  ◌&&◌, leb, contains, All, Bool-cases, Option-cases, if_in, subst, nat_eq, arith,
}
use ludock.Schedtime.Clock.{
  Input, Offset, minute, day, epoch, to_instant, local_clock, Slot, is_slot, clock_slot,
  day_offsets,
}
use ludock.Schedtime.Next.{
  keep_from, candidates, insert, sort, first_instant, fresh, run_on_day, run_within,
}

abbrev pub Within : (from t : ℕ) → Type 0
Within from t = (leb from t ≡ true) × (leb epoch t ≡ true)

insert-All : (P : ℕ → Type 0) (t : ℕ) (ts : List ℕ) → P t → All P ts → All P (insert t ts)
insert-All P t [] p h = (p, h)
insert-All P t (x ∷ xs) p h = elim (Bool-cases (leb t x)) [
  | inl le ↦ rw le (p, h)
  | inr gt ↦ rw gt (h.0, insert-All P t xs p h.1)
]

pub sort-All : (P : ℕ → Type 0) (ts : List ℕ) → All P ts → All P (sort ts)
unfolding sort
sort-All P [] h = h
sort-All P (t ∷ ts) h = insert-All P t (sort ts) h.0 (sort-All P ts h.1)

keep_from-All :
    (from : ℕ) (found : Option ℕ) (rest : List ℕ)
    → All (Within from) rest
    → All (Within from) (keep_from from found rest)
keep_from-All from none rest h = h
keep_from-All from (some t) rest h =
    if_in (All (Within from)) (leb from t && leb epoch t)
      (λ kept. ((ground arith, ground arith), h)) (λ left. h)

pub candidates-All :
    (offsets : List Offset) (wall from : ℕ) → All (Within from) (candidates offsets wall from)
candidates-All [] wall from = tt
candidates-All (o ∷ offsets) wall from =
    keep_from-All from (to_instant o wall) (candidates offsets wall from)
      (candidates-All offsets wall from)

pub first_instant-All :
    (P : ℕ → Type 0) (passes : ℕ → Bool) (ts : List ℕ) (t : ℕ)
    → All P ts
    → first_instant passes ts ≡ some t
    → P t × (passes t ≡ true)
first_instant-All P passes [] t h found = ground arith
first_instant-All P passes (x ∷ xs) t h found = elim (Bool-cases (passes x)) [
  | inl passed ↦
      let same : x ≡ t = ground arith in
      (subst P same h.0, subst (λ u. passes u ≡ true) same passed)
  | inr failed ↦ first_instant-All P passes xs t h.1 (ground arith)
]

abbrev pub Due : Input → (ℕ → Offset) → (time from : ℕ) → Option Slot → ℕ → Type 0
Due input zone time from last t =
    Within from t
    × (s : Slot) × (clock_slot input time (local_clock zone t) ≡ some s)
    × (is_slot s last ≡ false)

fresh-slot :
    (input : Input) (zone : ℕ → Offset) (time number : ℕ) (last : Option Slot) (t : ℕ)
    → fresh input zone time number last t ≡ true
    → (s : Slot) × (clock_slot input time (local_clock zone t) ≡ some s) × (is_slot s last ≡ false)
fresh-slot input zone time number last t h =
    elim (Option-cases (clock_slot input time (local_clock zone t))) [
      | inl absent ↦ ground (arith, absent, h)
      | inr (s, present) ↦ (s, present, ground (arith, present, h))
    ]

run_on_day-Due :
    (input : Input) (zone : ℕ → Offset) (time from number : ℕ) (last : Option Slot) (t : ℕ)
    → run_on_day input zone time from number last ≡ some t
    → Due input zone time from last t
unfolding run_on_day
run_on_day-Due input zone time from number last t h =
    elim (Bool-cases (contains input.days (number % 7))) [
      | inl on ↦
          let wall = number * day + time * minute in
          let offsets = day_offsets zone number in
          let first =
            first_instant-All (Within from) (fresh input zone time number last)
              (sort (candidates offsets wall from)) t
              (sort-All (Within from) (candidates offsets wall from)
                (candidates-All offsets wall from))
              (ground (arith, on, h)) in
          let (s, made, new) = fresh-slot input zone time number last t first.1 in
          (first.0, s, made, new)
      | inr off ↦ ground (arith, off, h)
    ]

pub run_within-Due :
    (days : ℕ) (input : Input) (zone : ℕ → Offset) (time from number : ℕ) (last : Option Slot)
    (t : ℕ)
    → run_within days input zone time from number last ≡ some t
    → Due input zone time from last t
unfolding run_within
run_within-Due zero input zone time from number last t h = ground arith
run_within-Due (suc days) input zone time from number last t h =
    elim (Option-cases (run_on_day input zone time from number last)) [
      | inl absent ↦
          run_within-Due days input zone time from (number + 1) last t (ground (arith, absent, h))
      | inr (u, found) ↦
          run_on_day-Due input zone time from number last t (ground (arith, found, h))
    ]
