-- ===== src/Locks/Exclusion.antt =====
-- internal/locks/locks.go: two holders never hold keys that overlap.
use ludock.Common.{
  ℕ, Bool, true, false, not, Option, none, List, [], ◌∷◌, ◌++◌, ◌≡◌, refl, arith, ◌&&◌, ◌||◌, ◌==◌,
  nat_beq, Bytes, bytes_eq, nat_eq, all, select, contains, is_empty, Bool-cases, inl, inr, ltb,
}
use ludock.Locks.{
  Holder, Entry, Table, Ticket, overlaps, conflicts, set_key, set_keys, acquire_keys, release,
  fence, lift, next_release, drain, new_table, ordered_keys, acquire, acquire_for_recovery,
}

-- Of one holder, or of two that do not meet.
abbrev pub compatible : Entry → Entry → Bool
compatible e f = nat_beq e.owner.number f.owner.number || not (overlaps e.key f.key)

abbrev pub exclusive : List Entry → Bool
exclusive [] = true
exclusive (e ∷ es) = all (compatible e) es && exclusive es

all-select {ℓ} :
    {A : Type ℓ} (p q : A → Bool) (xs : List A) → all p xs ≡ true → all p (select q xs) ≡ true
all-select p q [] h = refl
all-select p q (x ∷ xs) h = ground (arith, all-select p q xs)

exclusive-select :
    (q : Entry → Bool) (es : List Entry) → exclusive es ≡ true → exclusive (select q es) ≡ true
exclusive-select q [] h = refl
exclusive-select q (e ∷ es) h =
    ground (arith, exclusive-select q es, all-select (compatible e) q es)

-- What a new entry of `owner` has to respect.
abbrev clear_of : Holder → Bytes → Entry → Bool
clear_of owner key f = compatible (record { key = key; owner = owner }) f

abbrev all_clear : Holder → List Bytes → List Entry → Bool
all_clear owner [] active = true
all_clear owner (key ∷ keys) active = all (clear_of owner key) active && all_clear owner keys active

same_owner : (owner : Holder) → nat_beq owner.number owner.number ≡ true
same_owner owner = (nat_eq.beq_iff owner.number owner.number).1 refl

all_clear-set_key :
    (owner : Holder) (keys : List Bytes) (key : Bytes) (active : List Entry)
    → all_clear owner keys active ≡ true
    → all_clear owner keys (set_key owner key active) ≡ true
all_clear-set_key owner [] key active h = refl
all_clear-set_key owner (k ∷ keys) key active h = ground (
  arith,
  same_owner owner,
  all-select (clear_of owner k) (λ e. not (e.key == key)) active,
  all_clear-set_key owner keys key active,
)

exclusive-set_keys :
    (owner : Holder) (keys : List Bytes) (active : List Entry)
    → all_clear owner keys active ≡ true
    → exclusive active ≡ true
    → exclusive (set_keys owner keys active) ≡ true
exclusive-set_keys owner [] active c h = h
exclusive-set_keys owner (key ∷ keys) active c h =
    exclusive-set_keys owner keys (set_key owner key active)
      (all_clear-set_key owner keys key active (ground arith))
      (ground (
        arith,
        exclusive-select (λ e. not (e.key == key)) active,
        all-select (clear_of owner key) (λ e. not (e.key == key)) active,
      ))

clear_of_unblocked :
    (owner : Holder) (key : Bytes) (keys : List Bytes) (active : List Entry)
    → is_empty (conflicts (key ∷ keys) active) ≡ true
    → (all (clear_of owner key) active ≡ true) × (is_empty (conflicts keys active) ≡ true)
clear_of_unblocked owner key keys [] h = (refl, refl)
clear_of_unblocked owner key keys (e ∷ es) h = ground (arith, clear_of_unblocked owner key keys es)

all_clear_unblocked :
    (owner : Holder) (keys : List Bytes) (active : List Entry)
    → is_empty (conflicts keys active) ≡ true
    → all_clear owner keys active ≡ true
all_clear_unblocked owner [] active h = refl
all_clear_unblocked owner (key ∷ keys) active h =
    let (clear, rest) = clear_of_unblocked owner key keys active h in
    ground (arith, all_clear_unblocked owner keys active rest)

exclusive-acquire_keys :
    (keys : List Bytes) (background : Option ℕ) (recovery : Bool) (t : Table)
    → exclusive t.active ≡ true
    → exclusive (acquire_keys keys background recovery t).1.active ≡ true
unfolding acquire_keys
exclusive-acquire_keys keys background recovery t h =
    let ordered = ordered_keys keys in
    let owner : Holder = record { number = t.next; background = background } in
    elim (Bool-cases (ltb 0 t.fences && not recovery)) [
      | inl fenced ↦ rw fenced h
      | inr unfenced ↦ rw unfenced (elim (Bool-cases (is_empty (conflicts ordered t.active))) [
        | inr busy ↦ rw busy h
        | inl free ↦ rw free (
            exclusive-set_keys owner ordered t.active
              (all_clear_unblocked owner ordered t.active free) h)
      ])
    ]

exclusive-release :
    (ticket : Ticket) (t : Table)
    → exclusive t.active ≡ true
    → exclusive (release ticket t).active ≡ true
unfolding release
exclusive-release ticket t h =
    ground (arith, exclusive-select (λ e. not (contains ticket.ordered e.key)) t.active)

-- The methods of the table, in any order and with any arguments.
pub data Step : Table → Table → Type 0 where
  acquires :
      {t : Table}
      → (keys : List Bytes) → (background : Option ℕ) → Step t (acquire keys background t).1
  recovers : {t : Table} → (keys : List Bytes) → Step t (acquire_for_recovery keys t).1
  releases : {t : Table} → (ticket : Ticket) → Step t (release ticket t)
  fences_off : {t : Table} → Step t (fence t).1
  lifts : {t : Table} → (once : ℕ) → Step t (lift once t)
  awaits : {t : Table} → Step t (next_release t).1
  drains : {t : Table} → Step t (drain t).1

pub data Reachable : Table → Type 0 where
  created : Reachable new_table
  stepped : {t u : Table} → Reachable t → Step t u → Reachable u

exclusive-Step : {t u : Table} → Step t u → exclusive t.active ≡ true → exclusive u.active ≡ true
unfolding acquire acquire_for_recovery fence lift next_release drain
exclusive-Step (acquires {t} keys background) h = exclusive-acquire_keys keys background false t h
exclusive-Step (recovers {t} keys) h = exclusive-acquire_keys keys none true t h
exclusive-Step (releases {t} ticket) h = exclusive-release ticket t h
exclusive-Step (fences_off {t}) h = h
exclusive-Step (lifts {t} once) h = ground arith
exclusive-Step (awaits {t}) h = ground arith
exclusive-Step (drains {t}) h = ground arith

-- However the methods are called, two keys of a table that overlap have one holder.
pub exclusive-Reachable : (t : Table) → Reachable t → exclusive t.active ≡ true
unfolding new_table
exclusive-Reachable _ created = refl
exclusive-Reachable _ (stepped {t} r s) = exclusive-Step s (exclusive-Reachable t r)

-- Somebody waits for the table to drain only while keys are held.
abbrev pub waits_justly : Table → Bool
waits_justly t = not (is_empty t.active) || is_empty t.drained

held-set_keys :
    (owner : Holder) (keys : List Bytes) (active : List Entry)
    → is_empty active ≡ false
    → is_empty (set_keys owner keys active) ≡ false
held-set_keys owner [] active h = h
held-set_keys owner (key ∷ keys) active h = held-set_keys owner keys (set_key owner key active) refl

waits_justly-acquire_keys :
    (keys : List Bytes) (background : Option ℕ) (recovery : Bool) (t : Table)
    → waits_justly t ≡ true
    → waits_justly (acquire_keys keys background recovery t).1 ≡ true
unfolding acquire_keys
waits_justly-acquire_keys keys background recovery t h =
    let owner : Holder = record { number = t.next; background = background } in
    ground (arith, held-set_keys owner (ordered_keys keys) t.active)

waits_justly-append : (xs : List ℕ) (x : ℕ) → is_empty (xs ++ x ∷ []) ≡ false
waits_justly-append [] x = refl
waits_justly-append (y ∷ xs) x = refl

waits_justly-Step : {t u : Table} → Step t u → waits_justly t ≡ true → waits_justly u ≡ true
unfolding acquire acquire_for_recovery fence lift next_release drain release
waits_justly-Step (acquires {t} keys background) h =
    waits_justly-acquire_keys keys background false t h
waits_justly-Step (recovers {t} keys) h = waits_justly-acquire_keys keys none true t h
waits_justly-Step (releases {t} ticket) h = ground arith
waits_justly-Step (fences_off {t}) h = h
waits_justly-Step (lifts {t} once) h = ground arith
waits_justly-Step (awaits {t}) h = ground arith
waits_justly-Step (drains {t}) h = ground arith

-- However the methods are called, a table that holds no key keeps nobody waiting for it to drain.
pub waits_justly-Reachable : (t : Table) → Reachable t → waits_justly t ≡ true
unfolding new_table
waits_justly-Reachable _ created = refl
waits_justly-Reachable _ (stepped {t} r s) = waits_justly-Step s (waits_justly-Reachable t r)
