-- ===== src/Common/Lists.antt =====
-- Lists as Go's slices: loops that test, search and filter, measured by native numbers.
use Prim.Native.Nat.{ℕ, zero, suc, ◌+◌}
use mathlib.Core.Path.{◌≡◌, refl, ap, ◌∙◌, fun_ext}
use mathlib.Core.Logic.{inl, inr}
use mathlib.Core.Bool.{Bool, true, false, ◌&&◌, ◌||◌}
use mathlib.Core.Option.{Option, none, some}
use mathlib.Core.List.{List, [], ◌∷◌, ◌++◌}
use native.Mathlib.Omega.{arith}
use ludock.Common.Tests.{if◌then◌else◌, Bool-cases}
use ludock.Common.Equality.{Eq, ◌==◌}

module _ {ℓ} {A : Type ℓ} where
  abbrev pub length : List A → ℕ
  length [] = 0
  length (x ∷ xs) = suc (length xs)

  abbrev pub take : ℕ → List A → List A
  take zero xs = []
  take (suc n) [] = []
  take (suc n) (x ∷ xs) = x ∷ take n xs

  abbrev pub drop : ℕ → List A → List A
  drop zero xs = xs
  drop (suc n) [] = []
  drop (suc n) (x ∷ xs) = drop n xs

  -- `for _, x := range xs { if p(x) { result = append(result, x) } }`
  abbrev pub select : (A → Bool) → List A → List A
  select p [] = []
  select p (x ∷ xs) = let rest = select p xs in if p x then x ∷ rest else rest

  -- `slices.ContainsFunc`
  abbrev pub any : (A → Bool) → List A → Bool
  any p [] = false
  any p (x ∷ xs) = p x || any p xs

  abbrev pub all : (A → Bool) → List A → Bool
  all p [] = true
  all p (x ∷ xs) = p x && all p xs

  -- the row that a query by a unique column returns
  abbrev pub find : (A → Bool) → List A → Option A
  find p [] = none
  find p (x ∷ xs) = if p x then some x else find p xs

  abbrev pub All {κ} : (A → Type κ) → List A → Type κ
  All P [] = Unit
  All P (x ∷ xs) = P x × All P xs

  abbrev pub is_empty : List A → Bool
  is_empty [] = true
  is_empty (x ∷ xs) = false

  pub length-append : (xs ys : List A) → length (xs ++ ys) ≡ length xs + length ys
  length-append [] ys = omega arith
  length-append (x ∷ xs) ys = omega (arith, length-append xs ys)

  pub find-holds : (p : A → Bool) (xs : List A) (a : A) → find p xs ≡ some a → p a ≡ true
  find-holds p [] a h = ground arith
  find-holds p (x ∷ xs) a h = ground (arith, find-holds p xs a)

  pub All-map {κ μ} :
      (P : A → Type κ) (Q : A → Type μ) (xs : List A) → ((a : A) → P a → Q a) → All P xs → All Q xs
  All-map P Q [] f h = tt
  All-map P Q (x ∷ xs) f h = (f x h.0, All-map P Q xs f h.1)

  pub All-append {κ} : (P : A → Type κ) (xs ys : List A) → All P xs → All P ys → All P (xs ++ ys)
  All-append P [] ys h k = k
  All-append P (x ∷ xs) ys h k = (h.0, All-append P xs ys h.1 k)

  pub take-length : (xs ys : List A) → take (length xs) (xs ++ ys) ≡ xs
  take-length [] ys = refl
  take-length (x ∷ xs) ys = ap (λ l. x ∷ l) (take-length xs ys)

  pub drop-length : (xs ys : List A) → drop (length xs) (xs ++ ys) ≡ ys
  drop-length [] ys = refl
  drop-length (x ∷ xs) ys = drop-length xs ys

module _ {ℓ} {A : Type ℓ} ⦃e : Eq A⦄ where
  -- `slices.Contains`
  abbrev pub contains : List A → A → Bool
  contains [] a = false
  contains (x ∷ xs) a = (x == a) || contains xs a

  pub contains-select :
      (p : A → Bool) (xs : List A) (a : A) → contains (select p xs) a ≡ (contains xs a && p a)
  contains-select p [] a = refl
  contains-select p (x ∷ xs) a = elim (Bool-cases (x == a)) [
    | inl same ↦
        rw ((e.beq_iff x a).0 same) (ground (arith, contains-select p xs a, (e.beq_iff a a).1 refl))
    | inr other ↦ ground (arith, contains-select p xs a)
  ]

  select-contained :
      (p : A → Bool) (xs ys : List A)
      → all (contains xs) ys ≡ true
      → select (λ a. contains xs a && p a) ys ≡ select p ys
  select-contained p xs [] h = refl
  select-contained p xs (y ∷ ys) h = ground (arith, select-contained p xs ys)

  pub all_of :
      (p : A → Bool) (xs : List A) → ((a : A) → contains xs a ≡ true → p a ≡ true) → all p xs ≡ true
  all_of p [] f = refl
  all_of p (x ∷ xs) f =
      rw (f x (rw ((e.beq_iff x x).1 refl))) (all_of p xs (λ a h. f a (ground arith)))

  -- Selecting what was selected is selecting it.
  pub select-select :
      (p : A → Bool) (xs : List A) → select (contains (select p xs)) xs ≡ select p xs
  select-select p xs =
      ap (λ q. select q xs) (fun_ext (contains-select p xs))
      ∙ select-contained p xs xs (all_of (contains xs) xs (λ a h. h))
