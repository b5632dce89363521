-- ===== src/Common/Equality.antt =====
-- Go's `==` as an interface: a Boolean test that decides equality.
use Prim.Native.Nat.{ℕ}
use Prim.Native.Char.{code}
use Prim.Native.String.{String}
use mathlib.Core.Path.{◌≡◌, refl, sym}
use mathlib.Core.Logic.{◌↔◌, ◌≢◌}
use mathlib.Core.Bool.{Bool, true, false, ◌&&◌}
use mathlib.Core.Option.{Option, none, some}
use mathlib.Core.List.{List, [], ◌∷◌}
use native.Mathlib.Omega.{arith}
use text.Mathlib.Text.{◌==◌ as str_beq}
use text.Mathlib.TextEquality.{eq_iff}
use mathlib.Core.Logic.{inl, inr}
use ludock.Common.Tests.{nat_beq, nat_beq_iff, Bool-cases}

-- A comparison whose `true` is equality.
pub record Eq {ℓ} (A : Type ℓ) : Type ℓ where
  pub beq : (left right : A) → Bool
  pub beq_iff : (left right : A) → (beq left right ≡ true) ↔ (left ≡ right)

infix 50 ◌==◌
abbrev pub ◌==◌ {ℓ} : {A : Type ℓ} ⦃comparison : Eq A⦄ (left right : A) → Bool
◌==◌ ⦃comparison⦄ = comparison.beq

abbrev pub Bytes : Type 0
Bytes = List ℕ

abbrev pub bytes_beq : Bytes → Bytes → Bool
bytes_beq [] [] = true
bytes_beq [] (y ∷ ys) = false
bytes_beq (x ∷ xs) [] = false
bytes_beq (x ∷ xs) (y ∷ ys) = nat_beq x y && bytes_beq xs ys

pub bytes_beq_iff : (a b : Bytes) → (bytes_beq a b ≡ true) ↔ (a ≡ b)
bytes_beq_iff [] [] = ground arith
bytes_beq_iff [] (y ∷ ys) = ground arith
bytes_beq_iff (x ∷ xs) [] = ground arith
bytes_beq_iff (x ∷ xs) (y ∷ ys) = ground (arith, bytes_beq_iff xs ys)

instance abbrev pub nat_eq : Eq ℕ
nat_eq = record { beq = nat_beq; beq_iff = nat_beq_iff }

instance abbrev pub string_eq : Eq String
string_eq = record { beq = str_beq; beq_iff = eq_iff }

instance abbrev pub bytes_eq : Eq Bytes
bytes_eq = record { beq = bytes_beq; beq_iff = bytes_beq_iff }

module _ {ℓ} {A : Type ℓ} where
  abbrev pub option_beq : Eq A → Option A → Option A → Bool
  option_beq e none none = true
  option_beq e none (some b) = false
  option_beq e (some a) none = false
  option_beq e (some a) (some b) = e.beq a b

  pub option_beq_iff : (e : Eq A) (a b : Option A) → (option_beq e a b ≡ true) ↔ (a ≡ b)
  option_beq_iff e none none = ground arith
  option_beq_iff e none (some b) = ground arith
  option_beq_iff e (some a) none = ground arith
  option_beq_iff e (some a) (some b) = ground (arith, e.beq_iff a b)

  -- Given explicitly: an instance for lists would meet `bytes_eq`.
  abbrev pub option_eq : Eq A → Eq (Option A)
  option_eq e = record { beq = option_beq e; beq_iff = option_beq_iff e }

  abbrev pub list_beq : Eq A → List A → List A → Bool
  list_beq e [] [] = true
  list_beq e [] (y ∷ ys) = false
  list_beq e (x ∷ xs) [] = false
  list_beq e (x ∷ xs) (y ∷ ys) = e.beq x y && list_beq e xs ys

  pub list_beq_iff : (e : Eq A) (a b : List A) → (list_beq e a b ≡ true) ↔ (a ≡ b)
  list_beq_iff e [] [] = ground arith
  list_beq_iff e [] (y ∷ ys) = ground arith
  list_beq_iff e (x ∷ xs) [] = ground arith
  list_beq_iff e (x ∷ xs) (y ∷ ys) = ground (arith, e.beq_iff x y, list_beq_iff e xs ys)

  abbrev pub list_eq : Eq A → Eq (List A)
  list_eq e = record { beq = list_beq e; beq_iff = list_beq_iff e }

-- The bytes of an ASCII literal of the source.
abbrev pub codes : String → Bytes
codes String.[] = []
codes (String.◌∷◌ c s) = code c ∷ codes s

module _ {ℓ} {A : Type ℓ} ⦃e : Eq A⦄ where
  pub ==_refl : (a : A) → (a == a) ≡ true
  ==_refl a = (e.beq_iff a a).1 refl

  pub ==_false : (a b : A) → (a == b) ≡ false → a ≢ b
  ==_false a b h same = cc (h, (e.beq_iff a b).1 same)

  pub ==_flip : (a b : A) → (a == b) ≡ false → (b == a) ≡ false
  ==_flip a b h = elim (Bool-cases (b == a)) [
    | inl same ↦ absurd (==_false a b h (sym ((e.beq_iff b a).0 same)))
    | inr other ↦ other
  ]
