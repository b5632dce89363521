-- ===== src/Tarstream/Numerals.antt =====
-- Numbers in a base as strconv writes and reads them, for internal/tarstream/tarstream.go.
use native.Mathlib.Nat.{div-add-mod', div-le_self, div-lt_self, mod-lt}
use ludock.Common.{
  ℕ, zero, suc, ◌+◌, ◌-◌, ◌*◌, ◌/◌, ◌%◌, ◌≤◌, ◌<◌, Bool, true, false, [], ◌∷◌, ◌≡◌, ◌≢◌, refl, ap,
  ◌∙◌, arith, Bytes, nat_beq, All, if◌then◌else◌, length, Bool-cases, inl, inr, nat_eq,
}

-- The digits of `n` before `out`; each round divides by the base.
unfoldable pub digits_from : (base fuel n : ℕ) → Bytes → Bytes
digits_from base zero n out = out
digits_from base (suc fuel) n out =
    let more = digits_from base fuel (n / base) ((b'0' + n % base) ∷ out) in
    if nat_beq (n / base) 0 then (b'0' + n % base) ∷ out else more

-- FormatInt and Itoa; a round at least halves `n`, so there are at most `n` and one more.
unfoldable pub format : (base n : ℕ) → Bytes
unfolding digits_from
format base n = digits_from base (suc n) n []

-- What digits spell behind `n`.
abbrev pub value : (base n : ℕ) → Bytes → ℕ
value base n [] = n
value base n (c ∷ s) = value base (n * base + (c - b'0')) s

shrinks :
    (base n fuel : ℕ) → 1 < base → nat_beq (n / base) 0 ≡ false → n < suc fuel → n / base < fuel
shrinks base n fuel b more h =
    let less = div-le_self n base in
    let pos : 0 < n = ground (arith, more, less) in omega (arith, div-lt_self pos b)

pub value-digits_from :
    (base : ℕ) (fuel n : ℕ) (out : Bytes)
    → 1 < base
    → n < fuel
    → value base 0 (digits_from base fuel n out) ≡ value base n out
unfolding digits_from
value-digits_from base zero n out b h = absurd (omega arith)
value-digits_from base (suc fuel) n out b h =
    let whole = div-add-mod' n base in
    let last : value base 0 ((b'0' + n % base) ∷ out) ≡ value base (n % base) out =
      ap (λ k. value base k out) (omega arith) in
    elim (Bool-cases (nat_beq (n / base) 0)) [
      | inl done ↦ rw done (last ∙ ap (λ k. value base k out) (ground (arith, done, whole)))
      | inr more ↦ rw more (
          value-digits_from base fuel (n / base) ((b'0' + n % base) ∷ out) b
            (shrinks base n fuel b more h)
          ∙ ap (λ k. value base k out) (omega (arith, whole)))
    ]

abbrev pub IsDigit : (base c : ℕ) → Type 0
IsDigit base c = (b'0' ≤ c) × (c < b'0' + base)

digits_from-IsDigit :
    (base fuel n : ℕ) (out : Bytes)
    → 1 < base
    → All (IsDigit base) out
    → All (IsDigit base) (digits_from base fuel n out)
unfolding digits_from
digits_from-IsDigit base zero n out b h = h
digits_from-IsDigit base (suc fuel) n out b h =
    let low : n % base < base = mod-lt n (omega arith) in
    let first : IsDigit base (b'0' + n % base) = (omega arith, omega (arith, low)) in
    elim (Bool-cases (nat_beq (n / base) 0)) [
      | inl done ↦ rw done (first, h)
      | inr more ↦
          rw more (digits_from-IsDigit base fuel (n / base) ((b'0' + n % base) ∷ out) b (first, h))
    ]

-- How many digits are written.
unfoldable pub count : (base fuel n : ℕ) → ℕ
count base zero n = 0
count base (suc fuel) n =
    let more = count base fuel (n / base) in if nat_beq (n / base) 0 then 1 else suc more

pub length-digits_from :
    (base fuel n : ℕ) (out : Bytes)
    → length (digits_from base fuel n out) ≡ count base fuel n + length out
unfolding digits_from count
length-digits_from base zero n out = omega arith
length-digits_from base (suc fuel) n out =
    ground (arith, length-digits_from base fuel (n / base) ((b'0' + n % base) ∷ out))

-- More fuel than the number makes no difference.
count-fuel :
    (base fuel more n : ℕ) → 1 < base → n < fuel → n < more → count base fuel n ≡ count base more n
unfolding count
count-fuel base zero more n b h k = absurd (omega arith)
count-fuel base (suc fuel) zero n b h k = absurd (omega arith)
count-fuel base (suc fuel) (suc more) n b h k = elim (Bool-cases (nat_beq (n / base) 0)) [
  | inl done ↦ rw done refl
  | inr left ↦ rw left (
      ap suc (
        count-fuel base fuel more (n / base) b (shrinks base n fuel b left h)
          (shrinks base n more b left k)))
]

-- With the same fuel, the greater number has no fewer digits.
count-le : (fuel n m : ℕ) → n ≤ m → count 10 fuel n ≤ count 10 fuel m
unfolding count
count-le zero n m h = omega arith
count-le (suc fuel) n m h =
    let quotient : n / 10 ≤ m / 10 = omega arith in
    ground (arith, count-le fuel (n / 10) (m / 10) quotient, quotient)

count-pos : (fuel n : ℕ) → 0 < fuel → 0 < count 10 fuel n
unfolding count
count-pos zero n h = absurd (omega arith)
count-pos (suc fuel) n h = ground arith

count-le_self : (fuel n : ℕ) → 0 < n → count 10 fuel n ≤ n
unfolding count
count-le_self zero n h = omega arith
count-le_self (suc fuel) n h = elim (Bool-cases (nat_beq (n / 10) 0)) [
  | inl done ↦ rw done (omega arith)
  | inr left ↦
      let pos : 0 < n / 10 = ground (arith, left) in
      rw left (omega (arith, count-le_self fuel (n / 10) pos))
]

-- A number less than ten times as great has one digit more at most.
count-le_suc : (fuel n m : ℕ) → 0 < n → m ≤ 10 * n → count 10 (suc fuel) m ≤ suc (count 10 fuel n)
unfolding count
count-le_suc fuel n m pos h =
    let quotient : m / 10 ≤ n = omega arith in ground (arith, count-le fuel (m / 10) n quotient)

abbrev pub width : ℕ → ℕ
width n = count 10 (suc n) n

width-count : (fuel n : ℕ) → n < fuel → count 10 fuel n ≡ width n
width-count fuel n h = count-fuel 10 fuel (suc n) n (omega arith) h (omega arith)

pub width-pos : (n : ℕ) → 0 < width n
width-pos n = count-pos (suc n) n (omega arith)

pub width-le : (n m : ℕ) → n ≤ m → width n ≤ width m
width-le n m h = omega (arith, width-count (suc m) n (omega arith), count-le (suc m) n m h)

pub width-le_self : (n : ℕ) → 0 < n → width n ≤ n
width-le_self n h = count-le_self (suc n) n h

pub width-le_suc : (n m : ℕ) → 0 < n → n ≤ m → m ≤ 10 * n → width m ≤ suc (width n)
width-le_suc n m pos le h = omega (
  arith,
  width-count (suc (suc m)) m (omega arith),
  width-count (suc m) n (omega arith),
  count-le_suc (suc m) n m pos h,
)

pub length-format : (n : ℕ) → length (format 10 n) ≡ width n
unfolding format
length-format n = omega (arith, length-digits_from 10 (suc n) n [])

pub value-format : (base n : ℕ) → 1 < base → value base 0 (format base n) ≡ n
unfolding format
value-format base n b = value-digits_from base (suc n) n [] b (omega arith)

pub format-IsDigit : (base n : ℕ) → 1 < base → All (IsDigit base) (format base n)
unfolding format
format-IsDigit base n b = digits_from-IsDigit base (suc n) n [] b tt

pub format-ne-nil : (base n : ℕ) → format base n ≢ []
unfolding format count
format-ne-nil base n e =
    let some_digits : 0 < count base (suc n) n = ground arith in
    omega (arith, ap length e, length-digits_from base (suc n) n [], some_digits)

abbrev pub leads_zero : Bytes → Bool
leads_zero [] = true
leads_zero (c ∷ s) = nat_beq c b'0'

digits_from-leads_zero :
    (fuel n : ℕ) (out : Bytes) → 0 < n → n < fuel → leads_zero (digits_from 10 fuel n out) ≡ false
unfolding digits_from
digits_from-leads_zero zero n out pos h = absurd (omega arith)
digits_from-leads_zero (suc fuel) n out pos h = elim (Bool-cases (nat_beq (n / 10) 0)) [
  | inl done ↦ rw done (ground (arith, done))
  | inr more ↦ rw more (
      digits_from-leads_zero fuel (n / 10) ((b'0' + n % 10) ∷ out) (ground (arith, more))
        (omega arith))
]

pub format-leads_zero : (n : ℕ) → 0 < n → leads_zero (format 10 n) ≡ false
unfolding format
format-leads_zero n pos = digits_from-leads_zero (suc n) n [] pos (omega arith)

pub width_metadata : width 16384 ≡ 5
unfolding count
width_metadata = refl
