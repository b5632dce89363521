-- ===== src/Tarstream/Sizes.antt =====
-- internal/tarstream/tarstream.go: how long the fields of a header are, and what their bytes add up to.
use ludock.Common.{
  ℕ, zero, suc, ◌+◌, ◌-◌, ◌*◌, ◌/◌, ◌%◌, ◌≤◌, ◌<◌, true, some, [], ◌∷◌, ◌++◌, ◌≡◌, refl, sym, ap,
  ◌∙◌, subst, arith, Bytes, nat_eq, nat_beq, ltb, length, All, Bool-cases, inl, inr, ok,
  length-append, Option-cases,
}
use ludock.Tarstream.Numerals.{format, IsDigit, format-IsDigit, count, length-digits_from}
use ludock.Tarstream.Text.{utf8_valid, valid_from, lead}
use ludock.Tarstream.Fields.{max_integer, repeat, put_wide, wide_field, number}
use ludock.Tarstream.Header.{sum}

-- Bytes add up to no more than 255 each.
abbrev pub Small : Bytes → Type 0
Small s = sum s ≤ 255 * length s

pub sum-append : (s t : Bytes) → sum (s ++ t) ≡ sum s + sum t
sum-append [] t = omega arith
sum-append (c ∷ s) t = omega (arith, sum-append s t)

pub Small-append : (s t : Bytes) → Small s → Small t → Small (s ++ t)
Small-append s t h k = omega (arith, sum-append s t, length-append s t)

pub Small-All : (s : Bytes) → All (λ b. b < 256) s → Small s
Small-All [] h = omega arith
Small-All (c ∷ s) h = omega (arith, h.0, Small-All s h.1)

pub length-repeat : (n b : ℕ) → length (repeat n b) ≡ n
length-repeat zero b = refl
length-repeat (suc n) b = ap suc (length-repeat n b)

pub Small-repeat : (n b : ℕ) → b < 256 → Small (repeat n b)
Small-repeat zero b h = omega arith
Small-repeat (suc n) b h = omega (arith, Small-repeat n b h)

Small-digits : (s : Bytes) → All (IsDigit 8) s → Small s
Small-digits [] h = omega arith
Small-digits (c ∷ s) h = omega (arith, h.0, Small-digits s h.1)

Small-format : (n : ℕ) → Small (format 8 n)
Small-format n = Small-digits (format 8 n) (format-IsDigit 8 n (omega arith))

pub put_wide-length :
    (places wide : ℕ) (out : Bytes) → length (put_wide places wide out).0 ≡ places + length out
put_wide-length zero wide out = omega arith
put_wide-length (suc places) wide out =
    omega (arith, put_wide-length places (wide / 256) (wide % 256 ∷ out))

put_wide-Small : (places wide : ℕ) (out : Bytes) → Small out → Small (put_wide places wide out).0
put_wide-Small zero wide out h = h
put_wide-Small (suc places) wide out h =
    put_wide-Small places (wide / 256) (wide % 256 ∷ out) (omega arith)

-- Octal digits behind as many zeros as fill the places before the NUL.
pub length-octal_field :
    (n places : ℕ) (t : Bytes)
    → length (format 8 n) ≤ places
    → length (repeat (places - length (format 8 n)) b'0' ++ format 8 n ++ t) ≡ places + length t
length-octal_field n places t h =
    let zeros = repeat (places - length (format 8 n)) b'0' in
    omega (
      arith,
      length-append (zeros ++ format 8 n) t,
      length-append zeros (format 8 n),
      length-repeat (places - length (format 8 n)) b'0',
    )

pub Small-octal_field :
    (n zeros : ℕ) (t : Bytes) → Small t → Small (repeat zeros b'0' ++ format 8 n ++ t)
Small-octal_field n zeros t h =
    Small-append (repeat zeros b'0' ++ format 8 n) t
      (Small-append (repeat zeros b'0') (format 8 n) (Small-repeat zeros b'0' (omega arith))
        (Small-format n))
      h

wide_field-Small :
    (p : Bytes × ℕ) (field : Bytes) → Small p.0 → wide_field p ≡ ok field → Small field
wide_field-Small (bytes, wide) field h written = elim (Bool-cases (nat_beq wide 0)) [
  | inl whole ↦
      let same : 128 ∷ bytes ≡ field = ground (arith, whole, written) in
      let small : Small (128 ∷ bytes) = omega arith in subst Small same small
  | inr left ↦ absurd (ground (arith, left, written))
]

pub number-Small : (n places : ℕ) (field : Bytes) → number n places ≡ ok field → Small field
unfolding number
number-Small n places field h = elim (Bool-cases (ltb max_integer n)) [
  | inl great ↦ absurd (ground (arith, great, h))
  | inr fits ↦ elim (Bool-cases (ltb (length (format 8 n)) places)) [
    | inl short ↦
        let zeros = places - 1 - length (format 8 n) in
        let octal_field = repeat zeros b'0' ++ format 8 n ++ 0 ∷ [] in
        let written : number n places ≡ ok octal_field = rw fits (rw short refl) in
        let same : octal_field ≡ field = cc in
        subst Small same (Small-octal_field n zeros (0 ∷ []) (omega arith))
    | inr long ↦
        let written : number n places ≡ wide_field (put_wide (places - 1) n []) =
          rw fits (rw long refl) in
        wide_field-Small (put_wide (places - 1) n []) field
          (put_wide-Small (places - 1) n [] (omega arith)) (sym written ∙ h)
  ]
]

lead-some : (a lo hi left : ℕ) → lead a ≡ some (lo, hi, left) → (a < 256) × (hi < 256)
lead-some a lo hi left h = ground arith

valid_from-bytes :
    (lo hi left : ℕ) (s : Bytes) → hi < 256 → valid_from lo hi left s ≡ true → All (λ b. b < 256) s
unfolding valid_from
valid_from-bytes lo hi zero [] h v = tt
valid_from-bytes lo hi (suc left) [] h v = tt
valid_from-bytes lo hi zero (a ∷ s) h v = elim (Option-cases (lead a)) [
  | inl bad ↦ absurd (ground (arith, bad, v))
  | inr ((lo', hi', left), found) ↦
      let (byte, high) = lead-some a lo' hi' left found in
      (byte, valid_from-bytes lo' hi' left s high (ground (arith, found, v)))
]
valid_from-bytes lo hi (suc left) (a ∷ s) h v =
    (ground arith, valid_from-bytes 0x80 0xBF left s (omega arith) (ground arith))

pub utf8_valid-bytes : (s : Bytes) → utf8_valid s ≡ true → All (λ b. b < 256) s
unfolding utf8_valid
utf8_valid-bytes s v = valid_from-bytes 0x80 0xBF 0 s (omega arith) v

count_step :
    (k bound : ℕ)
    → ((fuel m : ℕ) → m < bound → count 8 fuel m ≤ k)
    → (fuel n : ℕ) → n < 8 * bound
    → count 8 fuel n ≤ suc k
unfolding count
count_step k bound h zero n less = omega arith
count_step k bound h (suc fuel) n less = ground (arith, h fuel (n / 8) (omega arith))

count_one : (fuel m : ℕ) → m < 8 → count 8 fuel m ≤ 1
unfolding count
count_one zero m less = omega arith
count_one (suc fuel) m less = ground arith

-- Six octal digits write every sum of the bytes of a block.
pub length-format_checksum : (n : ℕ) → n ≤ 130560 → length (format 8 n) ≤ 6
unfolding format count
length-format_checksum n h =
    let six : (fuel m : ℕ) → m < 262144 → count 8 fuel m ≤ 6 =
      count_step 5 32768
        (count_step 4 4096 (count_step 3 512 (count_step 2 64 (count_step 1 8 count_one)))) in
    omega (arith, length-digits_from 8 (suc n) n [], six (suc n) n (omega arith))
