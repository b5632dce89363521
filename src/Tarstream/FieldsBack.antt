-- ===== src/Tarstream/FieldsBack.antt =====
-- internal/tarstream/tarstream.go: number fields are read back as they were written.
use ludock.Common.{
  ℕ, zero, suc, ◌+◌, ◌-◌, ◌*◌, ◌/◌, ◌%◌, ◌≤◌, ◌<◌, true, false, [], ◌∷◌, ◌++◌, ◌≡◌, ◌≢◌, refl, sym,
  ap, ◌∙◌, arith, Bytes, nat_eq, ltb, subst, length, all, All, All-map, All-append, Bool-cases, inl,
  inr, ok, ◌>>=◌, is_empty,
}
use ludock.Tarstream.Numerals.{format, value, IsDigit, format-IsDigit, value-format, format-ne-nil}
use ludock.Tarstream.Sizes.{length-octal_field, put_wide-length}
use ludock.Tarstream.Text.{utf8_valid, trim_space, utf8_valid-ascii, trim_space-IsGraphic}
use ludock.Tarstream.Fields.{
  max_integer, before_nul, text_field, base_256, is_octal, at_most_max, octal, integer, repeat,
  put_wide, number,
}

before_nul-append : (s t : Bytes) → All (IsDigit 8) s → before_nul (s ++ 0 ∷ t) ≡ s
before_nul-append [] t h = refl
before_nul-append (c ∷ s) t h = ground (arith, h.0, before_nul-append s t h.1)

all-is_octal : (s : Bytes) → All (IsDigit 8) s → all is_octal s ≡ true
all-is_octal [] h = refl
all-is_octal (c ∷ s) h = ground (arith, h.0, all-is_octal s h.1)

value-append : (base n : ℕ) (s t : Bytes) → value base n (s ++ t) ≡ value base (value base n s) t
value-append base n [] t = refl
value-append base n (c ∷ s) t = value-append base (n * base + (c - b'0')) s t

value-repeat : (times : ℕ) → value 8 0 (repeat times b'0') ≡ 0
value-repeat zero = refl
value-repeat (suc times) = value-repeat times

repeat-IsDigit : (times : ℕ) → All (IsDigit 8) (repeat times b'0')
repeat-IsDigit zero = tt
repeat-IsDigit (suc times) = ((omega arith, omega arith), repeat-IsDigit times)

pub text_field-of :
    (field t : Bytes) → before_nul field ≡ t → utf8_valid t ≡ true → text_field field ≡ ok t
unfolding text_field
text_field-of field t h v = rw h (rw v refl)

octal-of :
    (t : Bytes) → is_empty t ≡ false → all is_octal t ≡ true → octal t ≡ at_most_max (value 8 0 t)
octal-of t e h = rw (e, h) refl

-- Octal digits before a NUL.
integer-octal :
    (s t : Bytes) → s ≢ [] → All (IsDigit 8) s → integer (s ++ 0 ∷ t) ≡ at_most_max (value 8 0 s)
unfolding integer text_field
integer-octal [] t ne h = absurd (ne refl)
integer-octal (c ∷ s) t ne h =
    let kept = before_nul-append (c ∷ s) t h in
    let ascii =
      utf8_valid-ascii (c ∷ s) (All-map _ _ (c ∷ s) (λ a (d : IsDigit 8 a). omega arith) h) in
    let trimmed =
      trim_space-IsGraphic (c ∷ s)
        (All-map _ _ (c ∷ s) (λ a (d : IsDigit 8 a). (omega arith, omega arith)) h) in
    let octals = all-is_octal (c ∷ s) h in
    let ascii_first : ltb c 128 ≡ true = ground (arith, h.0) in
    rw ascii_first (
      ap (λ r. r >>= λ text. octal (trim_space text))
        (text_field-of ((c ∷ s) ++ 0 ∷ t) (c ∷ s) kept ascii)
      ∙ ap octal trimmed
      ∙ octal-of (c ∷ s) refl octals)

base_256-put_wide :
    (places wide : ℕ) (out : Bytes)
    → wide ≤ max_integer
    → base_256 (put_wide places wide out).1 (put_wide places wide out).0 ≡ base_256 wide out
base_256-put_wide zero wide out h = refl
base_256-put_wide (suc places) wide out h =
    base_256-put_wide places (wide / 256) (wide % 256 ∷ out) (omega arith) ∙ ground (arith)

-- Seven bytes are enough.
put_wide-fits : (places wide : ℕ) (out : Bytes) → wide ≡ 0 → (put_wide places wide out).1 ≡ 0
put_wide-fits zero wide out h = h
put_wide-fits (suc places) wide out h =
    put_wide-fits places (wide / 256) (wide % 256 ∷ out) (omega arith)

put_wide-seven :
    (more n : ℕ)
    → n ≤ max_integer
    → (put_wide (suc (suc (suc (suc (suc (suc (suc more))))))) n []).1 ≡ 0
put_wide-seven more n h = put_wide-fits more _ _ (omega arith)

append-ne-nil : (s t : Bytes) → t ≢ [] → s ++ t ≢ []
append-ne-nil [] t ne = ne
append-ne-nil (c ∷ s) t ne = λ e. cc

-- Octal digits behind zeros, and a NUL.
pub octal_field-read :
    (n zeros : ℕ) (t : Bytes)
    → n ≤ max_integer
    → integer (repeat zeros b'0' ++ format 8 n ++ 0 ∷ t) ≡ ok n
octal_field-read n zeros t h =
    integer-octal (repeat zeros b'0' ++ format 8 n) t
      (append-ne-nil (repeat zeros b'0') (format 8 n) (format-ne-nil 8 n))
      (All-append (IsDigit 8) (repeat zeros b'0') (format 8 n) (repeat-IsDigit zeros)
        (format-IsDigit 8 n (omega arith)))
    ∙ ap at_most_max (
        value-append 8 0 (repeat zeros b'0') (format 8 n)
        ∙ ap (λ k. value 8 k (format 8 n)) (value-repeat zeros)
        ∙ value-format 8 n (omega arith))
    ∙ ground arith

wide_field-read :
    (n places : ℕ)
    → n ≤ max_integer
    → (put_wide places n []).1 ≡ 0
    → integer (128 ∷ (put_wide places n []).0) ≡ ok n
unfolding integer
wide_field-read n places h left =
    ap (λ r. r >>= at_most_max)
      (ap (λ k. base_256 k (put_wide places n []).0) (sym left) ∙ base_256-put_wide places n [] h)
    ∙ ground arith

-- A number of at most 53 bits is written in every field of eight bytes or more, in octal or in base
-- 256; it fills the field, and DecodeHeader reads it back.
pub integer-number :
    (n places : ℕ)
    → n ≤ max_integer
    → 7 < places
    → (field : Bytes) × (number n places ≡ ok field)
      × (length field ≡ places)
      × (integer field ≡ ok n)
unfolding number
integer-number n places h enough = elim (Bool-cases (ltb (length (format 8 n)) places)) [
  | inl short ↦ (
    repeat (places - 1 - length (format 8 n)) b'0' ++ format 8 n ++ 0 ∷ [],
    ground (arith, short),
    ground (arith, short, length-octal_field n (places - 1) (0 ∷ [])),
    octal_field-read n (places - 1 - length (format 8 n)) [] h,
  )
  | inr long ↦
      let left : (put_wide (places - 1) n []).1 ≡ 0 =
        subst (λ k. (put_wide k n []).1 ≡ 0)
          {x = suc (suc (suc (suc (suc (suc (suc (places - 8)))))))} {y = places - 1} (omega arith)
          (put_wide-seven (places - 8) n h) in
      (
        128 ∷ (put_wide (places - 1) n []).0,
        ground (arith, long, left),
        omega (arith, put_wide-length (places - 1) n []),
        wide_field-read n (places - 1) h left,
      )
]
