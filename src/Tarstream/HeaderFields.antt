-- ===== src/Tarstream/HeaderFields.antt =====
-- internal/tarstream/tarstream.go: the fields that rawHeader writes, as DecodeHeader reads them.
use ludock.Common.{
  ℕ, zero, suc, ◌-◌, ◌≤◌, ◌<◌, true, false, not, [], ◌∷◌, ◌++◌, ◌≡◌, refl, arith, Bytes, nat_eq,
  nat_beq, ltb, length, all, ok, length-append,
}
use ludock.Tarstream.Numerals.{format}
use ludock.Tarstream.Text.{utf8_valid}
use ludock.Tarstream.Fields.{max_integer, repeat, number, text, before_nul, text_field, integer}
use ludock.Tarstream.FieldsBack.{integer-number, octal_field-read, text_field-of}
use ludock.Tarstream.Sizes.{
  Small, Small-append, Small-All, Small-repeat, number-Small, utf8_valid-bytes, length-repeat,
  length-octal_field, length-format_checksum,
}
use ludock.Tarstream.Header.{checksum_field}

-- A field fills its places, with bytes that are no more than 255 each on average.
abbrev pub IsField : (places : ℕ) (field : Bytes) → Type 0
IsField places field = (length field ≡ places) × Small field

pub number_written :
    (n places : ℕ)
    → n ≤ max_integer
    → 7 < places
    → (field : Bytes) × (number n places ≡ ok field) × IsField places field × (integer field ≡ ok n)
number_written n places fits enough =
    let (field, written, size, read) = integer-number n places fits enough in
    (field, written, (size, number-Small n places field written), read)

before_nul-repeat : (n : ℕ) → before_nul (repeat n 0) ≡ []
before_nul-repeat zero = refl
before_nul-repeat (suc n) = refl

before_nul-padded :
    (t : Bytes) (n : ℕ) → all (λ c. not (nat_beq c 0)) t ≡ true → before_nul (t ++ repeat n 0) ≡ t
before_nul-padded [] n h = before_nul-repeat n
before_nul-padded (c ∷ t) n h = ground (arith, before_nul-padded t n)

-- What a text must be for a field that is read back.
pub record Fits (places : ℕ) (t : Bytes) : Type 0 where
  pub short : length t ≤ places
  pub no_nul : all (λ c. not (nat_beq c 0)) t ≡ true
  pub valid : utf8_valid t ≡ true

pub text_written :
    (t : Bytes) (places : ℕ)
    → Fits places t
    → (field : Bytes) × (text t places ≡ ok field)
      × IsField places field
      × (text_field field ≡ ok t)
unfolding text
text_written t places fits =
    let pad = places - length t in
    let room : ltb places (length t) ≡ false = ground (arith, fits.short) in
    (
      t ++ repeat pad 0,
      rw room (rw fits.no_nul refl),
      (
        omega (arith, fits.short, length-append t (repeat pad 0), length-repeat pad 0),
        Small-append t (repeat pad 0) (Small-All t (utf8_valid-bytes t fits.valid))
            (Small-repeat pad 0 (omega arith)),
      ),
      text_field-of (t ++ repeat pad 0) t (before_nul-padded t pad fits.no_nul) fits.valid,
    )

pub checksum_read :
    (total : ℕ)
    → total ≤ 130560
    → (length (checksum_field total) ≡ 8) × (integer (checksum_field total) ≡ ok total)
checksum_read total h = (
  length-octal_field total 6 (0 ∷ b' ' ∷ []) (length-format_checksum total h),
  octal_field-read total (6 - length (format 8 total)) (b' ' ∷ []) (omega arith),
)
