-- ===== src/Tarstream/PaxRead.antt =====
-- internal/tarstream/tarstream.go: parsePAX reads what paxRecord writes.
use ludock.Common.{
  ℕ, suc, ◌+◌, ◌≤◌, true, false, not, some, [], ◌∷◌, ◌++◌, ◌||◌, ◌≡◌, sym, ap, ◌∙◌, arith, Bytes,
  nat_eq, ltb, if◌then◌else◌, length, take, drop, All, take-length, Result, ok, err,
  invalid_archive,
}
use ludock.Tarstream.Numerals.{
  format, value, IsDigit, format-IsDigit, value-format, length-format, leads_zero,
  format-leads_zero, width,
}
use ludock.Tarstream.Pax.{
  record_text, is_decimal, Records, has_key, record_of, with_rest, record_after, next_record,
}
use ludock.Tarstream.PaxBack.{
  Storable, record_of_ok, record_size, record_shape, drop-after, index_byte-digits, all-digits,
}

is_decimal-digits : (d : Bytes) → leads_zero d ≡ false → All (IsDigit 10) d → is_decimal d ≡ true
is_decimal-digits [] h k = ground arith
is_decimal-digits (c ∷ d) h k = ground (arith, h, all-digits (c ∷ d) k)

record_after-size :
    (space : ℕ) (bytes : Bytes) (seen : Records) (d : Bytes) (size : ℕ) (key val : Bytes)
    → ltb 8 space ≡ false
    → take space bytes ≡ d
    → is_decimal d ≡ true
    → value 10 0 d ≡ size
    → record_of space size bytes seen ≡ ok (key, val)
    → record_after bytes seen (some space) ≡ ok (key, val, drop size bytes)
record_after-size space bytes seen d size key val short taken decimal read found =
    let answer : Bytes → ℕ → Result (Bytes × Bytes × Bytes) = λ t n.
      if ltb 8 space || not (is_decimal t)
      then err invalid_archive
      else with_rest n bytes (record_of space n bytes seen) in
    ap (λ t. answer t (value 10 0 t)) taken
    ∙ ap (answer d) read
    ∙ rw (short, decimal) (ap (with_rest size bytes) found)

-- The bytes of a record of `size`, with what follows.
abbrev pub record_bytes : (size : ℕ) (key val rest : Bytes) → Bytes
record_bytes size key val rest = format 10 size ++ b' ' ∷ ((key ++ b'=' ∷ val) ++ 10 ∷ rest)

pub next_record_ok :
    (size : ℕ) (key val rest : Bytes) (seen : Records)
    → Storable key val
    → has_key key seen ≡ false
    → length (format 10 size) + length (record_text key val) ≡ size
    → width size ≤ 8
    → next_record (record_bytes size key val rest) seen ≡ ok (key, val, rest)
unfolding next_record
next_record_ok size key val rest seen s fresh sized short =
    let d = format 10 size in
    let text = key ++ b'=' ∷ val in
    let bytes = record_bytes size key val rest in
    let digits = format-IsDigit 10 size (omega arith) in
    let size' = sym sized ∙ record_size d key val in
    ap (record_after bytes seen) (index_byte-digits d (text ++ 10 ∷ rest) digits)
    ∙ record_after-size (length d) bytes seen d size key val
        (ground (arith, length-format size, short)) (take-length d (b' ' ∷ (text ++ 10 ∷ rest)))
        (is_decimal-digits d (format-leads_zero size (omega (arith, size'))) digits)
        (value-format 10 size (omega arith))
        (record_of_ok d key val rest seen size s fresh (sym sized))
    ∙ ap (λ r. ok (key, val, r))
        (ap (λ n. drop n bytes) size'
          ∙ ap (drop (suc (length (d ++ b' ' ∷ text)))) (record_shape d text rest)
          ∙ drop-after 10 (d ++ b' ' ∷ text) rest)
