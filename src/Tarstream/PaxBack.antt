-- ===== src/Tarstream/PaxBack.antt =====
-- internal/tarstream/tarstream.go: PAX records are read back as they were written.
use mathlib.Core.List.{append_assoc}
use ludock.Common.{
  ℕ, suc, ◌+◌, ◌-◌, ◌<◌, Bool, true, false, not, some, [], ◌∷◌, ◌++◌, ◌||◌, ◌≡◌, ◌≢◌, refl, sym, ap,
  ◌∙◌, arith, Bytes, nat_eq, nat_beq, leb, ltb, if◌then◌else◌, length, take, drop, all, All,
  contains, length-append, take-length, Result, ok, err, invalid_archive,
}
use ludock.Tarstream.Numerals.{IsDigit}
use ludock.Tarstream.Text.{utf8_valid}
use ludock.Tarstream.Pax.{
  record_text, index_byte, is_decimal_digit, Records, has_key, refused_key, key_value, starts_with,
  record_of,
}

pub index_byte-digits :
    (d t : Bytes) → All (IsDigit 10) d → index_byte b' ' (d ++ b' ' ∷ t) ≡ some (length d)
index_byte-digits [] t h = refl
index_byte-digits (c ∷ d) t h = ground (arith, h.0, index_byte-digits d t h.1)

index_byte-absent :
    (b : ℕ) (s t : Bytes) → contains s b ≡ false → index_byte b (s ++ b ∷ t) ≡ some (length s)
index_byte-absent b [] t h = ground arith
index_byte-absent b (c ∷ s) t h = ground (arith, index_byte-absent b s t)

pub all-digits : (d : Bytes) → All (IsDigit 10) d → all is_decimal_digit d ≡ true
all-digits [] h = refl
all-digits (c ∷ d) h = ground (arith, h.0, all-digits d h.1)

starts_with-length : (b : ℕ) (s t : Bytes) → starts_with b (drop (length s) (s ++ b ∷ t)) ≡ true
starts_with-length b [] t = ground arith
starts_with-length b (c ∷ s) t = starts_with-length b s t

-- What parsePAX asks of a key and a value.
pub record Storable (key val : Bytes) : Type 0 where
  pub key_ne_nil : key ≢ []
  pub no_equals : contains key b'=' ≡ false
  pub valid : utf8_valid (key ++ b'=' ∷ val) ≡ true
  pub no_nul : contains (key ++ b'=' ∷ val) 0 ≡ false
  pub allowed : refused_key key ≡ false

pub drop-after : (b : ℕ) (s t : Bytes) → drop (suc (length s)) (s ++ b ∷ t) ≡ t
drop-after b [] t = refl
drop-after b (c ∷ s) t = drop-after b s t

length-pos : (s : Bytes) → s ≢ [] → 0 < length s
length-pos [] ne = absurd (ne refl)
length-pos (c ∷ s) ne = omega arith

none_holds :
    {A : Type 0} (a b c d : Bool) (x : A)
    → a ≡ false
    → b ≡ false
    → c ≡ false
    → d ≡ false
    → (if a || b || c || d then err invalid_archive else ok x) ≡ ok x
none_holds a b c d x p q r s = ground arith

key_value_ok :
    (key val : Bytes) (seen : Records)
    → Storable key val
    → has_key key seen ≡ false
    → key_value (key ++ b'=' ∷ val) seen (some (length key)) ≡ ok (key, val)
key_value_ok key val seen s fresh =
    let text = key ++ b'=' ∷ val in
    let answer : Bytes → Bytes → Result (Bytes × Bytes) = λ k v.
      if nat_beq (length key) 0 || contains text 0 || has_key k seen || refused_key k
      then err invalid_archive
      else ok (k, v) in
    ap (λ k. answer k (drop (suc (length key)) text)) (take-length key (b'=' ∷ val))
    ∙ ap (answer key) (drop-after b'=' key val)
    ∙ none_holds (nat_beq (length key) 0) (contains text 0) (has_key key seen) (refused_key key)
        (key, val) (ground (arith, length-pos key s.key_ne_nil)) s.no_nul fresh s.allowed

-- The fields of a record of which the parts are known.
four :
    {A : Type 0} (a b c d : Bool) (x : Result A)
    → a ≡ false
    → b ≡ false
    → c ≡ true
    → d ≡ true
    → (if a || b || not c || not d then err invalid_archive else x) ≡ x
four a b c d x p q r s = ground arith

record_of-parts :
    (space size : ℕ) (bytes text : Bytes) (seen : Records)
    → ltb (length bytes) size ≡ false
    → leb size (space + 3) ≡ false
    → starts_with 10 (drop (size - 1) bytes) ≡ true
    → take (size - space - 2) (drop (space + 1) bytes) ≡ text
    → utf8_valid text ≡ true
    → record_of space size bytes seen ≡ key_value text seen (index_byte b'=' text)
record_of-parts space size bytes text seen long more ends same valid =
    let answer : Bytes → Result (Bytes × Bytes) = λ t.
      if ltb (length bytes) size
        || leb size (space + 3)
        || not (starts_with 10 (drop (size - 1) bytes))
        || not (utf8_valid t)
      then err invalid_archive
      else key_value t seen (index_byte b'=' t) in
    ap answer same
    ∙ four (ltb (length bytes) size) (leb size (space + 3)) (starts_with 10 (drop (size - 1) bytes))
        (utf8_valid text) _ long more ends valid

pub record_size :
    (d key val : Bytes)
    → length d + length (record_text key val) ≡ suc (length (d ++ b' ' ∷ (key ++ b'=' ∷ val)))
record_size d key val = omega (
  arith,
  length-append key (b'=' ∷ val),
  length-append key (b'=' ∷ (val ++ 10 ∷ [])),
  length-append val (10 ∷ []),
  length-append d (b' ' ∷ (key ++ b'=' ∷ val)),
)

pub record_shape :
    (d text rest : Bytes) → d ++ b' ' ∷ (text ++ 10 ∷ rest) ≡ (d ++ b' ' ∷ text) ++ 10 ∷ rest
record_shape d text rest = sym (append_assoc d (b' ' ∷ text) (10 ∷ rest))

leb-false : (a b : ℕ) → b < a → leb a b ≡ false
leb-false a b h = ground arith

pub record_of_ok :
    (d key val rest : Bytes) (seen : Records) (size : ℕ)
    → Storable key val
    → has_key key seen ≡ false
    → size ≡ length d + length (record_text key val)
    → record_of (length d) size (d ++ b' ' ∷ ((key ++ b'=' ∷ val) ++ 10 ∷ rest)) seen
      ≡ ok (key, val)
record_of_ok d key val rest seen size s fresh sized =
    let text = key ++ b'=' ∷ val in
    let bytes = d ++ b' ' ∷ (text ++ 10 ∷ rest) in
    let before = d ++ b' ' ∷ text in
    let named = length-pos key s.key_ne_nil in
    let in_text = length-append key (b'=' ∷ val) in
    let before_length = length-append d (b' ' ∷ text) in
    let size' : size ≡ suc (length before) = sized ∙ record_size d key val in
    let shape : bytes ≡ before ++ 10 ∷ rest = record_shape d text rest in
    let whole : length bytes ≡ length before + suc (length rest) =
      ap length shape ∙ length-append before (10 ∷ rest) in
    let ends : starts_with 10 (drop (size - 1) bytes) ≡ true =
      ap (λ n. starts_with 10 (drop n bytes)) {x = size - 1} {y = length before} (omega arith)
      ∙ ap (λ b. starts_with 10 (drop (length before) b)) shape
      ∙ starts_with-length 10 before rest in
    let same : take (size - length d - 2) (drop (length d + 1) bytes) ≡ text =
      ap (λ n. take (size - length d - 2) (drop n bytes)) {x = length d + 1} {y = suc (length d)}
        (omega arith)
      ∙ ap (take (size - length d - 2)) (drop-after b' ' d (text ++ 10 ∷ rest))
      ∙ ap (λ n. take n (text ++ 10 ∷ rest)) {x = size - length d - 2} {y = length text}
          (omega arith)
      ∙ take-length text (10 ∷ rest) in
    record_of-parts (length d) size bytes text seen (ground (arith, whole, size'))
      (leb-false size (length d + 3) (omega arith)) ends same s.valid
    ∙ ap (key_value text seen) (index_byte-absent b'=' key val s.no_equals)
    ∙ key_value_ok key val seen s fresh
