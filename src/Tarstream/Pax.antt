-- ===== src/Tarstream/Pax.antt =====
-- internal/tarstream/tarstream.go: paxRecord and parsePAX. The map that parsePAX fills is an
-- association list in the order of the records.
use ludock.Common.{
  ℕ, zero, suc, ◌+◌, ◌-◌, Bool, true, false, not, Option, none, some, List, [], ◌∷◌, ◌++◌, ◌&&◌,
  ◌||◌, Bytes, nat_eq, nat_beq, bytes_eq, ◌==◌, leb, ltb, if◌then◌else◌, length, take, drop, all,
  contains, Result, ok, err, invalid_archive, codes,
}
use ludock.Tarstream.Numerals.{format, value}
use ludock.Tarstream.Text.{utf8_valid}

-- The loop that finds the size, which counts its own digits: `none` is running out of rounds.
unfoldable pub find_size : (rounds length size : ℕ) → Option ℕ
find_size zero n size = none
find_size (suc rounds) n size =
    let more = find_size rounds n (length (format 10 size) + n) in
    if nat_beq (length (format 10 size) + n) size then some size else more

abbrev pub record_text : (key value : Bytes) → Bytes
record_text key value = b' ' ∷ (key ++ (b'=' ∷ (value ++ 10 ∷ [])))

abbrev pub with_size : Bytes → Option ℕ → Option Bytes
with_size text none = none
with_size text (some size) = some (format 10 size ++ text)

-- paxRecord; the loop ends in its third round at the latest.
unfoldable pub pax_record : (key value : Bytes) → Option Bytes
unfolding find_size format
pax_record key value =
    let text = record_text key value in with_size text (find_size 3 (length text) (length text + 1))

-- maxMetadataBytes
abbrev pub max_metadata : ℕ
max_metadata = 16384

abbrev pub joined : Option Bytes → Option Bytes → Option Bytes
joined none rest = none
joined (some bytes) none = none
joined (some bytes) (some rest) = some (bytes ++ rest)

-- The loop of EncodeHeader over its sorted keys.
unfoldable pub pax_records : List (Bytes × Bytes) → Option Bytes
unfolding pax_record
pax_records [] = some []
pax_records ((key, value) ∷ records) = joined (pax_record key value) (pax_records records)

-- bytes.IndexByte
abbrev pub index_byte : (byte : ℕ) → Bytes → Option ℕ
index_byte b [] = none
index_byte b (x ∷ s) =
    if nat_beq x b then some 0 else elim (index_byte b s) [ none ↦ none | some i ↦ some (suc i) ]

abbrev pub is_decimal_digit : ℕ → Bool
is_decimal_digit c = leb b'0' c && leb c b'9'

-- decimalPattern
abbrev pub is_decimal : Bytes → Bool
is_decimal [] = false
is_decimal (c ∷ s) = not (nat_beq c b'0') && all is_decimal_digit (c ∷ s)

abbrev pub Records : Type 0
Records = List (Bytes × Bytes)

abbrev pub has_key : Bytes → Records → Bool
has_key key [] = false
has_key key ((k, v) ∷ records) = k == key || has_key key records

-- strings.HasPrefix
abbrev has_prefix : Bytes → (prefix : Bytes) → Bool
has_prefix s [] = true
has_prefix [] (p ∷ ps) = false
has_prefix (c ∷ s) (p ∷ ps) = nat_beq c p && has_prefix s ps

abbrev pub refused_key : Bytes → Bool
refused_key key = has_prefix key (codes "GNU.sparse") || key == codes "SCHILY.filetype"

-- The key and the value of a record's text.
abbrev pub key_value : (text : Bytes) → Records → Option ℕ → Result (Bytes × Bytes)
key_value text seen none = err invalid_archive
key_value text seen (some equals) =
    let key = take equals text in
    if nat_beq equals 0 || contains text 0 || has_key key seen || refused_key key
    then err invalid_archive
    else ok (key, drop (suc equals) text)

abbrev pub starts_with : (byte : ℕ) → Bytes → Bool
starts_with b [] = false
starts_with b (x ∷ s) = nat_beq x b

-- The record of `size` bytes, of which `space` write the size.
abbrev pub record_of : (space size : ℕ) → Bytes → Records → Result (Bytes × Bytes)
record_of space size bytes seen =
    let text = take (size - space - 2) (drop (space + 1) bytes) in
    if ltb (length bytes) size
      || leb size (space + 3)
      || not (starts_with 10 (drop (size - 1) bytes))
      || not (utf8_valid text)
    then err invalid_archive
    else key_value text seen (index_byte b'=' text)

abbrev pub with_rest : (size : ℕ) → Bytes → Result (Bytes × Bytes) → Result (Bytes × Bytes × Bytes)
with_rest size bytes (err e) = err e
with_rest size bytes (ok (key, value)) = ok (key, value, drop size bytes)

abbrev pub record_after : Bytes → Records → Option ℕ → Result (Bytes × Bytes × Bytes)
record_after bytes seen none = err invalid_archive
record_after bytes seen (some space) =
    let size = value 10 0 (take space bytes) in
    if ltb 8 space || not (is_decimal (take space bytes))
    then err invalid_archive
    else with_rest size bytes (record_of space size bytes seen)

-- One turn of the loop: the key and the value of the next record, and what follows it.
unfoldable pub next_record : Bytes → Records → Result (Bytes × Bytes × Bytes)
next_record bytes seen = record_after bytes seen (index_byte b' ' bytes)

-- The fuel is the number of bytes; every record takes some of them.
unfoldable pub parse_from : (fuel : ℕ) → Bytes → Records → Result Records
unfolding next_record
parse_from fuel [] seen = ok seen
parse_from zero (b ∷ rest) seen = err invalid_archive
parse_from (suc fuel) (b ∷ rest) seen = elim (next_record (b ∷ rest) seen) [
  | err e ↦ err e
  | ok (key, value, rest') ↦ parse_from fuel rest' (seen ++ (key, value) ∷ [])
]

unfoldable pub parse_pax : Bytes → Result Records
unfolding parse_from
parse_pax bytes = parse_from (length bytes) bytes []
