-- ===== src/Examples/Tarstream.antt =====
-- The theorems on archives (internal/tarstream) at concrete inputs.
use ludock.Common.{
  is_empty, take, drop, ◌≤◌, ◌>>=◌, invalid_archive, err, Result, false, ℕ, ◌+◌, ◌≡◌, refl, none,
  some, [], ◌∷◌, ◌++◌, ok, Bytes, codes, length, arith,
}
use ludock.Tarstream.Numerals.{format}
use ludock.Tarstream.Text.{trim_space, utf8_valid}
use ludock.Tarstream.Fields.{number, integer}
use ludock.Tarstream.Header.{slice, Header, file, raw_header, decode_header}
use ludock.Tarstream.HeaderParts.{renamed}
use ludock.Tarstream.Encode.{records_of, entry_of, encode_header, pax_header_of, padding, path_of}
use ludock.Tarstream.EncodeBack.{encode_header-read}
use ludock.Tarstream.HeaderBack.{Storable, decode_header-raw_header}
use ludock.Tarstream.Pax.{pax_record, Records, find_size, pax_records, parse_pax, max_metadata}
use ludock.Tarstream.PaxSize.{find_size-ends}
use ludock.Tarstream.PaxRoundTrip.{size_of, AllStorable}
use ludock.Tarstream.PaxSound.{parse_pax-AllStorable}

trimmed :
    trim_space (0xC2 ∷ 0xA0 ∷ b' ' ∷ b'a' ∷ b' ' ∷ b'b' ∷ 0xE3 ∷ 0x80 ∷ 0x80 ∷ [])
    ≡ b'a' ∷ b' ' ∷ b'b' ∷ []
unfolding trim_space
trimmed = refl

surrogate : utf8_valid (0xED ∷ 0xA0 ∷ 0x80 ∷ []) ≡ false
unfolding utf8_valid
surrogate = refl

formatted : format 10 1203 ≡ codes "1203"
unfolding format
formatted = refl

formatted_octal : format 8 420 ≡ codes "644"
unfolding format
formatted_octal = refl

field_small : number 420 8 ≡ ok (codes "0000644" ++ 0 ∷ [])
unfolding number
field_small = refl

field_wide : number 2097152 8 ≡ ok (128 ∷ 0 ∷ 0 ∷ 0 ∷ 0 ∷ 32 ∷ 0 ∷ 0 ∷ [])
unfolding number
field_wide = refl

field_wide_read : integer (128 ∷ 0 ∷ 0 ∷ 0 ∷ 0 ∷ 32 ∷ 0 ∷ 0 ∷ []) ≡ ok 2097152
unfolding integer
field_wide_read = refl

sized : pax_record (codes "mtime") (codes "1.5") ≡ some (codes "13 mtime=1.5" ++ 10 ∷ [])
unfolding pax_record
sized = refl

text_refused :
    parse_pax (codes "13 mtime=1.5" ++ (10 ∷ (codes "9 path=é" ++ 10 ∷ []))) ≡ err invalid_archive
unfolding parse_pax utf8_valid
text_refused = refl

two :
    parse_pax (codes "13 mtime=1.5" ++ (10 ∷ (codes "10 path=e" ++ 10 ∷ [])))
    ≡ ok ((codes "mtime", codes "1.5") ∷ (codes "path", codes "e") ∷ [])
unfolding parse_pax utf8_valid
two = refl

abbrev world_save : Header
world_save = record {
  name = codes "world/level.dat";
  kind = file;
  size = 1234;
  mode = 420;
  uid = 4294967294;
  gid = 1000;
  mtime = 1700000000;
  linkname = [];
}

abbrev decoded : Result Header
unfolding raw_header decode_header utf8_valid
decoded = raw_header world_save b'0' >>= λ block. decode_header block none

read_back : decoded ≡ ok world_save
unfolding raw_header decode_header utf8_valid
read_back = refl

-- The size of a record with 98 bytes after it takes three digits.
find_size-ends_example :
    (size : ℕ) × (find_size 3 98 99 ≡ some size) × (length (format 10 size) + 98 ≡ size)
find_size-ends_example = find_size-ends 98

abbrev records : Records
records = (codes "mtime", codes "1.5") ∷ (codes "path", codes "world/" ++ 195 ∷ 169 ∷ []) ∷ []

abbrev record_bytes : Bytes
record_bytes = codes "13 mtime=1.5" ++ (10 ∷ (codes "17 path=world/" ++ 195 ∷ 169 ∷ 10 ∷ []))

records-AllStorable : AllStorable [] records
unfolding utf8_valid
records-AllStorable = (
  record { key_ne_nil = λ e. cc; no_equals = refl; valid = refl; no_nul = refl; allowed = refl },
  refl,
  (
    record { key_ne_nil = λ e. cc; no_equals = refl; valid = refl; no_nul = refl; allowed = refl },
    refl,
    tt,
  ),
)

short : size_of (pax_records records) ≤ max_metadata
unfolding pax_records
short = omega arith

parsed : parse_pax record_bytes ≡ ok records
unfolding parse_pax utf8_valid
parsed = refl

parse_pax-AllStorable_example : AllStorable [] records
parse_pax-AllStorable_example = parse_pax-AllStorable record_bytes records parsed

-- The header of a file that has the owner nobody.
save-Storable : Storable world_save
unfolding utf8_valid
save-Storable = record {
  name = record { short = omega arith; no_nul = refl; valid = refl };
  linkname = record { short = omega arith; no_nul = refl; valid = refl };
  mode = omega arith;
  uid = omega arith;
  gid = omega arith;
  size = omega arith;
  mtime = omega arith;
}

decode_header-raw_header_example :
    (block : Bytes) × (raw_header world_save b'0' ≡ ok block)
    × (length block ≡ 512)
    × (decode_header block none ≡ ok world_save)
decode_header-raw_header_example = decode_header-raw_header world_save none save-Storable

-- A save with a time of half a second and a name that is not ASCII.
sorted : records_of world_save records ≡ records
unfolding records_of
sorted = refl

entry-Storable : Storable (entry_of world_save (records_of world_save records))
unfolding records_of utf8_valid
entry-Storable = record {
  name = record { short = omega arith; no_nul = refl; valid = refl };
  linkname = record { short = omega arith; no_nul = refl; valid = refl };
  mode = omega arith;
  uid = omega arith;
  gid = omega arith;
  size = omega arith;
  mtime = omega arith;
}

sorted-AllStorable : AllStorable [] (records_of world_save records)
unfolding records_of
sorted-AllStorable = records-AllStorable

sorted_short : size_of (pax_records (records_of world_save records)) ≤ max_metadata
unfolding pax_records records_of
sorted_short = omega arith

sorted_some : is_empty (records_of world_save records) ≡ false
unfolding records_of
sorted_some = refl

encode_header-read_example :
    (bytes : Bytes) × (size : ℕ) × (encode_header world_save records ≡ ok bytes)
    × (decode_header (take 512 bytes) none ≡ ok (pax_header_of size))
    × (parse_pax (slice 512 size bytes) ≡ ok (records_of world_save records))
    × (decode_header
          (drop (512 + size + length (padding size)) bytes)
          (path_of (records_of world_save records))
        ≡ ok (
            renamed
              (path_of (records_of world_save records))
              (entry_of world_save (records_of world_save records))))
encode_header-read_example =
    encode_header-read world_save records (omega arith) sorted_some sorted-AllStorable sorted_short
      entry-Storable
