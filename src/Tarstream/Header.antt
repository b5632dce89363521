-- ===== src/Tarstream/Header.antt =====
-- internal/tarstream/tarstream.go: rawHeader and DecodeHeader. The fields of a block lie side by side,
-- so the writes of rawHeader are their concatenation. The time is in whole seconds: DecodeHeader reads
-- no other, and rawHeader is given the floor, or 0 for a time before 1970. Numbers are not negative;
-- rawHeader refuses those that are.
use ludock.Common.{
  ℕ, zero, suc, ◌+◌, ◌-◌, Bool, true, false, Option, none, some, [], ◌∷◌, ◌++◌, ◌&&◌, Bytes, nat_eq,
  bytes_eq, nat_beq, ◌==◌, if◌then◌else◌, length, take, drop, Result, ok, err, ◌>>=◌,
  invalid_archive, codes, is_empty,
}
use ludock.Tarstream.Numerals.{format}
use ludock.Tarstream.Text.{trim_space}
use ludock.Tarstream.Fields.{text_field, integer, repeat, number, text}

-- types
pub data Kind : Type 0 where
  file link symlink character_device block_device directory fifo contiguous_file : Kind
  pax_header pax_global_header : Kind

unfoldable pub kind_of : ℕ → Option Kind
kind_of flag =
    if nat_beq flag b'0'
    then some file
    else if nat_beq flag b'1'
    then some link
    else if nat_beq flag b'2'
    then some symlink
    else if nat_beq flag b'3'
    then some character_device
    else if nat_beq flag b'4'
    then some block_device
    else if nat_beq flag b'5'
    then some directory
    else if nat_beq flag b'6'
    then some fifo
    else if nat_beq flag b'7'
    then some contiguous_file
    else if nat_beq flag b'x'
    then some pax_header
    else if nat_beq flag b'g'
    then some pax_global_header
    else none

-- The loop of EncodeHeader over types.
abbrev pub flag_of : Kind → ℕ
flag_of file = b'0'
flag_of link = b'1'
flag_of symlink = b'2'
flag_of character_device = b'3'
flag_of block_device = b'4'
flag_of directory = b'5'
flag_of fifo = b'6'
flag_of contiguous_file = b'7'
flag_of pax_header = b'x'
flag_of pax_global_header = b'g'

abbrev pub is_pax : Kind → Bool
is_pax pax_header = true
is_pax pax_global_header = true
is_pax kind = false

pub record Header : Type 0 where
  pub name : Bytes
  pub kind : Kind
  pub size : ℕ
  pub mode : ℕ
  pub uid : ℕ
  pub gid : ℕ
  pub mtime : ℕ
  pub linkname : Bytes

abbrev pub sum : Bytes → ℕ
sum [] = 0
sum (b ∷ s) = b + sum s

-- The checksum is at most 512 * 255, which takes six octal digits.
abbrev pub checksum_field : ℕ → Bytes
checksum_field total = repeat (6 - length (format 8 total)) b'0' ++ format 8 total ++ 0 ∷ b' ' ∷ []

abbrev pub magic : Bytes
magic = codes "ustar" ++ 0 ∷ codes "00"

-- What comes before the checksum and after it.
abbrev pub around : (before after : Bytes) → Bytes
around before after = before ++ (checksum_field (sum (before ++ (repeat 8 b' ' ++ after))) ++ after)

unfoldable pub raw_header : Header → (flag : ℕ) → Result Bytes
unfolding number text format
raw_header h flag = do
  name ← text h.name 100
  mode ← number h.mode 8
  uid ← number h.uid 8
  gid ← number h.gid 8
  size ← number h.size 12
  mtime ← number h.mtime 12
  linkname ← text h.linkname 100
  ok (
      around (name ++ (mode ++ (uid ++ (gid ++ (size ++ mtime)))))
        (flag ∷ (linkname ++ (magic ++ repeat 247 0))))

abbrev pub slice : (from size : ℕ) → Bytes → Bytes
slice from size block = take size (drop from block)

abbrev pub byte_at : (index : ℕ) → Bytes → ℕ
byte_at zero [] = 0
byte_at (suc i) [] = 0
byte_at zero (b ∷ s) = b
byte_at (suc i) (b ∷ s) = byte_at i s

-- The blank flag of old archives is a file's.
abbrev pub flag_at : Bytes → ℕ
flag_at block = let flag = byte_at 156 block in if nat_beq flag 0 then b'0' else flag

abbrev pub found_kind : Option Kind → Result Kind
found_kind none = err invalid_archive
found_kind (some kind) = ok kind

abbrev pub with_prefix : (prefix name : Bytes) → Bytes
with_prefix prefix name = if is_empty prefix then name else prefix ++ b'/' ∷ name

abbrev pub read_name : Bytes → Kind → Option Bytes → Result Bytes
read_name block kind (some path) = ok path
read_name block kind none =
    if is_pax kind
    then ok (codes "PaxHeader")
    else (text_field (slice 345 155 block) >>= λ prefix.
        text_field (slice 0 100 block) >>= λ name. ok (with_prefix prefix name))

abbrev pub is_checked : Bytes → ℕ → Bytes → Bool
is_checked block checksum magic_text =
    nat_beq checksum (256 + (sum (take 148 block) + sum (drop 156 block)))
    && trim_space magic_text == codes "ustar"

abbrev pub require : Bool → Result (Unit {0})
require true = ok tt
require false = err invalid_archive

-- DecodeHeader
unfoldable pub decode_header : Bytes → (path_override : Option Bytes) → Result Header
unfolding integer text_field kind_of trim_space
decode_header block path_override = do
  whole ← require (nat_beq (length block) 512)
  checksum ← integer (slice 148 8 block)
  magic_text ← text_field (slice 257 6 block)
  checked ← require (is_checked block checksum magic_text)
  kind ← found_kind (kind_of (flag_at block))
  name ← read_name block kind path_override
  mode ← integer (slice 100 8 block)
  uid ← integer (slice 108 8 block)
  gid ← integer (slice 116 8 block)
  size ← integer (slice 124 12 block)
  mtime ← integer (slice 136 12 block)
  linkname ← text_field (slice 157 100 block)
  ok (record {
    name = name;
    kind = kind;
    size = size;
    mode = mode;
    uid = uid;
    gid = gid;
    mtime = mtime;
    linkname = linkname;
  })
