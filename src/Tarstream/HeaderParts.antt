-- ===== src/Tarstream/HeaderParts.antt =====
-- internal/tarstream/tarstream.go: the tests of DecodeHeader, each by itself.
use ludock.Common.{
  some, Option, Bool-cases, inl, inr, if◌then◌else◌, ℕ, ◌+◌, ◌<◌, true, none, some, [], ◌≡◌, refl,
  arith, Bytes, nat_eq, nat_beq, nat_beq_iff, length, take, drop, ok, codes, bytes_eq,
}
use ludock.Tarstream.Text.{trim_space}
use ludock.Tarstream.Fields.{text_field, integer}
use ludock.Tarstream.Header.{
  Kind, file, link, symlink, character_device, block_device, directory, fifo, contiguous_file,
  pax_header, pax_global_header, kind_of, flag_of, is_pax, Header, sum, slice, byte_at, flag_at,
  read_name, is_checked, decode_header,
}

-- The byte of a kind, read back.
pub kind_of-flag_of :
    (kind : Kind) (block : Bytes)
    → byte_at 156 block ≡ flag_of kind
    → kind_of (flag_at block) ≡ some kind
unfolding kind_of
kind_of-flag_of file block h = rw h refl
kind_of-flag_of link block h = rw h refl
kind_of-flag_of symlink block h = rw h refl
kind_of-flag_of character_device block h = rw h refl
kind_of-flag_of block_device block h = rw h refl
kind_of-flag_of directory block h = rw h refl
kind_of-flag_of fifo block h = rw h refl
kind_of-flag_of contiguous_file block h = rw h refl
kind_of-flag_of pax_header block h = rw h refl
kind_of-flag_of pax_global_header block h = rw h refl

pub is_checked-of :
    (block : Bytes) (checksum : ℕ)
    → checksum ≡ 256 + (sum (take 148 block) + sum (drop 156 block))
    → is_checked block checksum (codes "ustar") ≡ true
unfolding trim_space
is_checked-of block checksum h = rw ((nat_beq_iff _ _).1 h) refl

-- A whole block with the fields of a header.
pub decode_header-of :
    (h : Header) (block : Bytes) (override : Option Bytes) (checksum : ℕ)
    → nat_beq (length block) 512 ≡ true
    → integer (slice 148 8 block) ≡ ok checksum
    → text_field (slice 257 6 block) ≡ ok (codes "ustar")
    → is_checked block checksum (codes "ustar") ≡ true
    → kind_of (flag_at block) ≡ some h.kind
    → read_name block h.kind override ≡ ok h.name
    → integer (slice 100 8 block) ≡ ok h.mode
    → integer (slice 108 8 block) ≡ ok h.uid
    → integer (slice 116 8 block) ≡ ok h.gid
    → integer (slice 124 12 block) ≡ ok h.size
    → integer (slice 136 12 block) ≡ ok h.mtime
    → text_field (slice 157 100 block) ≡ ok h.linkname
    → decode_header block override ≡ ok h
unfolding decode_header
decode_header-of h block override checksum full sum_field magic_field checked kind name mode uid gid
      size mtime linkname =
    rw (full, sum_field, magic_field, checked, kind, name, mode, uid, gid, size, mtime, linkname)
      refl

-- The name that DecodeHeader finds where another is written: one that a PAX record gives, or that of
-- PAX headers.
abbrev pub name_for : Kind → (override : Option Bytes) → (written : Bytes) → Bytes
name_for kind (some path) written = path
name_for kind none written = if is_pax kind then codes "PaxHeader" else written

abbrev pub renamed : (override : Option Bytes) → Header → Header
renamed override h = record {
  name = name_for h.kind override h.name;
  kind = h.kind;
  size = h.size;
  mode = h.mode;
  uid = h.uid;
  gid = h.gid;
  mtime = h.mtime;
  linkname = h.linkname;
}

pub read_name-of :
    (block name : Bytes) (kind : Kind) (override : Option Bytes)
    → text_field (slice 345 155 block) ≡ ok []
    → text_field (slice 0 100 block) ≡ ok name
    → read_name block kind override ≡ ok (name_for kind override name)
read_name-of block name kind (some path) prefix h = refl
read_name-of block name kind none prefix h = elim (Bool-cases (is_pax kind)) [
  | inl pax ↦ rw pax refl
  | inr plain ↦ rw (plain, prefix, h) refl
]

pub byte-flag_of : (kind : Kind) → flag_of kind < 256
byte-flag_of file = omega arith
byte-flag_of link = omega arith
byte-flag_of symlink = omega arith
byte-flag_of character_device = omega arith
byte-flag_of block_device = omega arith
byte-flag_of directory = omega arith
byte-flag_of fifo = omega arith
byte-flag_of contiguous_file = omega arith
byte-flag_of pax_header = omega arith
byte-flag_of pax_global_header = omega arith
