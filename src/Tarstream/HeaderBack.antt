-- ===== src/Tarstream/HeaderBack.antt =====
-- internal/tarstream/tarstream.go: DecodeHeader reads the headers that rawHeader makes.
use ludock.Common.{
  Option, length, ◌≤◌, ◌+◌, [], ◌∷◌, ◌++◌, ◌≡◌, refl, sym, ap, ◌∙◌, arith, Bytes, nat_eq,
  nat_beq_iff, take, drop, ok, append_assoc, codes, bytes_eq,
}
use ludock.Tarstream.Text.{utf8_valid}
use ludock.Tarstream.Fields.{max_integer, repeat, text_field, integer}
use ludock.Tarstream.Slices.{field_at, byte_at-drop}
use ludock.Tarstream.HeaderFields.{checksum_read, Fits, text_written, number_written}
use ludock.Tarstream.Header.{
  flag_of, Header, sum, checksum_field, magic, around, raw_header, decode_header,
}
use ludock.Tarstream.HeaderParts.{
  renamed, kind_of-flag_of, byte-flag_of, is_checked-of, decode_header-of, read_name-of,
}
use ludock.Tarstream.Layout.{
  before, after, Filled, total, total-parts, total-le, length-before, length-around,
}

-- The block of a header with its fields written, read back.
read_around :
    (h : Header) (override : Option Bytes) (name mode uid gid size mtime linkname : Bytes)
    → Filled name mode uid gid size mtime linkname (flag_of h.kind)
    → text_field name ≡ ok h.name
    → integer mode ≡ ok h.mode
    → integer uid ≡ ok h.uid
    → integer gid ≡ ok h.gid
    → integer size ≡ ok h.size
    → integer mtime ≡ ok h.mtime
    → text_field linkname ≡ ok h.linkname
    → decode_header
        (around
          (before name mode uid gid size mtime linkname (flag_of h.kind))
          (after name mode uid gid size mtime linkname (flag_of h.kind)))
        override
      ≡ ok (renamed override h)
unfolding text_field utf8_valid
read_around h override name mode uid gid size mtime linkname filled name' mode' uid' gid' size'
      mtime' linkname' =
    let flag = flag_of h.kind in
    let first = before name mode uid gid size mtime linkname flag in
    let last = after name mode uid gid size mtime linkname flag in
    let all_bytes = total name mode uid gid size mtime linkname flag in
    let checksum = checksum_field all_bytes in
    let block = around first last in
    let (n, m, u, g, s, t, l, f) = filled in
    let c = checksum_read all_bytes (total-le name mode uid gid size mtime linkname flag filled) in
    let rest : Bytes = checksum ++ last in
    let shape : block ≡ name ++ (mode ++ (uid ++ (gid ++ (size ++ (mtime ++ rest))))) =
      simp (append_assoc) in
    let at_0 = field_at block name _ 0 100 shape n.0 in
    let at_100 = field_at block mode _ 100 8 at_0.1 m.0 in
    let at_108 = field_at block uid _ 108 8 at_100.1 u.0 in
    let at_116 = field_at block gid _ 116 8 at_108.1 g.0 in
    let at_124 = field_at block size _ 124 12 at_116.1 s.0 in
    let at_136 = field_at block mtime rest 136 12 at_124.1 t.0 in
    let at_148 = field_at block checksum last 148 8 at_136.1 c.0 in
    let at_156 =
      field_at block (flag ∷ []) (linkname ++ (magic ++ repeat 247 0)) 156 1 at_148.1 refl in
    let at_157 = field_at block linkname (magic ++ repeat 247 0) 157 100 at_156.1 l.0 in
    let at_257 =
      field_at block (codes "ustar" ++ 0 ∷ []) (codes "00" ++ repeat 247 0) 257 6 at_157.1 refl in
    let at_263 = field_at block (codes "00" ++ repeat 80 0) (repeat 167 0) 263 82 at_257.1 refl in
    let at_345 = field_at block (repeat 155 0) (repeat 12 0) 345 155 at_263.1 refl in
    let head =
      field_at block first rest 0 148 refl
        (length-before name mode uid gid size mtime linkname flag filled) in
    let sums : all_bytes ≡ 256 + (sum (take 148 block) + sum (drop 156 block)) =
      total-parts name mode uid gid size mtime linkname flag
      ∙ ap (λ k. 256 + k)
          (sym (
            ap (λ b. sum b + sum (drop 156 block)) head.0
            ∙ ap (λ b. sum first + sum b) at_148.1)) in
    let full =
      (nat_beq_iff _ _).1 (length-around name mode uid gid size mtime linkname flag filled) in
    decode_header-of (renamed override h) block override all_bytes full (ap integer at_148.0 ∙ c.1)
      (ap text_field at_257.0) (is_checked-of block all_bytes sums)
      (kind_of-flag_of h.kind block (byte_at-drop block _ flag 156 at_148.1))
      (read_name-of block h.name h.kind override (ap text_field at_345.0)
        (ap text_field at_0.0 ∙ name'))
      (ap integer at_100.0 ∙ mode') (ap integer at_108.0 ∙ uid') (ap integer at_116.0 ∙ gid')
      (ap integer at_124.0 ∙ size') (ap integer at_136.0 ∙ mtime')
      (ap text_field at_157.0 ∙ linkname')

-- What rawHeader can write.
pub record Storable (h : Header) : Type 0 where
  pub name : Fits 100 h.name
  pub linkname : Fits 100 h.linkname
  pub mode : h.mode ≤ max_integer
  pub uid : h.uid ≤ max_integer
  pub gid : h.gid ≤ max_integer
  pub size : h.size ≤ max_integer
  pub mtime : h.mtime ≤ max_integer

-- rawHeader writes every header with a name and a link of at most 100 bytes of valid UTF-8 without NUL
-- and with numbers of at most 53 bits; DecodeHeader reads it back as it was, but for the name where a
-- path is given, and of a PAX header, which it calls PaxHeader.
pub decode_header-raw_header :
    (h : Header) (override : Option Bytes)
    → Storable h
    → (block : Bytes) × (raw_header h (flag_of h.kind) ≡ ok block)
      × (length block ≡ 512)
      × (decode_header block override ≡ ok (renamed override h))
unfolding raw_header
decode_header-raw_header h override k =
    let flag = flag_of h.kind in
    let (name, name_is, n, name') = text_written h.name 100 k.name in
    let (mode, mode_is, m, mode') = number_written h.mode 8 k.mode (omega arith) in
    let (uid, uid_is, u, uid') = number_written h.uid 8 k.uid (omega arith) in
    let (gid, gid_is, g, gid') = number_written h.gid 8 k.gid (omega arith) in
    let (size, size_is, s, size') = number_written h.size 12 k.size (omega arith) in
    let (mtime, mtime_is, t, mtime') = number_written h.mtime 12 k.mtime (omega arith) in
    let (linkname, linkname_is, l, linkname') = text_written h.linkname 100 k.linkname in
    let filled : Filled name mode uid gid size mtime linkname flag =
      (n, m, u, g, s, t, l, byte-flag_of h.kind) in
    (
      around (before name mode uid gid size mtime linkname flag)
          (after name mode uid gid size mtime linkname flag),
      rw (name_is, mode_is, uid_is, gid_is, size_is, mtime_is, linkname_is) refl,
      length-around name mode uid gid size mtime linkname flag filled,
      read_around h override name mode uid gid size mtime linkname filled name' mode' uid' gid'
          size' mtime' linkname',
    )
