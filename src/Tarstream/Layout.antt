-- ===== src/Tarstream/Layout.antt =====
-- internal/tarstream/tarstream.go: how long the parts of a block are, and what its bytes add up to.
use ludock.Common.{
  ℕ, ◌+◌, ◌≤◌, ◌<◌, ◌∷◌, ◌++◌, ◌≡◌, arith, Bytes, nat_eq, length, length-append, bytes_eq,
}
use ludock.Tarstream.Fields.{repeat}
use ludock.Tarstream.Sizes.{Small, Small-append, sum-append}
use ludock.Tarstream.HeaderFields.{IsField, checksum_read}
use ludock.Tarstream.Header.{sum, checksum_field, magic, around}

-- The fields of a header, side by side.
module _ (name mode uid gid size mtime linkname : Bytes) (flag : ℕ) where
  abbrev pub before : Bytes
  before = name ++ (mode ++ (uid ++ (gid ++ (size ++ mtime))))

  abbrev pub after : Bytes
  after = flag ∷ (linkname ++ (magic ++ repeat 247 0))

  abbrev pub Filled : Type 0
  Filled =
      IsField 100 name
      × IsField 8 mode
      × IsField 8 uid
      × IsField 8 gid
      × IsField 12 size
      × IsField 12 mtime
      × IsField 100 linkname
      × (flag < 256)

  pub length-before : Filled → length before ≡ 148
  length-before (n, m, u, g, s, t, l, f) = omega (
    arith,
    n.0,
    m.0,
    u.0,
    g.0,
    s.0,
    t.0,
    length-append name (mode ++ (uid ++ (gid ++ (size ++ mtime)))),
    length-append mode (uid ++ (gid ++ (size ++ mtime))),
    length-append uid (gid ++ (size ++ mtime)),
    length-append gid (size ++ mtime),
    length-append size mtime,
  )

  length-after : Filled → length after ≡ 356
  length-after (n, m, u, g, s, t, l, f) =
      omega (arith, l.0, length-append linkname (magic ++ repeat 247 0))

  Small-before : Filled → Small before
  Small-before (n, m, u, g, s, t, l, f) = Small-append name _ n.1 (
      Small-append mode _ m.1
        (Small-append uid _ u.1 (Small-append gid _ g.1 (Small-append size mtime s.1 t.1))))

  Small-after : Filled → Small after
  Small-after (n, m, u, g, s, t, l, f) =
      let rest = Small-append linkname (magic ++ repeat 247 0) l.1 (omega arith) in
      omega (arith, rest, f)

  abbrev pub total : ℕ
  total = sum (before ++ (repeat 8 b' ' ++ after))

  pub total-parts : total ≡ 256 + (sum before + sum after)
  total-parts = omega (arith, sum-append before (repeat 8 b' ' ++ after))

  pub total-le : Filled → total ≤ 130560
  total-le filled = omega (
    arith,
    total-parts,
    length-before filled,
    length-after filled,
    Small-before filled,
    Small-after filled,
  )

  pub length-around : Filled → length (around before after) ≡ 512
  length-around filled = omega (
    arith,
    length-before filled,
    length-after filled,
    (checksum_read total (total-le filled)).0,
    length-append before (checksum_field total ++ after),
    length-append (checksum_field total) after,
  )
