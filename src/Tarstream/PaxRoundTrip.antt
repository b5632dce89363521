-- ===== src/Tarstream/PaxRoundTrip.antt =====
-- internal/tarstream/tarstream.go: what EncodeHeader writes as PAX records, parsePAX reads.
use mathlib.Core.List.{append_assoc, append-nil}
use ludock.Common.{
  ℕ, zero, suc, ◌+◌, ◌-◌, ◌≤◌, ◌<◌, false, Option, none, some, [], ◌∷◌, ◌++◌, ◌≡◌, ◌≢◌, refl, sym,
  ap, ◌∙◌, subst, arith, Bytes, length, Option-cases, inl, inr, length-append, ok,
}
use ludock.Tarstream.Numerals.{format, width, width-le, width_metadata}
use ludock.Tarstream.Pax.{
  record_text, with_size, pax_record, pax_records, joined, max_metadata, Records, has_key,
  next_record, parse_from, parse_pax,
}
use ludock.Tarstream.PaxSize.{find_size-ends}
use ludock.Tarstream.PaxBack.{Storable}
use ludock.Tarstream.PaxRead.{record_bytes, next_record_ok}

pub pax_record-some :
    (key val : Bytes)
    → (size : ℕ) × (pax_record key val ≡ some (format 10 size ++ record_text key val))
      × (length (format 10 size) + length (record_text key val) ≡ size)
unfolding pax_record
pax_record-some key val =
    let (size, found, counted) = find_size-ends (length (record_text key val)) in
    (size, ap (with_size (record_text key val)) found, counted)

record_bytes-append :
    (size : ℕ) (key val rest : Bytes)
    → (format 10 size ++ record_text key val) ++ rest ≡ record_bytes size key val rest
record_bytes-append size key val rest = simp (append_assoc)

-- Every record can be stored, under a key that is not among those before it.
abbrev pub AllStorable : (seen records : Records) → Type 0
AllStorable seen [] = Unit
AllStorable seen ((key, val) ∷ records) =
    Storable key val × (has_key key seen ≡ false) × AllStorable (seen ++ (key, val) ∷ []) records

parse_from-nil : (fuel : ℕ) (seen : Records) → parse_from fuel [] seen ≡ ok seen
unfolding parse_from
parse_from-nil zero seen = refl
parse_from-nil (suc fuel) seen = refl

pub parse_from-next :
    (fuel : ℕ) (bytes rest : Bytes) (seen : Records) (key val : Bytes)
    → bytes ≢ []
    → next_record bytes seen ≡ ok (key, val, rest)
    → parse_from (suc fuel) bytes seen ≡ parse_from fuel rest (seen ++ (key, val) ∷ [])
unfolding parse_from
parse_from-next fuel [] rest seen key val ne h = absurd (ne refl)
parse_from-next fuel (b ∷ bytes) rest seen key val ne h = rw (h, parse_from) refl

parse_from-record :
    (size : ℕ) (key val rest : Bytes) (seen : Records) (fuel : ℕ) {bytes : Bytes}
    → Storable key val
    → has_key key seen ≡ false
    → length (format 10 size) + length (record_text key val) ≡ size
    → width size ≤ 8
    → 0 < fuel
    → bytes ≡ (format 10 size ++ record_text key val) ++ rest
    → parse_from fuel bytes seen ≡ parse_from (fuel - 1) rest (seen ++ (key, val) ∷ [])
parse_from-record size key val rest seen zero s fresh counted small pos same = absurd (omega arith)
parse_from-record size key val rest seen (suc fuel) s fresh counted small pos same =
    ap (λ b. parse_from (suc fuel) b seen) (same ∙ record_bytes-append size key val rest)
    ∙ parse_from-next fuel (record_bytes size key val rest) rest seen key val
        (λ e. absurd (
          omega (
            arith,
            ap length e,
            length-append (format 10 size) (b' ' ∷ ((key ++ b'=' ∷ val) ++ 10 ∷ rest)),
          )))
        (next_record_ok size key val rest seen s fresh counted small)
    ∙ ap (λ f. parse_from f rest (seen ++ (key, val) ∷ [])) {x = fuel} {y = suc fuel - 1}
        (omega arith)

joined-some :
    (a b : Option Bytes) {x y bytes : Bytes}
    → a ≡ some x
    → b ≡ some y
    → joined a b ≡ some bytes
    → x ++ y ≡ bytes
joined-some none b p q h = cc
joined-some (some u) none p q h = cc
joined-some (some u) (some v) p q h = cc

parse_from-records :
    (records seen : Records) (fuel : ℕ) (bytes : Bytes)
    → pax_records records ≡ some bytes
    → length bytes ≤ max_metadata
    → length bytes ≤ fuel
    → AllStorable seen records
    → parse_from fuel bytes seen ≡ ok (seen ++ records)
unfolding pax_records
parse_from-records [] seen fuel bytes written few enough storable =
    subst (λ b. parse_from fuel b seen ≡ ok (seen ++ [])) {x = []} {y = bytes} (cc)
      (parse_from-nil fuel seen ∙ ap ok (sym (append-nil seen)))
parse_from-records ((key, val) ∷ records) seen fuel bytes written few enough (s, fresh, others) =
    let (size, found, counted) = pax_record-some key val in
    elim (Option-cases (pax_records records)) [
      | inl stuck ↦ ground (arith, found, stuck, written)
      | inr (more, rest) ↦
          let whole : (format 10 size ++ record_text key val) ++ more ≡ bytes =
            joined-some (pax_record key val) (pax_records records) found rest written in
          let total : size + length more ≡ length bytes =
            ap (λ k. k + length more)
              (sym (length-append (format 10 size) (record_text key val) ∙ counted))
            ∙ sym (length-append (format 10 size ++ record_text key val) more)
            ∙ ap length whole in
          let small : width size ≤ 8 =
            omega (arith, width-le size max_metadata (omega arith), width_metadata) in
          let pos : 0 < size = omega arith in
          parse_from-record size key val more seen fuel s fresh counted small (omega arith)
            (sym whole)
          ∙ parse_from-records records (seen ++ (key, val) ∷ []) (fuel - 1) more rest (omega arith)
              (omega arith) others
          ∙ ap ok (append_assoc seen ((key, val) ∷ []) records)
    ]

joined_both :
    (a b : Option Bytes) {x y : Bytes} → a ≡ some x → b ≡ some y → joined a b ≡ some (x ++ y)
joined_both none b p q = cc
joined_both (some u) none p q = cc
joined_both (some u) (some v) p q = cc

-- paxRecord always ends, and so does the loop over it.
pax_records-some : (records : Records) → (bytes : Bytes) × (pax_records records ≡ some bytes)
unfolding pax_records
pax_records-some [] = ([], refl)
pax_records-some ((key, val) ∷ records) =
    let (size, found, counted) = pax_record-some key val in
    let (more, rest) = pax_records-some records in
    (
      (format 10 size ++ record_text key val) ++ more,
      joined_both (pax_record key val) (pax_records records) found rest,
    )

-- How many bytes the records are.
abbrev pub size_of : Option Bytes → ℕ
size_of none = 0
size_of (some bytes) = length bytes

-- EncodeHeader writes records of distinct keys, and no more than maxMetadataBytes of them are read
-- back by parsePAX as the keys and values they were made of.
pub parse_pax-pax_records :
    (records : Records)
    → AllStorable [] records
    → size_of (pax_records records) ≤ max_metadata
    → (bytes : Bytes) × (pax_records records ≡ some bytes) × (parse_pax bytes ≡ ok records)
unfolding parse_pax
parse_pax-pax_records records storable few =
    let (bytes, written) = pax_records-some records in
    let short : length bytes ≤ max_metadata = subst (λ w. size_of w ≤ max_metadata) written few in
    (
      bytes,
      written,
      parse_from-records records [] (length bytes) bytes written short (omega arith) storable,
    )
