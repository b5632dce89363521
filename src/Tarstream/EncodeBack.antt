-- ===== src/Tarstream/EncodeBack.antt =====
-- internal/tarstream/tarstream.go: the entries that EncodeHeader makes, as Walk's calls read them.
use ludock.Common.{
  ℕ, ◌+◌, ◌≤◌, false, none, some, [], ◌∷◌, ◌++◌, ◌≡◌, refl, ap, ◌∙◌, arith, Bytes, nat_eq, ltb,
  length, take, drop, ok, is_empty, append_assoc, subst,
}
use ludock.Tarstream.Text.{utf8_valid}
use ludock.Tarstream.Pax.{Records, pax_records, parse_pax, max_metadata}
use ludock.Tarstream.PaxRoundTrip.{AllStorable, size_of, parse_pax-pax_records}
use ludock.Tarstream.Header.{Header, raw_header, decode_header, slice}
use ludock.Tarstream.HeaderParts.{renamed}
use ludock.Tarstream.HeaderBack.{Storable, decode_header-raw_header}
use ludock.Tarstream.Slices.{field_at}
use ludock.Tarstream.Encode.{
  padding, records_of, pax_header_of, with_header, encode_records, entry_of, encode_header, path_of,
}

pax_header_of-Storable : (size : ℕ) → size ≤ max_metadata → Storable (pax_header_of size)
unfolding utf8_valid
pax_header_of-Storable size few = record {
  name = record { short = omega arith; no_nul = refl; valid = refl };
  linkname = record { short = omega arith; no_nul = refl; valid = refl };
  mode = omega arith;
  uid = omega arith;
  gid = omega arith;
  size = omega arith;
  mtime = omega arith;
}

-- The records with their header and padding.
encode_records-written :
    (all_records : Records) (records block : Bytes)
    → is_empty all_records ≡ false
    → pax_records all_records ≡ some records
    → length records ≤ max_metadata
    → raw_header (pax_header_of (length records)) b'x' ≡ ok block
    → encode_records all_records ≡ ok (block ++ (records ++ padding (length records)))
unfolding encode_records with_header
encode_records-written [] records block some_records written few made = cc
encode_records-written (entry ∷ others) records block some_records written few made =
    let fits : ltb max_metadata (length records) ≡ false = ground (arith, few) in
    rw written (rw fits (rw made refl))

-- The parts of an entry with records.
parts :
    (block records pad raw : Bytes)
    → length block ≡ 512
    → (take 512 ((block ++ (records ++ pad)) ++ raw) ≡ block)
      × (slice 512 (length records) ((block ++ (records ++ pad)) ++ raw) ≡ records)
      × (drop (512 + length records + length pad) ((block ++ (records ++ pad)) ++ raw) ≡ raw)
parts block records pad raw size =
    let bytes = (block ++ (records ++ pad)) ++ raw in
    let shape : bytes ≡ block ++ (records ++ (pad ++ raw)) = simp (append_assoc) in
    let at_0 = field_at bytes block (records ++ (pad ++ raw)) 0 512 shape size in
    let at_512 = field_at bytes records (pad ++ raw) 512 (length records) at_0.1 refl in
    let at_pad = field_at bytes pad raw (512 + length records) (length pad) at_512.1 refl in
    (at_0.0, at_512.0, at_pad.1)

not_long : (n : ℕ) → n ≤ 4096 → ltb 4096 n ≡ false
not_long n h = ground arith

-- EncodeHeader writes a header that needs records as a PAX header of their size, the records, padding
-- and the header's own block. DecodeHeader reads both, and parsePAX the records between them, in their
-- order; the name of the second header is the path of the records, where they have one. The name has
-- at most 4096 bytes, the records can be stored and are no more than maxMetadataBytes, and the fields
-- of the second header fit.
pub encode_header-read :
    (h : Header) (pax : Records)
    → length h.name ≤ 4096
    → is_empty (records_of h pax) ≡ false
    → AllStorable [] (records_of h pax)
    → size_of (pax_records (records_of h pax)) ≤ max_metadata
    → Storable (entry_of h (records_of h pax))
    → (bytes : Bytes) × (size : ℕ) × (encode_header h pax ≡ ok bytes)
      × (decode_header (take 512 bytes) none ≡ ok (pax_header_of size))
      × (parse_pax (slice 512 size bytes) ≡ ok (records_of h pax))
      × (decode_header
            (drop (512 + size + length (padding size)) bytes)
            (path_of (records_of h pax))
          ≡ ok (renamed (path_of (records_of h pax)) (entry_of h (records_of h pax))))
unfolding encode_header
encode_header-read h pax short some_records storable few entry =
    let all_records = records_of h pax in
    let path = path_of all_records in
    let (records, written, parsed) = parse_pax-pax_records all_records storable few in
    let fits : length records ≤ max_metadata = subst (λ w. size_of w ≤ max_metadata) written few in
    let (block, block_is, block_size, block_read) =
      decode_header-raw_header (pax_header_of (length records)) none
        (pax_header_of-Storable (length records) fits) in
    let (raw, raw_is, raw_size, raw_read) =
      decode_header-raw_header (entry_of h all_records) path entry in
    let front =
      encode_records-written all_records records block some_records written fits block_is in
    let (at_0, at_512, at_end) = parts block records (padding (length records)) raw block_size in
    let named : ltb 4096 (length h.name) ≡ false = not_long (length h.name) short in
    (
      (block ++ (records ++ padding (length records))) ++ raw,
      length records,
      rw named (rw front (rw raw_is refl)),
      ap (λ b. decode_header b none) at_0 ∙ block_read,
      ap parse_pax at_512 ∙ parsed,
      ap (λ b. decode_header b path) at_end ∙ raw_read,
    )
