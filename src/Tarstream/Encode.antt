-- ===== src/Tarstream/Encode.antt =====
-- internal/tarstream/tarstream.go: EncodeHeader, whose map of records is a list with distinct keys. The
-- time of a header is in whole seconds from 1970 on, so EncodeHeader adds no record of it.
use ludock.Common.{
  ℕ, ◌-◌, ◌%◌, Bool, true, false, not, Option, none, some, [], ◌∷◌, ◌++◌, ◌&&◌, ◌||◌, Bytes, nat_eq,
  nat_beq, bytes_eq, ◌==◌, ltb, if◌then◌else◌, length, Result, ok, err, ◌>>=◌, invalid_archive,
  codes,
}
use ludock.Tarstream.Fields.{repeat}
use ludock.Tarstream.Pax.{Records, has_key, pax_records, max_metadata}
use ludock.Tarstream.Header.{Header, pax_header, flag_of, raw_header}

-- Padding
abbrev pub padding : ℕ → Bytes
padding size = repeat ((512 - size % 512) % 512) 0

-- paxOrder
abbrev pax_order : Bytes → ℕ
pax_order key =
    if key == codes "uid"
    then 0
    else if key == codes "gid"
    then 1
    else if key == codes "mtime"
    then 2
    else if key == codes "path"
    then 3
    else 4

-- Go's order of strings.
abbrev bytes_less : Bytes → Bytes → Bool
bytes_less s [] = false
bytes_less [] (b ∷ t) = true
bytes_less (a ∷ s) (b ∷ t) = let rest = bytes_less s t in ltb a b || nat_beq a b && rest

abbrev key_less : Bytes → Bytes → Bool
key_less key other =
    ltb (pax_order key) (pax_order other)
    || nat_beq (pax_order key) (pax_order other) && bytes_less key other

abbrev insert_record : Bytes × Bytes → Records → Records
insert_record record_ [] = record_ ∷ []
insert_record (key, value) ((k, v) ∷ records) =
    let rest = insert_record (key, value) records in
    if key_less key k then (key, value) ∷ (k, v) ∷ records else (k, v) ∷ rest

-- The order of sort.Slice: no two keys are equal.
abbrev sort_records : Records → Records
sort_records [] = []
sort_records (entry ∷ records) = insert_record entry (sort_records records)

abbrev with_path : Bytes → Records → Records
with_path name pax =
    if not (has_key (codes "path") pax) && ltb 100 (length name)
    then (codes "path", name) ∷ pax
    else pax

-- The records that are written for a header, in their order.
unfoldable pub records_of : Header → (pax : Records) → Records
records_of h pax = sort_records (with_path h.name pax)

-- The header of the records.
abbrev pub pax_header_of : (size : ℕ) → Header
pax_header_of size = record {
  name = codes "PaxHeader";
  kind = pax_header;
  size = size;
  mode = 420;
  uid = 0;
  gid = 0;
  mtime = 0;
  linkname = [];
}

unfoldable pub with_header : Option Bytes → Result Bytes
unfolding raw_header
with_header none = err invalid_archive
with_header (some records) =
    if ltb max_metadata (length records)
    then err invalid_archive
    else (raw_header (pax_header_of (length records)) b'x' >>= λ block.
        ok (block ++ (records ++ padding (length records))))

unfoldable pub encode_records : Records → Result Bytes
unfolding pax_records
encode_records [] = ok []
encode_records (entry ∷ records) = with_header (pax_records (entry ∷ records))

-- The header itself, which has another name where a record gives its path.
abbrev pub entry_of : Header → (records : Records) → Header
entry_of h records = record {
  name = if has_key (codes "path") records then codes "entry" else h.name;
  kind = h.kind;
  size = h.size;
  mode = h.mode;
  uid = h.uid;
  gid = h.gid;
  mtime = h.mtime;
  linkname = h.linkname;
}

-- EncodeHeader
unfoldable pub encode_header : Header → (pax : Records) → Result Bytes
unfolding records_of raw_header with_header encode_records
encode_header h pax =
    let records = records_of h pax in
    if ltb 4096 (length h.name)
    then err invalid_archive
    else (encode_records records >>= λ front.
        raw_header (entry_of h records) (flag_of h.kind) >>= λ raw. ok (front ++ raw))

-- What Walk takes from the local records for the name of the next header.
abbrev pub path_of : Records → Option Bytes
path_of [] = none
path_of ((key, value) ∷ records) = if key == codes "path" then some value else path_of records
