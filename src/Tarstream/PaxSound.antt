-- ===== src/Tarstream/PaxSound.antt =====
-- internal/tarstream/tarstream.go: what parsePAX accepts.
use ludock.Common.{
  result_cases, ℕ, zero, suc, ◌+◌, ◌-◌, Bool, true, false, not, Option, none, some, [], ◌∷◌, ◌++◌,
  ◌||◌, ◌≡◌, ◌≢◌, refl, sym, ap, ◌∙◌, subst, arith, Bytes, nat_eq, nat_beq, leb, ltb, if◌then◌else◌,
  length, take, drop, contains, Bool-cases, Option-cases, inl, inr, Result, ok, err,
  invalid_archive, nat_beq_iff,
}
use mathlib.Core.List.{append_assoc, append-nil}
use ludock.Tarstream.Numerals.{value}
use ludock.Tarstream.Text.{utf8_valid}
use ludock.Tarstream.Pax.{
  index_byte, Records, has_key, refused_key, key_value, starts_with, record_of, with_rest,
  record_after, is_decimal, next_record, parse_from, parse_pax,
}
use ludock.Tarstream.PaxBack.{Storable}
use ludock.Tarstream.PaxRoundTrip.{AllStorable, parse_from-next}

index_byte-some :
    (b : ℕ) (s : Bytes) (i : ℕ)
    → index_byte b s ≡ some i
    → (s ≡ take i s ++ b ∷ drop (suc i) s)
      × (contains (take i s) b ≡ false)
      × (i ≢ 0 → take i s ≢ [])
index_byte-some b [] i h = absurd (ground arith)
index_byte-some b (x ∷ s) i h = elim (Bool-cases (nat_beq x b)) [
  | inl here ↦
      let zeroth : 0 ≡ i = ground (arith, here, h) in
      subst
        (λ k.
          (x ∷ s ≡ take k (x ∷ s) ++ b ∷ drop (suc k) (x ∷ s))
          × (contains (take k (x ∷ s)) b ≡ false)
          × (k ≢ 0 → take k (x ∷ s) ≢ []))
        zeroth (ap (λ y. y ∷ s) ((nat_beq_iff x b).0 here), refl, λ ne. absurd (ne refl))
  | inr later ↦ elim (Option-cases (index_byte b s)) [
    | inl absent ↦ absurd (ground (arith, later, absent, h))
    | inr (j, found) ↦
        let next : suc j ≡ i = ground (arith, later, found, h) in
        let (split, free, _) = index_byte-some b s j found in
        subst
          (λ k.
            (x ∷ s ≡ take k (x ∷ s) ++ b ∷ drop (suc k) (x ∷ s))
            × (contains (take k (x ∷ s)) b ≡ false)
            × (k ≢ 0 → take k (x ∷ s) ≢ []))
          next (ap (λ l. x ∷ l) split, ground (arith, later, free), λ ne e. cc)
  ]
]

guarded_none :
    {A : Type 0} (a b c d : Bool) (x : A) {y : A}
    → (if a || b || c || d then err invalid_archive else ok x) ≡ ok y
    → (a ≡ false) × (b ≡ false) × (c ≡ false) × (d ≡ false) × (x ≡ y)
guarded_none a b c d x h = ground arith

key_value-Storable :
    (text : Bytes) (seen : Records) (o : Option ℕ) (key val : Bytes)
    → index_byte b'=' text ≡ o
    → utf8_valid text ≡ true
    → key_value text seen o ≡ ok (key, val)
    → Storable key val × (has_key key seen ≡ false)
key_value-Storable text seen none key val at valid h = absurd (ground arith)
key_value-Storable text seen (some i) key val at valid h =
    let (pos, clean, fresh, allowed, same) =
      guarded_none (nat_beq i 0) (contains text 0) (has_key (take i text) seen)
        (refused_key (take i text)) _ h in
    let (split, free, filled) = index_byte-some b'=' text i at in
    let k : take i text ≡ key = ap (λ (p : Bytes × Bytes). p.0) same in
    let v : drop (suc i) text ≡ val = ap (λ (p : Bytes × Bytes). p.1) same in
    let whole : text ≡ key ++ b'=' ∷ val =
      split ∙ ap (λ a. a ++ b'=' ∷ drop (suc i) text) k ∙ ap (λ a. key ++ b'=' ∷ a) v in
    (
      record {
        key_ne_nil = subst (λ a. a ≢ []) k (filled (ground (arith, pos)));
        no_equals = ap (λ a. contains a b'=') (sym k) ∙ free;
        valid = ap utf8_valid (sym whole) ∙ valid;
        no_nul = ap (λ t. contains t 0) (sym whole) ∙ clean;
        allowed = ap refused_key (sym k) ∙ allowed;
      },
      ap (λ a. has_key a seen) (sym k) ∙ fresh,
    )

guarded_valid :
    {A : Type 0} (a b c d : Bool) (x : Result A) {y : A}
    → (if a || b || c || not d then err invalid_archive else x) ≡ ok y
    → (d ≡ true) × (x ≡ ok y)
guarded_valid a b c d x h = ground arith

if_else :
    {A : Type 0} (b : Bool) (x : Result A) {y : A}
    → (if b then err invalid_archive else x) ≡ ok y
    → x ≡ ok y
if_else true x h = cc
if_else false x h = h

record_of-Storable :
    (space size : ℕ) (bytes : Bytes) (seen : Records) (key val : Bytes)
    → record_of space size bytes seen ≡ ok (key, val)
    → Storable key val × (has_key key seen ≡ false)
record_of-Storable space size bytes seen key val h =
    let text = take (size - space - 2) (drop (space + 1) bytes) in
    let (valid, read) =
      guarded_valid (ltb (length bytes) size) (leb size (space + 3))
        (not (starts_with 10 (drop (size - 1) bytes))) (utf8_valid text) _ h in
    key_value-Storable text seen (index_byte b'=' text) key val refl valid read

with_rest-ok :
    (size : ℕ) (bytes : Bytes) (r : Result (Bytes × Bytes)) (key val rest : Bytes)
    → with_rest size bytes r ≡ ok (key, val, rest)
    → r ≡ ok (key, val)
with_rest-ok size bytes (err e) key val rest h = cc
with_rest-ok size bytes (ok (k, v)) key val rest h =
    ap (λ r. elim r [ err e ↦ err e | ok (a, b, c) ↦ ok (a, b) ]) h

next_record-Storable :
    (bytes : Bytes) (seen : Records) (key val rest : Bytes)
    → next_record bytes seen ≡ ok (key, val, rest)
    → Storable key val × (has_key key seen ≡ false)
unfolding next_record
next_record-Storable bytes seen key val rest h = after (index_byte b' ' bytes) h
  where
    after :
        (o : Option ℕ)
        → record_after bytes seen o ≡ ok (key, val, rest)
        → Storable key val × (has_key key seen ≡ false)
    after none h = absurd (ground arith)
    after (some space) h =
        let size = value 10 0 (take space bytes) in
        let found =
          if_else (ltb 8 space || not (is_decimal (take space bytes)))
            (with_rest size bytes (record_of space size bytes seen)) h in
        record_of-Storable space size bytes seen key val
          (with_rest-ok size bytes (record_of space size bytes seen) key val rest found)

parse_from-AllStorable :
    (fuel : ℕ) (bytes : Bytes) (seen all_records : Records)
    → parse_from fuel bytes seen ≡ ok all_records
    → (records : Records) × (all_records ≡ seen ++ records) × AllStorable seen records
unfolding parse_from
parse_from-AllStorable zero [] seen all_records h = ([], cc (append-nil seen), tt)
parse_from-AllStorable (suc fuel) [] seen all_records h = ([], cc (append-nil seen), tt)
parse_from-AllStorable zero (b ∷ bytes) seen all_records h = absurd (ground arith)
parse_from-AllStorable (suc fuel) (b ∷ bytes) seen all_records h =
    elim (result_cases (next_record (b ∷ bytes) seen)) [
      | inl (e, failed) ↦ absurd (ground (arith, failed, h))
      | inr ((key, val, rest), read) ↦
          let (storable, fresh) = next_record-Storable (b ∷ bytes) seen key val rest read in
          let (records, same, others) =
            parse_from-AllStorable fuel rest (seen ++ (key, val) ∷ []) all_records
              (sym (parse_from-next fuel (b ∷ bytes) rest seen key val (λ e. cc) read) ∙ h) in
          (
            (key, val) ∷ records,
            same ∙ append_assoc seen ((key, val) ∷ []) records,
            (storable, fresh, others),
          )
    ]

-- parsePAX accepts only records that can be stored: keys that are not empty and stand once, without
-- an equals sign, and with their values valid UTF-8 without NUL; no key of a sparse file and no
-- SCHILY.filetype.
pub parse_pax-AllStorable :
    (bytes : Bytes) (records : Records) → parse_pax bytes ≡ ok records → AllStorable [] records
unfolding parse_pax
parse_pax-AllStorable bytes records h =
    let (found, same, storable) = parse_from-AllStorable (length bytes) bytes [] records h in
    subst (AllStorable []) (sym same) storable
