-- ===== src/Tarstream/Slices.antt =====
-- internal/tarstream/tarstream.go: the fields of a block side by side, and where its slices find them.
use ludock.Common.{
  ℕ, zero, suc, ◌+◌, [], ◌∷◌, ◌++◌, ◌≡◌, refl, sym, ap, ◌∙◌, subst, arith, Bytes, length, take,
  drop, take-length, drop-length,
}
use ludock.Tarstream.Header.{slice, byte_at}

drop-nil : (n : ℕ) → drop {A = ℕ} n [] ≡ []
drop-nil zero = refl
drop-nil (suc n) = refl

drop-add : (off n : ℕ) (s : Bytes) → drop (off + n) s ≡ drop n (drop off s)
drop-add zero n s = ap (λ k. drop k s) (omega arith)
drop-add (suc off) n [] = drop-nil (suc off + n) ∙ sym (drop-nil n)
drop-add (suc off) n (c ∷ s) =
    ap (λ k. drop k (c ∷ s)) {x = suc off + n} {y = suc (off + n)} (omega arith) ∙ drop-add off n s

-- A field, and what follows it.
pub field_at :
    (block field rest : Bytes) (off n : ℕ)
    → drop off block ≡ field ++ rest
    → length field ≡ n
    → (slice off n block ≡ field) × (drop (off + n) block ≡ rest)
field_at block field rest off n h size = (
  ap (take n) h ∙ subst (λ k. take k (field ++ rest) ≡ field) size (take-length field rest),
  drop-add off n block
      ∙ ap (drop n) h
      ∙ subst (λ k. drop k (field ++ rest) ≡ rest) size (drop-length field rest),
)

pub byte_at-drop : (s t : Bytes) (c i : ℕ) → drop i s ≡ c ∷ t → byte_at i s ≡ c
byte_at-drop [] t c zero h = cc
byte_at-drop [] t c (suc i) h = cc
byte_at-drop (b ∷ s) t c zero h = cc
byte_at-drop (b ∷ s) t c (suc i) h = byte_at-drop s t c i h
