-- ===== src/Tarstream/PaxSize.antt =====
-- internal/tarstream/tarstream.go: the size that a PAX record begins with.
use ludock.Common.{
  ℕ, suc, ◌+◌, false, some, ◌≡◌, refl, ap, ◌∙◌, arith, nat_eq, nat_beq, length, Bool-cases, inl,
  inr, nat_beq_iff,
}
use ludock.Tarstream.Numerals.{
  format, width, width-pos, width-le, width-le_self, width-le_suc, length-format,
}
use ludock.Tarstream.Pax.{find_size}

find_size-done :
    (rounds n size : ℕ) → width size + n ≡ size → find_size (suc rounds) n size ≡ some size
unfolding find_size
find_size-done rounds n size h = ground (arith, length-format size, h)

find_size-more :
    (rounds n size : ℕ)
    → nat_beq (width size + n) size ≡ false
    → find_size (suc rounds) n size ≡ find_size rounds n (width size + n)
unfolding find_size
find_size-more rounds n size h = rw (length-format size) (rw h refl)

-- The loop of paxRecord ends, in its third round at the latest, with a size that counts its own
-- digits: that of the record which it begins.
pub find_size-ends :
    (n : ℕ)
    → (size : ℕ) × (find_size 3 n (n + 1) ≡ some size) × (length (format 10 size) + n ≡ size)
find_size-ends n = elim (Bool-cases (nat_beq (width (n + 1) + n) (n + 1))) [
  | inl first ↦
      let fits : width (n + 1) + n ≡ n + 1 = (nat_beq_iff _ _).0 first in
      (n + 1, find_size-done 2 n (n + 1) fits, ap (λ k. k + n) (length-format (n + 1)) ∙ fits)
  | inr not_first ↦
      let s1 = width (n + 1) + n in
      let next = find_size-more 2 n (n + 1) not_first in
      let one = width-pos (n + 1) in
      let small = width-le_self (n + 1) (omega arith) in
      elim (Bool-cases (nat_beq (width s1 + n) s1)) [
        | inl second ↦
            let fits : width s1 + n ≡ s1 = (nat_beq_iff _ _).0 second in
            (s1, next ∙ find_size-done 1 n s1 fits, ap (λ k. k + n) (length-format s1) ∙ fits)
        | inr not_second ↦
            let s2 = width s1 + n in
            let grown = width-le (n + 1) s1 (omega arith) in
            let by_one = width-le_suc (n + 1) s1 (omega arith) (omega arith) (omega arith) in
            let apart : width s1 ≡ suc (width (n + 1)) =
              ground (arith, not_second, grown, by_one) in
            let grown' = width-le s1 s2 (omega arith) in
            let by_one' = width-le_suc (n + 1) s2 (omega arith) (omega arith) (omega arith) in
            let fits : width s2 + n ≡ s2 = omega arith in
            (
              s2,
              next ∙ find_size-more 1 n s1 not_second ∙ find_size-done 0 n s2 fits,
              ap (λ k. k + n) (length-format s2) ∙ fits,
            )
      ]
]
