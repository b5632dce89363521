-- ===== src/Database/Keys.antt =====
-- A DELETE by a key.
use ludock.Common.{
  ◌≤◌, ◌+◌, ◌&&◌, Bool, not, List, [], ◌∷◌, ◌≡◌, refl, some, arith, if◌then◌else◌, find, Bool-cases,
  inl, inr,
}
use ludock.Database.Rows.{delete_where, count_where}
use ludock.Database.Queries.{count-select}

module _ {ℓ} {A : Type ℓ} where
  delete_where_count : (p : A → Bool) (xs : List A) → count_where p xs ≤ 0 → delete_where p xs ≡ xs
  delete_where_count p [] h = refl
  delete_where_count p (x ∷ xs) h = ground (arith, delete_where_count p xs)

  find-count_also :
      (p s : A → Bool) (xs : List A) (a : A)
      → count_where p xs ≤ 0
      → find (λ x. p x && s x) xs ≡ some a
      → 1 ≤ 0
  find-count_also p s [] a h f = absurd (ground arith)
  find-count_also p s (x ∷ xs) a h f = ground (arith, find-count_also p s xs a)

  -- A DELETE by a key takes one row from the counts that it is in.
  pub count-delete_where_key :
      (p q s : A → Bool) (xs : List A) (a : A)
      → count_where p xs ≤ 1
      → find (λ x. p x && s x) xs ≡ some a
      → count_where q xs ≡ count_where q (delete_where p xs) + (if q a then 1 else 0)
  count-delete_where_key p q s [] a c f = absurd (ground arith)
  count-delete_where_key p q s (x ∷ xs) a c f = elim (Bool-cases (p x)) [
    | inl key ↦
        let few : count_where p xs ≤ 0 = ground arith in
        let same : x ≡ a = ground (arith, find-count_also p s xs a few) in
        rw key (
          rw (delete_where_count p xs few) (
            rw (← same) (elim (Bool-cases (q x)) [
              | inl e ↦ rw e (omega arith)
              | inr e ↦ rw e (omega arith)
            ])))
    | inr other ↦
        let rest = count-delete_where_key p q s xs a (ground arith) (ground arith) in
        rw other
          (elim (Bool-cases (q x)) [ inl e ↦ rw e (omega (arith, rest)) | inr e ↦ rw e rest ])
  ]

  pub count-delete_where_le :
      (p q : A → Bool) (xs : List A) → count_where q (delete_where p xs) ≤ count_where q xs
  count-delete_where_le p q xs = count-select (λ x. not (p x)) q xs
