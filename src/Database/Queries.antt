-- ===== src/Database/Queries.antt =====
-- What queries find after statements and in each other's results.
use ludock.Common.{
  some, none, ◌≤◌, ◌&&◌, Bool, true, false, not, all, List, [], ◌∷◌, ◌≡◌, refl, arith, select, any,
  find, Bool-cases, inl, inr,
}
use ludock.Database.Rows.{update_where, count_where}
use ludock.Database.Updates.{update_where_count, any-count_also}

module _ {ℓ} {A : Type ℓ} where
  pub any-update_where_gone :
      (p q r : A → Bool) (f : A → A) (xs : List A)
      → ((x : A) → p x ≡ true → r (f x) ≡ false)
      → ((x : A) → p x ≡ false → r x ≡ true → q x ≡ true)
      → any q xs ≡ false
      → any r (update_where p f xs) ≡ false
  any-update_where_gone p q r f [] off left h = refl
  any-update_where_gone p q r f (x ∷ xs) off left h =
      ground (arith, off x, left x, any-update_where_gone p q r f xs off left)

  pub count-select : (p q : A → Bool) (xs : List A) → count_where q (select p xs) ≤ count_where q xs
  count-select p q [] = omega arith
  count-select p q (x ∷ xs) = elim (Bool-cases (p x)) [
    | inl chosen ↦ rw chosen (ground (arith, count-select p q xs))
    | inr passed ↦ rw passed (ground (arith, count-select p q xs))
  ]

  pub all-implies :
      (p q : A → Bool) (xs : List A)
      → ((x : A) → p x ≡ true → q x ≡ true)
      → all p xs ≡ true
      → all q xs ≡ true
  all-implies p q [] f h = refl
  all-implies p q (x ∷ xs) f h = ground (arith, f x, all-implies p q xs f)

  pub all-not-any : (p : A → Bool) (xs : List A) → any p xs ≡ false → all (λ x. not (p x)) xs ≡ true
  all-not-any p [] h = refl
  all-not-any p (x ∷ xs) h = ground (arith, all-not-any p xs)

  pub all-and :
      (p q : A → Bool) (xs : List A)
      → all p xs ≡ true
      → all q xs ≡ true
      → all (λ x. p x && q x) xs ≡ true
  all-and p q [] h k = refl
  all-and p q (x ∷ xs) h k = ground (arith, all-and p q xs)

  -- Every row that a query returns is in the table.
  pub all-select-any :
      (p : A → Bool) (q : A → A → Bool) (xs : List A)
      → ((x : A) → p x ≡ true → q x x ≡ true)
      → all (λ x. any (q x) xs) (select p xs) ≡ true
  all-select-any p q xs same = go xs (λ x h. h)
    where
      go :
          (ys : List A)
          → ((x : A) → any (q x) ys ≡ true → any (q x) xs ≡ true)
          → all (λ x. any (q x) xs) (select p ys) ≡ true
      go [] within = refl
      go (y ∷ ys) within =
          let rest = go ys (λ x h. within x (ground arith)) in
          elim (Bool-cases (p y)) [
            | inl chosen ↦ rw chosen (rw (within y (rw (same y chosen) refl)) rest)
            | inr passed ↦ rw passed rest
          ]

  any-count_none : (p : A → Bool) (xs : List A) → count_where p xs ≤ 0 → any p xs ≡ false
  any-count_none p [] h = refl
  any-count_none p (x ∷ xs) h = ground (arith, any-count_none p xs)

  pub count-head :
      (p : A → Bool) (x : A) (xs : List A)
      → p x ≡ true
      → count_where p (x ∷ xs) ≤ 1
      → any p xs ≡ false
  count-head p x xs key h = let c = rw key at h in any-count_none p xs (omega (arith, c))

  -- An UPDATE by a key, of the row that `r` holds for, keeps what it does not hold for.
  pub any-update_where_key :
      (p q r : A → Bool) (f : A → A) (xs : List A)
      → count_where p xs ≤ 1
      → any (λ x. p x && r x) xs ≡ true
      → ((x : A) → r x ≡ true → q x ≡ false)
      → any q xs ≡ true
      → any q (update_where p f xs) ≡ true
  any-update_where_key p q r f [] c h apart k = k
  any-update_where_key p q r f (x ∷ xs) c h apart k = elim (Bool-cases (p x)) [
    | inl key ↦
        let few : count_where p xs ≤ 0 = ground arith in
        rw (update_where_count p f xs few) (ground (arith, any-count_also p r xs, apart x))
    | inr other ↦ rw other (ground (arith, any-update_where_key p q r f xs))
  ]

  pub find-update_where_other :
      (p q : A → Bool) (f : A → A) (xs : List A)
      → ((x : A) → p x ≡ true → q x ≡ false)
      → ((x : A) → q (f x) ≡ q x)
      → find q (update_where p f xs) ≡ find q xs
  find-update_where_other p q f [] apart kept = refl
  find-update_where_other p q f (x ∷ xs) apart kept =
      ground (arith, apart x, kept x, find-update_where_other p q f xs apart kept)

  pub any-select : (p q : A → Bool) (xs : List A) → any q (select p xs) ≡ any (λ x. q x && p x) xs
  any-select p q [] = refl
  any-select p q (x ∷ xs) = ground (arith, any-select p q xs)

  -- No row of a query is missing from its result.
  pub any-select_missing :
      (p : A → Bool) (q : A → A → Bool) (xs : List A)
      → ((x : A) → q x x ≡ true)
      → any (λ x. p x && not (any (q x) (select p xs))) xs ≡ false
  any-select_missing p q xs same = go xs (λ x h. h)
    where
      go :
          (ys : List A)
          → ((x : A) → any (q x) (select p ys) ≡ true → any (q x) (select p xs) ≡ true)
          → any (λ x. p x && not (any (q x) (select p xs))) ys ≡ false
      go [] within = refl
      go (y ∷ ys) within = elim (Bool-cases (p y)) [
        | inl chosen ↦ rw chosen (
            rw (within y (rw chosen (rw (same y) refl)))
              (go ys (λ x h. within x (rw chosen (ground arith)))))
        | inr passed ↦ rw passed (go ys (λ x h. within x (rw passed h)))
      ]

  pub any-none_implies :
      (p q : A → Bool) (xs : List A)
      → ((x : A) → q x ≡ true → p x ≡ true)
      → any p xs ≡ false
      → any q xs ≡ false
  any-none_implies p q [] f h = refl
  any-none_implies p q (x ∷ xs) f h = ground (arith, f x, any-none_implies p q xs f)

  -- What any row of a key has, the row that the key finds has.
  pub find-any_key :
      (p s : A → Bool) (xs : List A) (a : A)
      → count_where p xs ≤ 1
      → find p xs ≡ some a
      → any (λ x. p x && s x) xs ≡ true
      → s a ≡ true
  find-any_key p s [] a c f h = absurd (ground arith)
  find-any_key p s (x ∷ xs) a c f h = elim (Bool-cases (p x)) [
    | inl key ↦
        let few : count_where p xs ≤ 0 = ground arith in ground (arith, any-count_also p s xs)
    | inr other ↦ find-any_key p s xs a (ground arith) (ground arith) (ground arith)
  ]

  pub any-find-none : (p : A → Bool) (xs : List A) → any p xs ≡ false → find p xs ≡ none
  any-find-none p [] h = refl
  any-find-none p (x ∷ xs) h = ground (arith, any-find-none p xs)
