-- ===== src/Database/Updates.antt =====
-- What an UPDATE makes of counts and of queries.
use ludock.Common.{
  ◌≤◌, ◌&&◌, Bool, true, false, List, [], ◌∷◌, ◌≡◌, refl, arith, any, Bool-cases, inl, inr,
}
use ludock.Database.Rows.{update_where, delete_where, count_where}

module _ {ℓ} {A : Type ℓ} where
  -- An UPDATE that a query does not see leaves its count.
  pub count-update_where :
      (p q : A → Bool) (f : A → A) (xs : List A)
      → ((x : A) → p x ≡ true → q (f x) ≡ q x)
      → count_where q (update_where p f xs) ≡ count_where q xs
  count-update_where p q f [] same = refl
  count-update_where p q f (x ∷ xs) same = ground (arith, same x, count-update_where p q f xs same)

  -- An UPDATE after which fewer rows at most answer a query.
  pub count-update_where_le :
      (p q : A → Bool) (f : A → A) (xs : List A)
      → ((x : A) → p x ≡ true → q (f x) ≡ true → q x ≡ true)
      → count_where q (update_where p f xs) ≤ count_where q xs
  count-update_where_le p q f [] fewer = omega arith
  count-update_where_le p q f (x ∷ xs) fewer =
      ground (arith, fewer x, count-update_where_le p q f xs fewer)

  pub count-any : (p : A → Bool) (xs : List A) → any p xs ≡ false → count_where p xs ≤ 0
  count-any p [] h = omega arith
  count-any p (x ∷ xs) h = ground (arith, count-any p xs)

  pub any-update_where_back :
      (p q : A → Bool) (f : A → A) (xs : List A)
      → ((x : A) → p x ≡ true → q (f x) ≡ true → q x ≡ true)
      → any q (update_where p f xs) ≡ true
      → any q xs ≡ true
  any-update_where_back p q f [] back h = cc
  any-update_where_back p q f (x ∷ xs) back h =
      ground (arith, back x, any-update_where_back p q f xs back)

  pub any-update_where_off :
      (p q : A → Bool) (f : A → A) (xs : List A)
      → ((x : A) → q x ≡ true → p x ≡ true)
      → ((x : A) → p x ≡ true → q (f x) ≡ false)
      → any q (update_where p f xs) ≡ false
  any-update_where_off p q f [] covers off = refl
  any-update_where_off p q f (x ∷ xs) covers off =
      ground (arith, covers x, off x, any-update_where_off p q f xs covers off)

  pub any-update_where_on :
      (p q : A → Bool) (f : A → A) (xs : List A)
      → ((x : A) → p x ≡ true → q (f x) ≡ true)
      → any p xs ≡ true
      → any q (update_where p f xs) ≡ true
  any-update_where_on p q f [] on h = cc
  any-update_where_on p q f (x ∷ xs) on h = ground (arith, on x, any-update_where_on p q f xs on)

  pub any-delete_where_back :
      (p q : A → Bool) (xs : List A) → any q (delete_where p xs) ≡ true → any q xs ≡ true
  any-delete_where_back p q [] h = cc
  any-delete_where_back p q (x ∷ xs) h = ground (arith, any-delete_where_back p q xs)

  pub update_where_count :
      (p : A → Bool) (f : A → A) (xs : List A) → count_where p xs ≤ 0 → update_where p f xs ≡ xs
  update_where_count p f [] h = refl
  update_where_count p f (x ∷ xs) h = ground (arith, update_where_count p f xs)

  pub any-count_also :
      (p r : A → Bool) (xs : List A) → count_where p xs ≤ 0 → any (λ x. p x && r x) xs ≡ false
  any-count_also p r [] h = refl
  any-count_also p r (x ∷ xs) h = ground (arith, any-count_also p r xs)

  -- An UPDATE by a key, of the row that `r` holds for.
  pub count-update_where_key :
      (p q r : A → Bool) (f : A → A) (xs : List A)
      → count_where p xs ≤ 1
      → any (λ x. p x && r x) xs ≡ true
      → ((x : A) → p x ≡ true → r x ≡ true → q (f x) ≡ q x)
      → count_where q (update_where p f xs) ≡ count_where q xs
  count-update_where_key p q r f [] c h same = refl
  count-update_where_key p q r f (x ∷ xs) c h same = elim (Bool-cases (p x)) [
    | inl key ↦
        let few : count_where p xs ≤ 0 = ground arith in
        rw (update_where_count p f xs few) (
          rw key (
            rw (same x key (ground (arith, any-count_also p r xs)))
              (elim (Bool-cases (q x)) [ inl e ↦ rw e refl | inr e ↦ rw e refl ])))
    | inr other ↦ rw other (ground (arith, count-update_where_key p q r f xs))
  ]

  pub count-cons_fresh :
      (p : A → Bool) (x : A) (xs : List A) → count_where p xs ≤ 0 → count_where p (x ∷ xs) ≤ 1
  count-cons_fresh p x xs h = elim (Bool-cases (p x)) [
    | inl e ↦ rw e (omega arith)
    | inr e ↦ rw e (omega arith)
  ]

  -- Where one row at most answers `p`, what two queries find of it is one row.
  pub any-meet :
      (p q r : A → Bool) (xs : List A)
      → count_where p xs ≤ 1
      → any (λ x. p x && q x) xs ≡ true
      → any (λ x. p x && r x) xs ≡ true
      → any (λ x. p x && (q x && r x)) xs ≡ true
  any-meet p q r [] c h k = cc
  any-meet p q r (x ∷ xs) c h k = elim (Bool-cases (p x)) [
    | inl key ↦
        let few : count_where p xs ≤ 0 = ground arith in
        rw key (ground (arith, any-count_also p q xs, any-count_also p r xs))
    | inr other ↦ rw other (any-meet p q r xs (ground arith) (ground arith) (ground arith))
  ]
