-- ===== src/Database/Rows.antt =====
-- SQL statements on a table as a list of rows, and which rows they leave alone.
use mathlib.Core.Option
use ludock.Common.{
  ℕ, ◌≤◌, ◌&&◌, Bool, true, false, not, Option, all, List, [], ◌∷◌, ◌≡◌, refl, none, some, arith,
  if◌then◌else◌, select, any, find, length, Bool-cases, inl, inr,
}

module _ {ℓ} {A : Type ℓ} where
  -- UPDATE … SET f WHERE p
  abbrev pub update_where : (A → Bool) → (A → A) → List A → List A
  update_where p f [] = []
  update_where p f (x ∷ xs) = (if p x then f x else x) ∷ update_where p f xs

  -- DELETE … WHERE p
  abbrev pub delete_where : (A → Bool) → List A → List A
  delete_where p = select (λ x. not (p x))

  -- SELECT COUNT(*) … WHERE p
  abbrev pub count_where : (A → Bool) → List A → ℕ
  count_where p xs = length (select p xs)

  pub any-delete_where : (p : A → Bool) (xs : List A) → any p (delete_where p xs) ≡ false
  any-delete_where p [] = refl
  any-delete_where p (x ∷ xs) = ground (arith, any-delete_where p xs)

  -- A statement leaves the rows alone that its condition does not hold for.
  pub any-update_where :
      (p q : A → Bool) (f : A → A) (xs : List A)
      → ((x : A) → p x ≡ true → q (f x) ≡ q x)
      → any q (update_where p f xs) ≡ any q xs
  any-update_where p q f [] same = refl
  any-update_where p q f (x ∷ xs) same = ground (arith, same x, any-update_where p q f xs same)

  pub find-update_where :
      (p q : A → Bool) (f : A → A) (xs : List A)
      → ((x : A) → p x ≡ true → q (f x) ≡ q x)
      → find q (update_where p f xs) ≡ Option.map (λ x. if p x then f x else x) (find q xs)
  find-update_where p q f [] same = refl
  find-update_where p q f (x ∷ xs) same = ground (arith, same x, find-update_where p q f xs same)

  pub find-delete_where-none :
      (p q : A → Bool) (xs : List A)
      → ((x : A) → q x ≡ true → p x ≡ true)
      → find q (delete_where p xs) ≡ none
  find-delete_where-none p q [] covers = refl
  find-delete_where-none p q (x ∷ xs) covers =
      ground (arith, covers x, find-delete_where-none p q xs covers)

  pub find-delete_where :
      (p q : A → Bool) (xs : List A)
      → ((x : A) → q x ≡ true → p x ≡ false)
      → find q (delete_where p xs) ≡ find q xs
  find-delete_where p q [] apart = refl
  find-delete_where p q (x ∷ xs) apart = ground (arith, apart x, find-delete_where p q xs apart)

  pub any-delete_where_none :
      (p q : A → Bool) (xs : List A)
      → ((x : A) → q x ≡ true → p x ≡ true)
      → any q (delete_where p xs) ≡ false
  any-delete_where_none p q [] covers = refl
  any-delete_where_none p q (x ∷ xs) covers =
      ground (arith, covers x, any-delete_where_none p q xs covers)

  pub any-find : (p : A → Bool) (xs : List A) → any p xs ≡ true → (a : A) × (find p xs ≡ some a)
  any-find p [] h = cc
  any-find p (x ∷ xs) h = elim (Bool-cases (p x)) [
    | inl found ↦ (x, rw found)
    | inr other ↦ let (a, e) = any-find p xs (ground arith) in (a, rw other e)
  ]

  pub find-any : (p : A → Bool) (xs : List A) {a : A} → find p xs ≡ some a → any p xs ≡ true
  find-any p [] h = cc
  find-any p (x ∷ xs) {a = a} h = ground (arith, find-any p xs {a = a})

  pub find-any_also :
      (p q : A → Bool) (xs : List A) (a : A) → find p xs ≡ some a → q a ≡ true → any q xs ≡ true
  find-any_also p q [] a h k = cc
  find-any_also p q (x ∷ xs) a h k = ground (arith, find-any_also p q xs a)

  pub any-implies :
      (p q : A → Bool) (xs : List A)
      → ((x : A) → p x ≡ true → q x ≡ true)
      → any p xs ≡ true
      → any q xs ≡ true
  any-implies p q [] f h = cc
  any-implies p q (x ∷ xs) f h = ground (arith, f x, any-implies p q xs f)

  pub find-none-any : (p : A → Bool) (xs : List A) → find p xs ≡ none → any p xs ≡ false
  find-none-any p [] h = refl
  find-none-any p (x ∷ xs) h = ground (arith, find-none-any p xs)

  abbrev pub unless_deleted : (A → Bool) → Option A → Option A
  unless_deleted p none = none
  unless_deleted p (some a) = if p a then none else some a

  pub find-none_count : (q : A → Bool) (xs : List A) → count_where q xs ≤ 0 → find q xs ≡ none
  find-none_count q [] h = refl
  find-none_count q (x ∷ xs) h = ground (arith, find-none_count q xs)

  pub find-delete_where_or :
      (p q : A → Bool) (xs : List A) → find q xs ≡ none → find q (delete_where p xs) ≡ none
  find-delete_where_or p q [] h = refl
  find-delete_where_or p q (x ∷ xs) h = ground (arith, find-delete_where_or p q xs)

  -- A row found by a key is found after a DELETE unless the DELETE took it.
  pub find-delete_where_key :
      (p q : A → Bool) (xs : List A)
      → count_where q xs ≤ 1
      → find q (delete_where p xs) ≡ unless_deleted p (find q xs)
  find-delete_where_key p q [] h = refl
  find-delete_where_key p q (x ∷ xs) h = elim (Bool-cases (q x)) [
    | inl key ↦
        let rest = find-delete_where_or p q xs (find-none_count q xs (ground arith)) in
        rw key (elim (Bool-cases (p x)) [ inl gone ↦ rw gone rest | inr kept ↦ rw kept (rw key) ])
    | inr other ↦ rw other (elim (Bool-cases (p x)) [
      | inl gone ↦ rw gone (find-delete_where_key p q xs (ground arith))
      | inr kept ↦ rw kept (rw other (find-delete_where_key p q xs (ground arith)))
    ])
  ]

  pub find-all :
      (p q : A → Bool) (xs : List A) (a : A) → find q xs ≡ some a → all p xs ≡ true → p a ≡ true
  find-all p q [] a f h = absurd (ground arith)
  find-all p q (x ∷ xs) a f h = ground (arith, find-all p q xs a)

  pub count-some :
      (q p : A → Bool) (xs : List A) (a : A)
      → find p xs ≡ some a
      → q a ≡ true
      → 1 ≤ count_where q xs
  count-some q p [] a f h = absurd (ground arith)
  count-some q p (x ∷ xs) a f h = ground (arith, count-some q p xs a)

  -- With a key unique, any query that returns a row of that key returns the key's row.
  pub find_unique :
      (q p : A → Bool) (xs : List A) (s u : A)
      → count_where q xs ≤ 1
      → find q xs ≡ some s
      → find p xs ≡ some u
      → q u ≡ true
      → u ≡ s
  find_unique q p [] s u c f g h = absurd (ground arith)
  find_unique q p (x ∷ xs) s u c f g h =
      ground (arith, find_unique q p xs s u, count-some q p xs u, count-some q q xs s)

  pub find-select :
      (h p : A → Bool) (xs : List A) → find p (select h xs) ≡ find (λ x. h x && p x) xs
  find-select h p [] = refl
  find-select h p (x ∷ xs) = ground (arith, find-select h p xs)
