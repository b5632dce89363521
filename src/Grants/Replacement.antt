-- ===== src/Grants/Replacement.antt =====
-- Which capabilities an account holds after an administrator has replaced its grants.
use text.Mathlib.TextEquality.{eq_iff}
use text.Mathlib.TextPositions.{eq_refl}
use ludock.Common.{
  ℕ, String, Bool, true, false, Option, none, some, List, [], ◌∷◌, ◌++◌, ◌≡◌, ◌≢◌, refl, sym, ap,
  ◌∙◌, subst, fun_ext, arith, string_eq, any, all, find, select, contains, Result, ok, err,
  Bool-cases, inl, inr, >>=-eq-ok, is_empty, select-select, ◌>>=◌,
}
use ludock.Database.{Role, User, Db, delete_where, find-delete_where, find-delete_where-none}
use ludock.Accounts.{SessionUser, find_user_by_id, admin_mutation}
use ludock.Accounts.Administration.{admin_mutation-ok}
use ludock.Authz.{
  Capability, in_order, all_capabilities, role_ceiling, parse_capabilities, encode_capabilities,
  has_text, texts, is_grant_of, stored_capabilities, assigned, assert_administrator,
}
use ludock.Grants.{
  GrantInput, Grant, validate_grant, validate_grants, mentions, has_duplicates, grant_rows,
  granted_to, replace_grants, set_user_grants, mutation_error, set_grants_of,
}

-- What the inputs give for a server.
abbrev pub requested : Option GrantInput → List Capability
requested none = []
requested (some input) = in_order input.capabilities

has_text-texts : (cs : List Capability) (c : Capability) → has_text (texts cs) c ≡ contains cs c
has_text-texts [] c = refl
has_text-texts (d ∷ cs) c = rw (has_text-texts cs c)

-- A stored grant reads back as the capabilities that it was stored from.
parse-encode_capabilities :
    (cs : List Capability) → parse_capabilities (encode_capabilities (in_order cs)) ≡ in_order cs
unfolding parse_capabilities encode_capabilities in_order
parse-encode_capabilities cs =
    ap (λ p. select p all_capabilities) (fun_ext (has_text-texts (in_order cs)))
    ∙ select-select (contains cs) all_capabilities

validate_grant-ok :
    (db : Db) (role : Role) (input : GrantInput) (cs : List Capability)
    → validate_grant db role input ≡ ok cs
    → (cs ≡ in_order input.capabilities)
      × (all (contains (role_ceiling role)) input.capabilities ≡ true)
unfolding validate_grant
validate_grant-ok db role input cs h = ground arith

abbrev normal : GrantInput → Grant
normal input = record { server_id = input.server_id; capabilities = in_order input.capabilities }

normal_grants : List GrantInput → List Grant
normal_grants [] = []
normal_grants (input ∷ rest) = normal input ∷ normal_grants rest

validate_grants-ok :
    (db : Db) (role : Role) (inputs : List GrantInput) (grants : List Grant)
    → validate_grants db role inputs ≡ ok grants
    → grants ≡ normal_grants inputs
unfolding validate_grants normal_grants
validate_grants-ok db role [] grants h = ground arith
validate_grants-ok db role (input ∷ rest) grants h =
    let (cs, v, h1) = >>=-eq-ok (validate_grant db role input) _ h in
    let (gs, vs, h2) = >>=-eq-ok (validate_grants db role rest) _ h1 in
    ground (arith, (validate_grant-ok db role input cs v).0, validate_grants-ok db role rest gs vs)

empty_list {ℓ} : {A : Type ℓ} (xs : List A) → is_empty xs ≡ true → xs ≡ []
empty_list [] h = refl
empty_list (x ∷ xs) h = cc

-- The row of a server among those inserted.
no_row :
    (user_id server_id : String) (now : ℕ) (inputs : List GrantInput)
    → any (mentions server_id) inputs ≡ false
    → find (is_grant_of user_id server_id) (grant_rows user_id now (normal_grants inputs)) ≡ none
unfolding grant_rows normal_grants
no_row user_id server_id now [] h = refl
no_row user_id server_id now (input ∷ rest) h = ground (arith, no_row user_id server_id now rest)

stored_row :
    (user_id server_id : String) (now : ℕ) (inputs : List GrantInput)
    → has_duplicates inputs ≡ false
    → stored_capabilities
        (find (is_grant_of user_id server_id) (grant_rows user_id now (normal_grants inputs)))
      ≡ requested (find (mentions server_id) inputs)
unfolding grant_rows normal_grants has_duplicates
stored_row user_id server_id now [] h = refl
stored_row user_id server_id now (input ∷ rest) h = elim (Bool-cases (mentions server_id input)) [
  | inl hit ↦
      let same = (eq_iff input.server_id server_id).0 hit in
      let alone : any (mentions server_id) rest ≡ false =
        subst (λ id. any (mentions id) rest ≡ false) same (ground arith) in
      rw hit (elim (Bool-cases (is_empty (in_order input.capabilities))) [
        | inl nothing ↦ rw nothing (
            rw (no_row user_id server_id now rest alone)
              (sym (empty_list (in_order input.capabilities) nothing)))
        | inr something ↦
            rw something
              (rw (eq_refl user_id) (rw hit (parse-encode_capabilities input.capabilities)))
      ])
  | inr miss ↦ rw miss (elim (Bool-cases (is_empty (in_order input.capabilities))) [
    | inl nothing ↦ rw nothing (stored_row user_id server_id now rest (ground arith))
    | inr something ↦
        rw something
          (rw (eq_refl user_id) (rw miss (stored_row user_id server_id now rest (ground arith))))
  ])
]

find-append {ℓ} :
    {A : Type ℓ} (p : A → Bool) (xs ys : List A) → find p ys ≡ none → find p (xs ++ ys) ≡ find p xs
find-append p [] ys h = h
find-append p (x ∷ xs) ys h = rw (find-append p xs ys h)

find-append_other {ℓ} :
    {A : Type ℓ} (p : A → Bool) (xs ys : List A) → find p xs ≡ none → find p (xs ++ ys) ≡ find p ys
find-append_other p [] ys h = refl
find-append_other p (x ∷ xs) ys h = ground (arith, find-append_other p xs ys)

not_inserted :
    (user_id other server_id : String) (now : ℕ) (grants : List Grant)
    → other ≢ user_id
    → find (is_grant_of other server_id) (grant_rows user_id now grants) ≡ none
unfolding grant_rows
not_inserted user_id other server_id now [] ne = refl
not_inserted user_id other server_id now (g ∷ gs) ne =
    ground (arith, not_inserted user_id other server_id now gs ne, eq_iff user_id other)

-- What SetUserGrants has written when it succeeds.
record Written (db db' : Db) (user_id : String) (inputs : List GrantInput) (now : ℕ) : Type 0 where
  distinct : has_duplicates inputs ≡ false
  rows :
      db'.server_grants
      ≡ grant_rows user_id now (normal_grants inputs)
        ++ delete_where (granted_to user_id) db.server_grants

mutation_error-ok : (r : Result Db) (db' : Db) → mutation_error r ≡ ok db' → r ≡ ok db'
mutation_error-ok (ok db) db' h = h
mutation_error-ok (err e) db' h = cc

set_grants_of-ok :
    (administrator user_id : String) (inputs : List GrantInput) (now : ℕ) (tx db' : Db)
    (u : Option User)
    → set_grants_of administrator user_id inputs now tx u ≡ ok db'
    → db'.server_grants
      ≡ grant_rows user_id now (normal_grants inputs)
        ++ delete_where (granted_to user_id) tx.server_grants
unfolding replace_grants
set_grants_of-ok administrator user_id inputs now tx db' none h = cc
set_grants_of-ok administrator user_id inputs now tx db' (some u) h =
    let chained : (validate_grants tx u.role inputs >>= λ grants.
    ok (replace_grants administrator user_id now grants tx))
        ≡ ok db' =
      ground arith in
    let (grants, v, done) = >>=-eq-ok (validate_grants tx u.role inputs) _ chained in
    let e = validate_grants-ok tx u.role inputs grants v in
    let saved : db' ≡ replace_grants administrator user_id now grants tx = cc in
    ap (λ (d : Db). d.server_grants) saved
    ∙ ap (λ gs. grant_rows user_id now gs ++ delete_where (granted_to user_id) tx.server_grants) e

written :
    (db db' : Db) (user_id : String) (inputs : List GrantInput) (actor : Option SessionUser)
    (token : String) (now : ℕ)
    → set_user_grants db user_id inputs actor token now ≡ ok db'
    → Written db db' user_id inputs now
unfolding set_user_grants
written db db' user_id inputs actor token now h =
    let (administrator, _, h1) = >>=-eq-ok (assert_administrator db actor) _ h in
    let committed : mutation_error (
          admin_mutation db administrator.id token now (λ tx.
            set_grants_of administrator.id user_id inputs now tx (find_user_by_id tx user_id)))
        ≡ ok db' =
      ground arith in
    let (_, _, _, _, body) =
      admin_mutation-ok db db' administrator.id token now _ (mutation_error-ok _ db' committed) in
    record {
      distinct = ground arith;
      rows = set_grants_of-ok administrator.id user_id inputs now db db' _ body;
    }

-- Replacing an account's grants: when SetUserGrants succeeds, the account's stored grant reads, for
-- every server, as what the inputs give for it, in display order, and as nothing for a server that
-- they do not name; and what every other account is assigned is as before.
pub assigned-set_user_grants :
    (db db' : Db) (user_id other server_id : String) (inputs : List GrantInput)
    (actor : Option SessionUser) (token : String) (now : ℕ)
    → set_user_grants db user_id inputs actor token now ≡ ok db'
    → other ≢ user_id
    → (assigned db' user_id server_id ≡ requested (find (mentions server_id) inputs))
      × (assigned db' other server_id ≡ assigned db other server_id)
unfolding assigned
assigned-set_user_grants db db' user_id other server_id inputs actor token now h ne =
    let w = written db db' user_id inputs actor token now h in
    let new = grant_rows user_id now (normal_grants inputs) in
    let old = delete_where (granted_to user_id) db.server_grants in
    (
      ap (λ rows. stored_capabilities (find (is_grant_of user_id server_id) rows)) w.rows
          ∙ ap stored_capabilities (
              find-append (is_grant_of user_id server_id) new old (
                find-delete_where-none (granted_to user_id) (is_grant_of user_id server_id)
                  db.server_grants (λ g k. ground arith)))
          ∙ stored_row user_id server_id now inputs w.distinct,
      ap (λ rows. stored_capabilities (find (is_grant_of other server_id) rows)) w.rows
          ∙ ap stored_capabilities (
              find-append_other (is_grant_of other server_id) new old
                (not_inserted user_id other server_id now (normal_grants inputs) ne)
              ∙ find-delete_where (granted_to user_id) (is_grant_of other server_id)
                  db.server_grants
                  (λ g k. ground (arith, eq_iff g.user_id user_id, eq_iff g.user_id other))),
    )
