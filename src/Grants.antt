-- ===== src/Grants.antt =====
-- internal/authz/authz.go: how an administrator replaces an account's grants.
pub mod Replacement
use ludock.Common.{
  ℕ, String, Bool, false, not, Option, none, some, List, [], ◌∷◌, ◌++◌, ◌&&◌, ◌||◌, ltb, ◌==◌,
  string_eq, if◌then◌else◌, any, all, select, contains, length, Result, ok, err, ◌>>=◌,
  server_not_found, authentication_required, session_gone, invalid_grant, user_not_found, is_empty,
  Error,
}
use ludock.Database.{Role, is_admin, User, GrantRow, Db, delete_where}
use ludock.Accounts.{SessionUser, find_user_by_id, admin_mutation, write_audit}
use ludock.Identity.{has_server_id}
use ludock.Authz.{
  Capability, server_view, files_read, files_write, in_order, role_ceiling, encode_capabilities,
  assert_administrator,
}

pub record GrantInput : Type 0 where
  pub server_id : String
  pub capabilities : List Capability

abbrev server_exists : Db → String → Bool
server_exists db server_id = any (has_server_id server_id) db.logical_servers

-- validateGrant
unfoldable pub validate_grant : Db → Role → GrantInput → Result (List Capability)
unfolding role_ceiling
validate_grant db role input =
    let capabilities = in_order input.capabilities in
    if not (server_exists db input.server_id)
    then err server_not_found
    else if not (all (contains (role_ceiling role)) input.capabilities)
    then err invalid_grant
    else if not (is_empty capabilities) && not (contains capabilities server_view)
    then err invalid_grant
    else if contains capabilities files_write && not (contains capabilities files_read)
    then err invalid_grant
    else ok capabilities

pub record Grant : Type 0 where
  pub server_id : String
  pub capabilities : List Capability

unfoldable pub validate_grants : Db → Role → List GrantInput → Result (List Grant)
unfolding validate_grant
validate_grants db role [] = ok []
validate_grants db role (input ∷ rest) = do
  capabilities ← validate_grant db role input
  grants ← validate_grants db role rest
  ok ((record { server_id = input.server_id; capabilities = capabilities }) ∷ grants)

abbrev pub mentions : String → GrantInput → Bool
mentions server_id input = input.server_id == server_id

unfoldable pub has_duplicates : List GrantInput → Bool
has_duplicates [] = false
has_duplicates (input ∷ rest) = any (mentions input.server_id) rest || has_duplicates rest

-- The rows that are inserted; a grant of nothing is no row.
unfoldable pub grant_rows : String → ℕ → List Grant → List GrantRow
unfolding encode_capabilities
grant_rows user_id now [] = []
grant_rows user_id now (g ∷ gs) =
    let rest = grant_rows user_id now gs in
    if is_empty g.capabilities
    then rest
    else (record {
      user_id = user_id;
      server_id = g.server_id;
      capabilities = encode_capabilities g.capabilities;
      updated_at = now;
    })
      ∷ rest

abbrev pub granted_to : String → GrantRow → Bool
granted_to user_id g = g.user_id == user_id

unfoldable pub replace_grants : String → String → ℕ → List Grant → Db → Db
unfolding grant_rows write_audit
replace_grants administrator user_id now grants tx =
    write_audit
      (record tx {
        server_grants =
            grant_rows user_id now grants ++ delete_where (granted_to user_id) tx.server_grants;
      })
      (record {
        user_id = administrator;
        action = "users.server_grants.updated";
        target_type = "user";
        target_id = user_id;
        ip_address = "";
      })

-- The body of the transaction of SetUserGrants.
abbrev set_grants_of : String → String → List GrantInput → ℕ → Db → Option User → Result Db
set_grants_of administrator user_id inputs now tx none = err user_not_found
set_grants_of administrator user_id inputs now tx (some u) =
    if is_admin u.role then err invalid_grant else do
      grants ← validate_grants tx u.role inputs
      ok (replace_grants administrator user_id now grants tx)

abbrev admin_mutation_error : Error → Error
admin_mutation_error session_gone = authentication_required
admin_mutation_error e = e

abbrev mutation_error : Result Db → Result Db
mutation_error (ok db) = ok db
mutation_error (err e) = err (admin_mutation_error e)

-- SetUserGrants up to reading the grants back. `now` is taken for both db.Now calls.
unfoldable pub set_user_grants :
    Db → String → List GrantInput → Option SessionUser → String → ℕ → Result Db
unfolding assert_administrator has_duplicates validate_grants replace_grants find_user_by_id
set_user_grants db user_id inputs actor token_hash now =
    assert_administrator db actor >>= λ administrator.
    if ltb 1000 (length inputs)
    then err invalid_grant
    else if has_duplicates inputs
    then err invalid_grant
    else mutation_error (
        admin_mutation db administrator.id token_hash now
          (λ tx. set_grants_of administrator.id user_id inputs now tx (find_user_by_id tx user_id)))
