-- ===== src/Authz.antt =====
-- internal/authz/authz.go: what an account may do with a logical server.
-- A capability is the text that the source gives it. Identity.ScanServer's check of a stored row
-- is `valid_row`; the audit entry of a denial is kept, its write error is only logged.
pub mod Ceiling
pub mod Access
pub mod Overview
use ludock.Common.{
  String, Bool, false, not, Option, none, some, List, [], ◌∷◌, ◌++◌, ◌&&◌, ◌||◌, ◌==◌, string_eq,
  if◌then◌else◌, any, find, select, contains, Result, ok, err, ◌>>=◌, server_not_found,
  insufficient, not_admin, invalid_stored_identity,
}
use ludock.Database.{
  Role, admin, operator, viewer, is_admin, User, Server, GrantRow, StoredCapabilities, Db,
}
use ludock.Accounts.{SessionUser, find_user_by_id, write_audit, has_id}
use ludock.Identity.{is_active, valid_row, has_server_id}

abbrev pub Capability : Type 0
Capability = String

abbrev pub server_view : Capability
server_view = "server.view"

abbrev pub files_read : Capability
files_read = "files.read"

abbrev pub files_write : Capability
files_write = "files.write"

abbrev pub read_capabilities : List Capability
read_capabilities = "server.view" ∷ "logs.read" ∷ "files.read" ∷ []

-- All, in display order.
abbrev pub all_capabilities : List Capability
all_capabilities =
    "server.view" ∷ "server.start" ∷ "server.stop" ∷ "server.restart" ∷ "logs.read"
    ∷ "console.execute" ∷ "files.read" ∷ "files.write" ∷ "backups.create" ∷ "schedules.manage"
    ∷ "server.update" ∷ "server.recreate" ∷ "backups.restore" ∷ "backups.read" ∷ "backups.delete"
    ∷ "console.shell" ∷ []

abbrev pub operator_capabilities : List Capability
operator_capabilities =
    read_capabilities
    ++ ("server.start" ∷ "server.stop" ∷ "server.restart" ∷ "console.execute" ∷ "files.write"
        ∷ "backups.create" ∷ "schedules.manage" ∷ [])

unfoldable pub role_ceiling : Role → List Capability
role_ceiling admin = all_capabilities
role_ceiling operator = select (contains operator_capabilities) all_capabilities
role_ceiling viewer = select (contains read_capabilities) all_capabilities

abbrev pub has_text : List (Option String) → String → Bool
has_text raw text = any (λ item. elim item [ none ↦ false | some t ↦ t == text ]) raw

unfoldable pub parse_capabilities : StoredCapabilities → List Capability
parse_capabilities none = []
parse_capabilities (some raw) = select (has_text raw) all_capabilities

-- The loops that keep, of All, the capabilities of a list.
unfoldable pub in_order : List Capability → List Capability
in_order capabilities = select (contains capabilities) all_capabilities

abbrev pub texts : List Capability → List (Option String)
texts [] = []
texts (c ∷ cs) = some c ∷ texts cs

unfoldable pub encode_capabilities : List Capability → StoredCapabilities
encode_capabilities capabilities = some (texts capabilities)

unfoldable pub usable : Server → Bool
usable s = is_active s.status && not s.review_required

-- The loop that applies a grant within the role's ceiling.
abbrev pub granted : List Capability → Capability → Bool
granted assigned c =
    contains assigned c && not (c == files_write && not (contains assigned files_read))

unfoldable pub role_capabilities : Role → Server → List Capability → List Capability
role_capabilities role s assigned =
    if is_admin role
    then (if usable s then all_capabilities else server_view ∷ [])
    else if not (usable s) || not (contains assigned server_view)
    then []
    else select (granted assigned) (role_ceiling role)

abbrev pub enabled_user : Option User → Option SessionUser
enabled_user none = none
enabled_user (some u) =
    if u.disabled then none else some (record { id = u.id; username = u.username; role = u.role })

unfoldable pub current_actor : Db → Option SessionUser → Option SessionUser
unfolding find_user_by_id
current_actor db none = none
current_actor db (some actor) = enabled_user (find_user_by_id db actor.id)

abbrev as_administrator : Option SessionUser → Result SessionUser
as_administrator none = err not_admin
as_administrator (some u) = if is_admin u.role then ok u else err not_admin

unfoldable pub assert_administrator : Db → Option SessionUser → Result SessionUser
unfolding current_actor
assert_administrator db actor = as_administrator (current_actor db actor)

abbrev pub is_grant_of : String → String → GrantRow → Bool
is_grant_of user_id server_id g = g.user_id == user_id && g.server_id == server_id

abbrev pub stored_capabilities : Option GrantRow → List Capability
stored_capabilities none = []
stored_capabilities (some g) = parse_capabilities g.capabilities

-- The grant that the row of `server_grants` for an account and a server stands for.
unfoldable pub assigned : Db → String → String → List Capability
unfolding parse_capabilities
assigned db user_id server_id =
    stored_capabilities (find (is_grant_of user_id server_id) db.server_grants)

-- Access after the row of `logical_servers LEFT JOIN users LEFT JOIN server_grants` is read.
abbrev pub access_row : Db → Server → Option User → List Capability × Option Server
access_row db s none = ([], some s)
access_row db s (some u) =
    if u.disabled
    then ([], some s)
    else (role_capabilities u.role s (assigned db u.id s.id), some s)

abbrev pub access_server :
    Db → SessionUser → Option Server → Result (List Capability × Option Server)
access_server db actor none = ok ([], none)
access_server db actor (some s) =
    if valid_row s
    then ok (access_row db s (find (has_id actor.id) db.users))
    else err invalid_stored_identity

unfoldable pub access : Db → Option SessionUser → String → Result (List Capability × Option Server)
access db none server_id = ok ([], none)
access db (some actor) server_id =
    access_server db actor (find (has_server_id server_id) db.logical_servers)

unfoldable pub effective : Db → Option SessionUser → String → Result (List Capability)
unfolding access
effective db actor server_id = access db actor server_id >>= λ r. ok r.0

unfoldable pub has : Db → Option SessionUser → String → Capability → Result Bool
unfolding effective
has db actor server_id capability =
    effective db actor server_id >>= λ capabilities. ok (contains capabilities capability)

-- The audit entry of a denial; reading a server that one may not see is not audited.
abbrev denied_by : Option SessionUser → String
denied_by none = ""
denied_by (some u) = u.id

unfoldable pub audit_denial : Db → Option SessionUser → String → Capability → Db
unfolding current_actor write_audit
audit_denial db actor server_id capability =
    if contains read_capabilities capability
    then db
    else write_audit db (record {
      user_id = denied_by (current_actor db actor);
      action = "authorization.denied";
      target_type = "server";
      target_id = server_id;
      ip_address = "";
    })

abbrev found_server : Option Server → Result Server
found_server none = err server_not_found
found_server (some s) = ok s

abbrev decide :
    Db
    → Option SessionUser
    → String
    → Capability
    → Result (List Capability × Option Server)
    → Result Server × Db
decide db actor server_id capability (err e) = (err e, db)
decide db actor server_id capability (ok (capabilities, s)) =
    if not (contains capabilities server_view)
    then (err server_not_found, audit_denial db actor server_id capability)
    else if not (contains capabilities capability)
    then (err insufficient, audit_denial db actor server_id capability)
    else (found_server s, db)

-- Assert; a capability is held only where the server was read.
unfoldable pub assert_capability :
    Db → Option SessionUser → String → Capability → Result Server × Db
assert_capability db actor server_id capability =
    decide db actor server_id capability (access db actor server_id)
