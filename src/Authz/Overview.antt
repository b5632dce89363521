-- ===== src/Authz/Overview.antt =====
-- internal/authz/authz.go: EffectiveAll, which reads the account and its grants once for many
-- servers, and that it answers what Effective answers one by one. A map is the list of its writes,
-- the latest first.
use ludock.Common.{
  String, Bool, true, false, Option, none, some, List, [], ◌∷◌, ◌≡◌, ◌≤◌, refl, sym, ap, subst, ◌∙◌,
  Option-cases, arith, ◌==◌, string_eq, find, find-holds, if◌then◌else◌, ok, Bool-cases, inl, inr,
  select,
}
use ludock.Database.{User, Server, GrantRow, Role, Db, is_admin, count_where, find-select}
use ludock.Accounts.{SessionUser, has_id, find_user_by_id}
use ludock.Identity.{has_server_id, valid_row}
use ludock.Authz.{
  Capability, is_grant_of, stored_capabilities, role_capabilities, assigned, current_actor, access,
  effective, parse_capabilities,
}

abbrev pub Visible : Type 0
Visible = List (String × List Capability)

abbrev pub capabilities_of : Visible → String → List Capability
capabilities_of [] id = []
capabilities_of ((server, capabilities) ∷ rest) id =
    if server == id then capabilities else capabilities_of rest id

-- The rows of the query, each written over the earlier ones.
abbrev pub grant_map : List GrantRow → List GrantRow → List GrantRow
grant_map [] written = written
grant_map (g ∷ rows) written = grant_map rows (g ∷ written)

abbrev pub of_user : String → GrantRow → Bool
of_user user_id g = g.user_id == user_id

abbrev pub on_server : String → GrantRow → Bool
on_server server_id g = g.server_id == server_id

-- Nothing is read for an administrator.
abbrev pub read_grants : Db → SessionUser → List GrantRow
read_grants db user =
    if is_admin user.role then [] else grant_map (select (of_user user.id) db.server_grants) []

abbrev pub overview : List GrantRow → SessionUser → List Server → Visible → Visible
overview grants user [] written = written
overview grants user (s ∷ servers) written = overview grants user servers (
    (s.id, role_capabilities user.role s (stored_capabilities (find (on_server s.id) grants)))
    ∷ written)

abbrev pub overview_of : Db → List Server → Option SessionUser → Option (SessionUser × Visible)
overview_of db servers none = none
overview_of db servers (some user) = some (user, overview (read_grants db user) user servers [])

unfoldable pub effective_all :
    Db → Option SessionUser → List Server → Option (SessionUser × Visible)
unfolding current_actor parse_capabilities
effective_all db actor servers = overview_of db servers (current_actor db actor)

find-grant_map-none :
    (q : GrantRow → Bool) (rows written : List GrantRow)
    → count_where q rows ≤ 0
    → find q (grant_map rows written) ≡ find q written
find-grant_map-none q [] written h = refl
find-grant_map-none q (g ∷ rows) written h = elim (Bool-cases (q g)) [
  | inl hit ↦ absurd (let c = rw hit at h in omega (arith, c))
  | inr miss ↦ let c = rw miss at h in find-grant_map-none q rows (g ∷ written) c ∙ rw miss refl
]

-- With the key of the table, the latest row of a server is the first.
find-grant_map :
    (q : GrantRow → Bool) (rows written : List GrantRow)
    → count_where q rows ≤ 1
    → find q written ≡ none
    → find q (grant_map rows written) ≡ find q rows
find-grant_map q [] written h e = e
find-grant_map q (g ∷ rows) written h e = elim (Bool-cases (q g)) [
  | inl hit ↦
      let c = rw hit at h in
      rw hit (find-grant_map-none q rows (g ∷ written) (omega (arith, c)) ∙ rw hit refl)
  | inr miss ↦ let c = rw miss at h in rw miss (find-grant_map q rows (g ∷ written) c (rw miss e))
]

capabilities_of-overview-none :
    (grants : List GrantRow) (user : SessionUser) (servers : List Server) (written : Visible)
    (id : String)
    → count_where (has_server_id id) servers ≤ 0
    → capabilities_of (overview grants user servers written) id ≡ capabilities_of written id
capabilities_of-overview-none grants user [] written id h = refl
capabilities_of-overview-none grants user (s ∷ servers) written id h =
    elim (Bool-cases (s.id == id)) [
      | inl hit ↦ absurd (let c = rw hit at h in omega (arith, c))
      | inr miss ↦
          let c = rw miss at h in
          capabilities_of-overview-none grants user servers _ id c ∙ rw miss refl
    ]

abbrev held_by : List GrantRow → SessionUser → Server → String → List Capability
held_by grants user s id =
    role_capabilities user.role s (stored_capabilities (find (on_server id) grants))

capabilities_of-overview :
    (grants : List GrantRow) (user : SessionUser) (servers : List Server) (written : Visible)
    (id : String) (s : Server)
    → count_where (has_server_id id) servers ≤ 1
    → find (has_server_id id) servers ≡ some s
    → capabilities_of (overview grants user servers written) id
      ≡ role_capabilities user.role s (stored_capabilities (find (on_server id) grants))
capabilities_of-overview grants user [] written id s h f = absurd (ground arith)
capabilities_of-overview grants user (x ∷ servers) written id s h f =
    elim (Bool-cases (x.id == id)) [
      | inl hit ↦
          let c = rw hit at h in
          let e = rw hit at f in
          let same : x ≡ s = cc in
          let named : s.id ≡ id =
            (string_eq.beq_iff s.id id).0 (find-holds (has_server_id id) (x ∷ servers) s f) in
          capabilities_of-overview-none grants user servers _ id (omega (arith, c))
          ∙ rw hit (
              ap (λ (y : Server). held_by grants user y y.id) same
              ∙ ap (held_by grants user s) named)
      | inr miss ↦
          let c = rw miss at h in
          let e = rw miss at f in capabilities_of-overview grants user servers _ id s c e
    ]

-- The grants of another account do not come between.
find-select_user :
    (user_id server_id : String) (rows : List GrantRow)
    → find (on_server server_id) (select (of_user user_id) rows)
      ≡ find (is_grant_of user_id server_id) rows
find-select_user user_id server_id rows = find-select (of_user user_id) (on_server server_id) rows

count-select_user :
    (user_id server_id : String) (rows : List GrantRow)
    → count_where (on_server server_id) (select (of_user user_id) rows)
      ≡ count_where (is_grant_of user_id server_id) rows
count-select_user user_id server_id [] = refl
count-select_user user_id server_id (g ∷ rows) =
    ground (arith, count-select_user user_id server_id rows)

-- An administrator's capabilities do not depend on grants.
admin_grants :
    (role : Role) (s : Server) (a b : List Capability)
    → is_admin role ≡ true
    → role_capabilities role s a ≡ role_capabilities role s b
unfolding role_capabilities
admin_grants role s a b h = rw h refl

overview-assigned :
    (db : Db) (user : SessionUser) (s : Server) (id : String)
    → count_where (is_grant_of user.id id) db.server_grants ≤ 1
    → held_by (read_grants db user) user s id
      ≡ role_capabilities user.role s (assigned db user.id id)
unfolding assigned
overview-assigned db user s id few = elim (Bool-cases (is_admin user.role)) [
  | inl admin_role ↦ admin_grants user.role s _ _ admin_role
  | inr other ↦ rw other (
      ap (λ g. role_capabilities user.role s (stored_capabilities g))
        (find-grant_map (on_server id) (select (of_user user.id) db.server_grants) []
            (rw (count-select_user user.id id db.server_grants) few) refl
          ∙ find-select_user user.id id db.server_grants))
]

effective-row :
    (db : Db) (actor : SessionUser) (id : String) (s : Server) (u : User)
    → find (has_server_id id) db.logical_servers ≡ some s
    → valid_row s ≡ true
    → find (has_id actor.id) db.users ≡ some u
    → u.disabled ≡ false
    → effective db (some actor) id ≡ ok (role_capabilities u.role s (assigned db u.id s.id))
unfolding effective access
effective-row db actor id s u target valid account enabled =
    rw target (rw valid (rw account (rw enabled refl)))

-- What Overview answers for a server, nothing where the account is not live.
abbrev pub answered : Option (SessionUser × Visible) → String → List Capability
answered none id = []
answered (some (user, visible)) id = capabilities_of visible id

-- EffectiveAll and Effective agree for every account, also one that is disabled or gone: on every
-- stored server that it is asked about and that reads as valid, with ids and grants unique, the one
-- answers what the other does, and nothing where it finds no live account.
pub effective_all-effective :
    (db : Db) (actor : SessionUser) (id : String) (s : Server)
    → count_where (has_server_id id) db.logical_servers ≤ 1
    → count_where (is_grant_of actor.id id) db.server_grants ≤ 1
    → find (has_server_id id) db.logical_servers ≡ some s
    → valid_row s ≡ true
    → effective db (some actor) id
      ≡ ok (answered (effective_all db (some actor) db.logical_servers) id)
unfolding effective_all current_actor find_user_by_id effective access
effective_all-effective db actor id s one_server one_grant target valid =
    elim (Option-cases (find (has_id actor.id) db.users)) [
      | inl gone ↦ rw target (rw valid (rw gone refl))
      | inr (u, account) ↦ elim (Bool-cases u.disabled) [
        | inl disabled ↦ rw target (rw valid (rw account (rw disabled refl)))
        | inr enabled ↦
            let user : SessionUser = record { id = u.id; username = u.username; role = u.role } in
            let named : u.id ≡ actor.id =
              (string_eq.beq_iff u.id actor.id).0
                (find-holds (has_id actor.id) db.users u account) in
            let here : s.id ≡ id =
              (string_eq.beq_iff s.id id).0
                (find-holds (has_server_id id) db.logical_servers s target) in
            let few : count_where (is_grant_of user.id id) db.server_grants ≤ 1 =
              subst (λ x. count_where (is_grant_of x id) db.server_grants ≤ 1) (sym named)
                one_grant in
            let all_answered : answered (effective_all db (some actor) db.logical_servers) id
                ≡ capabilities_of (overview (read_grants db user) user db.logical_servers []) id =
              rw account (rw enabled refl) in
            effective-row db actor id s u target valid account enabled
            ∙ ap ok (
                ap (λ i. role_capabilities u.role s (assigned db u.id i)) here
                ∙ sym (overview-assigned db user s id few)
                ∙ sym (
                    capabilities_of-overview (read_grants db user) user db.logical_servers [] id s
                      one_server target)
                ∙ sym all_answered)
      ]
    ]
