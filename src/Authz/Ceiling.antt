-- ===== src/Authz/Ceiling.antt =====
-- The capabilities of a role on a server.
use text.Mathlib.TextEquality.{eq_iff}
use ludock.Common.{
  true, false, List, ◌≡◌, arith, string_eq, contains, contains-select, ◌&&◌, Bool-cases, inl, inr,
  ◌||◌, ◌==◌, sym,
}
use ludock.Database.{Role, is_admin, Server}
use ludock.Authz.{Capability, server_view, granted, role_ceiling, usable, role_capabilities}

-- For an account that is no administrator a capability is held exactly where the server is usable,
-- the grant lets the account see it, the role's ceiling allows the capability and the grant has it,
-- and writing files also takes reading them.
pub contains-role_capabilities :
    (role : Role) (s : Server) (assigned : List Capability) (c : Capability)
    → is_admin role ≡ false
    → contains (role_capabilities role s assigned) c ≡ (
        usable s
        && contains assigned server_view
        && contains (role_ceiling role) c
        && granted assigned c)
unfolding role_capabilities
contains-role_capabilities role s assigned c ordinary = rw ordinary (elim (Bool-cases (usable s)) [
  | inr unusable ↦ rw unusable
  | inl ready ↦ rw ready (elim (Bool-cases (contains assigned server_view)) [
    | inr hidden ↦ rw hidden
    | inl seen ↦ rw seen (contains-select (granted assigned) (role_ceiling role) c)
  ])
])

-- On a server that is missing, ambiguous or under review nobody holds anything but an
-- administrator's view of its status.
pub role_capabilities-unusable :
    (role : Role) (s : Server) (assigned : List Capability) (c : Capability)
    → usable s ≡ false
    → contains (role_capabilities role s assigned) c ≡ true
    → (is_admin role ≡ true) × (c ≡ server_view)
unfolding role_capabilities
role_capabilities-unusable role s assigned c u h = elim (Bool-cases (is_admin role)) [
  | inl boss ↦ (boss, sym ((eq_iff server_view c).0 (only c (rw (boss, u) at h))))
  | inr ordinary ↦ absurd (ground arith)
]
  where
    only : (c : Capability) → (server_view == c || false) ≡ true → server_view == c ≡ true
    only c k = ground arith
