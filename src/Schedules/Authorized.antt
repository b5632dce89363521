-- ===== src/Schedules/Authorized.antt =====
-- internal/schedules: the authority of a schedule's owner when its operation is queued.
use ludock.Common.{
  String, Option, none, some, List, [], ◌∷◌, ◌≡◌, refl, sym, ap, ◌∙◌, subst, arith, string_eq, find,
  contains, All, All-map, find-holds, ok,
}
use ludock.Database.{Db, User, Server, Role, GrantRow, StoredCapabilities}
use ludock.Accounts.{SessionUser, has_id, find_user_by_id}
use ludock.Identity.{has_server_id}
use ludock.Authz.{
  Capability, role_capabilities, usable, assigned, stored_capabilities, parse_capabilities,
  is_grant_of,
}
use ludock.Authz.Access.{Holds}
use ludock.Schedtime.Clock.{Slot}
use ludock.Schedules.Settings.{Settings, capabilities}
use ludock.Schedules.Authority.{Row, schedules_manage}
use ludock.Schedules.State.{
  authority_state, user_states, user_state, server_state, grant_text, same_state-eq,
}
use ludock.Schedules.Owners.{authority-Holds}
use ludock.Schedules.Attempts.{attempt-Queued}
use ludock.Schedules.Run.{Library, Store, Turn, queued, database, attempt, parse_saved}

role_capabilities-usable_eq :
    (role : Role) (s s' : Server) (given : List Capability)
    → usable s ≡ usable s'
    → role_capabilities role s given ≡ role_capabilities role s' given
unfolding role_capabilities
role_capabilities-usable_eq role s s' given h = rw h refl

abbrev decoded : Option StoredCapabilities → List Capability
decoded none = []
decoded (some c) = parse_capabilities c

stored_capabilities-grant_text :
    (g : Option GrantRow) → stored_capabilities g ≡ decoded (grant_text g)
stored_capabilities-grant_text none = refl
stored_capabilities-grant_text (some g) = refl

same_server :
    (a : Server) (o : Option Server)
    → server_state (some a) ≡ server_state o
    → (b : Server) × (o ≡ some b) × (usable a ≡ usable b)
unfolding usable
same_server a none h = ground arith
same_server a (some b) h = (b, refl, ground arith)

same_user :
    (before after : Db) (server_id : String) (a : User) (o : Option User)
    → user_state before server_id (some a) ≡ user_state after server_id o
    → (b : User) × (o ≡ some b)
      × (a.role ≡ b.role)
      × (a.disabled ≡ b.disabled)
      × (assigned before a.id server_id ≡ assigned after b.id server_id)
unfolding assigned
same_user before after server_id a none h = ground arith
same_user before after server_id a (some b) h = (
  b,
  refl,
  ground arith,
  ground arith,
  stored_capabilities-grant_text (find (is_grant_of a.id server_id) before.server_grants)
      ∙ ap decoded {x = grant_text (find (is_grant_of a.id server_id) before.server_grants)}
          {y = grant_text (find (is_grant_of b.id server_id) after.server_grants)} (ground arith)
      ∙ sym
          (stored_capabilities-grant_text (find (is_grant_of b.id server_id) after.server_grants)),
)

-- What an account holds depends on the rows of authorityState alone.
Holds-authority_state :
    (before after : Db) (actor : SessionUser) (server_id : String) (c : Capability)
    → authority_state before server_id (actor.id ∷ [])
      ≡ authority_state after server_id (actor.id ∷ [])
    → Holds before actor server_id c
    → Holds after actor server_id c
unfolding authority_state user_states find_user_by_id
Holds-authority_state before after actor server_id c same h =
    let (user, account', role, disabled, given) =
      same_user before after server_id h.user (find (has_id actor.id) after.users)
        (ground (arith, h.account, same)) in
    let (server, target', works) =
      same_server h.server (find (has_server_id server_id) after.logical_servers)
        (ground (arith, h.target, same)) in
    let id =
      λ (db : Db) (s : Server) (found : find (has_server_id server_id) db.logical_servers ≡ some s).
        (string_eq.beq_iff s.id server_id).0
          (find-holds (has_server_id server_id) db.logical_servers s found) in
    let at = λ (db : Db) (u : User) (s : Server) (e : s.id ≡ server_id).
      ap (λ i. role_capabilities u.role s (assigned db u.id i)) e in
    let moved : role_capabilities h.user.role h.server (assigned before h.user.id server_id)
        ≡ role_capabilities user.role server (assigned after user.id server_id) =
      ap (λ r. role_capabilities r h.server (assigned before h.user.id server_id)) role
      ∙ ap (role_capabilities user.role h.server) given
      ∙ role_capabilities-usable_eq user.role h.server server (assigned after user.id server_id)
          works in
    record {
      user = user;
      server = server;
      account = account';
      target = target';
      enabled = sym disabled ∙ h.enabled;
      within =
          ap (λ l. contains l c)
            (at after user server (id after server target')
              ∙ sym moved
              ∙ sym (at before h.user h.server (id before h.server h.target)))
          ∙ h.within;
    }

-- When a run queues an operation, at the database that the operation is written to the owner of the
-- schedule exists, is enabled, and holds the right to manage schedules and every capability that the
-- settings ask for; the rows of the owner's authority read the same when it was checked as before.
pub attempt-Holds :
    {Recovery : Type 0} (lib : Library Recovery) (store : Store) (r : Row) (turn : Turn)
    (slot : Slot) (store' : Store)
    → attempt lib store r turn ≡ queued slot store'
    → authority_state (database store) r.server_id (r.owner_id ∷ [])
      ≡ authority_state (database (turn.before_check store)) r.server_id (r.owner_id ∷ [])
    → (s : Settings) × (actor : SessionUser) × (parse_saved lib r.input ≡ ok s)
      × (actor.id ≡ r.owner_id)
      × All
          (Holds (database (turn.before_queue (turn.before_check store))) actor r.server_id)
          (schedules_manage ∷ capabilities s)
attempt-Holds lib store r turn slot store' h steady =
    let q = attempt-Queued lib store r turn slot store' h in
    let (held, owner) =
      authority-Holds (database (turn.before_check store)) r.server_id r.owner_id r.binding_revision
        q.settings q.actor q.binding q.allowed in
    let same = sym steady ∙ same_state-eq _ _ q.unchanged in
    (
      q.settings,
      q.actor,
      q.read,
      owner,
      All-map _ _ (schedules_manage ∷ capabilities q.settings)
          (λ c. Holds-authority_state _ _ q.actor r.server_id c (
            subst
              (λ id.
                authority_state (database (turn.before_check store)) r.server_id (id ∷ [])
                ≡ authority_state (database (turn.before_queue (turn.before_check store)))
                    r.server_id (id ∷ []))
              (sym owner) same))
          held,
    )
