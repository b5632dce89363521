-- ===== src/Authz/Access.antt =====
-- Access and Assert: whose authority counts, and what a refusal discloses.
use ludock.Common.{
  result_cases, String, true, false, Option, none, some, List, ◌≡◌, refl, sym, ap, ◌∙◌, subst,
  arith, string_eq, contains, Bool-cases, inl, inr, find, ok, err, server_not_found, Option-cases,
}
use ludock.Database.{User, Server, Db}
use ludock.Accounts.{SessionUser, has_id}
use ludock.Identity.{has_server_id}
use ludock.Authz.{
  Capability, server_view, read_capabilities, role_capabilities, assigned, access, audit_denial,
  assert_capability, access_row,
}

-- The stored rows from which an account has a capability on a server.
pub record Holds (db : Db) (actor : SessionUser) (server_id : String) (c : Capability)
    : Type 0 where
  pub user : User
  pub server : Server
  pub account : find (has_id actor.id) db.users ≡ some user
  pub target : find (has_server_id server_id) db.logical_servers ≡ some server
  pub enabled : user.disabled ≡ false
  pub within :
      contains (role_capabilities user.role server (assigned db user.id server.id)) c ≡ true

-- Access gives a capability only by the stored account, which exists and is enabled, with its
-- current role and its stored grant; the role that the caller carries plays no part.
pub access-Holds :
    (db : Db) (actor : SessionUser) (server_id : String) (cs : List Capability) (s : Option Server)
    (c : Capability)
    → access db (some actor) server_id ≡ ok (cs, s)
    → contains cs c ≡ true
    → Holds db actor server_id c
unfolding access
access-Holds db actor server_id cs s c h k =
    elim (Option-cases (find (has_server_id server_id) db.logical_servers)) [
      | inl gone ↦ absurd (ground arith)
      | inr (server, target) ↦ elim (Option-cases (find (has_id actor.id) db.users)) [
        | inl none_such ↦ absurd (ground arith)
        | inr (user, account) ↦
            let row : cs ≡ (access_row db server (some user)).0 = ground arith in
            let held = subst (λ l. contains l c ≡ true) row k in
            let enabled : user.disabled ≡ false = ground arith in
            record {
              user = user;
              server = server;
              account = account;
              target = target;
              enabled = enabled;
              within = rw enabled at held;
            }
      ]
    ]

audit_denial-kept :
    (db : Db) (actor : Option SessionUser) (server_id : String) (c : Capability)
    → record (audit_denial db actor server_id c) { audit_log = db.audit_log } ≡ db
unfolding audit_denial
audit_denial-kept db actor server_id c = elim (Bool-cases (contains read_capabilities c)) [
  | inl read ↦ rw read refl
  | inr act ↦ rw act refl
]

audit_denial-read :
    (db : Db) (actor : Option SessionUser) (server_id : String) (c : Capability)
    → contains read_capabilities c ≡ true
    → audit_denial db actor server_id c ≡ db
unfolding audit_denial
audit_denial-read db actor server_id c h = rw h refl

-- Assert returns a server only to an actor whose stored account and grant give it both the view
-- of the server and the capability, and then writes nothing.
pub assert_capability-Holds :
    (db : Db) (actor : SessionUser) (server_id : String) (c : Capability) (s : Server)
    → (assert_capability db (some actor) server_id c).0 ≡ ok s
    → Holds db actor server_id server_view
      × Holds db actor server_id c
      × ((assert_capability db (some actor) server_id c).1 ≡ db)
unfolding assert_capability
assert_capability-Holds db actor server_id c s h =
    elim (result_cases (access db (some actor) server_id)) [
      | inl (e, failed) ↦ absurd (ground arith)
      | inr ((cs, found), read) ↦
          let seen : contains cs server_view ≡ true = ground arith in
          let held : contains cs c ≡ true = ground arith in
          (
            access-Holds db actor server_id cs found server_view read seen,
            access-Holds db actor server_id cs found c read held,
            rw read (rw (seen, held)),
          )
    ]

-- Whatever Assert answers, the only table it changes is the audit log.
pub assert_capability-kept :
    (db : Db) (actor : Option SessionUser) (server_id : String) (c : Capability)
    → record (assert_capability db actor server_id c).1 { audit_log = db.audit_log } ≡ db
unfolding assert_capability
assert_capability-kept db actor server_id c = elim (result_cases (access db actor server_id)) [
  | inl (e, failed) ↦ rw failed refl
  | inr ((cs, found), read) ↦ rw read (elim (Bool-cases (contains cs server_view)) [
    | inr hidden ↦ rw hidden (audit_denial-kept db actor server_id c)
    | inl seen ↦ elim (Bool-cases (contains cs c)) [
      | inr lacking ↦ rw (seen, lacking) (audit_denial-kept db actor server_id c)
      | inl held ↦ rw (seen, held) refl
    ]
  ])
]

-- A server that the actor does not see and one that does not exist are told apart neither by the
-- answer nor, for the capabilities to read, by a write.
pub assert_capability-nondisclosure :
    (db : Db) (actor : SessionUser) (hidden absent : String) (c : Capability) (cs : List Capability)
    (s : Option Server)
    → access db (some actor) hidden ≡ ok (cs, s)
    → contains cs server_view ≡ false
    → find (has_server_id absent) db.logical_servers ≡ none
    → contains read_capabilities c ≡ true
    → assert_capability db (some actor) hidden c ≡ assert_capability db (some actor) absent c
unfolding assert_capability access
assert_capability-nondisclosure db actor hidden absent c cs s h v gone r = rw h (
    rw v (
      rw gone (
        ap (λ d. (err server_not_found, d))
          (audit_denial-read db (some actor) hidden c r
            ∙ sym (audit_denial-read db (some actor) absent c r)))))
