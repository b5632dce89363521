-- ===== src/Events/Disclosure.antt =====
-- internal/events/events.go: who is told of which server.
use ludock.Common.{
  String, Bool, true, false, not, Option, none, some, List, [], ◌∷◌, ◌++◌, ◌==◌, ◌&&◌, ◌||◌, ◌≡◌,
  ◌≢◌, ◌≤◌, ◌⊎◌, refl, sym, ap, subst, ◌∙◌, arith, string_eq, bytes_eq, Bytes, if_in, contains, any,
  all, is_empty, ok, Bool-cases, inl, inr, ==_refl, Option-cases,
}
use ludock.Database.{Server, Db, count_where, any-find, find-all}
use ludock.Accounts.{SessionUser}
use ludock.Identity.{has_server_id, valid_row}
use ludock.Authz.{server_view, has, is_grant_of, current_actor}
use ludock.Authz.Overview.{Visible, capabilities_of, effective_all, effective_all-effective}
use ludock.Events.{
  Subscriber, Delivery, sent, closed, Change, by_container, list_servers, sees, refresh_event, tell,
  tell_all, deliver_to, deliver, was_visible,
}

-- A delivery that names the server.
abbrev pub tells : String → Delivery → Bool
tells id (sent e) = e.server_id == id
tells id (closed reason) = false

any-append :
    {A : Type 0} (p : A → Bool) (xs ys : List A) → any p (xs ++ ys) ≡ (any p xs || any p ys)
any-append p [] ys = refl
any-append p (x ∷ xs) ys = ground (arith, any-append p xs ys)

refresh_silent :
    (id : String) (visible : Bool) (c : Change)
    → id ≢ ""
    → any (tells id) (refresh_event visible c) ≡ false
refresh_silent id false c named = refl
refresh_silent id true c named = elim (Bool-cases ("" == id)) [
  | inl same ↦ absurd (named (sym ((string_eq.beq_iff "" id).0 same)))
  | inr other ↦ rw other refl
]

-- What a delivery shows of the server that it names.
abbrev Shown : Visible → List Server → String → Type 0
Shown visible servers id =
    (contains (capabilities_of visible id) server_view ≡ true)
    × (any (has_server_id id) servers ≡ true)

abbrev Listed : Option Server → List Server → Type 0
Listed none servers = Unit
Listed (some s) servers = any (has_server_id s.id) servers ≡ true

Listed-cons :
    (o : Option Server) (x : Server) (servers : List Server)
    → Listed o servers
    → Listed o (x ∷ servers)
Listed-cons none x servers h = tt
Listed-cons (some s) x servers h = ground arith

-- A server that is found was listed, or found before.
by_container-Listed :
    (id : Bytes) (servers : List Server) (found : Option Server)
    → (Listed (by_container id servers found) servers) ⊎ (by_container id servers found ≡ found)
by_container-Listed id [] found = inr refl
by_container-Listed id (s ∷ servers) found =
    if_in
      (λ (o : Option Server).
        (Listed (by_container id servers o) (s ∷ servers)) ⊎ (by_container id servers o ≡ found))
      (not (is_empty s.container_id) && s.container_id == id)
      (λ taken. elim (by_container-Listed id servers (some s)) [
        | inl later ↦ inl (Listed-cons _ s servers later)
        | inr this ↦ inl (subst (λ o. Listed o (s ∷ servers)) (sym this) (rw (==_refl s.id) refl))
      ])
      (λ passed. elim (by_container-Listed id servers found) [
        | inl later ↦ inl (Listed-cons _ s servers later)
        | inr before ↦ inr before
      ])

by_container-listed :
    (id : Bytes) (servers : List Server) (s : Server)
    → by_container id servers none ≡ some s
    → any (has_server_id s.id) servers ≡ true
by_container-listed id servers s h = elim (by_container-Listed id servers none) [
  | inl listed ↦ subst (λ o. Listed o servers) h listed
  | inr missing ↦ cc
]

tell-Shown :
    (visible : Visible) (servers : List Server) (previously : Bool) (c : Change) (o : Option Server)
    (id : String)
    → by_container c.container_id servers none ≡ o
    → id ≢ ""
    → any (tells id) (tell visible previously c o) ≡ true
    → Shown visible servers id
tell-Shown visible servers previously c none id found named =
    λ h. let silent = refresh_silent id previously c named in cc (silent, h)
tell-Shown visible servers previously c (some s) id found named =
    if_in (λ (ds : List Delivery). any (tells id) ds ≡ true → Shown visible servers id)
      (sees visible s)
      (λ seen h.
        let same : s.id ≡ id = (string_eq.beq_iff s.id id).0 (ground arith) in
        (
          subst (λ x. contains (capabilities_of visible x) server_view ≡ true) same seen,
          subst (λ x. any (has_server_id x) servers ≡ true) same
              (by_container-listed c.container_id servers s found),
        ))
      (λ unseen h. let silent = refresh_silent id previously c named in cc (silent, h))

tell_all-Shown :
    (visible : Visible) (servers : List Server) (previously : Change → Bool) (changes : List Change)
    (id : String)
    → id ≢ ""
    → any (tells id) (tell_all visible servers previously changes) ≡ true
    → Shown visible servers id
tell_all-Shown visible servers previously [] id named h = cc
tell_all-Shown visible servers previously (c ∷ changes) id named h =
    let first = tell visible (previously c) c (by_container c.container_id servers none) in
    let split = any-append (tells id) first (tell_all visible servers previously changes) in
    elim (Bool-cases (any (tells id) first)) [
      | inl here ↦ tell-Shown visible servers (previously c) c _ id refl named here
      | inr not_here ↦
          tell_all-Shown visible servers previously changes id named
            (sym (rw not_here at split) ∙ h)
    ]

deliver_to-Shown :
    (after : List Server) (previously : Change → Bool) (changes : List Change)
    (o : Option (SessionUser × Visible)) (id : String)
    → id ≢ ""
    → any (tells id) (deliver_to after previously changes o) ≡ true
    → (user : SessionUser) × (visible : Visible) × (o ≡ some (user, visible))
      × Shown visible after id
deliver_to-Shown after previously changes none id named h = cc
deliver_to-Shown after previously changes (some (user, visible)) id named h =
    (user, visible, refl, tell_all-Shown visible after previously changes id named h)

listed_valid :
    (db : Db) (servers : List Server)
    → list_servers db ≡ ok servers
    → (db.logical_servers ≡ servers) × (all valid_row db.logical_servers ≡ true)
unfolding list_servers
listed_valid db servers h = elim (Bool-cases (all valid_row db.logical_servers)) [
  | inl valid ↦ let e = rw valid at h in (cc, valid)
  | inr invalid ↦ let e = rw invalid at h in cc
]

has-viewed :
    (db : Db) (actor user : SessionUser) (visible : Visible) (id : String)
    → count_where (has_server_id id) db.logical_servers ≤ 1
    → count_where (is_grant_of actor.id id) db.server_grants ≤ 1
    → all valid_row db.logical_servers ≡ true
    → effective_all db (some actor) db.logical_servers ≡ some (user, visible)
    → Shown visible db.logical_servers id
    → has db (some actor) id server_view ≡ ok true
unfolding has
has-viewed db actor user visible id one_server one_grant valid seen shown_there =
    let (s, target) = any-find (has_server_id id) db.logical_servers shown_there.1 in
    let agreed =
      effective_all-effective db actor id s one_server one_grant target
        (find-all valid_row (has_server_id id) db.logical_servers s target valid) in
    rw agreed (rw seen (ap ok shown_there.0))

no_viewer :
    (db : Db) (servers : List Server) (user : SessionUser) (visible : Visible)
    → effective_all db none servers ≢ some (user, visible)
unfolding effective_all current_actor
no_viewer db servers user visible h = cc

-- An event that names a server goes only to a viewer whose account, as the subscription's session
-- stands after the refresh, may see that server by the grants that are then stored; ids of servers
-- and grants are unique there.
pub deliver-has :
    (before_db after_db : Db) (before after : List Server) (changes : List Change)
    (subscriber : Subscriber) (id : String)
    → id ≢ ""
    → list_servers after_db ≡ ok after
    → count_where (has_server_id id) after_db.logical_servers ≤ 1
    → ((user_id : String) → count_where (is_grant_of user_id id) after_db.server_grants ≤ 1)
    → any (tells id) (deliver before_db after_db before after changes subscriber) ≡ true
    → has after_db (subscriber.validate after_db) id server_view ≡ ok true
unfolding deliver
deliver-has before_db after_db before after changes subscriber id named listed one_server one_grant
      h =
    let (user, visible, seen, shown_there) =
      deliver_to-Shown after (was_visible before_db before subscriber) changes _ id named h in
    let (same, valid) = listed_valid after_db after listed in
    elim (Option-cases (subscriber.validate after_db)) [
      | inl nobody ↦ absurd (
          no_viewer after_db after user visible
            (subst (λ o. effective_all after_db o after ≡ some (user, visible)) nobody seen))
      | inr (actor, valid_session) ↦
          subst (λ o. has after_db o id server_view ≡ ok true) (sym valid_session)
            (has-viewed after_db actor user visible id one_server (one_grant actor.id) valid
              (subst (λ l. effective_all after_db (some actor) l ≡ some (user, visible)) (sym same)
                (subst (λ o. effective_all after_db o after ≡ some (user, visible)) valid_session
                  seen))
              (subst (λ l. Shown visible l id) (sym same) shown_there))
    ]
