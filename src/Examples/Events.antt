-- ===== src/Examples/Events.antt =====
-- The theorems on EffectiveAll and on events (internal/authz/authz.go, internal/events/events.go) at
-- concrete inputs.
use ludock.Common.{◌≡◌, refl, arith, some, [], ◌∷◌, ok, codes, ==_false, true, string_eq}
use ludock.Database.{Db, GrantRow, count-cons_fresh}
use ludock.Authz.{
  server_view, has, effective, is_grant_of, current_actor, role_capabilities, role_ceiling, usable,
  parse_capabilities,
}
use ludock.Authz.Overview.{answered, Visible, effective_all, effective_all-effective}
use ludock.Accounts.{find_user_by_id}
use ludock.Observation.{valid_id, valid_container_id}
use ludock.Events.{Change, Subscriber, deliver, list_servers, was_visible}
use ludock.Events.Disclosure.{deliver-has}
use ludock.Examples.Access.{s1, server, bob, principal, db}

abbrev visible : Visible
visible =
    ("00000000-0000-4000-8000-000000000003", []) ∷ (s1, "server.view" ∷ "files.read" ∷ []) ∷ []

effective_all-effective_example :
    effective db (some (principal bob)) s1
    ≡ ok (answered (effective_all db (some (principal bob)) db.logical_servers) s1)
unfolding valid_id
effective_all-effective_example =
    effective_all-effective db (principal bob) s1 server (omega arith) (omega arith) refl refl

abbrev running : Db
running = record db { logical_servers = record server { container_id = codes "c1" } ∷ [] }

abbrev bobs_grant : GrantRow
bobs_grant = record {
  user_id = "bob";
  server_id = s1;
  capabilities = some (some "server.view" ∷ some "files.read" ∷ []);
  updated_at = 1;
}

abbrev viewer : Subscriber
viewer = record { validate = λ db. some (principal bob) }

abbrev started : Change
started = record { action = "start"; container_id = codes "c1"; time = 7 }

deliver-has_example : has running (viewer.validate running) s1 server_view ≡ ok true
unfolding effective_all current_actor find_user_by_id role_capabilities role_ceiling usable
    parse_capabilities valid_id deliver was_visible list_servers valid_container_id
deliver-has_example =
    deliver-has running running running.logical_servers running.logical_servers (started ∷ [])
      viewer s1 (==_false s1 "" refl) refl (omega arith)
      (λ user_id. count-cons_fresh (is_grant_of user_id s1) bobs_grant [] (omega arith)) refl
