-- ===== src/Events.antt =====
-- internal/events/events.go: container events of Docker as changes that viewers are told.
-- What a viewer is sent is the list of its deliveries; a batch runs from a database, through the
-- refresh, a parameter, to the one after it. Servers are listed in the order of the table. Errors
-- of the driver other than a row that does not scan are left out.
pub mod Disclosure
use ludock.Common.{
  ℕ, String, Bool, true, false, not, Option, none, some, List, [], ◌∷◌, ◌++◌, ◌==◌, ◌&&◌, ◌||◌,
  string_eq, bytes_eq, Bytes, if◌then◌else◌, contains, all, is_empty, leb, length, map, Result, ok,
  err, ◌>>=◌, invalid_stored_identity,
}
use ludock.Database.{Server, Db}
use ludock.Accounts.{SessionUser}
use ludock.Identity.{valid_row}
use ludock.Observation.{valid_container_id}
use ludock.Authz.{server_view, has}
use ludock.Authz.Overview.{Visible, capabilities_of, effective_all}

abbrev pub state_actions : List String
state_actions =
    "create" ∷ "start" ∷ "stop" ∷ "die" ∷ "kill" ∷ "restart" ∷ "destroy" ∷ "rename" ∷ "pause"
    ∷ "unpause" ∷ "update" ∷ "oom" ∷ "health_status: healthy" ∷ "health_status: unhealthy"
    ∷ "health_status: starting" ∷ []

-- An event without a server has the empty id.
pub record Event : Type 0 where
  pub action : String
  pub server_id : String
  pub time : ℕ

pub record Subscriber : Type 0 where
  pub validate : Db → Option SessionUser

pub data Delivery : Type 0 where
  sent : Event → Delivery
  closed : (reason : String) → Delivery

pub record DockerEvent : Type 0 where
  pub action : String
  pub actor_id : Bytes
  pub id : Bytes
  pub time : Option ℕ

pub record Change : Type 0 where
  pub action : String
  pub container_id : Bytes
  pub time : ℕ

abbrev or_now : Option ℕ → ℕ → ℕ
or_now none now = now
or_now (some time) now = time

-- docker.ContainerIDPattern is the pattern of identity's container ids.
unfoldable pub state_change : DockerEvent → (now : ℕ) → Option Change
unfolding valid_container_id
state_change event now =
    let id = if is_empty event.actor_id then event.id else event.actor_id in
    if not (contains state_actions event.action) || not (valid_container_id id)
    then none
    else some (record { action = event.action; container_id = id; time = or_now event.time now })

-- The queue of a stream: one change per container, the latest, in the order they first came in.
unfoldable pub queue_change : Change → List Change → List Change
queue_change c [] = c ∷ []
queue_change c (p ∷ pending) =
    if p.container_id == c.container_id then c ∷ pending else p ∷ queue_change c pending

unfoldable pub take_change : Change → List Change → List Change
unfolding queue_change
take_change c pending =
    if not (contains (map (λ (p : Change). p.container_id) pending) c.container_id)
      && leb 1024 (length pending)
    then pending
    else queue_change c pending

-- byContainer: a later server takes the place of an earlier one.
abbrev pub by_container : Bytes → List Server → Option Server → Option Server
by_container id [] found = found
by_container id (s ∷ servers) found =
    by_container id servers
      (if not (is_empty s.container_id) && s.container_id == id then some s else found)

-- In the order of the table; the source's order by name decides only between servers that have the same
-- container.
unfoldable pub list_servers : Db → Result (List Server)
list_servers db =
    if all valid_row db.logical_servers then ok db.logical_servers else err invalid_stored_identity

abbrev pub sees : Visible → Server → Bool
sees visible s = contains (capabilities_of visible s.id) server_view

abbrev pub shown : Visible → Option Server → Bool
shown visible none = false
shown visible (some s) = sees visible s

abbrev pub seen_in : Option (SessionUser × Visible) → Option Server → Bool
seen_in none s = false
seen_in (some (user, visible)) s = shown visible s

unfoldable pub was_visible : Db → List Server → Subscriber → Change → Bool
was_visible db before subscriber c =
    seen_in (effective_all db (subscriber.validate db) before)
      (by_container c.container_id before none)

abbrev pub refresh_event : Bool → Change → List Delivery
refresh_event visible c =
    if visible then sent (record { action = "refresh"; server_id = ""; time = c.time }) ∷ [] else []

-- What one change tells a viewer.
abbrev pub tell : Visible → (previously : Bool) → Change → Option Server → List Delivery
tell visible previously c none = refresh_event previously c
tell visible previously c (some s) =
    if sees visible s
    then sent (record { action = c.action; server_id = s.id; time = c.time }) ∷ []
    else refresh_event previously c

abbrev pub tell_all :
    Visible → List Server → (previously : Change → Bool) → List Change → List Delivery
tell_all visible after previously [] = []
tell_all visible after previously (c ∷ changes) =
    tell visible (previously c) c (by_container c.container_id after none)
    ++ tell_all visible after previously changes

abbrev pub deliver_to :
    List Server
    → (previously : Change → Bool) → List Change
    → Option (SessionUser × Visible)
    → List Delivery
deliver_to after previously changes none = closed "Authentication expired" ∷ []
deliver_to after previously changes (some (user, visible)) =
    tell_all visible after previously changes

-- What one subscriber is sent of a batch.
unfoldable pub deliver :
    (before_db after_db : Db)
    → (before after : List Server) → List Change
    → Subscriber
    → List Delivery
deliver before_db after_db before after changes subscriber =
    deliver_to after (was_visible before_db before subscriber) changes
      (effective_all after_db (subscriber.validate after_db) after)

unfoldable pub dispatch :
    (refresh : Db → Result Db) → Db → List Subscriber → List Change → Result (List (List Delivery))
dispatch refresh db subscribers changes = list_servers db >>= λ before. refresh db >>= λ after_db.
    list_servers after_db >>= λ after.
    ok (map (deliver db after_db before after changes) subscribers)

abbrev changed_event : String → ℕ → Result Bool → List Delivery
changed_event id now (ok true) =
    sent (record { action = "changed"; server_id = id; time = now }) ∷ []
changed_event id now _ = []

abbrev changed_for : Db → String → ℕ → Option SessionUser → List Delivery
changed_for db id now none = closed "Authentication expired" ∷ []
changed_for db id now (some user) = changed_event id now (has db (some user) id server_view)

unfoldable pub changed : Db → List Subscriber → String → (now : ℕ) → List (List Delivery)
changed db subscribers id now =
    map (λ (s : Subscriber). changed_for db id now (s.validate db)) subscribers
