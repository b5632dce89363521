-- ===== src/Locks.antt =====
-- internal/locks/locks.go: the table of keys that work holds.
-- The mutex makes each method one step. A holder, a channel and a `sync.Once` are numbers that the
-- table hands out; a background holder carries the number of its cancel callback. A lift runs once
-- for its fence, so that the count of fences is a natural number. The map of held keys is a list;
-- the order in which Go walks the map only orders the callbacks.
pub mod Exclusion
pub mod Release
use ludock.Common.{
  ℕ, Bool, true, false, not, Option, none, some, List, [], ◌∷◌, ◌++◌, ◌+◌, ◌-◌, ◌&&◌, ◌||◌, ◌==◌,
  Bytes, bytes_eq, nat_eq, nat_beq, ltb, codes, if◌then◌else◌, any, all, find, select, contains,
  is_empty,
}
use ludock.Paths.{clean, slash}

abbrev pub has_prefix : Bytes → Bytes → Bool
has_prefix key [] = true
has_prefix [] (b ∷ prefix) = false
has_prefix (c ∷ key) (b ∷ prefix) = nat_beq c b && has_prefix key prefix

abbrev pub path_prefix : Bytes
path_prefix = codes "path:"

abbrev skip : Bytes → Bytes → Bytes
skip key [] = key
skip [] (b ∷ prefix) = []
skip (c ∷ key) (b ∷ prefix) = skip key prefix

unfoldable pub normalize : Bytes → Bytes
unfolding clean
normalize key =
    if has_prefix key path_prefix then path_prefix ++ clean (slash ∷ skip key path_prefix) else key

unfoldable pub overlaps : Bytes → Bytes → Bool
overlaps left right =
    left == right
    || (has_prefix left path_prefix
        && has_prefix right path_prefix
        && (left == codes "path:/"
            || right == codes "path:/"
            || has_prefix left (right ++ slash ∷ [])
            || has_prefix right (left ++ slash ∷ [])))

pub record Holder : Type 0 where
  pub number : ℕ
  pub background : Option ℕ

pub record Entry : Type 0 where
  pub key : Bytes
  pub owner : Holder

-- `fired` are the `sync.Once` values that have run, `closed` the channels that are closed.
pub record Table : Type 0 where
  pub active : List Entry
  pub released : Option ℕ
  pub drained : List ℕ
  pub fences : ℕ
  pub fired : List ℕ
  pub closed : List ℕ
  pub next : ℕ

unfoldable pub new_table : Table
new_table = record {
  active = [];
  released = none;
  drained = [];
  fences = 0;
  fired = [];
  closed = [];
  next = 0;
}

-- Fence; the lift that it returns is known by the number of its Once.
unfoldable pub fence : Table → ℕ × Table
fence t = (t.next, record t { fences = t.fences + 1; next = t.next + 1 })

unfoldable pub lift : ℕ → Table → Table
lift once t =
    if contains t.fired once then t else record t { fences = t.fences - 1; fired = once ∷ t.fired }

-- What a successful acquire hands back: the keys that its release deletes.
pub record Ticket : Type 0 where
  pub owner : Holder
  pub ordered : List Bytes

pub data Acquired : Type 0 where
  acquired : Ticket → Acquired
  recovering conflict : Acquired
  background_conflict : List ℕ → Acquired

abbrev pub bytes_less : Bytes → Bytes → Bool
bytes_less left [] = false
bytes_less [] (b ∷ right) = true
bytes_less (a ∷ left) (b ∷ right) = ltb a b || (nat_beq a b && bytes_less left right)

abbrev pub insert_key : Bytes → List Bytes → List Bytes
insert_key key [] = key ∷ []
insert_key key (k ∷ keys) =
    let rest = insert_key key keys in if bytes_less k key then k ∷ rest else key ∷ k ∷ keys

-- The loop over `keys` with its `seen`, then `sort.Strings`.
unfoldable pub ordered_keys : List Bytes → List Bytes
ordered_keys [] = []
ordered_keys (key ∷ keys) =
    let rest = ordered_keys keys in
    let k = normalize key in if contains rest k then rest else insert_key k rest

abbrev pub blocks : List Bytes → Entry → Bool
blocks ordered held = any (λ key. overlaps key held.key) ordered

-- The loop over `t.active`; an owner is listed for each of its keys that is in the way.
abbrev pub conflicts : List Bytes → List Entry → List Entry
conflicts ordered active = select (blocks ordered) active

-- Foreground work in the way, or the callbacks of the background work that is.
abbrev pub refuse : List Entry → List ℕ → Acquired
refuse [] cancels = background_conflict cancels
refuse (e ∷ es) cancels = elim e.owner.background [
  | none ↦ conflict
  | some cancel ↦ refuse es (cancels ++ cancel ∷ [])
]

abbrev pub set_key : Holder → Bytes → List Entry → List Entry
set_key owner key active =
    (record { key = key; owner = owner }) ∷ select (λ e. not (e.key == key)) active

abbrev pub set_keys : Holder → List Bytes → List Entry → List Entry
set_keys owner [] active = active
set_keys owner (key ∷ keys) active = set_keys owner keys (set_key owner key active)

abbrev pub take_keys : List Bytes → Option ℕ → Table → Acquired × Table
take_keys ordered background t =
    let owner : Holder = record { number = t.next; background = background } in
    (
      acquired (record { owner = owner; ordered = ordered }),
      record t { active = set_keys owner ordered t.active; next = t.next + 1 },
    )

unfoldable pub acquire_keys : List Bytes → Option ℕ → Bool → Table → Acquired × Table
acquire_keys keys background recovery t =
    let ordered = ordered_keys keys in
    if ltb 0 t.fences && not recovery
    then (recovering, t)
    else if not (is_empty (conflicts ordered t.active))
    then (refuse (conflicts ordered t.active) [], t)
    else take_keys ordered background t

unfoldable pub acquire : List Bytes → Option ℕ → Table → Acquired × Table
acquire keys background t = acquire_keys keys background false t

unfoldable pub acquire_for_recovery : List Bytes → Table → Acquired × Table
acquire_for_recovery keys t = acquire_keys keys none true t

abbrev pub delete_keys : List Bytes → List Entry → List Entry
delete_keys ordered active = select (λ e. not (contains ordered e.key)) active

abbrev close : Option ℕ → List ℕ → List ℕ
close none closed = closed
close (some channel) closed = channel ∷ closed

-- The function that a successful acquire returns, its Once included.
unfoldable pub release : Ticket → Table → Table
release ticket t =
    let active = delete_keys ticket.ordered t.active in
    let closed = close t.released t.closed in
    let done : Table = record t {
      active = active;
      released = none;
      fired = ticket.owner.number ∷ t.fired;
      closed = if is_empty active then t.drained ++ closed else closed;
      drained = if is_empty active then [] else t.drained;
    } in
    if contains t.fired ticket.owner.number then t else done

unfoldable pub next_release : Table → ℕ × Table
next_release t = elim t.released [
  | some channel ↦ (channel, t)
  | none ↦ (t.next, record t { released = some t.next; next = t.next + 1 })
]

abbrev pub is_foreground : Entry → Bool
is_foreground e = elim e.owner.background [ none ↦ true | some cancel ↦ false ]

abbrev pub has_entry_key : Bytes → Entry → Bool
has_entry_key key e = e.key == key

unfoldable pub server_busy : Bytes → Table → Bool
server_busy id t = elim (find (has_entry_key (codes "server:" ++ id)) t.active) [
  | none ↦ false
  | some e ↦ is_foreground e
]

unfoldable pub drain : Table → ℕ × Table
drain t =
    if is_empty t.active
    then (t.next, record t { closed = t.next ∷ t.closed; next = t.next + 1 })
    else (t.next, record t { drained = t.drained ++ t.next ∷ []; next = t.next + 1 })

-- How a turn of AcquirePreempting's loop ends that met background work: the table when the release
-- that it waits for wakes it, or its deadline or context.
pub data Wait : Type 0 where
  woken : Table → Wait
  gave_up : Wait

-- What AcquirePreempting has done: the callbacks that it called, its result and the table.
pub record Preempted : Type 0 where
  pub cancelled : List ℕ
  pub result : Acquired
  pub table : Table

abbrev after : List ℕ → Option Preempted → Option Preempted
after cancels none = none
after cancels (some p) = some (record p { cancelled = cancels ++ p.cancelled })

abbrev turn : Acquired × Table → (List ℕ → Option Preempted) → Option Preempted
turn (background_conflict cancels, t) wait = wait cancels
turn (acquired ticket, t) wait =
    some (record { cancelled = []; result = acquired ticket; table = t })
turn (recovering, t) wait = some (record { cancelled = []; result = recovering; table = t })
turn (conflict, t) wait = some (record { cancelled = []; result = conflict; table = t })

-- AcquirePreempting over the waits of its loop; `none` is a wait that none of them ends.
unfoldable pub acquire_preempting : List Bytes → Option ℕ → Table → List Wait → Option Preempted
acquire_preempting keys background t [] =
    turn (acquire keys background (next_release t).1) (λ cancels. none)
acquire_preempting keys background t (gave_up ∷ waits) =
    let listening = (next_release t).1 in
    turn (acquire keys background listening)
      (λ cancels. some (record { cancelled = cancels; result = conflict; table = listening }))
acquire_preempting keys background t (woken later ∷ waits) =
    let rest = acquire_preempting keys background later waits in
    turn (acquire keys background (next_release t).1) (λ cancels. after cancels rest)
