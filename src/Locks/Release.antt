-- ===== src/Locks/Release.antt =====
-- internal/locks/locks.go: acquire takes every key or none, and release gives back just those.
use ludock.Common.{
  ℕ, Bool, true, false, not, Option, List, [], ◌∷◌, ◌≡◌, refl, sym, ◌∙◌, arith, ◌&&◌, ◌||◌, ◌==◌,
  Bytes, bytes_eq, nat_eq, any, all, select, contains, is_empty, Bool-cases, Option-cases, ◌++◌,
  bytes_beq_iff, inl, inr, ltb, ==_refl, subst, all_of,
}
use ludock.Locks.{
  Holder, Entry, Table, Ticket, Acquired, acquired, overlaps, blocks, conflicts, set_key, set_keys,
  recovering, acquire_keys, release, ordered_keys, delete_keys, refuse, conflict,
  background_conflict, take_keys,
}

abbrev pub is_acquired : Acquired → Bool
is_acquired (acquired ticket) = true
is_acquired recovering = false
is_acquired conflict = false
is_acquired (background_conflict cancels) = false

refuse-is_acquired : (es : List Entry) (cancels : List ℕ) → is_acquired (refuse es cancels) ≡ false
refuse-is_acquired [] cancels = refl
refuse-is_acquired (e ∷ es) cancels = elim (Option-cases e.owner.background) [
  | inl foreground ↦ rw foreground refl
  | inr (cancel, background) ↦ rw background (refuse-is_acquired es (cancels ++ cancel ∷ []))
]

-- No key of the one list overlaps a key of the other.
abbrev pub free_keys : List Bytes → List Entry → Bool
free_keys keys active = all (λ e. not (blocks keys e)) active

free_keys-eq-conflicts :
    (keys : List Bytes) (active : List Entry)
    → is_empty (conflicts keys active) ≡ free_keys keys active
free_keys-eq-conflicts keys [] = refl
free_keys-eq-conflicts keys (e ∷ es) = ground (arith, free_keys-eq-conflicts keys es)

-- Acquire takes its keys exactly where none of them overlaps a key that is held, and no fence
-- stands or it is recovery.
pub acquire_keys-all_or_none :
    (keys : List Bytes) (background : Option ℕ) (recovery : Bool) (t : Table)
    → is_acquired (acquire_keys keys background recovery t).0
      ≡ ((not (ltb 0 t.fences) || recovery) && free_keys (ordered_keys keys) t.active)
unfolding acquire_keys
acquire_keys-all_or_none keys background recovery t = ground (
  arith,
  free_keys-eq-conflicts (ordered_keys keys) t.active,
  refuse-is_acquired (conflicts (ordered_keys keys) t.active) [],
)

-- An acquire that is refused leaves the table as it was.
pub acquire_keys-refused :
    (keys : List Bytes) (background : Option ℕ) (recovery : Bool) (t : Table)
    → is_acquired (acquire_keys keys background recovery t).0 ≡ false
    → (acquire_keys keys background recovery t).1 ≡ t
unfolding acquire_keys
acquire_keys-refused keys background recovery t h = ground arith

delete_keys-set_key :
    (ordered : List Bytes) (key : Bytes) (active : List Entry)
    → contains ordered key ≡ true
    → delete_keys ordered (select (λ e. not (e.key == key)) active) ≡ delete_keys ordered active
delete_keys-set_key ordered key [] h = refl
delete_keys-set_key ordered key (e ∷ es) h = elim (Bool-cases (e.key == key)) [
  | inl same ↦
      let held =
        subst (λ k. contains ordered k ≡ true) (sym ((bytes_beq_iff e.key key).0 same)) h in
      rw (same, held) (delete_keys-set_key ordered key es h)
  | inr other ↦ rw other (ground (arith, delete_keys-set_key ordered key es))
]

delete_keys-set_keys :
    (ordered : List Bytes) (owner : Holder) (keys : List Bytes) (active : List Entry)
    → all (contains ordered) keys ≡ true
    → delete_keys ordered (set_keys owner keys active) ≡ delete_keys ordered active
delete_keys-set_keys ordered owner [] active h = refl
delete_keys-set_keys ordered owner (key ∷ keys) active h =
    let held : contains ordered key ≡ true = ground arith in
    delete_keys-set_keys ordered owner keys (set_key owner key active) (ground arith)
    ∙ rw held (delete_keys-set_key ordered key active held)

overlaps_itself :
    (keys : List Bytes) (key : Bytes)
    → contains keys key ≡ true
    → any (λ k. overlaps k key) keys ≡ true
unfolding overlaps
overlaps_itself [] key h = cc
overlaps_itself (k ∷ keys) key h = ground (arith, overlaps_itself keys key)

delete_keys-free :
    (ordered : List Bytes) (active : List Entry)
    → free_keys ordered active ≡ true
    → delete_keys ordered active ≡ active
delete_keys-free ordered [] h = refl
delete_keys-free ordered (e ∷ es) h =
    ground (arith, overlaps_itself ordered e.key, delete_keys-free ordered es)

taken :
    (keys : List Bytes) (background : Option ℕ) (recovery : Bool) (t t' : Table) (ticket : Ticket)
    → acquire_keys keys background recovery t ≡ (acquired ticket, t')
    → (free_keys (ordered_keys keys) t.active ≡ true)
      × ((acquired ticket, t') ≡ take_keys (ordered_keys keys) background t)
unfolding acquire_keys
taken keys background recovery t t' ticket h = ground (
  arith,
  free_keys-eq-conflicts (ordered_keys keys) t.active,
  refuse-is_acquired (conflicts (ordered_keys keys) t.active) [],
)

release_once : (ticket : Ticket) (t : Table) → release ticket (release ticket t) ≡ release ticket t
unfolding release
release_once ticket t = elim (Bool-cases (contains t.fired ticket.owner.number)) [
  | inl fired ↦ rw fired (rw fired refl)
  | inr pending ↦ rw pending (rw (==_refl ticket.owner.number) refl)
]

release-active :
    (ticket : Ticket) (t : Table)
    → contains t.fired ticket.owner.number ≡ false
    → (release ticket t).active ≡ delete_keys ticket.ordered t.active
unfolding release
release-active ticket t h = rw h refl

-- Where the acquire's Once has not run, a release undoes the acquire that returned it: the entries
-- held are those of before, in place; and a second call of the same release does nothing.
pub release-acquire_keys :
    (keys : List Bytes) (background : Option ℕ) (recovery : Bool) (t t' : Table) (ticket : Ticket)
    → acquire_keys keys background recovery t ≡ (acquired ticket, t')
    → contains t.fired t.next ≡ false
    → ((release ticket t').active ≡ t.active)
      × (release ticket (release ticket t') ≡ release ticket t')
release-acquire_keys keys background recovery t t' ticket h fresh =
    let ordered = ordered_keys keys in
    let owner : Holder = record { number = t.next; background = background } in
    let (free, e) = taken keys background recovery t t' ticket h in
    let same : ticket ≡ record { owner = owner; ordered = ordered } = ground arith in
    let held : t'.active ≡ set_keys owner ordered t.active = ground arith in
    let unfired : t'.fired ≡ t.fired = ground arith in
    (
      release-active ticket t' (rw (same, unfired) fresh)
          ∙ rw (same, held)
              (delete_keys-set_keys ordered owner ordered t.active
                  (all_of (contains ordered) ordered (λ k m. m))
                ∙ delete_keys-free ordered t.active free),
      release_once ticket t',
    )
