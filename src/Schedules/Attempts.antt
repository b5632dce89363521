-- ===== src/Schedules/Attempts.antt =====
-- internal/schedules: what a run that queues has passed, step by step.
use ludock.Common.{
  result_cases, ℕ, Bool, true, false, Option, none, some, [], ◌∷◌, ◌≡◌, refl, sym, ap, ◌∙◌, arith,
  string_eq, any, inl, inr, ◌≢◌, ok, Option-cases, if◌then◌else◌,
}
use ludock.Database.{update_where, Server}
use ludock.Accounts.{SessionUser}
use ludock.Ops.Job as Job
use ludock.Ops.Queue.{enqueue}
use ludock.Schedtime.Clock.{Slot, is_slot}
use ludock.Schedtime.Next as Next
use ludock.Schedules.Settings.{Settings, clock}
use ludock.Schedules.Authority.{
  Row, Failure, Checked, failed, passed, call, authority, schedule_changed, access_changed,
}
use ludock.Schedules.State.{authority_state, same_state, assert_unchanged}
use ludock.Schedules.Owners.{>>=-passed, call-passed, require-passed}
use ludock.Schedules.Run.{
  Library, Store, Turn, idle, queued, database, at_revision, set_queued, request, queue_run, start,
  attempt, evaluate, parse_saved, marked, on_slot, attempted, ahead_or_missed, configured,
}

if_passed :
    {A : Type 0} (b : Bool) (a : A) (f : Failure) {c : A}
    → (if b then passed a else failed f) ≡ passed c
    → a ≡ c
if_passed true a f h = cc
if_passed false a f h = cc

fresh_queued :
    {Recovery : Type 0} (lib : Library Recovery) (b : Bool) (x : Slot) (c : Checked Store)
    {slot : Slot} {store : Store}
    → (if b then idle else attempted lib x c) ≡ queued slot store
    → (b ≡ false) × (x ≡ slot) × (c ≡ passed store)
fresh_queued lib true x c h = cc
fresh_queued lib false x (failed f) h = cc
fresh_queued lib false x (passed store) h = (refl, cc, cc)

module _ {Recovery : Type 0} (lib : Library Recovery) where
  -- The run of schedule row `r` queued at `slot`.
  pub record Queued (store : Store) (r : Row) (turn : Turn) (slot : Slot) (store' : Store)
      : Type 0 where
    pub settings : Settings
    pub actor : SessionUser
    pub binding : Server
    pub job : Job.Job Recovery
    pub read : parse_saved lib r.input ≡ ok settings
    pub enabled : settings.enabled ≡ true
    pub due : Next.slot lib.zones (clock settings) turn.now ≡ some slot
    pub fresh : is_slot slot r.last_slot ≡ false
    pub allowed :
        authority
          (database (turn.before_check store))
          r.server_id
          r.owner_id
          r.binding_revision
          settings
        ≡ passed (actor, binding)
    pub unchanged :
        same_state (authority_state (database store) r.server_id (r.owner_id ∷ [])) (
          authority_state
            (database (turn.before_queue (turn.before_check store)))
            r.server_id
            (r.owner_id ∷ []))
        ≡ true
    pub enqueued :
        enqueue lib.json lib.digest
          (turn.before_queue (turn.before_check store)).operations
          (request lib r settings slot actor.id binding.binding_revision)
          turn.operation_id
          turn.queued_at
        ≡ ok (store'.operations, job)
    pub noted :
        store'.schedules
        ≡ update_where
            (at_revision r)
            (set_queued slot turn.now job.id)
            (turn.before_queue (turn.before_check store)).schedules

  marked-passed :
      (store : Store) (r : Row) (slot : Slot) (now : ℕ) (operations : Job.Store)
      (job : Job.Job Recovery) (store' : Store)
      → marked lib store r slot now (operations, job) ≡ passed store'
      → (operations ≡ store'.operations)
        × (update_where (at_revision r) (set_queued slot now job.id) store.schedules
            ≡ store'.schedules)
  marked-passed store r slot now operations job store' h =
      let same = if_passed (any (at_revision r) store.schedules) _ schedule_changed h in
      (ap (λ (s : Store). s.operations) same, ap (λ (s : Store). s.schedules) same)

  on_slot-queued :
      (store : Store) (r : Row) (s : Settings) (turn : Turn) (o : Option Slot) (slot : Slot)
      (store' : Store)
      → on_slot lib store r s turn o ≡ queued slot store'
      → (o ≡ some slot)
        × (is_slot slot r.last_slot ≡ false)
        × (start lib store r s slot turn ≡ passed store')
  on_slot-queued store r s turn none slot store' h = ground arith
  on_slot-queued store r s turn (some x) slot store' h =
      let (new, same, started) =
        fresh_queued lib (is_slot x r.last_slot) x (start lib store r s x turn) h in
      (
        ap some same,
        ap (λ y. is_slot y r.last_slot) (sym same) ∙ new,
        ap (λ y. start lib store r s y turn) (sym same) ∙ started,
      )

  missed-unqueued :
      (s : Settings) (now : ℕ) (run_at : Option ℕ) (slot : Slot) (store : Store)
      → ahead_or_missed lib s now run_at ≢ queued slot store
  missed-unqueued s now none slot store h = ground arith
  missed-unqueued s now (some run_at) slot store h = ground arith

  evaluate-queued :
      (store : Store) (r : Row) (turn : Turn) (s : Settings) (slot : Slot) (store' : Store)
      → evaluate lib store r turn s ≡ queued slot store'
      → (s.enabled ≡ true)
        × (Next.slot lib.zones (clock s) turn.now ≡ some slot)
        × (is_slot slot r.last_slot ≡ false)
        × (start lib store r s slot turn ≡ passed store')
  evaluate-queued store r turn s slot store' h =
      elim (Option-cases (Next.slot lib.zones (clock s) turn.now)) [
        | inl nothing ↦ ground (
          arith,
          nothing,
          h,
          missed-unqueued s turn.now (Next.one_time_run lib.zones (clock s)) slot store',
        )
        | inr (x, due) ↦
            let on = on_slot-queued store r s turn (some x) slot store' (ground (arith, due, h)) in
            (ground (arith, due, h), due ∙ on.0, on.1, on.2)
      ]

  -- An attempt queues only by the way that Queued tells.
  pub attempt-Queued :
      (store : Store) (r : Row) (turn : Turn) (slot : Slot) (store' : Store)
      → attempt lib store r turn ≡ queued slot store'
      → Queued store r turn slot store'
  unfolding attempt start queue_run
  attempt-Queued store r turn slot store' h = elim (result_cases (parse_saved lib r.input)) [
    | inl (e, damaged) ↦ ground (arith, damaged, h)
    | inr (s, read) ↦
        let run = ap (configured lib store r turn) (sym read) ∙ h in
        let (enabled, due, fresh, started) = evaluate-queued store r turn s slot store' run in
        let checked = turn.before_check store in
        let now_store = turn.before_queue checked in
        let ((actor, binding), allowed, h1) =
          >>=-passed (authority (database checked) r.server_id r.owner_id r.binding_revision s) _
            started in
        let state = authority_state (database store) r.server_id (r.owner_id ∷ []) in
        let (same, unchanged, h2) =
          >>=-passed (assert_unchanged state (database now_store) r.server_id (r.owner_id ∷ [])) _
            h1 in
        let ((operations, job), asked, h3) =
          >>=-passed
            (call (
              enqueue lib.json lib.digest now_store.operations
                (request lib r s slot actor.id binding.binding_revision) turn.operation_id
                turn.queued_at))
            _ h2 in
        let (kept, noted) = marked-passed now_store r slot turn.now operations job store' h3 in
        record {
          settings = s;
          actor = actor;
          binding = binding;
          job = job;
          read = read;
          enabled = enabled;
          due = due;
          fresh = fresh;
          allowed = allowed;
          unchanged = require-passed _ access_changed unchanged;
          enqueued = call-passed _ asked ∙ ap (λ o. ok (o, job)) kept;
          noted = sym noted;
        }
  ]
