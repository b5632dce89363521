-- ===== src/Examples/Schedules.antt =====
-- The theorems on schedules (internal/schedules) at concrete inputs.
use ludock.Common.{
  ℕ, ◌+◌, ◌*◌, ◌≡◌, refl, ap, true, false, none, some, [], ◌∷◌, ok, err, codes, ◌==◌, string_eq,
  nat_eq, if◌then◌else◌, All, find,
}
use ludock.Database.{Db}
use ludock.Ops.Job as Job
use ludock.Examples.Access.{db, server, s1}
use ludock.Schedtime.Clock.{
  Slot, Offset, valid_clock, clock_slot, local_clock, Zones, west, day, hour, minute, slot_beq,
}
use ludock.Schedules.Settings.{Settings, clock, clock_time, capabilities, validate}
use ludock.Schedules.Authority.{Row, authority, check_grant, check_binding, has_each}
use ludock.Schedules.Authorized.{attempt-Holds}
use ludock.Schedtime.Next as Next
use ludock.Schedules.Once.{decided, run_one-once}
use ludock.Schedules.Saved.{validate-valid_clock}
use ludock.Ops.Queue.{enqueue, answer_request, insert_operation}
use ludock.Accounts.{SessionUser, write_audit, find_user_by_id}
use ludock.Identity.{get, resolve_binding}
use ludock.Observation.{valid_id, valid_container_id}
use ludock.Authz.{
  parse_capabilities, has, access, assigned, effective, role_capabilities, role_ceiling, usable,
}
use ludock.Ops.Job.{job_of}
use ludock.Schedules.State.{authority_state, same_state, user_states}
use ludock.Authz.Access.{Holds}
use ludock.Schedules.Run.{
  set_queued, request, start, queue_run, parse_saved, one_time_completed, Library, Store, Turn,
  attempt, queued, at_revision,
}
use ludock.Schedules.Recording.{run_one, settle}

abbrev zones : Zones
zones = record {
  offset_at = λ name. some (λ t. west (5 * hour));
  timezone_bytes = λ name. 16;
  day_of_date = λ date. none;
}

-- Every Sunday at half past one, after a backup.
abbrev nightly : Settings
nightly = record {
  kind = "recurring";
  action = "restart";
  announcements = none;
  create_backup = true;
  enabled = true;
  time = "01:30";
  timezone = "America/New_York";
  days = some (0 ∷ []);
  date = "";
}

abbrev lib : Library (Unit {0})
lib = record {
  decode = λ raw. if raw == "nightly" then some nightly else none;
  zones = zones;
  slot_text = λ slot. "slot";
  revision_text = λ n. "1";
  digest = λ text. text;
  json = record {
    parse_object = λ raw. some [];
    object_text = λ object. "{}";
    parse_recovery = λ raw. some tt;
    recovery_text = λ recovery. some "{}";
  };
}

abbrev world : Db
world = record db {
  server_grants =
      (record {
        user_id = "bob";
        server_id = s1;
        capabilities = some (
            some "server.view"
            ∷ some "schedules.manage"
            ∷ some "server.restart"
            ∷ some "backups.create"
            ∷ []);
        updated_at = 1;
      })
      ∷ [];
  logical_servers = record server { container_id = codes "0123456789ab" } ∷ [];
  server_bindings =
      (record {
        server_id = s1;
        binding_revision = 1;
        container_id = codes "0123456789ab";
        binding_fingerprint = "f0";
        observed_at = 1;
        accepted = true;
      })
      ∷ [];
}

abbrev row : Row
row = record {
  id = "sched";
  server_id = s1;
  owner_id = "bob";
  input = "nightly";
  binding_revision = 1;
  revision = 1;
  last_slot = none;
  last_result = none;
  last_operation_id = none;
  last_run_at = none;
  created_at = 1;
}

abbrev store : Store
store = record { schedules = row ∷ []; operations = record { operations = []; db = world } }

abbrev turn : Turn
turn = record {
  now = 14 * day + 6 * hour + 30 * minute;
  operation_id = "op";
  queued_at = 14 * day + 6 * hour + 30 * minute;
  before_check = λ s. s;
  before_queue = λ s. s;
  before_record = λ s. s;
}

abbrev slot : Slot
slot = record { day_number = 14; time = 90; timezone = "America/New_York" }

abbrev after_queue : Job.Store
unfolding enqueue answer_request insert_operation write_audit
after_queue =
    elim (enqueue lib.json lib.digest store.operations (request lib row nightly slot "bob" 1) "op"
      turn.queued_at) [ err e ↦ store.operations | ok (operations, job) ↦ operations ]

abbrev noted : Row
noted = set_queued slot turn.now "op" row

abbrev after : Store
after = record { schedules = noted ∷ []; operations = after_queue }

-- A week later, with no operation left.
abbrev next_week : Turn
next_week = record turn {
  now = 21 * day + 6 * hour + 30 * minute;
  queued_at = 21 * day + 6 * hour + 30 * minute;
}

abbrev next_slot : Slot
next_slot = record slot { day_number = 21 }

abbrev after_next : Store
unfolding enqueue answer_request insert_operation write_audit
after_next =
    elim (enqueue lib.json lib.digest store.operations (request lib noted nightly next_slot "bob" 1)
      "op" next_week.queued_at) [
        | err e ↦ store
        | ok (operations, job) ↦ record {
          schedules = set_queued next_slot next_week.now "op" noted ∷ [];
          operations = operations;
        }
      ]

queues : attempt lib store row turn ≡ queued slot after
unfolding attempt start queue_run parse_saved validate clock clock_time one_time_completed Next.slot
    valid_clock clock_slot local_clock authority find_user_by_id check_grant parse_capabilities
    capabilities check_binding get valid_id valid_container_id resolve_binding has_each has
    write_audit access assigned effective role_capabilities role_ceiling usable job_of
    answer_request enqueue insert_operation authority_state same_state user_states
queues = refl

queues_next : attempt lib store noted next_week ≡ queued next_slot after_next
unfolding attempt start queue_run parse_saved validate clock clock_time one_time_completed Next.slot
    valid_clock clock_slot local_clock authority find_user_by_id check_grant parse_capabilities
    capabilities check_binding get valid_id valid_container_id resolve_binding has_each has
    write_audit access assigned effective role_capabilities role_ceiling usable job_of
    answer_request enqueue insert_operation authority_state same_state user_states
queues_next = refl

attempt-Holds_example :
    (s : Settings) × (actor : SessionUser) × (parse_saved lib row.input ≡ ok s)
    × (actor.id ≡ "bob")
    × All (Holds world actor s1) ("schedules.manage" ∷ capabilities s)
attempt-Holds_example = attempt-Holds lib store row turn slot after queues refl

run_one-once_example : (noted.last_slot ≡ some slot) × (slot_beq next_slot slot ≡ false)
unfolding run_one
run_one-once_example =
    run_one-once lib store store row noted noted turn next_week slot next_slot after_next
      (ap decided queues)
      (ap (λ a. find (at_revision row) (settle lib store row turn a).0.schedules) queues) refl
      queues_next

validate-valid_clock_example :
    (zone : ℕ → Offset) × (time : ℕ) × (valid_clock zones (clock nightly) turn.now
      ≡ some (zone, time))
unfolding validate clock_time
validate-valid_clock_example = validate-valid_clock zones nightly nightly turn.now refl refl refl
