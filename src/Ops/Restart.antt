-- ===== src/Ops/Restart.antt =====
-- internal/ops/ops.go: Start, with the recovery of what a stopped process left, and the moves of
-- the runner as a relation.
use ludock.Common.{ℕ, String, Bool, true, false, Option, none, some, List, [], ◌∷◌, select, ok, err}
use ludock.Ops.Job.{interrupted, Json, Row, Job, Store, is_running, job_of}
use ludock.Ops.Queue.{finish, result_text}
use ludock.Ops.Runner.{World, Recovered, cancelled, unrecovered, recovered}

abbrev pub attention : String
attention =
    "Recovery requires administrator attention. The server has been left stopped where possible."

abbrev pub restarted : String
restarted = "Ludock restarted during this operation. Review the server state before retrying."

module _ {Recovery : Type 0} (json : Json Recovery) where
  -- The outcome of a handler's Recover, where it has one and the saved state can be read.
  unfoldable pub recovery_of :
      (handlers : String → Option (Job Recovery → Recovered)) → Row → Recovered
  recovery_of handlers r = elim (job_of json r) [
    | err e ↦ unrecovered
    | ok job ↦ elim (handlers job.kind) [ none ↦ recovered none | some recover ↦ recover job ]
  ]

  -- What is saved of a recovery; nothing is where it was cut off.
  unfoldable pub recover_row : Recovered → Row → (now : ℕ) → Store → Option Store
  recover_row cancelled r now store = none
  recover_row unrecovered r now store = some (finish r interrupted none attention now store)
  recover_row (recovered result) r now store =
      some (finish r interrupted (result_text json result) restarted now store)

  -- The rows that were running, in the order read; on an error the rest stays running.
  unfoldable pub recover_rows : (Row → Recovered) → (now : ℕ) → List Row → Store → Store × Bool
  recover_rows outcome now [] store = (store, true)
  recover_rows outcome now (r ∷ rs) store = elim (recover_row (outcome r) r now store) [
    | none ↦ (store, false)
    | some saved ↦ recover_rows outcome now rs saved
  ]

  unfoldable pub recover_interrupted : (Row → Recovered) → (now : ℕ) → Store → Store × Bool
  recover_interrupted outcome now store =
      recover_rows outcome now (select (λ r. is_running r.status) store.operations) store

  -- Start in a process that runs no task: a new one, or one whose Stop has returned.
  unfoldable pub restart : (Row → Recovered) → (now : ℕ) → World → World
  restart outcome now w =
      let (store, done) = recover_interrupted outcome now w.store in
      record {
        store = store;
        enabled = done;
        claimed = [];
        yielded = [];
        waiting = [];
        lifecycle_load = 0;
        data_load = 0;
        tasks = [];
        filling = [];
      }
