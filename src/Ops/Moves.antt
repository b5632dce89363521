-- ===== src/Ops/Moves.antt =====
-- internal/ops/ops.go: the moves of the runner and of its callers, in any order.
-- A call of Enqueue, a Progress of a running handler and every goroutine of the runner may come
-- next at any time; nothing else writes the table of operations.
use ludock.Common.{ℕ, String, false, Option, List, [], Result}
use ludock.Database.{Db}
use ludock.Ops.Job.{Json, Row, Job, Store, EnqueueOptions, Object}
use ludock.Ops.Queue.{enqueue, progress, committed_store}
use ludock.Ops.Runner.{World, Reply, Recovered, without}
use ludock.Ops.Filling.{look, fill, leave, stop}
use ludock.Ops.Turns.{start, execute, hold, wait, release_waiting, resume, give_up}
use ludock.Ops.Restart.{restart}

abbrev pub committed {ℓ} : {A : Type ℓ} → World → Result (Store × A) → World
committed w answer = record w { store = committed_store w.store answer }

-- Before any process has run.
abbrev pub idle_world : Db → World
idle_world db = record {
  store = record { operations = []; db = db };
  enabled = false;
  claimed = [];
  yielded = [];
  waiting = [];
  lifecycle_load = 0;
  data_load = 0;
  tasks = [];
  filling = [];
}

module _ {Recovery : Type 0} (json : Json Recovery) (digest : String → String) where
  pub data Step : World → World → Type 0 where
    enqueues :
        {w : World}
        → (o : EnqueueOptions) → (id : String) → (now : ℕ)
        → Step w (committed w (enqueue json digest w.store o id now))
    progresses :
        {w : World}
        → (job : Job Recovery) → (phase : String) → (change : Recovery → Recovery)
        → (result : Option Object) → (now : ℕ)
        → Step w (committed w (progress json w.store job phase change result now))
    looks : {w : World} → (ordered : List Row → List Row) → Step w (look ordered w)
    fills : {w : World} → Step w (fill json w)
    starts : {w : World} → (id : String) → (now : ℕ) → Step w (start id now w)
    executes :
        {w : World}
        → (reply : Reply) → (id : String) → (now : ℕ) → Step w (execute json reply id now w)
    holds : {w : World} → (id : String) → Step w (hold id w)
    waits : {w : World} → (id : String) → Step w (wait id w)
    releases : {w : World} → (id : String) → Step w (release_waiting id w)
    resumes : {w : World} → (id : String) → Step w (resume id w)
    locks : {w : World} → (id : String) → Step w (record w { yielded = without id w.yielded })
    gives_up : {w : World} → (id : String) → Step w (give_up id w)
    leaves : {w : World} → (id : String) → Step w (leave id w)
    stops : {w : World} → Step w (stop w)
    restarts :
        {w : World} → (outcome : Row → Recovered) → (now : ℕ) → Step w (restart json outcome now w)
    others : {w : World} → (db : Db) → Step w (record w { store = record w.store { db = db } })

  pub data Reachable : World → Type 0 where
    created : (db : Db) → Reachable (idle_world db)
    stepped : {w v : World} → Reachable w → Step w v → Reachable v
