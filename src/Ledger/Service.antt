-- ===== src/Ledger/Service.antt =====
-- services/ledger/service.py: the consumer, the semaphore and the retry promoter. The loops run as
-- coroutines, so their rounds interleave in any order. A job ends in one step: `finish` where no
-- other job has changed the rows between its reads and its writes and COMMIT succeeds, `finish_late`
-- in every other case. A pop that times out changes nothing.
pub mod Safe
pub mod Weights
pub mod Ends
use crypto_pay_system.Prelude.{ℕ, ◌<◌, ◌≡◌, List, [], ◌∷◌, ◌++◌, length, Option, some}
use crypto_pay_system.Prelude.Exec.{Result}
use crypto_pay_system.Models.{Settings, Db}
use crypto_pay_system.Ledger.Queue.{LedgerJob, Payload, Queues, lpush, pop, promote_due_retries}
use crypto_pay_system.Ledger.Processor.{Env, World, process}
use crypto_pay_system.Ledger.Processor.Late.{late_process}

-- The tasks of `_dispatch`: those that wait for the semaphore, first come first served, and those
-- that hold it.
pub record LedgerService : Type 0 where
  pub world : World
  pub waiting : List LedgerJob
  pub running : List LedgerJob

-- `_consume_loop` after a pop that left the queues `q`: the job gets a task.
abbrev pub consumed : LedgerJob → Queues → LedgerService → LedgerService
consumed job q s = record s {
  world = record s.world { queues = q };
  waiting = s.waiting ++ job ∷ [];
}

-- `async with self._sem` of `_dispatch`
abbrev pub started : LedgerJob → List LedgerJob → LedgerService → LedgerService
started job rest s = record s { waiting = rest; running = s.running ++ job ∷ [] }

-- The rest of `_dispatch`: what `process` raises is logged, and the semaphore is released.
abbrev pub finished :
    Env → List LedgerJob → LedgerJob → List LedgerJob → LedgerService → LedgerService
finished env before job after s = record s {
  world = (process env job s.world).1;
  running = before ++ after;
}

-- the same for a job that has read the database `old`, and a COMMIT that answers `commit`
abbrev pub finished_late :
    Result (Unit {0})
    → Env
    → Db
    → List LedgerJob
    → LedgerJob
    → List LedgerJob
    → LedgerService
    → LedgerService
finished_late commit env old before job after s = record s {
  world = (late_process commit env job old s.world).1;
  running = before ++ after;
}

-- a round of `_promoter_loop` at the time `now`
unfoldable pub promoted : ℕ → LedgerService → LedgerService
promoted now s = record s {
  world = record s.world { queues = (promote_due_retries now s.world.queues).1 };
}

-- the Watcher's LPUSH
abbrev pub arrived : Payload → LedgerService → LedgerService
arrived p s = record s { world = record s.world { queues = lpush p s.world.queues } }

-- The steps that move a job. The environment chooses what the provider and the clock say.
pub data Work (settings : Settings) : LedgerService → LedgerService → Type 0 where
  consume :
      (s : LedgerService) (job : LedgerJob) (q : Queues)
      → pop s.world.queues ≡ (some job, q)
      → Work settings s (consumed job q s)
  start :
      (s : LedgerService) (job : LedgerJob) (rest : List LedgerJob)
      → s.waiting ≡ job ∷ rest
      → length s.running < settings.ledger_concurrency
      → Work settings s (started job rest s)
  finish :
      (s : LedgerService) (env : Env) (before : List LedgerJob) (job : LedgerJob)
      (after : List LedgerJob)
      → env.settings ≡ settings
      → s.running ≡ before ++ job ∷ after
      → Work settings s (finished env before job after s)
  -- The job has read `old` at some time before: nothing is asked of it, so that it covers whatever
  -- other jobs and requests have written since.
  finish_late :
      (s : LedgerService) (env : Env) (before : List LedgerJob) (job : LedgerJob)
      (after : List LedgerJob) (commit : Result (Unit {0})) (old : Db)
      → env.settings ≡ settings
      → s.running ≡ before ++ job ∷ after
      → Work settings s (finished_late commit env old before job after s)
  promote :
      (s : LedgerService) (now : ℕ)
      → 0 < (promote_due_retries now s.world.queues).0
      → Work settings s (promoted now s)

pub data Step (settings : Settings) : LedgerService → LedgerService → Type 0 where
  work : {s t : LedgerService} → Work settings s t → Step settings s t
  arrive : (s : LedgerService) (p : Payload) → Step settings s (arrived p s)

pub data Reach (settings : Settings) (s : LedgerService) : LedgerService → Type 0 where
  here : Reach settings s s
  next : {t u : LedgerService} → Reach settings s t → Step settings t u → Reach settings s u
