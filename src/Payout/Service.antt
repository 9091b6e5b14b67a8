-- ===== src/Payout/Service.antt =====
-- The background tasks of services/payout/router.py: each runs `execute` of
-- services/payout/processor.py for one payout, and they run beside each other and beside the ledger
-- service, on one database. What is between two awaits of a transaction is one step: a committed or
-- rolled back transaction, the building of the transaction, or the broadcast.
pub mod Others
pub mod Sound
pub mod Final
pub mod Twice
pub mod Frame
use crypto_pay_system.Prelude.{ℕ, ◌≡◌, ◌≢◌, Bool, true, false, List, [], ◌∷◌, ◌++◌, All}
use crypto_pay_system.Prelude.Exec.{Exn, Result, ok, err, bind, atomically}
use crypto_pay_system.Prelude.Rows.{select}
use crypto_pay_system.Prelude.Text.{Text}
use crypto_pay_system.Models.{Merchant, Payout, Db, Settings}
use crypto_pay_system.Providers.Registry.{Registry}
use crypto_pay_system.Ledger.Queue.{LedgerJob, Queues}
use crypto_pay_system.Ledger.Processor
use crypto_pay_system.Ledger.Processor.Late.{late_process}
use crypto_pay_system.Payout.Selector.{SelectedUtxo}
use crypto_pay_system.Payout.Signing.{Signed, create_payout_transaction}
use crypto_pay_system.Payout.Processor.{Env, is_payout, prepare, persist, finalise, mark_failed}
use crypto_pay_system.Api.Payouts.{PayoutCreateRequest, PayoutKeys, create_payout}

-- where `_run` stands
pub data Stage : Type 0 where
  created : Stage
  prepared : Payout → List SelectedUtxo → Stage
  signed : List SelectedUtxo → Signed → Stage
  persisted : List SelectedUtxo → Signed → Stage
  broadcasted : Text → List SelectedUtxo → Signed → Stage
  -- an exception was caught, and `_mark_failed` is next
  failing : Text → Stage
  done : Stage

abbrev pub is_done : Stage → Bool
is_done done = true
is_done _ = false

-- Step 2 of `_run`
pub build : Env → Payout → List SelectedUtxo → Result Signed
build env payout selected = bind env.btc_provider (λ _. bind env.change_address (λ change_address.
    create_payout_transaction env.sign env.settings selected payout.destination_address
      payout.amount_requested change_address env.fee_rate))

module _ {A : Type 0} where
  -- what the result of a step leads to
  abbrev pub follow : Env → (A → Stage) → Result A → Stage
  follow env k (ok a) = k a
  follow env k (err e) = failing (env.message e)

  abbrev pub transact : Env → (A → Stage) → Result A × Db → Stage × Db
  transact env k (r, db) = (follow env k r, db)

-- one step of `execute`
unfoldable pub next_stage : Env → ℕ → Stage → Db → Stage × Db
unfolding build
next_stage env id created db = transact env (λ p. prepared p.0 p.1) (atomically (prepare env id) db)
next_stage env id (prepared payout selected) db =
    (follow env (signed selected) (build env payout selected), db)
next_stage env id (signed selected tx) db =
    transact env (λ _. persisted selected tx) (atomically (persist id tx) db)
next_stage env id (persisted selected tx) db =
    (follow env (λ txid. broadcasted txid selected tx) (env.broadcast tx.raw_hex), db)
next_stage env id (broadcasted txid selected tx) db =
    transact env (λ _. done) (atomically (finalise env id txid selected tx) db)
next_stage env id (failing reason) db = (done, mark_failed id reason db)
next_stage env id done db = (done, db)

-- a task of `background_tasks.add_task(_process_payout, payout.id)`, with what its calls will answer
pub record PayoutTask : Type 0 where
  pub env : Env
  pub payout_id : ℕ
  pub stage : Stage

pub record PayoutService : Type 0 where
  pub db : Db
  pub tasks : List PayoutTask

abbrev pub new_task : Env → ℕ → PayoutTask
new_task env payout_id = record { env = env; payout_id = payout_id; stage = created }

-- `create_payout` after its commit: the payout gets a task.
abbrev pub requested : Env → ℕ → Db → PayoutService → PayoutService
requested env payout_id db s = record { db = db; tasks = s.tasks ++ new_task env payout_id ∷ [] }

unfoldable pub resumed : List PayoutTask → PayoutTask → List PayoutTask → Db → PayoutService
resumed before t after db =
    let (stage, db') = next_stage t.env t.payout_id t.stage db in
    record { db = db'; tasks = before ++ record t { stage = stage } ∷ after }

-- The steps of the tasks, in any order, with the requests that add tasks and the jobs that the
-- ledger service processes meanwhile. The tasks are in memory only: a restart loses them.
pub data Step (strip : Text → Text) : PayoutService → PayoutService → Type 0 where
  request :
      (s : PayoutService) (env : Env) (settings : Settings) (registry : Registry)
      (keys : PayoutKeys) (merchant : Merchant) (r : PayoutCreateRequest) (p : Payout) (db : Db)
      → select (is_payout keys.payout_id) s.db.payouts ≡ []
      → All (λ t. t.payout_id ≢ keys.payout_id) s.tasks
      → create_payout strip settings registry keys merchant r s.db ≡ (ok p, db)
      → Step strip s (requested env keys.payout_id db s)
  resume :
      (s : PayoutService) (before : List PayoutTask) (t : PayoutTask) (after : List PayoutTask)
      → s.tasks ≡ before ++ t ∷ after
      → Step strip s (resumed before t after s.db)
  ledger :
      (s : PayoutService) (env : Processor.Env) (job : LedgerJob) (q : Queues)
      → Step strip s
          (record s { db = (Processor.process env job (record { db = s.db; queues = q })).1.db })
  ledger_late :
      (s : PayoutService) (env : Processor.Env) (job : LedgerJob) (q : Queues)
      (commit : Result (Unit {0})) (old : Db)
      → Step strip s (record s {
        db = (late_process commit env job old (record { db = s.db; queues = q })).1.db;
      })
  restart : (s : PayoutService) → Step strip s (record s { tasks = [] })

pub data Reach (strip : Text → Text) (s : PayoutService) : PayoutService → Type 0 where
  here : Reach strip s s
  next : {t u : PayoutService} → Reach strip s t → Step strip t u → Reach strip s u
