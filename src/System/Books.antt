-- ===== src/System/Books.antt =====
-- The books of the whole system.
use crypto_pay_system.Prelude.{◌≤◌, Bool, List, [], ◌∷◌, ◌++◌, length, arith}
use crypto_pay_system.Prelude.Text.{Text}
use crypto_pay_system.Models.{Settings, Invoice, Db}
use crypto_pay_system.Ledger.Service.{
  LedgerService, Work, consume, start, finish, finish_late, promote, promoted,
}
use crypto_pay_system.Ledger.Service.Safe.{Work-IsSafe}
use crypto_pay_system.Payout.Service
use crypto_pay_system.Payout.Service.{PayoutTask}
use crypto_pay_system.Payout.Service.Sound.{IsSound, Step-IsSound}
use crypto_pay_system.Watcher.Decoder.{Bytes}
use crypto_pay_system.Invoicing.Indices.{create_inv}
use crypto_pay_system.System.{
  System, db_of, payouts_of, Step, ledger_round, tx_message, block_message, refresh_round,
  open_invoice, payout_step, watcher_restart, ledger_restart, Reach, here, next,
}

-- The books balance, no payout of an open task has been sent, and the semaphore holds.
abbrev pub IsOrderly : Settings → System → Type 0
IsOrderly settings s =
    IsSound (payouts_of s) × (length s.ledger.running ≤ settings.ledger_concurrency)

-- A round of the ledger service leaves the tables of the payouts, or it is one job.
round-IsSound :
    {settings : Settings} (strip : Text → Text) (tasks : List PayoutTask) {s t : LedgerService}
    → Work settings s t
    → IsSound (record { db = s.world.db; tasks = tasks })
    → IsSound (record { db = t.world.db; tasks = tasks })
unfolding promoted
round-IsSound strip tasks (consume s job q e) h = h
round-IsSound strip tasks (start s job rest e free) h = h
round-IsSound strip tasks (finish s env before job after same e) h =
    Step-IsSound {strip = strip}
      (Service.ledger (record { db = s.world.db; tasks = tasks }) env job s.world.queues) h
round-IsSound strip tasks (finish_late s env before job after commit old same e) h =
    Step-IsSound {strip = strip}
      (Service.ledger_late (record { db = s.world.db; tasks = tasks }) env job s.world.queues commit
        old)
      h
round-IsSound strip tasks (promote s now some_due) h = h

-- The rows of other tables do not count.
invoice-IsSound :
    (tasks : List PayoutTask) (db : Db) (rows : List Invoice)
    → IsSound (record { db = db; tasks = tasks })
    → IsSound (record { db = record db { invoices = rows }; tasks = tasks })
invoice-IsSound tasks db rows h = h

module _ {settings : Settings} {hash256 : Bytes → Bytes} {testnet : Bool}
    {strip : Text → Text} where
  Step-IsOrderly :
      {s t : System}
      → Step settings hash256 testnet strip s t
      → IsOrderly settings s
      → IsOrderly settings t
  Step-IsOrderly (ledger_round s ledger w) (h, n) =
      (round-IsSound strip s.tasks w h, (Work-IsSafe w (h.0, n)).1)
  Step-IsOrderly (tx_message s parts) h = h
  Step-IsOrderly (block_message s parts r a) h = h
  Step-IsOrderly (refresh_round s r a) h = h
  Step-IsOrderly (open_invoice s registry keys m symbol amount inv db e) (h, n) =
      let k = create_inv registry keys m symbol amount (db_of s) e in
      (rw k.added (invoice-IsSound s.tasks (db_of s) ((db_of s).invoices ++ inv ∷ []) h), n)
  Step-IsOrderly (payout_step s p st) (h, n) = (Step-IsSound {strip = strip} st h, n)
  Step-IsOrderly (watcher_restart s r a) h = h
  Step-IsOrderly (ledger_restart s) (h, n) = (h, omega arith)

  -- Whatever the watcher, the ledger service, the requests and the tasks of payouts do, in whatever
  -- order their steps come, and whatever the node and the providers say: from a state whose books
  -- balance, in every state that the system reaches, every account holds what was booked for it
  -- less what was sent, no payout of an open task has been sent, every task has a payout of its
  -- own, and at most `ledger_concurrency` jobs run at a time.
  pub Reach-IsOrderly :
      {s t : System}
      → Reach settings hash256 testnet strip s t
      → IsOrderly settings s
      → IsOrderly settings t
  Reach-IsOrderly here h = h
  Reach-IsOrderly (next r st) h = Step-IsOrderly st (Reach-IsOrderly r h)
