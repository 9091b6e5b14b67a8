-- ===== src/System.antt =====
-- The services of the repository on one database and one Redis: the watcher with its address cache
-- (services/watcher), the ledger service (services/ledger), the requests that open invoices and
-- payouts and the background tasks of the payouts (services/api, services/payout). Their coroutines
-- and processes run beside each other, so their steps come in any order.
pub mod Books
pub mod Invoices
pub mod Traces
pub mod Found
use crypto_pay_system.Prelude.{ℕ, ◌≡◌, ◌⊎◌, Bool, List, []}
use crypto_pay_system.Prelude.Exec.{Exn, Result, ok, err}
use crypto_pay_system.Prelude.Text.{Text}
use crypto_pay_system.Models.{Invoice, Db, Settings}
use crypto_pay_system.Providers.Registry.{Registry}
use crypto_pay_system.Ledger.Queue.{Queues}
use crypto_pay_system.Ledger.Service
use crypto_pay_system.Ledger.Service.{LedgerService}
use crypto_pay_system.Watcher.Decoder.{Bytes}
use crypto_pay_system.Watcher.Matching.{Cache, refresh}
use crypto_pay_system.Watcher.Service.{listen_tx, listen_block}
use crypto_pay_system.Invoicing.{InvoiceKeys, create_invoice}
use crypto_pay_system.Payout.Service.{PayoutTask, PayoutService}
use crypto_pay_system.Payout.Service as Tasks

-- the tables, the queues and the jobs of the ledger service; the cache of the watcher; the tasks of
-- the payouts
pub record System : Type 0 where
  pub ledger : LedgerService
  pub cache : Cache
  pub tasks : List PayoutTask

abbrev pub db_of : System → Db
db_of s = s.ledger.world.db

abbrev pub with_db : Db → System → System
with_db db s = record s { ledger = record s.ledger { world = record s.ledger.world { db = db } } }

abbrev pub with_queues : Queues → System → System
with_queues q s = record s {
  ledger = record s.ledger { world = record s.ledger.world { queues = q } };
}

-- the part that the payouts see
abbrev pub payouts_of : System → PayoutService
payouts_of s = record { db = db_of s; tasks = s.tasks }

-- what a session answers to a query: the tables, or an error
abbrev pub Answers : Db → Result Db → Type 0
Answers db r = (r ≡ ok db) ⊎ ((e : Exn) × (r ≡ err e))

module _ (settings : Settings) (hash256 : Bytes → Bytes) (testnet : Bool)
    (strip : Text → Text) where
  pub data Step : System → System → Type 0 where
    -- a round of the consumer or the promoter, or the start or the end of a job
    ledger_round :
        (s : System) (ledger : LedgerService)
        → Service.Work settings s.ledger ledger
        → Step s (record s { ledger = ledger })
    -- messages of the node to the two sockets of the watcher
    tx_message :
        (s : System) (parts : List Bytes)
        → Step s (with_queues (listen_tx hash256 testnet s.cache parts s.ledger.world.queues) s)
    block_message :
        (s : System) (parts : List Bytes) (r : Result Db)
        → Answers (db_of s) r
        → Step s (record s { cache = listen_block parts r s.cache })
    -- a round of `_refresh_loop`
    refresh_round :
        (s : System) (r : Result Db)
        → Answers (db_of s) r
        → Step s (record s { cache = refresh r s.cache })
    -- a committed request for an invoice
    open_invoice :
        (s : System) (registry : Registry) (keys : InvoiceKeys) (merchant_id : ℕ)
        (coin_symbol : Text) (amount : ℕ) (inv : Invoice) (db : Db)
        → create_invoice registry keys merchant_id coin_symbol amount (db_of s) ≡ (ok inv, db)
        → Step s (with_db db s)
    -- a request for a payout, or a step of a task
    payout_step :
        (s : System) (p : PayoutService)
        → Tasks.Step strip (payouts_of s) p
        → Step s (record (with_db p.db s) { tasks = p.tasks })
    -- A process that stops loses what it has in memory.
    watcher_restart :
        (s : System) (r : Result Db)
        → Answers (db_of s) r
        → Step s (record s { cache = refresh r [] })
    ledger_restart :
        (s : System) → Step s (record s { ledger = record s.ledger { waiting = []; running = [] } })

  pub data Reach (s : System) : System → Type 0 where
    here : Reach s s
    next : {t u : System} → Reach s t → Step t u → Reach s u
