-- ===== src/Ledger/Processor.antt =====
-- TxProcessor of services/ledger/processor.py: one LedgerJob, from the confirmation check to the
-- committed credit, where the session reads and writes with no other job between and COMMIT
-- succeeds. Processor/Late.antt has the job whose rows are changed by others between its reads and
-- its writes, and a COMMIT that fails.
pub mod Settles
pub mod Keeps
pub mod Solvent
pub mod Unconfirmed
pub mod Pruned
pub mod Credits
pub mod Shared
pub mod Retries
pub mod Once
pub mod Leads
pub mod Progress
pub mod Late
use crypto_pay_system.Prelude.{
  ℕ, ◌++◌, ◌∷◌, [], ◌&&◌, ◌==◌, ltb, Bool, true, false, Option, none, some, if◌then◌else◌,
}
use crypto_pay_system.Prelude.Exec.{
  Exec, Exn, Result, ok, err, already_credited, provider_error, tx_not_found,
  address_generation_error, insufficient_funds, pure, raise, lift, modify, bind, atomically, ◌>>=◌,
  ◌>>◌,
}
use crypto_pay_system.Prelude.Rows.{select, modify_where, scalar_one_or_none, scalar_one}
use crypto_pay_system.Prelude.Text.{Text, text_eq}
use crypto_pay_system.Models.{
  InvoiceStatus, Coin, Merchant, Invoice, Transaction, Db, Settings, status_eq,
}
use crypto_pay_system.Providers.Registry.{Provider, Registry, contains, get}
use crypto_pay_system.Ledger.Queue.{LedgerJob, Queues, push_retry}
use crypto_pay_system.Ledger.Accounting.{Fresh, flush, credit}

-- What one job reads from outside: the settings, the adapters, new keys and the clock.
pub record Env : Type 0 where
  pub settings : Settings
  pub registry : Registry
  pub fresh : Fresh

pub record World : Type 0 where
  pub db : Db
  pub queues : Queues

-- the subclasses of ProviderError
abbrev pub is_provider_error : Exn → Bool
is_provider_error provider_error = true
is_provider_error tx_not_found = true
is_provider_error address_generation_error = true
is_provider_error insufficient_funds = true
is_provider_error _ = false

unfoldable pub get_confirmations : Env → LedgerJob → Result ℕ
get_confirmations env job =
    if contains job.coin_symbol env.registry
    then bind (get job.coin_symbol env.registry) (λ provider. provider.check_confirmations job.txid)
    else err provider_error

abbrev pub is_tx_of : Text → ℕ → Transaction → Bool
is_tx_of txid invoice_id t = text_eq t.txid txid && t.invoice_id == invoice_id

abbrev pub new_transaction : Fresh → LedgerJob → Invoice → Transaction
new_transaction fresh job invoice = record {
  id = fresh.tx_id;
  invoice_id = invoice.id;
  txid = job.txid;
  amount_received = job.amount_sat;
  confirmations = job.confirmations;
  credited = false;
  retry_count = job.retry_count;
  detected_at = fresh.now;
  confirmed_at = none;
}

pub inserted : Fresh → LedgerJob → Invoice → Option Transaction → Exec Db Transaction
unfolding flush
inserted fresh job invoice (some tx) = pure tx
inserted fresh job invoice none = do
  let tx = new_transaction fresh job invoice
  modify (λ db. record db { transactions = db.transactions ++ tx ∷ [] })
  flush
  pure tx

pub upsert_transaction : Fresh → LedgerJob → Invoice → Exec Db Transaction
unfolding inserted
upsert_transaction fresh job invoice = do
  found ← λ db. lift (scalar_one_or_none (select (is_tx_of job.txid invoice.id) db.transactions)) db
  inserted fresh job invoice found

unfoldable pub load_invoice : ℕ → Exec Db (Option Invoice)
load_invoice invoice_id db =
    lift (scalar_one_or_none (select (λ i. i.id == invoice_id) db.invoices)) db

-- `session.refresh(invoice, ["merchant", "coin"])`: the rows that the foreign keys name
pub load_merchant : ℕ → Exec Db Merchant
load_merchant merchant_id db = lift (scalar_one (select (λ m. m.id == merchant_id) db.merchants)) db

pub load_coin : ℕ → Exec Db Coin
load_coin coin_id db = lift (scalar_one (select (λ c. c.id == coin_id) db.coins)) db

abbrev pub set_progress : ℕ → ℕ → Transaction → Transaction
set_progress confirmations retry_count t = record t {
  confirmations = confirmations;
  retry_count = retry_count;
}

abbrev pub set_pending : Invoice → Invoice
set_pending i = record i { status = InvoiceStatus.pending }

-- the status change of an invoice that waits for confirmations
mark_pending : Invoice → Exec Db (Unit {0})
mark_pending invoice =
    if status_eq invoice.status InvoiceStatus.new
    then modify (λ db. record db {
      invoices = modify_where (λ i. i.id == invoice.id) set_pending db.invoices;
    })
    else pure tt

-- What the database part asks of the queue when it is done.
pub data Next : Type 0 where
  done wait : Next

-- not enough confirmations
wait_more : Invoice → Exec Db Next
unfolding mark_pending flush
wait_more invoice = do mark_pending invoice; flush; pure wait

-- enough confirmations
credit_now : Env → Transaction → Invoice → Merchant → Coin → Exec Db Next
credit_now env tx invoice merchant coin = do credit env.fresh tx invoice merchant coin; pure done

-- the assignments to the loaded Transaction, then the branch on the confirmations
pub with_tx : Env → LedgerJob → ℕ → Invoice → Merchant → Coin → Transaction → Exec Db Next
with_tx env job confirmations invoice merchant coin tx = do
  modify (λ db. record db {
    transactions =
        modify_where (λ t. t.id == tx.id) (set_progress confirmations job.retry_count)
          db.transactions;
  })
  λ db.
      (if ltb confirmations env.settings.ledger_required_confirmations
          then wait_more invoice
          else credit_now env (set_progress confirmations job.retry_count tx) invoice merchant coin)
        db

advance : Env → LedgerJob → ℕ → Invoice → Exec Db Next
unfolding load_merchant load_coin upsert_transaction with_tx wait_more credit_now
advance env job confirmations invoice = do
  merchant ← load_merchant invoice.merchant_id
  coin ← load_coin invoice.coin_id
  tx ← upsert_transaction env.fresh job invoice
  with_tx env job confirmations invoice merchant coin tx

continue_with : Env → LedgerJob → ℕ → Option Invoice → Exec Db Next
unfolding advance
continue_with env job confirmations none = pure done
continue_with env job confirmations (some invoice) =
    if status_eq invoice.status InvoiceStatus.paid
    then pure done
    else advance env job confirmations invoice

unfoldable pub process_in_session : Env → LedgerJob → ℕ → Exec Db Next
unfolding continue_with load_invoice
process_in_session env job confirmations = do
  found ← load_invoice job.invoice_id
  continue_with env job confirmations found

-- `except AlreadyCreditedError`: logged, and the transaction commits.
pub tolerate_credited : Result Next → Result Next
tolerate_credited (err already_credited) = ok done
tolerate_credited r = r

pub tolerant : Exec Db Next → Exec Db Next
unfolding tolerate_credited
tolerant m db = let (r, db') = m db in (tolerate_credited r, db')

-- the block `async with session.begin()` of `process` up to its COMMIT: a job that waits has pushed
-- its retry; what an exception leaves is rolled back
pub settled : Env → LedgerJob → Queues → Result Next × Db → Result (Unit {0}) × World
settled env job q (ok done, db) = (ok tt, record { db = db; queues = q })
settled env job q (ok wait, db) =
    (ok tt, record { db = db; queues = push_retry env.settings env.fresh.now job q })
settled env job q (err e, db) = (err e, record { db = db; queues = q })

pub checked : Env → LedgerJob → Result ℕ → Exec World (Unit {0})
unfolding settled process_in_session tolerant
checked env job (err e) w =
    if is_provider_error e
    then (ok tt, record w { queues = push_retry env.settings env.fresh.now job w.queues })
    else (err e, w)
checked env job (ok confirmations) w =
    let job' = record job { confirmations = confirmations } in
    settled env job' w.queues
      (atomically (tolerant (process_in_session env job' confirmations)) w.db)

unfoldable pub process : Env → LedgerJob → Exec World (Unit {0})
unfolding checked
process env job w =
    if ltb env.settings.ledger_max_retries job.retry_count
    then (ok tt, w)
    else checked env job (get_confirmations env job) w
