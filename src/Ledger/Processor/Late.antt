-- ===== src/Ledger/Processor/Late.antt =====
-- A job of services/ledger/processor.py beside others: `_process_in_session` reads the invoice, the
-- merchant, the coin and the Transaction without a row lock, so what it writes may come after other
-- jobs have changed the rows that it has read.
pub mod Keeps
pub mod Rows
pub mod Twice
use crypto_pay_system.Prelude.{
  ℕ, ◌≡◌, refl, ap, Bool-cases, inl, inr, Option, none, some, ltb, ◌==◌, ◌&&◌, arith, if◌then◌else◌,
}
use crypto_pay_system.Prelude.Exec.{Exec, Exn, Result, ok, err, pure, lift, atomically, ◌>>=◌}
use crypto_pay_system.Prelude.Rows.{select, scalar_one_or_none, scalar_one}
use crypto_pay_system.Models.{InvoiceStatus, Coin, Merchant, Invoice, Transaction, Db, status_eq}
use crypto_pay_system.Ledger.Queue.{LedgerJob}
use crypto_pay_system.Ledger.Processor.{
  Env, World, Next, done, wait_more, credit_now, load_invoice, load_merchant, load_coin, is_tx_of,
  inserted, with_tx, upsert_transaction, advance, continue_with, process_in_session, tolerant,
  settled, checked, get_confirmations, process,
}

-- the rows that a job has read before it writes
pub record Loaded : Type 0 where
  pub invoice : Invoice
  pub merchant : Merchant
  pub coin : Coin
  pub found : Option Transaction

load_transaction : LedgerJob → Invoice → Exec Db (Option Transaction)
load_transaction job invoice db =
    lift (scalar_one_or_none (select (is_tx_of job.txid invoice.id) db.transactions)) db

read_found : LedgerJob → Option Invoice → Exec Db (Option Loaded)
unfolding load_merchant load_coin load_transaction
read_found job none = pure none
read_found job (some invoice) =
    if status_eq invoice.status InvoiceStatus.paid then pure none else do
      merchant ← load_merchant invoice.merchant_id
      coin ← load_coin invoice.coin_id
      found ← load_transaction job invoice
      pure (some (record { invoice = invoice; merchant = merchant; coin = coin; found = found }))

-- the queries of `_process_in_session` before its first write; nothing, where it returns first
unfoldable pub read_rows : LedgerJob → Exec Db (Option Loaded)
unfolding load_invoice read_found
read_rows job = do found ← load_invoice job.invoice_id; read_found job found

-- the rest of `_process_in_session`, on the rows that were read
unfoldable pub write_rows : Env → LedgerJob → ℕ → Option Loaded → Exec Db Next
unfolding inserted with_tx wait_more credit_now
write_rows env job confirmations none = pure done
write_rows env job confirmations (some l) = do
  tx ← inserted env.fresh job l.invoice l.found
  with_tx env job confirmations l.invoice l.merchant l.coin tx

-- `_process_in_session` that has read the database `old`
unfoldable pub late_session : Env → LedgerJob → ℕ → Db → Exec Db Next
unfolding read_rows write_rows
late_session env job confirmations old =
    lift (read_rows job old).0 >>= write_rows env job confirmations

-- what COMMIT answers at the end of `session.begin()`: where it fails, the tables are those before
-- the transaction, and what was pushed to Redis stays there
pub committed : Result (Unit {0}) → Db → Result (Unit {0}) × World → Result (Unit {0}) × World
committed (err e) before (ok u, w) = (err e, record w { db = before })
committed (err e) before (err x, w) = (err x, w)
committed (ok u) before (r, w) = (r, w)

pub late_checked : Result (Unit {0}) → Env → LedgerJob → Db → Result ℕ → Exec World (Unit {0})
unfolding settled late_session tolerant checked committed
late_checked commit env job old (err e) w = checked env job (err e) w
late_checked commit env job old (ok confirmations) w =
    let job' = record job { confirmations = confirmations } in
    committed commit w.db (
      settled env job' w.queues
        (atomically (tolerant (late_session env job' confirmations old)) w.db))

-- `process` whose session has read the database `old`, writes the database of `w` and commits with
-- the answer `commit`
unfoldable pub late_process : Result (Unit {0}) → Env → LedgerJob → Db → Exec World (Unit {0})
unfolding late_checked
late_process commit env job old w =
    if ltb env.settings.ledger_max_retries job.retry_count
    then (ok tt, w)
    else late_checked commit env job old (get_confirmations env job) w

module _ (env : Env) (job : LedgerJob) (n : ℕ) (db : Db) where
  transaction_now :
      (r : Result (Option Transaction)) (invoice : Invoice) (merchant : Merchant) (coin : Coin)
      → (lift
              ((lift r >>= λ found. pure (
                  some (record {
                    invoice = invoice;
                    merchant = merchant;
                    coin = coin;
                    found = found;
                  })))
                db).0
            >>= write_rows env job n)
          db
        ≡ ((lift r >>= inserted env.fresh job invoice) >>= λ tx.
              with_tx env job n invoice merchant coin tx)
            db
  unfolding write_rows
  transaction_now (ok found) invoice merchant coin = refl
  transaction_now (err e) invoice merchant coin = refl

  rows_now :
      (rm : Result Merchant) (rc : Result Coin) (rt : Result (Option Transaction))
      (invoice : Invoice)
      → (lift
              ((lift rm >>= λ merchant. lift rc >>= λ coin. lift rt >>= λ found. pure (
                  some (record {
                    invoice = invoice;
                    merchant = merchant;
                    coin = coin;
                    found = found;
                  })))
                db).0
            >>= write_rows env job n)
          db
        ≡ (lift rm >>= λ merchant. lift rc >>= λ coin.
              (lift rt >>= inserted env.fresh job invoice) >>= λ tx.
              with_tx env job n invoice merchant coin tx)
            db
  rows_now (ok merchant) (ok coin) rt invoice = transaction_now rt invoice merchant coin
  rows_now (ok merchant) (err e) rt invoice = refl
  rows_now (err e) rc rt invoice = refl

  invoice_now :
      (r : Result (Option Invoice))
      → (lift ((lift r >>= read_found job) db).0 >>= write_rows env job n) db
        ≡ (lift r >>= continue_with env job n) db
  unfolding read_found continue_with load_merchant load_coin load_transaction advance
      upsert_transaction write_rows
  invoice_now (ok none) = refl
  invoice_now (ok (some invoice)) =
      elim (Bool-cases (status_eq invoice.status InvoiceStatus.paid)) [
        | inl t ↦ rw t refl
        | inr f ↦ rw f (
            rows_now (scalar_one (select (λ m. m.id == invoice.merchant_id) db.merchants))
              (scalar_one (select (λ c. c.id == invoice.coin_id) db.coins))
              (scalar_one_or_none (select (is_tx_of job.txid invoice.id) db.transactions)) invoice)
      ]
  invoice_now (err e) = refl

  pub session_now : late_session env job n db db ≡ process_in_session env job n db
  unfolding late_session read_rows process_in_session load_invoice
  session_now = invoice_now (scalar_one_or_none (select (λ i. i.id == job.invoice_id) db.invoices))

-- A job whose rows no other job has changed meanwhile, and whose COMMIT succeeds, is `process`.
pub late_process-process :
    (env : Env) (job : LedgerJob) (w : World)
    → late_process (ok tt) env job w.db w ≡ process env job w
unfolding late_process late_checked checked committed process tolerant atomically select
late_process-process env job w =
    elim (Bool-cases (ltb env.settings.ledger_max_retries job.retry_count)) [
      | inl t ↦ rw t refl
      | inr f ↦ rw f (checked_now (get_confirmations env job))
    ]
  where
    checked_now : (r : Result ℕ) → late_checked (ok tt) env job w.db r w ≡ checked env job r w
    checked_now (err e) = refl
    checked_now (ok n) =
        ap
          (λ (end : Result Next × Db).
            settled env (record job { confirmations = n }) w.queues
              (atomically (tolerant (λ _. end)) w.db))
          (session_now env (record job { confirmations = n }) n w.db)
