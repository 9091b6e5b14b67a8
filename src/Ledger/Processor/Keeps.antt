-- ===== src/Ledger/Processor/Keeps.antt =====
-- What a job keeps, step by step of TxProcessor: whatever depends on the tables of money alone and
-- is kept by a credit.
use crypto_pay_system.Prelude.{
  Bool-cases, ℕ, ◌≡◌, refl, inl, inr, Option, none, some, ltb, arith, ◌==◌,
}
use crypto_pay_system.Prelude.Exec.{Exec, Result, ok, err, atomically, ◌>>=◌, modify, pure}
use crypto_pay_system.Prelude.Rows.{modify_where}
use crypto_pay_system.Models.{InvoiceStatus, Coin, Merchant, Invoice, Transaction, Db, status_eq}
use crypto_pay_system.Ledger.Queue.{LedgerJob, Queues}
use crypto_pay_system.Ledger.Accounting.{Fresh, flush, credit}
use crypto_pay_system.Ledger.Processor.{
  is_provider_error, Env, World, Next, done, wait, upsert_transaction, load_invoice, load_merchant,
  load_coin, mark_pending, set_progress, wait_more, credit_now, with_tx, advance, continue_with,
  process_in_session, tolerant, settled, checked, get_confirmations, process,
}
use crypto_pay_system.Ledger.Processor.Settles.{
  Settles, Settles-bind, Settles-always, Settles-if, atomically-Settles,
}

-- The tables that the books are made of.
pub record SameMoney (db db' : Db) : Type 0 where
  pub balances : db'.balances ≡ db.balances
  pub fee_logs : db'.fee_logs ≡ db.fee_logs
  pub payouts : db'.payouts ≡ db.payouts

pub upsert-SameMoney :
    (fresh : Fresh) (job : LedgerJob) (invoice : Invoice) (db : Db)
    → SameMoney db (upsert_transaction fresh job invoice db).1
unfolding upsert_transaction
upsert-SameMoney fresh job invoice db = ground arith

mark_pending-SameMoney : (invoice : Invoice) (db : Db) → SameMoney db (mark_pending invoice db).1
unfolding mark_pending
mark_pending-SameMoney invoice db = ground arith

flush-SameMoney : (db : Db) → SameMoney db (flush db).1
unfolding flush
flush-SameMoney db = ground arith

pub db-settled :
    (env : Env) (job : LedgerJob) (q : Queues) (r : Result Next) (db : Db)
    → (settled env job q (r, db)).1.db ≡ db
unfolding settled
db-settled env job q (ok done) db = refl
db-settled env job q (ok wait) db = refl
db-settled env job q (err e) db = refl

module _ (P : Db → Type 0) (same : (db db' : Db) → SameMoney db db' → P db → P db')
    (credited : (fresh : Fresh) (tx : Transaction) (invoice : Invoice) (merchant : Merchant)
        (coin : Coin)
      → Settles P (credit fresh tx invoice merchant coin)) where
  Settles-SameMoney :
      {A : Type 0} (m : Exec Db A) → ((db : Db) → SameMoney db (m db).1) → Settles P m
  Settles-SameMoney m k = Settles-always m (λ db h. same db (m db).1 (k db) h)

  pure-Settles : {A : Type 0} (a : A) → Settles P (pure a)
  pure-Settles a = Settles-always (pure a) (λ db h. h)

  wait_more-Settles : (invoice : Invoice) → Settles P (wait_more invoice)
  unfolding wait_more
  wait_more-Settles invoice = Settles-SameMoney (wait_more invoice) (λ db. ground arith)

  pub with_tx-Settles :
      (env : Env) (job : LedgerJob) (n : ℕ) (invoice : Invoice) (merchant : Merchant) (coin : Coin)
      (tx : Transaction)
      → Settles P (with_tx env job n invoice merchant coin tx)
  unfolding with_tx credit_now
  with_tx-Settles env job n invoice merchant coin tx =
      let progress = λ (db : Db). record db {
        transactions =
            modify_where (λ t. t.id == tx.id) (set_progress n job.retry_count) db.transactions;
      } in
      Settles-bind (modify progress) _ (Settles-SameMoney (modify progress) (λ db. ground arith))
        λ _.
          Settles-if (ltb n env.settings.ledger_required_confirmations) (wait_more invoice) _
            (wait_more-Settles invoice)
            (Settles-bind
              (credit env.fresh (set_progress n job.retry_count tx) invoice merchant coin) _
              (credited env.fresh _ invoice merchant coin) (λ _. pure-Settles done))

  advance-Settles :
      (env : Env) (job : LedgerJob) (n : ℕ) (invoice : Invoice)
      → Settles P (advance env job n invoice)
  unfolding advance
  advance-Settles env job n invoice =
      let last = λ (merchant : Merchant) (coin : Coin).
        λ (tx : Transaction). with_tx env job n invoice merchant coin tx in
      let upsert = upsert_transaction env.fresh job invoice in
      Settles-bind (load_merchant invoice.merchant_id)
        (λ merchant. load_coin invoice.coin_id >>= λ coin. upsert >>= last merchant coin)
        (Settles-SameMoney _ (λ db. record { balances = refl; fee_logs = refl; payouts = refl }))
        λ merchant.
          Settles-bind (load_coin invoice.coin_id) (λ coin. upsert >>= last merchant coin)
            (Settles-SameMoney _
              (λ db. record { balances = refl; fee_logs = refl; payouts = refl }))
            λ coin.
              Settles-bind upsert (last merchant coin)
                (Settles-SameMoney upsert (upsert-SameMoney env.fresh job invoice))
                (with_tx-Settles env job n invoice merchant coin)

  continue_with-Settles :
      (env : Env) (job : LedgerJob) (n : ℕ) (found : Option Invoice)
      → Settles P (continue_with env job n found)
  unfolding continue_with
  continue_with-Settles env job n none = pure-Settles done
  continue_with-Settles env job n (some invoice) =
      Settles-if (status_eq invoice.status InvoiceStatus.paid) (pure done)
        (advance env job n invoice) (pure-Settles done) (advance-Settles env job n invoice)

  process_in_session-Settles :
      (env : Env) (job : LedgerJob) (n : ℕ) → Settles P (process_in_session env job n)
  unfolding process_in_session
  process_in_session-Settles env job n =
      Settles-bind (load_invoice job.invoice_id) (continue_with env job n)
        (Settles-SameMoney _ (λ db. record { balances = refl; fee_logs = refl; payouts = refl }))
        (continue_with-Settles env job n)

  checked-keeps :
      (env : Env) (job : LedgerJob) (r : Result ℕ) (w : World)
      → P w.db
      → P (checked env job r w).1.db
  unfolding checked
  checked-keeps env job (err e) w h = elim (Bool-cases (is_provider_error e)) [
    | inl t ↦ rw t h
    | inr f ↦ rw f h
  ]
  checked-keeps env job (ok n) w h =
      let job' = record job { confirmations = n } in
      let (r, db') = atomically (tolerant (process_in_session env job' n)) w.db in
      rw (db-settled env job' w.queues r db') (
        atomically-Settles (process_in_session env job' n) (process_in_session-Settles env job' n)
          w.db h)

  -- What depends on those tables only and is kept by a credit is kept by a job, however it ends.
  pub process-keeps :
      (env : Env) (job : LedgerJob) (w : World) → P w.db → P (process env job w).1.db
  unfolding process
  process-keeps env job w h =
      elim (Bool-cases (ltb env.settings.ledger_max_retries job.retry_count)) [
        | inl t ↦ rw t h
        | inr f ↦ rw f (checked-keeps env job (get_confirmations env job) w h)
      ]
