-- ===== src/Ledger/Processor/Unconfirmed.antt =====
-- Jobs whose transaction has too few confirmations.
use crypto_pay_system.Prelude.{
  ℕ, ◌<◌, ◌≡◌, refl, ◌∙◌, true, ltb, arith, Option, none, some, inl, inr, Bool-cases,
}
use crypto_pay_system.Prelude.Exec.{Exec, ok, pure, atomically, ◌>>=◌}
use crypto_pay_system.Models.{InvoiceStatus, Invoice, Merchant, Coin, Transaction, Db, status_eq}
use crypto_pay_system.Ledger.Queue.{LedgerJob}
use crypto_pay_system.Ledger.Processor.{
  Env, World, done, get_confirmations, upsert_transaction, load_invoice, load_merchant, load_coin,
  wait_more, with_tx, advance, continue_with, process_in_session, tolerant, checked, process,
}
use crypto_pay_system.Ledger.Processor.Settles.{
  Settles, Settles-bind, Settles-always, Settles-if, atomically-Settles,
}
use crypto_pay_system.Ledger.Processor.Keeps.{SameMoney, upsert-SameMoney, db-settled}

same : (db : Db) → SameMoney db db
same db = record { balances = refl; fee_logs = refl; payouts = refl }

then_same : {a b c : Db} → SameMoney a b → SameMoney b c → SameMoney a c
then_same h k = record {
  balances = k.balances ∙ h.balances;
  fee_logs = k.fee_logs ∙ h.fee_logs;
  payouts = k.payouts ∙ h.payouts;
}

module _ (start : Db) (env : Env) (job : LedgerJob) (n : ℕ)
    (few : ltb n env.settings.ledger_required_confirmations ≡ true) where
  keeps :
      {A : Type 0} (m : Exec Db A)
      → ((db : Db) → SameMoney db (m db).1)
      → Settles (SameMoney start) m
  keeps m k = Settles-always m (λ db h. then_same h (k db))

  waits :
      (invoice : Invoice) (merchant : Merchant) (coin : Coin) (tx : Transaction) (db : Db)
      → SameMoney db (with_tx env job n invoice merchant coin tx db).1
  unfolding with_tx wait_more
  waits invoice merchant coin tx db = rw few (ground arith)

  advances : (invoice : Invoice) → Settles (SameMoney start) (advance env job n invoice)
  unfolding advance
  advances invoice =
      let last = λ (merchant : Merchant) (coin : Coin).
        λ (tx : Transaction). with_tx env job n invoice merchant coin tx in
      let upsert = upsert_transaction env.fresh job invoice in
      Settles-bind (load_merchant invoice.merchant_id)
        (λ merchant. load_coin invoice.coin_id >>= λ coin. upsert >>= last merchant coin)
        (keeps _ same)
        λ merchant.
          Settles-bind (load_coin invoice.coin_id) (λ coin. upsert >>= last merchant coin)
            (keeps _ same)
            λ coin.
              Settles-bind upsert (last merchant coin)
                (keeps upsert (upsert-SameMoney env.fresh job invoice))
                (λ tx. keeps (last merchant coin tx) (waits invoice merchant coin tx))

  continues : (found : Option Invoice) → Settles (SameMoney start) (continue_with env job n found)
  unfolding continue_with
  continues none = keeps (pure done) same
  continues (some invoice) =
      Settles-if (status_eq invoice.status InvoiceStatus.paid) (pure done)
        (advance env job n invoice) (keeps (pure done) same) (advances invoice)

  in_session : Settles (SameMoney start) (process_in_session env job n)
  unfolding process_in_session
  in_session =
      Settles-bind (load_invoice job.invoice_id) (continue_with env job n) (keeps _ same) continues

-- A job whose transaction has fewer confirmations than are required moves no money, whatever else
-- it does: no balance changes, no fee is booked, and no payout is touched.
pub process-SameMoney :
    (env : Env) (job : LedgerJob) (w : World) (n : ℕ)
    → get_confirmations env job ≡ ok n
    → n < env.settings.ledger_required_confirmations
    → SameMoney w.db (process env job w).1.db
unfolding process checked
process-SameMoney env job w n e few =
    elim (Bool-cases (ltb env.settings.ledger_max_retries job.retry_count)) [
      | inl t ↦ rw t (same w.db)
      | inr f ↦
          let job' = record job { confirmations = n } in
          let body = process_in_session env job' n in
          let (r, db') = atomically (tolerant body) w.db in
          rw f (
            rw e (
              rw (db-settled env job' w.queues r db') (
                atomically-Settles body (in_session w.db env job' n (ground arith)) w.db
                  (same w.db))))
    ]
