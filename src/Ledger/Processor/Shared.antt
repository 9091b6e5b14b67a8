-- ===== src/Ledger/Processor/Shared.antt =====
-- One transaction that pays two invoices: the job of the second.
use crypto_pay_system.Prelude.{ℕ, ◌≤◌, ◌≡◌, ap, ◌∙◌, ◌==◌, true, false, [], ◌∷◌, arith}
use crypto_pay_system.Prelude.Exec.{ok, err, integrity_error, atomically}
use crypto_pay_system.Prelude.Rows.{select, modify_where}
use crypto_pay_system.Prelude.Text.{Text}
use crypto_pay_system.Models.{InvoiceStatus, Invoice, Transaction, Merchant, Coin, Db, status_eq}
use crypto_pay_system.Ledger.Queue.{LedgerJob}
use crypto_pay_system.Ledger.Accounting.{is_utxo_of, constraints}
use crypto_pay_system.Ledger.Accounting.Collides.{has_output_0, credit_collides}
use crypto_pay_system.Ledger.Processor.{
  Env, World, set_progress, credit_now, with_tx, advance, continue_with, process_in_session,
  tolerant, settled, checked, get_confirmations, process,
}
use crypto_pay_system.Ledger.Processor.Once.{Finds, load_found}
use crypto_pay_system.Ledger.Processor.Credits.{
  IsUncredited, upserted, load_merchant_lem, load_coin_lem,
}

refused_tx :
    (env : Env) (job : LedgerJob) (n : ℕ) (invoice : Invoice) (merchant : Merchant) (coin : Coin)
    (tx : Transaction) (db : Db)
    → env.settings.ledger_required_confirmations ≤ n
    → tx.credited ≡ false
    → constraints db ≡ true
    → has_output_0 tx.txid db ≡ true
    → select (is_utxo_of tx.txid invoice.id) db.utxos ≡ []
    → (with_tx env job n invoice merchant coin tx db).0 ≡ err integrity_error
unfolding with_tx credit_now constraints
refused_tx env job n invoice merchant coin tx db enough fr fine hit other =
    let tx' = set_progress n job.retry_count tx in
    let db1 = record db {
      transactions =
          modify_where (λ t. t.id == tx.id) (set_progress n job.retry_count) db.transactions;
    } in
    let refused = credit_collides env.fresh tx' invoice merchant coin db1 fr fine hit other in
    ground arith

module _ (env : Env) (job : LedgerJob) (n : ℕ) (invoice : Invoice) (merchant : Merchant)
    (coin : Coin) where
  session_refused :
      (db : Db)
      → env.settings.ledger_required_confirmations ≤ n
      → Finds job db invoice
      → status_eq invoice.status InvoiceStatus.paid ≡ false
      → select (λ m. m.id == invoice.merchant_id) db.merchants ≡ merchant ∷ []
      → select (λ c. c.id == invoice.coin_id) db.coins ≡ coin ∷ []
      → IsUncredited job invoice db
      → constraints db ≡ true
      → has_output_0 job.txid db ≡ true
      → select (is_utxo_of job.txid invoice.id) db.utxos ≡ []
      → (process_in_session env job n db).0 ≡ err integrity_error
  unfolding process_in_session continue_with advance constraints
  session_refused db enough finds unpaid m c fresh fine hit other =
      let (tx, db1, upsert, row) = upserted env.fresh job invoice db fine fresh in
      let fine1 : constraints db1 ≡ true = ap constraints row.frame ∙ fine in
      let hit1 : has_output_0 tx.txid db1 ≡ true =
        ap (λ (t : Text). has_output_0 t db1) row.same_txid
        ∙ ap (λ (d : Db). has_output_0 job.txid d) row.frame
        ∙ hit in
      let other1 : select (is_utxo_of tx.txid invoice.id) db1.utxos ≡ [] =
        ap (λ (t : Text). select (is_utxo_of t invoice.id) db1.utxos) row.same_txid
        ∙ ap (λ (d : Db). select (is_utxo_of job.txid invoice.id) d.utxos) row.frame
        ∙ other in
      let refused =
        refused_tx env job n invoice merchant coin tx db1 enough row.uncredited fine1 hit1 other1 in
      let found = load_found job db invoice finds in
      let merchant_row = load_merchant_lem invoice.merchant_id db merchant m in
      let coin_row = load_coin_lem invoice.coin_id db coin c in ground arith

process_refused :
    (env : Env) (job : LedgerJob) (n : ℕ) (w : World)
    → job.retry_count ≤ env.settings.ledger_max_retries
    → get_confirmations env job ≡ ok n
    → (process_in_session env (record job { confirmations = n }) n w.db).0 ≡ err integrity_error
    → process env job w ≡ (err integrity_error, w)
unfolding process checked settled tolerant atomically
process_refused env job n w few asked refused = ground arith

-- One transaction pays two invoices: output 0 of it is registered, and none of it for the invoice of
-- this job. The job is within its retries and has its confirmations; its invoice is found and not
-- paid, with its merchant and its coin; the transaction's row for this invoice is missing, or is not
-- credited and has the amount of the job; and the database's constraints hold. Then the job fails on
-- the constraint that an output is registered once: the exception leaves `process`, and the database
-- and the queues are as before, so the job is neither credited nor put back.
pub process_shared :
    (env : Env) (job : LedgerJob) (n : ℕ) (invoice : Invoice) (merchant : Merchant) (coin : Coin)
    (w : World)
    → job.retry_count ≤ env.settings.ledger_max_retries
    → get_confirmations env job ≡ ok n
    → env.settings.ledger_required_confirmations ≤ n
    → Finds job w.db invoice
    → status_eq invoice.status InvoiceStatus.paid ≡ false
    → select (λ x. x.id == invoice.merchant_id) w.db.merchants ≡ merchant ∷ []
    → select (λ x. x.id == invoice.coin_id) w.db.coins ≡ coin ∷ []
    → IsUncredited job invoice w.db
    → constraints w.db ≡ true
    → has_output_0 job.txid w.db ≡ true
    → select (is_utxo_of job.txid invoice.id) w.db.utxos ≡ []
    → process env job w ≡ (err integrity_error, w)
process_shared env job n invoice merchant coin w few asked enough finds unpaid m c fresh fine hit
      other =
    process_refused env job n w few asked (
      session_refused env (record job { confirmations = n }) n invoice merchant coin w.db enough
        finds unpaid m c fresh fine hit other)
