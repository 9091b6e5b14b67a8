-- ===== src/Ledger/Processor/Credits.antt =====
-- A payment that is confirmed: the job runs to its end, and the merchant is credited.
use crypto_pay_system.Prelude.{
  ℕ, ◌≤◌, ◌≡◌, refl, ap, ◌∙◌, ◌⊎◌, inl, inr, ◌==◌, true, false, [], ◌∷◌, ◌++◌, arith,
}
use crypto_pay_system.Prelude.Exec.{Result, ok, atomically}
use crypto_pay_system.Prelude.Int.{ℤ, ◌+ℤ◌}
use crypto_pay_system.Prelude.Rows.{
  select, modify_where, scalar_one_or_none, scalar_one, select-holds,
}
use crypto_pay_system.Prelude.Text.{Text, text_eq, text_eq_iff}
use crypto_pay_system.Models.{InvoiceStatus, Invoice, Transaction, Merchant, Coin, Db, status_eq}
use crypto_pay_system.Funds.{held}
use crypto_pay_system.Ledger.Fee.{FeeResult, calculate_fee}
use crypto_pay_system.Ledger.Queue.{LedgerJob}
use crypto_pay_system.Ledger.Accounting.{Fresh, constraints, flush, credit, set_paid}
use crypto_pay_system.Ledger.Accounting.Succeeds.{has_output, credit_total}
use crypto_pay_system.Ledger.Accounting.Solvency.{share, credit_lem}
use crypto_pay_system.Ledger.Processor.{
  Env, World, done, is_tx_of, new_transaction, inserted, upsert_transaction, load_merchant,
  load_coin, set_progress, credit_now, with_tx, advance, continue_with, process_in_session,
  tolerant, settled, checked, get_confirmations, process,
}
use crypto_pay_system.Ledger.Processor.Once.{Finds, load_found, paid_found}

-- The transaction of a job is new for the invoice, or its row is there and not yet credited.
abbrev pub IsUncredited : LedgerJob → Invoice → Db → Type 0
IsUncredited job invoice db =
    (select (is_tx_of job.txid invoice.id) db.transactions ≡ [])
    ⊎ ((t : Transaction) × (select (is_tx_of job.txid invoice.id) db.transactions ≡ t ∷ [])
        × (t.credited ≡ false)
        × (t.amount_received ≡ job.amount_sat))

-- the row that `upsert_transaction` returns
pub record Upserted (job : LedgerJob) (db : Db) (tx : Transaction) (db' : Db) : Type 0 where
  pub uncredited : tx.credited ≡ false
  pub amount : tx.amount_received ≡ job.amount_sat
  pub same_txid : tx.txid ≡ job.txid
  pub frame : db' ≡ record db { transactions = db'.transactions }

pub upserted :
    (fresh : Fresh) (job : LedgerJob) (invoice : Invoice) (db : Db)
    → constraints db ≡ true
    → IsUncredited job invoice db
    → (tx : Transaction) × (db' : Db) × (upsert_transaction fresh job invoice db ≡ (ok tx, db'))
      × Upserted job db tx db'
unfolding upsert_transaction inserted flush scalar_one_or_none constraints
upserted fresh job invoice db fine (inl new_row) =
    let tx = new_transaction fresh job invoice in
    (
      tx,
      record db { transactions = db.transactions ++ tx ∷ [] },
      ground arith,
      record { uncredited = refl; amount = refl; same_txid = refl; frame = refl },
    )
upserted fresh job invoice db fine (inr (t, one, unpaid_tx, whole)) =
    let found = select-holds (is_tx_of job.txid invoice.id) db.transactions t [] one in
    let named : text_eq t.txid job.txid ≡ true = ground arith in
    (
      t,
      db,
      ground arith,
      record {
        uncredited = unpaid_tx;
        amount = whole;
        same_txid = (text_eq_iff t.txid job.txid).0 named;
        frame = refl;
      },
    )

-- the credit of the row, with the progress of the job written to it
credited_tx :
    (env : Env) (job : LedgerJob) (n : ℕ) (invoice : Invoice) (merchant : Merchant) (coin : Coin)
    (tx : Transaction) (db : Db)
    → env.settings.ledger_required_confirmations ≤ n
    → tx.credited ≡ false
    → constraints db ≡ true
    → has_output tx.txid db ≡ false
    → (db' : Db) × (with_tx env job n invoice merchant coin tx db ≡ (ok done, db'))
      × ((m c : ℕ)
          → held m c db'
            ≡ held m c db
              +ℤ share m c merchant.id coin.id
                  (calculate_fee tx.amount_received merchant.commission_pcent).net)
unfolding with_tx credit_now constraints
credited_tx env job n invoice merchant coin tx db enough unpaid_tx fine new_tx =
    let tx' = set_progress n job.retry_count tx in
    let db1 = record db {
      transactions =
          modify_where (λ t. t.id == tx.id) (set_progress n job.retry_count) db.transactions;
    } in
    let fee = calculate_fee tx.amount_received merchant.commission_pcent in
    let db' = (credit env.fresh tx' invoice merchant coin db1).1 in
    let passed : credit env.fresh tx' invoice merchant coin db1 ≡ (ok fee, db') =
      ap (λ (r : Result FeeResult). (r, db'))
        (credit_total env.fresh tx' invoice merchant coin db1 unpaid_tx fine new_tx) in
    (db', ground arith, λ m c. (credit_lem m c env.fresh tx' invoice merchant coin db1 passed).2)

pub load_merchant_lem :
    (id : ℕ) (db : Db) (merchant : Merchant)
    → select (λ m. m.id == id) db.merchants ≡ merchant ∷ []
    → load_merchant id db ≡ (ok merchant, db)
unfolding load_merchant scalar_one
load_merchant_lem id db merchant e = rw e refl

pub load_coin_lem :
    (id : ℕ) (db : Db) (coin : Coin)
    → select (λ c. c.id == id) db.coins ≡ coin ∷ []
    → load_coin id db ≡ (ok coin, db)
unfolding load_coin scalar_one
load_coin_lem id db coin e = rw e refl

module _ (env : Env) (job : LedgerJob) (n : ℕ) (db : Db) (invoice : Invoice) (merchant : Merchant)
    (coin : Coin) where
  session_total :
      env.settings.ledger_required_confirmations ≤ n
      → Finds job db invoice
      → status_eq invoice.status InvoiceStatus.paid ≡ false
      → select (λ m. m.id == invoice.merchant_id) db.merchants ≡ merchant ∷ []
      → select (λ c. c.id == invoice.coin_id) db.coins ≡ coin ∷ []
      → IsUncredited job invoice db
      → has_output job.txid db ≡ false
      → constraints db ≡ true
      → (db' : Db) × (process_in_session env job n db ≡ (ok done, db'))
        × ((m c : ℕ)
            → held m c db'
              ≡ held m c db
                +ℤ share m c merchant.id coin.id
                    (calculate_fee job.amount_sat merchant.commission_pcent).net)
  unfolding process_in_session continue_with advance constraints
  session_total enough finds unpaid m c fresh new_tx fine =
      let (tx, db1, upsert, row) = upserted env.fresh job invoice db fine fresh in
      let fine1 : constraints db1 ≡ true = ap constraints row.frame ∙ fine in
      let new1 : has_output tx.txid db1 ≡ false =
        ap (λ (t : Text). has_output t db1) row.same_txid
        ∙ ap (λ (d : Db). has_output job.txid d) row.frame
        ∙ new_tx in
      let (db', runs, adds) =
        credited_tx env job n invoice merchant coin tx db1 enough row.uncredited fine1 new1 in
      let found = load_found job db invoice finds in
      let merchant_row = load_merchant_lem invoice.merchant_id db merchant m in
      let coin_row = load_coin_lem invoice.coin_id db coin c in
      let net = λ (m c a : ℕ).
        share m c merchant.id coin.id (calculate_fee a merchant.commission_pcent).net in
      (
        db',
        ground arith,
        λ m c.
            adds m c
            ∙ ap (λ (h : ℤ). h +ℤ net m c tx.amount_received)
                (ap (λ (d : Db). held m c d) row.frame)
            ∙ ap (λ (a : ℕ). held m c db +ℤ net m c a) row.amount,
      )

process_done :
    (env : Env) (job : LedgerJob) (n : ℕ) (w : World) (db' : Db)
    → job.retry_count ≤ env.settings.ledger_max_retries
    → get_confirmations env job ≡ ok n
    → process_in_session env (record job { confirmations = n }) n w.db ≡ (ok done, db')
    → process env job w ≡ (ok tt, record { db = db'; queues = w.queues })
unfolding process checked settled tolerant atomically
process_done env job n w db' few asked runs = ground arith

-- A payment that has its confirmations is credited. The job is within its retries; the provider
-- reports at least the required confirmations; the job's invoice is found and not paid, with its
-- merchant and its coin; the transaction's row is missing, or is not credited and has the amount of
-- the job; no output of the transaction is registered; and the database's constraints hold. Then
-- `process` returns without an exception, leaves the queues as they were, marks the invoice paid,
-- and adds to what the account of the merchant and the coin holds the amount less the fee, and
-- nothing to any other account.
pub process_credits :
    (m c : ℕ) (env : Env) (job : LedgerJob) (n : ℕ) (w : World) (invoice : Invoice)
    (merchant : Merchant) (coin : Coin)
    → job.retry_count ≤ env.settings.ledger_max_retries
    → get_confirmations env job ≡ ok n
    → env.settings.ledger_required_confirmations ≤ n
    → Finds job w.db invoice
    → status_eq invoice.status InvoiceStatus.paid ≡ false
    → select (λ x. x.id == invoice.merchant_id) w.db.merchants ≡ merchant ∷ []
    → select (λ x. x.id == invoice.coin_id) w.db.coins ≡ coin ∷ []
    → IsUncredited job invoice w.db
    → has_output job.txid w.db ≡ false
    → constraints w.db ≡ true
    → let (r, w') = process env job w in
      (r ≡ ok tt)
      × (w'.queues ≡ w.queues)
      × Finds job w'.db (set_paid env.fresh.now invoice)
      × (held m c w'.db
          ≡ held m c w.db
            +ℤ share m c merchant.id coin.id
                (calculate_fee job.amount_sat merchant.commission_pcent).net)
process_credits m c env job n w invoice merchant coin few asked enough finds unpaid m_row c_row
      fresh new_tx fine =
    let job' = record job { confirmations = n } in
    let (db', runs, adds) =
      session_total env job' n w.db invoice merchant coin enough finds unpaid m_row c_row fresh
        new_tx fine in
    let paid = paid_found env job' n w.db invoice finds unpaid runs in
    rw (process_done env job n w db' few asked runs) (refl, refl, paid, adds m c)
