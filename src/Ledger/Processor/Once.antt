-- ===== src/Ledger/Processor/Once.antt =====
-- What jobs do to an invoice that is paid, and how it comes to be paid.
use crypto_pay_system.Prelude.{
  ℕ, ◌≡◌, refl, ap, sym, ◌∙◌, Bool, false, [], ◌∷◌, some, ◌==◌, arith, ==_iff,
}
use crypto_pay_system.Prelude.Exec.{Result, ok, ◌>>=◌, >>=-eq-ok, pure}
use crypto_pay_system.Prelude.Rows.{
  select, scalar_one_or_none, modify_where, select-modify_where, select-holds,
}
use crypto_pay_system.Models.{InvoiceStatus, Invoice, Merchant, Coin, Transaction, Db, status_eq}
use crypto_pay_system.Ledger.Queue.{LedgerJob}
use crypto_pay_system.Ledger.Fee.{FeeResult}
use crypto_pay_system.Ledger.Accounting.{Fresh, credit, set_paid}
use crypto_pay_system.Ledger.Accounting.Solvency.{credit_inv}
use crypto_pay_system.Ledger.Processor.{
  Env, Next, done, upsert_transaction, load_invoice, load_merchant, load_coin, set_progress,
  wait_more, credit_now, with_tx, advance, continue_with, process_in_session,
}

abbrev pub is_invoice : ℕ → Invoice → Bool
is_invoice id i = i.id == id

-- the invoice that a job names
abbrev pub Finds : LedgerJob → Db → Invoice → Type 0
Finds job db invoice = select (is_invoice job.invoice_id) db.invoices ≡ invoice ∷ []

pub load_found :
    (job : LedgerJob) (db : Db) (invoice : Invoice)
    → Finds job db invoice
    → load_invoice job.invoice_id db ≡ (ok (some invoice), db)
unfolding load_invoice scalar_one_or_none
load_found job db invoice f = rw f refl

-- A job whose invoice is PAID changes nothing, whatever the confirmations.
pub process_paid :
    (env : Env) (job : LedgerJob) (n : ℕ) (db : Db) (invoice : Invoice)
    → Finds job db invoice
    → invoice.status ≡ InvoiceStatus.paid
    → process_in_session env job n db ≡ (ok done, db)
unfolding process_in_session continue_with
process_paid env job n db invoice f paid =
    let found = load_found job db invoice f in ground (arith, found)

pub invoices-credit :
    (fresh : Fresh) (tx : Transaction) (invoice : Invoice) (merchant : Merchant) (coin : Coin)
    (db : Db) {r : FeeResult} {db' : Db}
    → credit fresh tx invoice merchant coin db ≡ (ok r, db')
    → db'.invoices ≡ modify_where (is_invoice invoice.id) (set_paid fresh.now) db.invoices
invoices-credit fresh tx invoice merchant coin db e =
    let (_, _, b, db1, l, k) = credit_inv fresh tx invoice merchant coin db e in
    k.invoices
    ∙ ap (λ (d : Db). modify_where (is_invoice invoice.id) (set_paid fresh.now) d.invoices) l.frame

invoices-credit_now :
    (env : Env) (tx : Transaction) (invoice : Invoice) (merchant : Merchant) (coin : Coin) (db : Db)
    {db' : Db}
    → credit_now env tx invoice merchant coin db ≡ (ok done, db')
    → db'.invoices ≡ modify_where (is_invoice invoice.id) (set_paid env.fresh.now) db.invoices
unfolding credit_now
invoices-credit_now env tx invoice merchant coin db e =
    let (r, db1, e1, k) =
      >>=-eq-ok (credit env.fresh tx invoice merchant coin) (λ _. pure done) db e in
    let same : db1 ≡ _ = ap (λ (p : Result Next × Db). p.1) k in
    rw (← same) (invoices-credit env.fresh tx invoice merchant coin db e1)

pub invoices-upsert :
    (fresh : Fresh) (job : LedgerJob) (invoice : Invoice) (db : Db)
    → (upsert_transaction fresh job invoice db).1.invoices ≡ db.invoices
unfolding upsert_transaction
invoices-upsert fresh job invoice db = ground arith

wait_more-ne-done :
    (invoice : Invoice) (db : Db) {db' : Db} → ¬ (wait_more invoice db ≡ (ok done, db'))
unfolding wait_more
wait_more-ne-done invoice db e = ground arith

invoices-with_tx :
    (env : Env) (job : LedgerJob) (n : ℕ) (invoice : Invoice) (merchant : Merchant) (coin : Coin)
    (tx : Transaction) (db : Db) {db' : Db}
    → with_tx env job n invoice merchant coin tx db ≡ (ok done, db')
    → db'.invoices ≡ modify_where (is_invoice invoice.id) (set_paid env.fresh.now) db.invoices
unfolding with_tx
invoices-with_tx env job n invoice merchant coin tx db {db'} e =
    let db1 = record db {
      transactions =
          modify_where (λ t. t.id == tx.id) (set_progress n job.retry_count) db.transactions;
    } in
    ground (
      arith,
      wait_more-ne-done invoice db1 {db' = db'},
      invoices-credit_now env (set_progress n job.retry_count tx) invoice merchant coin db1
          {db' = db'},
    )

-- A job that reaches the end of `advance` with `done` has marked the invoice paid.
invoices-advance :
    (env : Env) (job : LedgerJob) (n : ℕ) (invoice : Invoice) (db : Db) {db' : Db}
    → advance env job n invoice db ≡ (ok done, db')
    → db'.invoices ≡ modify_where (is_invoice invoice.id) (set_paid env.fresh.now) db.invoices
unfolding advance
invoices-advance env job n invoice db e =
    let last = λ (merchant : Merchant) (coin : Coin).
      λ (tx : Transaction). with_tx env job n invoice merchant coin tx in
    let upsert = upsert_transaction env.fresh job invoice in
    let (merchant, db1, e1, k1) =
      >>=-eq-ok (load_merchant invoice.merchant_id)
        (λ merchant. load_coin invoice.coin_id >>= λ coin. upsert >>= last merchant coin) db e in
    let (coin, db2, e2, k2) =
      >>=-eq-ok (load_coin invoice.coin_id) (λ coin. upsert >>= last merchant coin) db1 k1 in
    let (tx, db3, e3, k3) = >>=-eq-ok upsert (last merchant coin) db2 k2 in
    let same1 : db1 ≡ db = sym (ap (λ (p : Result Merchant × Db). p.1) e1) in
    let same2 : db2 ≡ db1 = sym (ap (λ (p : Result Coin × Db). p.1) e2) in
    let same3 : db3.invoices ≡ db2.invoices =
      ap (λ (p : Result Transaction × Db). p.1.invoices) (sym e3)
      ∙ invoices-upsert env.fresh job invoice db2 in
    invoices-with_tx env job n invoice merchant coin tx db3 k3
    ∙ ap (modify_where (is_invoice invoice.id) (set_paid env.fresh.now))
        (same3 ∙ ap (λ (d : Db). d.invoices) (same2 ∙ same1))

advanced :
    (env : Env) (job : LedgerJob) (n : ℕ) (db : Db) (invoice : Invoice) {db' : Db}
    → Finds job db invoice
    → status_eq invoice.status InvoiceStatus.paid ≡ false
    → process_in_session env job n db ≡ (ok done, db')
    → advance env job n invoice db ≡ (ok done, db')
unfolding process_in_session continue_with
advanced env job n db invoice f unpaid e =
    let found = load_found job db invoice f in ground (arith, found, unpaid)

found_id :
    (job : LedgerJob) (db : Db) (invoice : Invoice)
    → Finds job db invoice
    → invoice.id ≡ job.invoice_id
found_id job db invoice f =
    (==_iff _ _).0 (select-holds (is_invoice job.invoice_id) db.invoices invoice [] f)

pub paid_found :
    (env : Env) (job : LedgerJob) (n : ℕ) (db : Db) (invoice : Invoice) {db' : Db}
    → Finds job db invoice
    → status_eq invoice.status InvoiceStatus.paid ≡ false
    → process_in_session env job n db ≡ (ok done, db')
    → Finds job db' (set_paid env.fresh.now invoice)
paid_found env job n db invoice {db'} f unpaid e =
    let update = λ (id : ℕ). modify_where (is_invoice id) (set_paid env.fresh.now) db.invoices in
    let changed : db'.invoices ≡ update job.invoice_id =
      invoices-advance env job n invoice db (advanced env job n db invoice f unpaid e)
      ∙ ap update (found_id job db invoice f) in
    rw changed (
      select-modify_where (is_invoice job.invoice_id) (set_paid env.fresh.now) db.invoices invoice
        (λ i. refl) f)

-- The database part of a job that finishes on an invoice not yet paid, and does not wait, leaves
-- that invoice paid at the time of the job, with all else of it as it was. The database part of a
-- job for the same invoice that starts on the database so left, of any transaction and with any
-- confirmations, returns and changes nothing.
pub credited_once :
    (env env' : Env) (job job' : LedgerJob) (n n' : ℕ) (db : Db) (invoice : Invoice) {db' : Db}
    → Finds job db invoice
    → status_eq invoice.status InvoiceStatus.paid ≡ false
    → job'.invoice_id ≡ job.invoice_id
    → process_in_session env job n db ≡ (ok done, db')
    → Finds job db' (set_paid env.fresh.now invoice)
      × (process_in_session env' job' n' db' ≡ (ok done, db'))
credited_once env env' job job' n n' db invoice {db'} f unpaid same e =
    let paid = paid_found env job n db invoice f unpaid e in
    (paid, process_paid env' job' n' db' (set_paid env.fresh.now invoice) (rw same paid) refl)
