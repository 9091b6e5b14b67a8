-- ===== src/Ledger/Processor/Late/Twice.antt =====
-- Two jobs of services/ledger/processor.py for one invoice, each of which has read the invoice before
-- the other has written.
use crypto_pay_system.Prelude.{ℕ, ◌≤◌, ◌≡◌, sym, ap, ◌∙◌, Option, none, some, arith, ◌==◌}
use crypto_pay_system.Prelude.Exec.{Result, ok, pure, lift, ◌>>=◌, >>=-eq-ok}
use crypto_pay_system.Prelude.Int.{ℤ, ◌+ℤ◌}
use crypto_pay_system.Prelude.Rows.{modify_where}
use crypto_pay_system.Models.{Invoice, Merchant, Coin, Transaction, Db}
use crypto_pay_system.Funds.{held}
use crypto_pay_system.Ledger.Fee.{FeeResult, calculate_fee}
use crypto_pay_system.Ledger.Queue.{LedgerJob}
use crypto_pay_system.Ledger.Accounting.{Fresh, flush, credit}
use crypto_pay_system.Ledger.Accounting.Solvency.{share, credit_lem}
use crypto_pay_system.Ledger.Processor.{Env, done, inserted, set_progress, credit_now, with_tx}
use crypto_pay_system.Ledger.Processor.Late.{Loaded, read_rows, write_rows, late_session}
use crypto_pay_system.Ledger.Processor.Late.Keeps.{inserted-SameMoney}

-- the amount of the Transaction that a job credits
abbrev pub received : LedgerJob → Loaded → ℕ
received job l = elim l.found [ none ↦ job.amount_sat | some t ↦ t.amount_received ]

-- the net amount that a job credits to the account of merchant `m` and coin `c`
abbrev pub credit_of : ℕ → ℕ → LedgerJob → Loaded → ℤ
credit_of m c job l =
    share m c l.merchant.id l.coin.id
      (calculate_fee (received job l) l.merchant.commission_pcent).net

-- A job that has read the database `old` and found there an invoice to credit.
abbrev pub Read : LedgerJob → Db → Loaded → Type 0
Read job old l = (read_rows job old).0 ≡ ok (some l)

inserted_amount :
    (fresh : Fresh) (job : LedgerJob) (l : Loaded) (found : Option Transaction) (db : Db)
    {tx : Transaction} {db' : Db}
    → inserted fresh job l.invoice found db ≡ (ok tx, db')
    → tx.amount_received ≡ received job (record l { found = found })
unfolding inserted flush
inserted_amount fresh job l none db e = ground arith
inserted_amount fresh job l (some t) db e = ground arith

with_tx_credit :
    (env : Env) (job : LedgerJob) (n : ℕ) (invoice : Invoice) (merchant : Merchant) (coin : Coin)
    (tx : Transaction) (db : Db) {db' : Db}
    → env.settings.ledger_required_confirmations ≤ n
    → with_tx env job n invoice merchant coin tx db ≡ (ok done, db')
    → credit_now env (set_progress n job.retry_count tx) invoice merchant coin (record db {
      transactions =
          modify_where (λ t. t.id == tx.id) (set_progress n job.retry_count) db.transactions;
    })
      ≡ (ok done, db')
unfolding with_tx
with_tx_credit env job n invoice merchant coin tx db enough e = ground arith

module _ (m c : ℕ) where
  held-with_tx :
      (env : Env) (job : LedgerJob) (n : ℕ) (invoice : Invoice) (merchant : Merchant) (coin : Coin)
      (tx : Transaction) (db : Db) {db' : Db}
      → env.settings.ledger_required_confirmations ≤ n
      → with_tx env job n invoice merchant coin tx db ≡ (ok done, db')
      → held m c db'
        ≡ held m c db
          +ℤ share m c merchant.id coin.id
              (calculate_fee tx.amount_received merchant.commission_pcent).net
  unfolding credit_now
  held-with_tx env job n invoice merchant coin tx db {db'} enough e =
      let tx' = set_progress n job.retry_count tx in
      let db1 = record db {
        transactions =
            modify_where (λ t. t.id == tx.id) (set_progress n job.retry_count) db.transactions;
      } in
      let (r, db2, e1, k1) =
        >>=-eq-ok (credit env.fresh tx' invoice merchant coin) (λ _. pure done) db1
          (with_tx_credit env job n invoice merchant coin tx db enough e) in
      let (_, fee, h, _, _) = credit_lem m c env.fresh tx' invoice merchant coin db1 e1 in
      let same : db' ≡ db2 = cc k1 in
      rw same (h ∙ ap (λ (f : FeeResult). held m c db +ℤ share m c merchant.id coin.id f.net) fee)

  -- what a job credits, whatever has become of the rows since it has read them
  held-late :
      (env : Env) (job : LedgerJob) (n : ℕ) (old db : Db) (l : Loaded) {db' : Db}
      → env.settings.ledger_required_confirmations ≤ n
      → Read job old l
      → late_session env job n old db ≡ (ok done, db')
      → held m c db' ≡ held m c db +ℤ credit_of m c job l
  unfolding late_session write_rows
  held-late env job n old db l {db'} enough read e =
      let writes : write_rows env job n (some l) db ≡ (ok done, db') =
        ap (λ (r : Result (Option Loaded)). (lift r >>= write_rows env job n) db) (sym read) ∙ e in
      let (tx, db1, e1, k1) =
        >>=-eq-ok (inserted env.fresh job l.invoice l.found)
          (λ tx. with_tx env job n l.invoice l.merchant l.coin tx) db writes in
      let same = inserted-SameMoney env.fresh job l.invoice l.found db in
      let money : db1.balances ≡ db.balances =
        ap (λ (p : Result Transaction × Db). p.1.balances) (sym e1) ∙ same.balances in
      let amount = inserted_amount env.fresh job l l.found db e1 in
      held-with_tx env job n l.invoice l.merchant l.coin tx db1 enough k1
      ∙ ap
          (λ (a : ℕ).
            held m c db1
            +ℤ share m c l.merchant.id l.coin.id (calculate_fee a l.merchant.commission_pcent).net)
          amount
      ∙ ap (λ b. held m c (record db { balances = b }) +ℤ credit_of m c job l) money

  -- Two jobs for one invoice that have both read it before either has written, each with the
  -- required confirmations and without an exception, credit it twice, the second on top of the
  -- first: the account grows by the net amount that the first job credits and by the one that the
  -- second credits.
  pub credited_twice :
      (env env' : Env) (job job' : LedgerJob) (n n' : ℕ) (old db : Db) (l l' : Loaded)
      {db1 db2 : Db}
      → job'.invoice_id ≡ job.invoice_id
      → Read job old l
      → Read job' old l'
      → env.settings.ledger_required_confirmations ≤ n
      → env'.settings.ledger_required_confirmations ≤ n'
      → late_session env job n old db ≡ (ok done, db1)
      → late_session env' job' n' old db1 ≡ (ok done, db2)
      → held m c db2 ≡ (held m c db +ℤ credit_of m c job l) +ℤ credit_of m c job' l'
  credited_twice env env' job job' n n' old db l l' {db1} same read read' enough enough' e e' =
      held-late env' job' n' old db1 l' enough' read' e'
      ∙ ap (λ (h : ℤ). h +ℤ credit_of m c job' l') (held-late env job n old db l enough read e)
