-- ===== src/Ledger/Processor/Late/Rows.antt =====
-- What becomes of the table of invoices, whatever jobs run beside each other.
use crypto_pay_system.Prelude.{
  ℕ, ◌≡◌, refl, subst, ◌∙◌, Bool, Bool-cases, List, [], ◌∷◌, ◌++◌, inl, inr, ◌==◌, ltb, Option,
  none, some, arith,
}
use crypto_pay_system.Prelude.Exec.{Exec, Result, ok, err, already_credited, ◌>>◌, modify, pure}
use crypto_pay_system.Prelude.Rows.{modify_where}
use crypto_pay_system.Models.{InvoiceStatus, Invoice, Merchant, Coin, Transaction, Db, status_eq}
use crypto_pay_system.Ledger.Queue.{LedgerJob}
use crypto_pay_system.Ledger.Fee.{FeeResult}
use crypto_pay_system.Ledger.Accounting.{credit, set_paid, flush}
use crypto_pay_system.Ledger.Accounting.Credit.{credit_already}
use crypto_pay_system.Ledger.Processor.{
  Env, World, done, wait, inserted, with_tx, mark_pending, set_pending, set_progress, wait_more,
  credit_now, process,
}
use crypto_pay_system.Ledger.Processor.Settles.{
  After, Settles, Settles-bind, Settles-always, Settles-if,
}
use crypto_pay_system.Ledger.Processor.Once.{is_invoice, invoices-credit}
use crypto_pay_system.Ledger.Processor.Late.{Loaded, write_rows, late_process, late_process-process}
use crypto_pay_system.Ledger.Processor.Late.Keeps.{late-keeps}

-- the status of an invoice, and a later one
pub data Follows : InvoiceStatus → InvoiceStatus → Type 0 where
  same : {s : InvoiceStatus} → Follows s s
  waits : {s : InvoiceStatus} → Follows s InvoiceStatus.pending
  ends : {s : InvoiceStatus} → Follows s InvoiceStatus.paid

Follows-trans : {s t u : InvoiceStatus} → Follows s t → Follows t u → Follows s u
Follows-trans f same = f
Follows-trans f waits = waits
Follows-trans f ends = ends

-- an invoice, and the same row later
pub record Evolves (i j : Invoice) : Type 0 where
  pub id : j.id ≡ i.id
  pub coin_id : j.coin_id ≡ i.coin_id
  pub merchant_id : j.merchant_id ≡ i.merchant_id
  pub address : j.address ≡ i.address
  pub amount_expected : j.amount_expected ≡ i.amount_expected
  pub derivation_index : j.derivation_index ≡ i.derivation_index
  pub status : Follows i.status j.status

Evolves-refl : (i : Invoice) → Evolves i i
Evolves-refl i = record {
  id = refl;
  coin_id = refl;
  merchant_id = refl;
  address = refl;
  amount_expected = refl;
  derivation_index = refl;
  status = same;
}

Evolves-trans : {i j k : Invoice} → Evolves i j → Evolves j k → Evolves i k
Evolves-trans f g = record {
  id = g.id ∙ f.id;
  coin_id = g.coin_id ∙ f.coin_id;
  merchant_id = g.merchant_id ∙ f.merchant_id;
  address = g.address ∙ f.address;
  amount_expected = g.amount_expected ∙ f.amount_expected;
  derivation_index = g.derivation_index ∙ f.derivation_index;
  status = Follows-trans f.status g.status;
}

-- The rows of a table are in their places later, each evolved, with new rows behind them.
abbrev pub Grows : List Invoice → List Invoice → Type 0
Grows [] later = Unit
Grows (i ∷ rows) [] = ⊥
Grows (i ∷ rows) (j ∷ later) = Evolves i j × Grows rows later

pub Grows-refl : (rows : List Invoice) → Grows rows rows
Grows-refl [] = tt
Grows-refl (i ∷ rows) = (Evolves-refl i, Grows-refl rows)

pub Grows-trans : (a b c : List Invoice) → Grows a b → Grows b c → Grows a c
Grows-trans [] b c f g = tt
Grows-trans (i ∷ a) [] c f g = absurd f
Grows-trans (i ∷ a) (j ∷ b) [] f g = absurd g
Grows-trans (i ∷ a) (j ∷ b) (k ∷ c) f g = (Evolves-trans f.0 g.0, Grows-trans a b c f.1 g.1)

pub Grows-append : (rows new : List Invoice) → Grows rows (rows ++ new)
Grows-append [] new = tt
Grows-append (i ∷ rows) new = (Evolves-refl i, Grows-append rows new)

-- A change of some rows that keeps what Evolves names.
Grows-modify_where :
    (p : Invoice → Bool) (f : Invoice → Invoice) (rows : List Invoice)
    → ((i : Invoice) → Evolves i (f i))
    → Grows rows (modify_where p f rows)
unfolding modify_where
Grows-modify_where p f [] k = tt
Grows-modify_where p f (i ∷ rows) k = elim (Bool-cases (p i)) [
  | inl t ↦ rw t (k i, Grows-modify_where p f rows k)
  | inr n ↦ rw n (Evolves-refl i, Grows-modify_where p f rows k)
]

pending-Evolves : (i : Invoice) → Evolves i (set_pending i)
pending-Evolves i = record {
  id = refl;
  coin_id = refl;
  merchant_id = refl;
  address = refl;
  amount_expected = refl;
  derivation_index = refl;
  status = waits;
}

paid-Evolves : (now : ℕ) (i : Invoice) → Evolves i (set_paid now i)
paid-Evolves now i = record {
  id = refl;
  coin_id = refl;
  merchant_id = refl;
  address = refl;
  amount_expected = refl;
  derivation_index = refl;
  status = ends;
}

module _ (rows : List Invoice) where
  abbrev Grown : Db → Type 0
  Grown db = Grows rows db.invoices

  -- an action that leaves the invoices
  rest-Grown :
      {A : Type 0} (m : Exec Db A) → ((db : Db) → (m db).1.invoices ≡ db.invoices) → Settles Grown m
  rest-Grown m k = Settles-always m (λ db h. rw (k db) h)

  mark_pending-Grown : (invoice : Invoice) → Settles Grown (mark_pending invoice)
  unfolding mark_pending
  mark_pending-Grown invoice = Settles-always (mark_pending invoice) (λ db h.
      elim (Bool-cases (status_eq invoice.status InvoiceStatus.new)) [
        | inl t ↦ rw t (
            Grows-trans rows db.invoices _ h
              (Grows-modify_where (is_invoice invoice.id) set_pending db.invoices pending-Evolves))
        | inr f ↦ rw f h
      ])

  wait_more-Grown : (invoice : Invoice) → Settles Grown (wait_more invoice)
  unfolding wait_more flush
  wait_more-Grown invoice =
      Settles-bind (mark_pending invoice) (λ _. flush >> pure wait) (mark_pending-Grown invoice)
        (λ _. rest-Grown (flush >> pure wait) (λ db. ground arith))

  credit-Grown :
      (env : Env) (tx : Transaction) (invoice : Invoice) (merchant : Merchant) (coin : Coin)
      → Settles Grown (credit env.fresh tx invoice merchant coin)
  credit-Grown env tx invoice merchant coin = record {
    at = λ db h. ends db h (credit env.fresh tx invoice merchant coin db) refl;
  }
    where
      ends :
          (db : Db)
          → Grown db
          → (end : Result FeeResult × Db) → credit env.fresh tx invoice merchant coin db ≡ end
          → After Grown end
      ends db h (ok r, db') e = rw (invoices-credit env.fresh tx invoice merchant coin db e) (
          Grows-trans rows db.invoices _ h (
            Grows-modify_where (is_invoice invoice.id) (set_paid env.fresh.now) db.invoices
              (paid-Evolves env.fresh.now)))
      ends db h (err already_credited, db') e =
          let same : db' ≡ db =
            ground (arith, credit_already env.fresh tx invoice merchant coin db) in
          rw same h
      ends db h (err _, db') e = tt

  with_tx-Grown :
      (env : Env) (job : LedgerJob) (n : ℕ) (invoice : Invoice) (merchant : Merchant) (coin : Coin)
      (tx : Transaction)
      → Settles Grown (with_tx env job n invoice merchant coin tx)
  unfolding with_tx credit_now
  with_tx-Grown env job n invoice merchant coin tx =
      let progress = λ (db : Db). record db {
        transactions =
            modify_where (λ t. t.id == tx.id) (set_progress n job.retry_count) db.transactions;
      } in
      Settles-bind (modify progress) _ (rest-Grown (modify progress) (λ db. refl)) (λ _.
        Settles-if (ltb n env.settings.ledger_required_confirmations) (wait_more invoice) _
          (wait_more-Grown invoice)
          (Settles-bind (credit env.fresh (set_progress n job.retry_count tx) invoice merchant coin)
            (λ _. pure done) (credit-Grown env _ invoice merchant coin)
            (λ _. rest-Grown (pure done) (λ db. refl))))

  write_rows-Grown :
      (env : Env) (job : LedgerJob) (n : ℕ) (l : Option Loaded)
      → Settles Grown (write_rows env job n l)
  unfolding write_rows inserted
  write_rows-Grown env job n none = rest-Grown _ (λ db. refl)
  write_rows-Grown env job n (some l) =
      Settles-bind (inserted env.fresh job l.invoice l.found)
        (λ tx. with_tx env job n l.invoice l.merchant l.coin tx)
        (rest-Grown (inserted env.fresh job l.invoice l.found) (λ db. ground arith))
        (with_tx-Grown env job n l.invoice l.merchant l.coin)

-- A job leaves each invoice in its place, whatever it has read and whatever others have changed.
pub late-Grows :
    (commit : Result (Unit {0})) (env : Env) (job : LedgerJob) (old : Db) (w : World)
    → Grows w.db.invoices (late_process commit env job old w).1.db.invoices
late-Grows commit env job old w =
    late-keeps (Grown w.db.invoices) env job old (λ n. write_rows-Grown w.db.invoices env _ n)
      commit w (Grows-refl w.db.invoices)

pub process-Grows :
    (env : Env) (job : LedgerJob) (w : World)
    → Grows w.db.invoices (process env job w).1.db.invoices
process-Grows env job w =
    subst (λ (end : Result (Unit {0}) × World). Grows w.db.invoices end.1.db.invoices)
      (late_process-process env job w) (late-Grows (ok tt) env job w.db w)
