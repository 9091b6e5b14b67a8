-- ===== src/Ledger/Processor/Progress.antt =====
-- What a job does to the invoices: the statuses that `process` moves them through.
use crypto_pay_system.Prelude.{
  ℕ, ◌≡◌, refl, ap, ◌∙◌, true, false, List, [], ◌∷◌, Option, none, some, inl, inr, ltb, ==_iff,
  arith, Bool-cases, Each,
}
use crypto_pay_system.Prelude.Exec.{
  Exec, Result, ok, err, already_credited, atomically, ◌>>=◌, ◌>>◌, modify, pure, lift,
}
use crypto_pay_system.Prelude.Rows.{
  select, modify_where, modify_where-none, scalar_one_or_none, scalar_one_or_none-some,
  select-holds,
}
use crypto_pay_system.Models.{InvoiceStatus, Invoice, Merchant, Coin, Transaction, Db, status_eq}
use crypto_pay_system.Ledger.Queue.{LedgerJob}
use crypto_pay_system.Ledger.Fee.{FeeResult}
use crypto_pay_system.Ledger.Accounting.{credit, set_paid, flush}
use crypto_pay_system.Ledger.Accounting.Credit.{credit_already}
use crypto_pay_system.Ledger.Processor.{
  is_provider_error, Env, World, Next, done, wait, upsert_transaction, load_invoice, load_merchant,
  load_coin, set_progress, set_pending, mark_pending, wait_more, credit_now, with_tx, advance,
  continue_with, process_in_session, tolerant, checked, get_confirmations, process,
}
use crypto_pay_system.Ledger.Processor.Settles.{
  After, Settles, Settles-always, tolerated, rest-After,
}
use crypto_pay_system.Ledger.Processor.Leads.{Leads, always-Leads, bind-Leads, Leads-if}
use crypto_pay_system.Ledger.Processor.Keeps.{db-settled}
use crypto_pay_system.Ledger.Processor.Once.{is_invoice, invoices-credit, invoices-upsert}

-- the moves of an invoice at the time `now`
pub data Moves (now : ℕ) (i : Invoice) : Invoice → Type 0 where
  stay : Moves now i i
  confirm : i.status ≡ InvoiceStatus.new → Moves now i (record i { status = InvoiceStatus.pending })
  settle :
      status_eq i.status InvoiceStatus.paid ≡ false
      → Moves now i (record i { status = InvoiceStatus.paid; paid_at = some now })

module _ (now : ℕ) where
  pub stays-Each : (rows : List Invoice) → Each (Moves now) rows rows
  stays-Each [] = tt
  stays-Each (i ∷ rows) = (stay, stays-Each rows)

  Each-modify_where :
      (id : ℕ) (f : Invoice → Invoice) (i : Invoice) (rows : List Invoice)
      → select (is_invoice id) rows ≡ i ∷ []
      → Moves now i (f i)
      → Each (Moves now) rows (modify_where (is_invoice id) f rows)
  unfolding select modify_where
  Each-modify_where id f i [] e m = absurd (cc e)
  Each-modify_where id f i (r ∷ rows) e m = elim (Bool-cases (is_invoice id r)) [
    | inl t ↦
        let same : r ∷ select (is_invoice id) rows ≡ i ∷ [] = rw (← e, t) refl in
        let head : r ≡ i = cc same in
        let rest : modify_where (is_invoice id) f rows ≡ rows =
          modify_where-none (is_invoice id) f rows (cc same) in
        rw (t, head, rest) (m, stays-Each rows)
    | inr n ↦
        let later : select (is_invoice id) rows ≡ i ∷ [] = rw (← e, n) refl in
        rw n (stay, Each-modify_where id f i rows later m)
  ]

is_new : (s : InvoiceStatus) → status_eq s InvoiceStatus.new ≡ true → s ≡ InvoiceStatus.new
is_new InvoiceStatus.new t = refl
is_new InvoiceStatus.pending t = cc
is_new InvoiceStatus.partial t = cc
is_new InvoiceStatus.paid t = cc
is_new InvoiceStatus.expired t = cc

abbrev Untouched : List Invoice → Db → Type 0
Untouched rows db = db.invoices ≡ rows

abbrev Moved : Env → List Invoice → Db → Type 0
Moved env rows db = Each (Moves env.fresh.now) rows db.invoices

module _ (env : Env) (invoice : Invoice) (rows : List Invoice)
    (found : select (is_invoice invoice.id) rows ≡ invoice ∷ [])
    (unpaid : status_eq invoice.status InvoiceStatus.paid ≡ false) where
  Untouched-Moved : (db : Db) → Untouched rows db → Moved env rows db
  Untouched-Moved db h = rw h (stays-Each env.fresh.now rows)

  confirmed-Moved :
      (db : Db)
      → Untouched rows db
      → invoice.status ≡ InvoiceStatus.new
      → Moved env rows
          (record db { invoices = modify_where (is_invoice invoice.id) set_pending db.invoices })
  confirmed-Moved db h new =
      rw h (Each-modify_where env.fresh.now invoice.id set_pending invoice rows found (confirm new))

  settled-Moved :
      (db db' : Db)
      → Untouched rows db
      → db'.invoices ≡ modify_where (is_invoice invoice.id) (set_paid env.fresh.now) db.invoices
      → Moved env rows db'
  settled-Moved db db' h e =
      rw (e, h)
        (Each-modify_where env.fresh.now invoice.id (set_paid env.fresh.now) invoice rows found
          (settle unpaid))

  -- An action that ends in `Moved`, and one that keeps it.
  rest-Moved :
      {A B : Type 0} (m : Exec Db A) (f : A → Exec Db B)
      → Leads (Untouched rows) (Moved env rows) m
      → ((a : A) → Settles (Moved env rows) (f a))
      → Leads (Untouched rows) (Moved env rows) (m >>= f)
  rest-Moved m f hm hf = record { at = λ db h. rest-After (m db).0 (m db).1 f (hm.at db h) hf }

  mark_pending-Moved : Leads (Untouched rows) (Moved env rows) (mark_pending invoice)
  unfolding mark_pending
  mark_pending-Moved = record {
    at = λ db h. elim (Bool-cases (status_eq invoice.status InvoiceStatus.new)) [
      | inl t ↦ rw t (confirmed-Moved db h (is_new invoice.status t))
      | inr f ↦ rw f (Untouched-Moved db h)
    ];
  }

  wait_more-Moved : Leads (Untouched rows) (Moved env rows) (wait_more invoice)
  unfolding wait_more flush
  wait_more-Moved =
      rest-Moved (mark_pending invoice) (λ _. flush >> pure wait) mark_pending-Moved
        (λ _. Settles-always (flush >> pure wait) (λ db h. ground arith))

  credit-Moved :
      (tx : Transaction) (merchant : Merchant) (coin : Coin)
      → Leads (Untouched rows) (Moved env rows) (credit env.fresh tx invoice merchant coin)
  credit-Moved tx merchant coin = record {
    at = λ db h. ends db h (credit env.fresh tx invoice merchant coin db) refl;
  }
    where
      ends :
          (db : Db)
          → Untouched rows db
          → (end : Result FeeResult × Db) → credit env.fresh tx invoice merchant coin db ≡ end
          → After (Moved env rows) end
      ends db h (ok r, db') e =
          settled-Moved db db' h (invoices-credit env.fresh tx invoice merchant coin db e)
      ends db h (err already_credited, db') e =
          let same : db' ≡ db =
            ground (arith, credit_already env.fresh tx invoice merchant coin db) in
          rw same (Untouched-Moved db h)
      ends db h (err _, db') e = tt

  with_tx-Moved :
      (job : LedgerJob) (n : ℕ) (merchant : Merchant) (coin : Coin) (tx : Transaction)
      → Leads (Untouched rows) (Moved env rows) (with_tx env job n invoice merchant coin tx)
  unfolding with_tx credit_now
  with_tx-Moved job n merchant coin tx =
      bind-Leads (Untouched rows) (Moved env rows) (modify _) _ Untouched-Moved (λ db h. h)
        (λ _.
          Leads-if (Untouched rows) (Moved env rows)
            (ltb n env.settings.ledger_required_confirmations) (wait_more invoice) _ wait_more-Moved
            (rest-Moved (credit env.fresh (set_progress n job.retry_count tx) invoice merchant coin)
              (λ _. pure done) (credit-Moved _ merchant coin)
              (λ _. Settles-always (pure done) (λ db h. h))))

  advance-Moved :
      (job : LedgerJob) (n : ℕ)
      → Leads (Untouched rows) (Moved env rows) (advance env job n invoice)
  unfolding advance
  advance-Moved job n =
      let last = λ (merchant : Merchant) (coin : Coin).
        λ (tx : Transaction). with_tx env job n invoice merchant coin tx in
      let upsert = upsert_transaction env.fresh job invoice in
      bind-Leads (Untouched rows) (Moved env rows) (load_merchant invoice.merchant_id)
        (λ merchant. load_coin invoice.coin_id >>= λ coin. upsert >>= last merchant coin)
        Untouched-Moved (λ db h. h)
        λ merchant.
          bind-Leads (Untouched rows) (Moved env rows) (load_coin invoice.coin_id)
            (λ coin. upsert >>= last merchant coin) Untouched-Moved (λ db h. h)
            λ coin.
              bind-Leads (Untouched rows) (Moved env rows) upsert (last merchant coin)
                Untouched-Moved (λ db h. invoices-upsert env.fresh job invoice db ∙ h)
                (with_tx-Moved job n merchant coin)

module _ (env : Env) where
  found-Leads :
      (job : LedgerJob) (n : ℕ) (invoice : Invoice) (rows : List Invoice)
      → select (is_invoice invoice.id) rows ≡ invoice ∷ []
      → Leads (Untouched rows) (Moved env rows) (continue_with env job n (some invoice))
  unfolding continue_with
  found-Leads job n invoice rows found =
      elim (Bool-cases (status_eq invoice.status InvoiceStatus.paid)) [
        | inl t ↦ record { at = λ db h. rw (t, h) (stays-Each env.fresh.now rows) }
        | inr f ↦ record {
          at = λ db h. rw f ((advance-Moved env invoice rows found f job n).at db h);
        }
      ]

  loaded-After :
      (job : LedgerJob) (n : ℕ) (db : Db) (r : Result (Option Invoice))
      → scalar_one_or_none (select (is_invoice job.invoice_id) db.invoices) ≡ r
      → After (Moved env db.invoices) ((lift r >>= continue_with env job n) db)
  unfolding continue_with
  loaded-After job n db (ok none) e = stays-Each env.fresh.now db.invoices
  loaded-After job n db (ok (some invoice)) e =
      let found = scalar_one_or_none-some _ e in
      let named : invoice.id ≡ job.invoice_id =
        (==_iff _ _).0 (select-holds (is_invoice job.invoice_id) db.invoices invoice [] found) in
      (found-Leads job n invoice db.invoices
          (ap (λ k. select (is_invoice k) db.invoices) named ∙ found)).at
        db refl
  loaded-After job n db (err x) e =
      always-Leads (Untouched db.invoices) (Moved env db.invoices) {A = Next} (err x) db
        (stays-Each env.fresh.now db.invoices)

  session-Moved :
      (job : LedgerJob) (n : ℕ) (db : Db)
      → Moved env db.invoices (atomically (tolerant (process_in_session env job n)) db).1
  unfolding process_in_session load_invoice tolerant atomically
  session-Moved job n db =
      tolerated (Moved env db.invoices) (process_in_session env job n db).0 db
        (process_in_session env job n db).1 (stays-Each env.fresh.now db.invoices)
        (loaded-After job n db _ refl)

  checked-Moved :
      (job : LedgerJob) (r : Result ℕ) (w : World)
      → Moved env w.db.invoices (checked env job r w).1.db
  unfolding checked
  checked-Moved job (err e) w = elim (Bool-cases (is_provider_error e)) [
    | inl t ↦ rw t (stays-Each env.fresh.now w.db.invoices)
    | inr f ↦ rw f (stays-Each env.fresh.now w.db.invoices)
  ]
  checked-Moved job (ok n) w =
      let job' = record job { confirmations = n } in
      let (r, db') = atomically (tolerant (process_in_session env job' n)) w.db in
      rw (db-settled env job' w.queues r db') (session-Moved job' n w.db)

  -- A job moves each invoice of the table by itself, and adds and removes none: the invoice stays
  -- as it is, or it was NEW and becomes PENDING, or it was not PAID and becomes PAID at the time of
  -- the job; its owner, coin, address and amount stay in each case.
  pub process-Moves :
      (job : LedgerJob) (w : World)
      → Each (Moves env.fresh.now) w.db.invoices (process env job w).1.db.invoices
  unfolding process
  process-Moves job w = elim (Bool-cases (ltb env.settings.ledger_max_retries job.retry_count)) [
    | inl t ↦ rw t (stays-Each env.fresh.now w.db.invoices)
    | inr f ↦ rw f (checked-Moved job (get_confirmations env job) w)
  ]
