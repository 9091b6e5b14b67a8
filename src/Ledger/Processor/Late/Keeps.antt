-- ===== src/Ledger/Processor/Late/Keeps.antt =====
-- What a job that runs beside others keeps, and what it does to the queues.
use crypto_pay_system.Prelude.{
  ℕ, ◌≤◌, ◌≡◌, refl, sym, ap, ◌∙◌, ◌⊎◌, Bool-cases, inl, inr, Option, none, some, ltb, arith,
}
use crypto_pay_system.Prelude.Exec.{Exn, Result, ok, err, atomically, atomically-err, lift}
use crypto_pay_system.Models.{Coin, Merchant, Invoice, Transaction, Db}
use crypto_pay_system.Funds.{IsSolvent}
use crypto_pay_system.Ledger.Queue.{LedgerJob, Queues}
use crypto_pay_system.Ledger.Accounting.{Fresh, credit}
use crypto_pay_system.Ledger.Accounting.Credit.{credit-payouts}
use crypto_pay_system.Ledger.Processor.{
  is_provider_error, Env, World, Next, done, wait, inserted, with_tx, tolerant, settled, checked,
  get_confirmations,
}
use crypto_pay_system.Ledger.Processor.Settles.{
  Settles, Settles-bind, Settles-always, atomically-Settles,
}
use crypto_pay_system.Ledger.Processor.Keeps.{SameMoney, db-settled, with_tx-Settles}
use crypto_pay_system.Ledger.Processor.Solvent.{IsSolvent-SameMoney, credit-Settles}
use crypto_pay_system.Ledger.Processor.Retries.{
  requeued, settled_queues, checked_queues, checked_err, settled_err,
}
use crypto_pay_system.Ledger.Processor.Late.{
  Loaded, read_rows, write_rows, late_session, committed, late_checked, late_process,
}

committed-keeps :
    (P : Db → Type 0) (commit : Result (Unit {0})) (before : Db) (r : Result (Unit {0})) (w : World)
    → P before
    → P w.db
    → P (committed commit before (r, w)).1.db
unfolding committed
committed-keeps P (ok u) before r w h k = k
committed-keeps P (err e) before (ok u) w h k = h
committed-keeps P (err e) before (err x) w h k = k

pub inserted-SameMoney :
    (fresh : Fresh) (job : LedgerJob) (invoice : Invoice) (found : Option Transaction) (db : Db)
    → SameMoney db (inserted fresh job invoice found db).1
unfolding inserted
inserted-SameMoney fresh job invoice none db = ground arith
inserted-SameMoney fresh job invoice (some tx) db = ground arith

-- A job keeps what its writes settle, whatever it has read.
module _ (P : Db → Type 0) (env : Env) (job : LedgerJob) (old : Db)
    (writes : (n : ℕ) (l : Option Loaded)
      → Settles P (write_rows env (record job { confirmations = n }) n l)) where
  session-Settles : (n : ℕ) → Settles P (late_session env (record job { confirmations = n }) n old)
  unfolding late_session
  session-Settles n =
      let job' = record job { confirmations = n } in
      Settles-bind (lift (read_rows job' old).0) (write_rows env job' n)
        (Settles-always _ (λ db h. h)) (writes n)

  late_checked-keeps :
      (commit : Result (Unit {0})) (r : Result ℕ) (w : World)
      → P w.db
      → P (late_checked commit env job old r w).1.db
  unfolding late_checked checked
  late_checked-keeps commit (err e) w h = elim (Bool-cases (is_provider_error e)) [
    | inl t ↦ rw t h
    | inr f ↦ rw f h
  ]
  late_checked-keeps commit (ok n) w h =
      let job' = record job { confirmations = n } in
      let body = late_session env job' n old in
      let (r, db') = atomically (tolerant body) w.db in
      let (r', w') = settled env job' w.queues (r, db') in
      committed-keeps P commit w.db r' w' h (
        rw (db-settled env job' w.queues r db')
          (atomically-Settles body (session-Settles n) w.db h))

  pub late-keeps :
      (commit : Result (Unit {0})) (w : World) → P w.db → P (late_process commit env job old w).1.db
  unfolding late_process
  late-keeps commit w h = elim (Bool-cases (ltb env.settings.ledger_max_retries job.retry_count)) [
    | inl t ↦ rw t h
    | inr f ↦ rw f (late_checked-keeps commit (get_confirmations env job) w h)
  ]

module _ (P : Db → Type 0) (same : (db db' : Db) → SameMoney db db' → P db → P db')
    (credited : (fresh : Fresh) (tx : Transaction) (invoice : Invoice) (merchant : Merchant)
        (coin : Coin)
      → Settles P (credit fresh tx invoice merchant coin)) where
  write_rows-Settles :
      (env : Env) (job : LedgerJob) (n : ℕ) (l : Option Loaded) → Settles P (write_rows env job n l)
  unfolding write_rows
  write_rows-Settles env job n none = Settles-always _ (λ db h. h)
  write_rows-Settles env job n (some l) =
      let put = inserted env.fresh job l.invoice l.found in
      Settles-bind put (λ tx. with_tx env job n l.invoice l.merchant l.coin tx)
        (Settles-always put
          (λ db h. same db _ (inserted-SameMoney env.fresh job l.invoice l.found db) h))
        (with_tx-Settles P same credited env job n l.invoice l.merchant l.coin)

-- The books stay balanced, whatever other jobs have changed since the rows were read.
pub late-IsSolvent :
    (commit : Result (Unit {0})) (env : Env) (job : LedgerJob) (old : Db) (w : World)
    → IsSolvent w.db
    → IsSolvent (late_process commit env job old w).1.db
late-IsSolvent commit env job old =
    late-keeps IsSolvent env job old
      (λ n. write_rows-Settles IsSolvent (λ db db'. IsSolvent-SameMoney) credit-Settles env _ n)
      commit

pub late-payouts :
    (commit : Result (Unit {0})) (env : Env) (job : LedgerJob) (old : Db) (w : World)
    → (late_process commit env job old w).1.db.payouts ≡ w.db.payouts
late-payouts commit env job old w =
    let P = λ (db : Db). db.payouts ≡ w.db.payouts in
    late-keeps P env job old
      (λ n.
        write_rows-Settles P (λ db db' s h. s.payouts ∙ h)
          (λ fresh tx invoice merchant coin.
            Settles-always (credit fresh tx invoice merchant coin)
              (λ db h. credit-payouts fresh tx invoice merchant coin db ∙ h))
          env _ n)
      commit w refl

committed_queues :
    (commit : Result (Unit {0})) (before : Db) (r : Result (Unit {0})) (w : World)
    → (committed commit before (r, w)).1.queues ≡ w.queues
unfolding committed
committed_queues (ok u) before r w = refl
committed_queues (err e) before (ok u) w = refl
committed_queues (err e) before (err x) w = refl

late_checked_queues :
    (commit : Result (Unit {0})) (env : Env) (job : LedgerJob) (old : Db) (r : Result ℕ) (w : World)
    → ((late_checked commit env job old r w).1.queues ≡ w.queues)
      ⊎ ((n : ℕ) × ((late_checked commit env job old r w).1.queues ≡ requeued env job n w.queues))
unfolding late_checked
late_checked_queues commit env job old (err e) w = checked_queues env job (err e) w
late_checked_queues commit env job old (ok n) w =
    let job' = record job { confirmations = n } in
    let (r, db') = atomically (tolerant (late_session env job' n old)) w.db in
    let (r', w') = settled env job' w.queues (r, db') in
    let same = committed_queues commit w.db r' w' in
    elim (settled_queues env job' w.queues r db') [
      | inl kept ↦ inl (same ∙ kept)
      | inr more ↦ inr (n, same ∙ more)
    ]

-- The queues as `process` leaves them: with one retry more of the job, below the limit, or the same.
pub late_queues :
    (commit : Result (Unit {0})) (env : Env) (job : LedgerJob) (old : Db) (w : World)
    → ((late_process commit env job old w).1.queues ≡ w.queues)
      ⊎ ((n : ℕ) × ((late_process commit env job old w).1.queues ≡ requeued env job n w.queues)
          × (job.retry_count ≤ env.settings.ledger_max_retries))
unfolding late_process
late_queues commit env job old w =
    elim (Bool-cases (ltb env.settings.ledger_max_retries job.retry_count)) [
      | inl t ↦ inl (rw t refl)
      | inr f ↦ elim (late_checked_queues commit env job old (get_confirmations env job) w) [
        | inl same ↦ inl (rw f same)
        | inr (n, more) ↦ inr (n, rw f more, ground arith)
      ]
    ]

settled_db :
    (env : Env) (job : LedgerJob) (q : Queues) (r : Result Next) (db : Db) {e : Exn} {w : World}
    → settled env job q (r, db) ≡ (err e, w)
    → (r ≡ err e) × (w ≡ record { db = db; queues = q })
unfolding settled
settled_db env job q (ok done) db h = absurd (cc h)
settled_db env job q (ok wait) db h = absurd (cc h)
settled_db env job q (err x) db h = (cc h, cc h)

committed_err :
    (commit : Result (Unit {0})) (before : Db) (r : Result (Unit {0})) (w : World) {e : Exn}
    {w' : World}
    → committed commit before (r, w) ≡ (err e, w')
    → ((r ≡ err e) × (w' ≡ w)) ⊎ ((commit ≡ err e) × (w' ≡ record w { db = before }))
unfolding committed
committed_err (ok u) before (ok v) w h = absurd (cc h)
committed_err (ok u) before (err x) w h = inl (cc h, cc h)
committed_err (err y) before (ok v) w h = inr (cc h, cc h)
committed_err (err y) before (err x) w h = inl (cc h, cc h)

-- the world with the queues `q`
abbrev pub with_retry : Env → LedgerJob → ℕ → World → World
with_retry env job n w = record w { queues = requeued env job n w.queues }

-- an exception that gets through: everything is as it was, or COMMIT has failed after a push
abbrev pub Survives : Result (Unit {0}) → Env → LedgerJob → World → Exn → World → Type 0
Survives commit env job w e w' =
    (w' ≡ w) ⊎ ((commit ≡ err e) × ((n : ℕ) × (w' ≡ with_retry env job n w)))

late_checked_err :
    (commit : Result (Unit {0})) (env : Env) (job : LedgerJob) (old : Db) (r : Result ℕ) (w : World)
    {e : Exn} {w' : World}
    → late_checked commit env job old r w ≡ (err e, w')
    → Survives commit env job w e w'
unfolding late_checked
late_checked_err commit env job old (err x) w h = inl (checked_err env job (err x) w h)
late_checked_err commit env job old (ok n) w {e} {w'} h =
    let job' = record job { confirmations = n } in
    let m = tolerant (late_session env job' n old) in
    let (r, db') = atomically m w.db in
    let (r', s) = settled env job' w.queues (r, db') in
    elim (committed_err commit w.db r' s h) [
      | inl (raised, same) ↦ inl (
          settled_err env job' w r db' (λ k. atomically-err m w.db {e = e} (cc k))
            (ap (λ x. (x, s)) raised ∙ ap (λ x. (err e, x)) (sym same)))
      | inr (failed, rolled) ↦ elim (settled_queues env job' w.queues r db') [
        | inl kept ↦ inl (rolled ∙ ap (λ q. record { db = w.db; queues = q }) kept)
        | inr more ↦ inr (failed, (n, rolled ∙ ap (λ q. record { db = w.db; queues = q }) more))
      ]
    ]

-- An exception that gets through `process`, whatever other jobs have done between its reads and its
-- writes and whatever COMMIT answers, leaves the database as it was. It leaves both queues as they
-- were too, unless it is COMMIT that has failed: then the queues may have the job once more, with
-- one retry more, since the retry was pushed before.
pub late_process_err :
    (commit : Result (Unit {0})) (env : Env) (job : LedgerJob) (old : Db) (w : World) {e : Exn}
    {w' : World}
    → late_process commit env job old w ≡ (err e, w')
    → Survives commit env job w e w'
unfolding late_process
late_process_err commit env job old w {e} {w'} h =
    elim (Bool-cases (ltb env.settings.ledger_max_retries job.retry_count)) [
      | inl t ↦ absurd (ground arith)
      | inr f ↦
          late_checked_err commit env job old (get_confirmations env job) w {e = e} {w' = w'}
            (ground arith)
    ]
