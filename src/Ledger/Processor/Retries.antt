-- ===== src/Ledger/Processor/Retries.antt =====
-- What a job does to the queues.
use crypto_pay_system.Prelude.{ℕ, ◌≤◌, ◌≡◌, refl, ◌⊎◌, inl, inr, Bool-cases, ltb, arith}
use crypto_pay_system.Prelude.Exec.{Exn, Result, ok, err, atomically, atomically-err}
use crypto_pay_system.Models.{Db}
use crypto_pay_system.Ledger.Queue.{LedgerJob, Queues, push_retry}
use crypto_pay_system.Ledger.Processor.{
  is_provider_error, Env, World, Next, done, wait, process_in_session, tolerant, settled, checked,
  get_confirmations, process,
}

-- the queues of `q` with one more retry of `job`, which has had `n` confirmations
abbrev pub requeued : Env → LedgerJob → ℕ → Queues → Queues
requeued env job n = push_retry env.settings env.fresh.now (record job { confirmations = n })

pub settled_queues :
    (env : Env) (job : LedgerJob) (q : Queues) (r : Result Next) (db : Db)
    → ((settled env job q (r, db)).1.queues ≡ q)
      ⊎ ((settled env job q (r, db)).1.queues ≡ push_retry env.settings env.fresh.now job q)
unfolding settled
settled_queues env job q (ok done) db = inl refl
settled_queues env job q (ok wait) db = inr refl
settled_queues env job q (err e) db = inl refl

pub checked_queues :
    (env : Env) (job : LedgerJob) (r : Result ℕ) (w : World)
    → ((checked env job r w).1.queues ≡ w.queues)
      ⊎ ((n : ℕ) × ((checked env job r w).1.queues ≡ requeued env job n w.queues))
unfolding checked
checked_queues env job (err e) w = elim (Bool-cases (is_provider_error e)) [
  | inl t ↦ inr (job.confirmations, rw t refl)
  | inr f ↦ inl (rw f refl)
]
checked_queues env job (ok n) w =
    let job' = record job { confirmations = n } in
    let (r, db') = atomically (tolerant (process_in_session env job' n)) w.db in
    elim (settled_queues env job' w.queues r db') [ inl same ↦ inl same | inr more ↦ inr (n, more) ]

-- A job is put back at most once, as the same job with one retry more (and the confirmations that
-- were seen), and only while it has not passed the limit of retries; otherwise the queues are as
-- they were. So the retries of a job end.
pub process_queues :
    (env : Env) (job : LedgerJob) (w : World)
    → ((process env job w).1.queues ≡ w.queues)
      ⊎ ((n : ℕ) × ((process env job w).1.queues ≡ requeued env job n w.queues)
          × (job.retry_count ≤ env.settings.ledger_max_retries))
unfolding process
process_queues env job w = elim (Bool-cases (ltb env.settings.ledger_max_retries job.retry_count)) [
  | inl t ↦ inl (rw t refl)
  | inr f ↦ elim (checked_queues env job (get_confirmations env job) w) [
    | inl same ↦ inl (rw f same)
    | inr (n, more) ↦ inr (n, rw f more, ground arith)
  ]
]

pub settled_err :
    (env : Env) (job : LedgerJob) (w : World) (r : Result Next) (db : Db) {e : Exn} {w' : World}
    → (r ≡ err e → db ≡ w.db)
    → settled env job w.queues (r, db) ≡ (err e, w')
    → w' ≡ w
unfolding settled
settled_err env job w (ok done) db k h = cc
settled_err env job w (ok wait) db k h = cc
settled_err env job w (err x) db k h = ground (arith, k)

pub checked_err :
    (env : Env) (job : LedgerJob) (r : Result ℕ) (w : World) {e : Exn} {w' : World}
    → checked env job r w ≡ (err e, w')
    → w' ≡ w
unfolding checked
checked_err env job (err x) w h = ground arith
checked_err env job (ok n) w {e} h =
    let job' = record job { confirmations = n } in
    let m = tolerant (process_in_session env job' n) in
    let (r, db') = atomically m w.db in
    settled_err env job' w r db' (λ k. atomically-err m w.db {e = e} (cc k)) h
