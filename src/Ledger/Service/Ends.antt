-- ===== src/Ledger/Service/Ends.antt =====
-- The runs of the ledger service without new payloads: how long they are, and where they end.
use crypto_pay_system.Prelude.{
  ℕ, zero, suc, ◌+◌, ◌≤◌, ◌<◌, ◌≡◌, refl, ap, subst, ◌⊎◌, inl, inr, arith, List, [], ◌∷◌,
}
use crypto_pay_system.Models.{Settings, Db}
use crypto_pay_system.Ledger.Queue.{LedgerJob, Payload, pop, promote_due_retries}
use crypto_pay_system.Ledger.Queue.Order.{due-cons}
use crypto_pay_system.Ledger.Processor.{Env, World, process}
use crypto_pay_system.Prelude.Exec.{Result}
use crypto_pay_system.Ledger.Processor.Late.{late_process}
use crypto_pay_system.Ledger.Processor.Late.Keeps.{late_queues}
use crypto_pay_system.Ledger.Processor.Retries.{process_queues}
use crypto_pay_system.Ledger.Service.{
  LedgerService, Work, consume, start, finish, finish_late, promote, promoted,
}
use crypto_pay_system.Ledger.Service.Weights.{
  total, total-append, rounds_left, weight_retry, weight_running, weight_waiting, weight_queues,
  weight, pop_weight, push_retry_weight, promote_weight,
}

-- a number of steps, one after the other
pub data Run (settings : Settings) : ℕ → LedgerService → LedgerService → Type 0 where
  stop : {s : LedgerService} → Run settings 0 s s
  go :
      {n : ℕ} {s t u : LedgerService}
      → Work settings s t
      → Run settings n t u
      → Run settings (suc n) s u

-- no job is on a queue or in a task
abbrev pub IsIdle : LedgerService → Type 0
IsIdle s =
    (s.world.queues.hot ≡ []) × (s.world.queues.retry ≡ []) × (s.waiting ≡ []) × (s.running ≡ [])

process_weight :
    (env : Env) (job : LedgerJob) (w : World)
    → weight_queues env.settings (process env job w).1.queues
      < weight_queues env.settings w.queues + weight_running env.settings job
unfolding weight_running weight_retry rounds_left
process_weight env job w = elim (process_queues env job w) [
  | inl same ↦ rw same (omega arith)
  | inr (n, more, few) ↦
      let put =
        push_retry_weight env.settings env.fresh.now (record job { confirmations = n }) w.queues in
      rw more (omega arith)
]

late_weight :
    (commit : Result (Unit {0})) (env : Env) (job : LedgerJob) (old : Db) (w : World)
    → weight_queues env.settings (late_process commit env job old w).1.queues
      < weight_queues env.settings w.queues + weight_running env.settings job
unfolding weight_running weight_retry rounds_left
late_weight commit env job old w = elim (late_queues commit env job old w) [
  | inl same ↦ rw same (omega arith)
  | inr (n, more, few) ↦
      let put =
        push_retry_weight env.settings env.fresh.now (record job { confirmations = n }) w.queues in
      rw more (omega arith)
]

Work-weight :
    {settings : Settings} {s t : LedgerService}
    → Work settings s t
    → weight settings t < weight settings s
unfolding weight promoted total weight_queues weight_waiting weight_running
Work-weight {settings} (consume s job q e) =
    let popped = pop_weight settings s.world.queues job q e in
    let sum = total-append (weight_waiting settings) s.waiting (job ∷ []) in omega arith
Work-weight {settings} (start s job rest e free) =
    let sum = total-append (weight_running settings) s.running (job ∷ []) in
    let front = ap (total (weight_waiting settings)) e in omega arith
Work-weight {settings} (finish s env before job after same e) =
    let less =
      subst
        (λ st.
          weight_queues st (process env job s.world).1.queues
          < weight_queues st s.world.queues + weight_running st job)
        same (process_weight env job s.world) in
    let sum = total-append (weight_running settings) before (job ∷ after) in
    let sum' = total-append (weight_running settings) before after in
    let front = ap (total (weight_running settings)) e in omega arith
Work-weight {settings} (finish_late s env before job after commit old same e) =
    let less =
      subst
        (λ st.
          weight_queues st (late_process commit env job old s.world).1.queues
          < weight_queues st s.world.queues + weight_running st job)
        same (late_weight commit env job old s.world) in
    let sum = total-append (weight_running settings) before (job ∷ after) in
    let sum' = total-append (weight_running settings) before after in
    let front = ap (total (weight_running settings)) e in omega arith
Work-weight {settings} (promote s now some_due) =
    let less = promote_weight settings now s.world.queues in omega arith

-- While no payload arrives, the service takes at most as many steps as its weight, in whichever
-- order: each job on the queues and in the tasks counts four steps for every retry that it has
-- left and two more rounds, and what stands between it and its next round.
pub Run-bound :
    {settings : Settings} {n : ℕ} {s t : LedgerService}
    → Run settings n s t
    → n + weight settings t ≤ weight settings s
Run-bound stop = omega arith
Run-bound (go w r) = let less = Work-weight w in let rest = Run-bound r in omega arith

progress_cases :
    (env : Env) (db : Db) (hot : List Payload) (retry : List (Payload × ℕ))
    (waiting running : List LedgerJob)
    → 0 < env.settings.ledger_concurrency
    → let s : LedgerService = record {
      world = record { db = db; queues = record { hot = hot; retry = retry } };
      waiting = waiting;
      running = running;
    } in
      IsIdle s ⊎ ((t : LedgerService) × Work env.settings s t)
unfolding pop promote_due_retries
progress_cases env db (p ∷ ps) retry waiting running free = inr (_, consume _ _ _ refl)
progress_cases env db [] retry waiting (job ∷ rest) free =
    inr (_, finish _ env [] job rest refl refl)
progress_cases env db [] retry (job ∷ rest) [] free = inr (_, start _ job rest refl free)
progress_cases env db [] (e ∷ es) [] [] free =
    inr (_, promote _ e.1 (rw (due-cons e.1 e es) (ground arith)))
progress_cases env db [] [] [] [] free = inl (refl, refl, refl, refl)

progress :
    (env : Env) (s : LedgerService)
    → 0 < env.settings.ledger_concurrency
    → IsIdle s ⊎ ((t : LedgerService) × Work env.settings s t)
progress env s free =
    progress_cases env s.world.db s.world.queues.hot s.world.queues.retry s.waiting s.running free

drains_within :
    (env : Env) (bound : ℕ) (s : LedgerService)
    → 0 < env.settings.ledger_concurrency
    → weight env.settings s ≤ bound
    → (n : ℕ) × ((t : LedgerService) × (Run env.settings n s t × IsIdle t))
drains_within env zero s free small = elim (progress env s free) [
  | inl idle ↦ (0, (s, (stop, idle)))
  | inr (t, w) ↦ absurd (omega (arith, Work-weight w))
]
drains_within env (suc bound) s free small = elim (progress env s free) [
  | inl idle ↦ (0, (s, (stop, idle)))
  | inr (t, w) ↦
      let (n, (u, (r, idle))) = drains_within env bound t free (omega (arith, Work-weight w)) in
      (suc n, (u, (go w r, idle)))
]

-- When the semaphore admits a job at all, then from every state there is a run of the service that
-- ends with no job on the queues or in a task, whatever the provider answers: no state is stuck
-- with work left, and the run ends.
pub drains :
    (env : Env) (s : LedgerService)
    → 0 < env.settings.ledger_concurrency
    → (n : ℕ) × ((t : LedgerService) × (Run env.settings n s t × IsIdle t))
drains env s free = drains_within env (weight env.settings s) s free (omega arith)
