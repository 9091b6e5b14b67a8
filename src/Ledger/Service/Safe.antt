-- ===== src/Ledger/Service/Safe.antt =====
-- What holds of the ledger service in every state that it reaches.
use crypto_pay_system.Prelude.{◌≤◌, ◌+◌, ◌≡◌, ap, length, length-append, arith, List, [], ◌∷◌, ◌++◌}
use crypto_pay_system.Models.{Settings}
use crypto_pay_system.Funds.{IsSolvent}
use crypto_pay_system.Ledger.Processor.Solvent.{process-IsSolvent}
use crypto_pay_system.Ledger.Processor.Late.Keeps.{late-IsSolvent}
use crypto_pay_system.Ledger.Queue.{LedgerJob}
use crypto_pay_system.Ledger.Service.{
  LedgerService, Work, consume, start, finish, finish_late, promote, Step, work, arrive, Reach,
  here, next, promoted,
}

-- The books balance, and no more jobs run at a time than the semaphore admits.
abbrev pub IsSafe : Settings → LedgerService → Type 0
IsSafe settings s = IsSolvent s.world.db × (length s.running ≤ settings.ledger_concurrency)

length-remove :
    (before : List LedgerJob) (job : LedgerJob) (after : List LedgerJob)
    → length (before ++ job ∷ after) ≡ length (before ++ after) + 1
length-remove before job after =
    grind (arith, length-append before (job ∷ after), length-append before after)

pub Work-IsSafe :
    {settings : Settings} {s t : LedgerService}
    → Work settings s t
    → IsSafe settings s
    → IsSafe settings t
unfolding promoted
Work-IsSafe (consume s job q e) h = h
Work-IsSafe (start s job rest e free) h = (h.0, grind (arith, length-append s.running (job ∷ [])))
Work-IsSafe (finish s env before job after same e) h = (
  process-IsSolvent env job s.world h.0,
  grind (arith, length-remove before job after, ap length e),
)
Work-IsSafe (finish_late s env before job after commit old same e) h = (
  late-IsSolvent commit env job old s.world h.0,
  grind (arith, length-remove before job after, ap length e),
)
Work-IsSafe (promote s now some_due) h = h

Step-IsSafe :
    {settings : Settings} {s t : LedgerService}
    → Step settings s t
    → IsSafe settings s
    → IsSafe settings t
Step-IsSafe (work w) h = Work-IsSafe w h
Step-IsSafe (arrive s p) h = h

-- However the rounds of the consumer, the tasks and the retry promoter interleave, with any answers
-- of the providers and any payloads that arrive, in every state that the service reaches from one
-- whose books balance: every account holds what the fee log has credited to it, and at most
-- `ledger_concurrency` jobs run at a time.
pub Reach-IsSafe :
    {settings : Settings} {s t : LedgerService}
    → Reach settings s t
    → IsSafe settings s
    → IsSafe settings t
Reach-IsSafe here h = h
Reach-IsSafe (next r st) h = Step-IsSafe st (Reach-IsSafe r h)
