-- ===== src/Ledger/Processor/Solvent.antt =====
-- The books before and after a job of TxProcessor.
use crypto_pay_system.Prelude.{◌≡◌, refl, arith, ◌∙◌}
use crypto_pay_system.Prelude.Exec.{Result, ok, err, already_credited}
use crypto_pay_system.Models.{Coin, Merchant, Invoice, Transaction, Db}
use crypto_pay_system.Funds.{IsSolvent}
use crypto_pay_system.Ledger.Queue.{LedgerJob}
use crypto_pay_system.Ledger.Accounting.{Fresh, credit}
use crypto_pay_system.Ledger.Fee.{FeeResult}
use crypto_pay_system.Ledger.Accounting.Credit.{credit_already, credit-payouts}
use crypto_pay_system.Ledger.Accounting.Solvency.{credit-IsSolvent}
use crypto_pay_system.Ledger.Processor.{Env, World, process}
use crypto_pay_system.Ledger.Processor.Keeps.{SameMoney, process-keeps}
use crypto_pay_system.Ledger.Processor.Settles.{After, Settles, Settles-always}

pub IsSolvent-SameMoney : {db db' : Db} → SameMoney db db' → IsSolvent db → IsSolvent db'
IsSolvent-SameMoney s h m c = rw (s.balances, s.fee_logs, s.payouts) (h m c)

credit-After :
    (fresh : Fresh) (tx : Transaction) (invoice : Invoice) (merchant : Merchant) (coin : Coin)
    (db : Db) (r : Result FeeResult) (db' : Db)
    → credit fresh tx invoice merchant coin db ≡ (r, db')
    → IsSolvent db
    → After IsSolvent (r, db')
credit-After fresh tx invoice merchant coin db (ok r) db' e h =
    credit-IsSolvent fresh tx invoice merchant coin db h e
credit-After fresh tx invoice merchant coin db (err already_credited) db' e h =
    let same : db' ≡ db = ground (arith, credit_already fresh tx invoice merchant coin db) in
    rw same h
credit-After fresh tx invoice merchant coin db (err _) db' e h = tt

pub credit-Settles :
    (fresh : Fresh) (tx : Transaction) (invoice : Invoice) (merchant : Merchant) (coin : Coin)
    → Settles IsSolvent (credit fresh tx invoice merchant coin)
credit-Settles fresh tx invoice merchant coin = record {
  at = λ db h.
      let (r, db') = credit fresh tx invoice merchant coin db in
      credit-After fresh tx invoice merchant coin db r db' refl h;
}

-- Whatever a job is and whatever becomes of it (discarded, retried, credited, or stopped by an
-- exception), processing it keeps the books balanced: every account holds what the fee log has
-- booked for it less what was sent.
pub process-IsSolvent :
    (env : Env) (job : LedgerJob) (w : World) → IsSolvent w.db → IsSolvent (process env job w).1.db
process-IsSolvent = process-keeps IsSolvent (λ db db'. IsSolvent-SameMoney) credit-Settles

-- A job leaves the payouts alone.
pub process-payouts :
    (env : Env) (job : LedgerJob) (w : World) → (process env job w).1.db.payouts ≡ w.db.payouts
process-payouts env job w =
    process-keeps (λ db. db.payouts ≡ w.db.payouts) (λ db db' s h. s.payouts ∙ h)
      (λ fresh tx invoice merchant coin.
        Settles-always (credit fresh tx invoice merchant coin)
          (λ db h. credit-payouts fresh tx invoice merchant coin db ∙ h))
      env job w refl
