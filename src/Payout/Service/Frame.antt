-- ===== src/Payout/Service/Frame.antt =====
-- What a step of a task only reads.
use crypto_pay_system.Prelude.{ℕ}
use crypto_pay_system.Models.{Db}
use crypto_pay_system.Payout.Processor.{Env, prepare, persist, finalise}
use crypto_pay_system.Payout.Processor.Frame.{
  Reads, Reads-refl, atomically-Reads, prepare-ReadsOnly, persist-ReadsOnly, finalise-ReadsOnly,
  mark_failed-Reads,
}
use crypto_pay_system.Payout.Service.{Stage, next_stage}

-- A step of a task leaves the coins, the merchants, the invoices, the transactions and the fee log.
pub next_stage-Reads :
    (env : Env) (id : ℕ) (stage : Stage) (db : Db) → Reads db (next_stage env id stage db).1
unfolding next_stage
next_stage-Reads env id Stage.created db =
    atomically-Reads (prepare env id) db (prepare-ReadsOnly env id)
next_stage-Reads env id (Stage.prepared p selected) db = Reads-refl db
next_stage-Reads env id (Stage.signed selected tx) db =
    atomically-Reads (persist id tx) db (persist-ReadsOnly id tx)
next_stage-Reads env id (Stage.persisted selected tx) db = Reads-refl db
next_stage-Reads env id (Stage.broadcasted txid selected tx) db =
    atomically-Reads (finalise env id txid selected tx) db
      (finalise-ReadsOnly env id txid selected tx)
next_stage-Reads env id (Stage.failing reason) db = mark_failed-Reads id reason db
next_stage-Reads env id Stage.done db = Reads-refl db
