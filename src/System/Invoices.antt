-- ===== src/System/Invoices.antt =====
-- What becomes of the invoices of the whole system.
use crypto_pay_system.Prelude.{Bool, [], ◌∷◌}
use crypto_pay_system.Prelude.Text.{Text}
use crypto_pay_system.Models.{Settings}
use crypto_pay_system.Ledger.Service.{
  LedgerService, Work, consume, start, finish, finish_late, promote, promoted,
}
use crypto_pay_system.Ledger.Processor.Late.Rows.{
  Grows, Grows-refl, Grows-trans, Grows-append, process-Grows, late-Grows,
}
use crypto_pay_system.Payout.Service
use crypto_pay_system.Payout.Service.{PayoutService}
use crypto_pay_system.Payout.Service.Frame.{next_stage-Reads}
use crypto_pay_system.Watcher.Decoder.{Bytes}
use crypto_pay_system.Api.Payouts.Create.{create_payout_lem}
use crypto_pay_system.Invoicing.Indices.{create_inv}
use crypto_pay_system.System.{
  System, db_of, Step, ledger_round, tx_message, block_message, refresh_round, open_invoice,
  payout_step, watcher_restart, ledger_restart, Reach, here, next,
}

round-Grows :
    {settings : Settings} {s t : LedgerService}
    → Work settings s t
    → Grows s.world.db.invoices t.world.db.invoices
unfolding promoted
round-Grows (consume s job q e) = Grows-refl s.world.db.invoices
round-Grows (start s job rest e free) = Grows-refl s.world.db.invoices
round-Grows (finish s env before job after eq e) = process-Grows env job s.world
round-Grows (finish_late s env before job after commit old same e) =
    late-Grows commit env job old s.world
round-Grows (promote s now some_due) = Grows-refl s.world.db.invoices

task-Grows :
    {strip : Text → Text} {s t : PayoutService}
    → Service.Step strip s t
    → Grows s.db.invoices t.db.invoices
unfolding Service.resumed
task-Grows {strip} (Service.request s env settings registry keys merchant r p db unused fresh e) =
    let (coin, b, k) = create_payout_lem strip settings registry keys merchant r s.db e in
    rw k.added (Grows-refl s.db.invoices)
task-Grows (Service.resume s before t after e) =
    rw (next_stage-Reads t.env t.payout_id t.stage s.db).invoices (Grows-refl s.db.invoices)
task-Grows (Service.ledger s env job q) = process-Grows env job (record { db = s.db; queues = q })
task-Grows (Service.ledger_late s env job q commit old) =
    late-Grows commit env job old (record { db = s.db; queues = q })
task-Grows (Service.restart s) = Grows-refl s.db.invoices

module _ {settings : Settings} {hash256 : Bytes → Bytes} {testnet : Bool}
    {strip : Text → Text} where
  pub Step-Grows :
      {s t : System}
      → Step settings hash256 testnet strip s t
      → Grows (db_of s).invoices (db_of t).invoices
  Step-Grows (ledger_round s ledger w) = round-Grows w
  Step-Grows (tx_message s parts) = Grows-refl (db_of s).invoices
  Step-Grows (block_message s parts r a) = Grows-refl (db_of s).invoices
  Step-Grows (refresh_round s r a) = Grows-refl (db_of s).invoices
  Step-Grows (open_invoice s registry keys m symbol amount inv db e) =
      rw (create_inv registry keys m symbol amount (db_of s) e).added
        (Grows-append (db_of s).invoices (inv ∷ []))
  Step-Grows (payout_step s p st) = task-Grows st
  Step-Grows (watcher_restart s r a) = Grows-refl (db_of s).invoices
  Step-Grows (ledger_restart s) = Grows-refl (db_of s).invoices

  -- In every state that the system reaches, also where jobs for one invoice run beside each other,
  -- each invoice that was in the table is in its place with the owner, the coin, the address, the
  -- amount and the derivation index that it had; its status is the same, or PENDING, or PAID; and
  -- new invoices stand behind the old ones.
  pub Reach-Grows :
      {s t : System}
      → Reach settings hash256 testnet strip s t
      → Grows (db_of s).invoices (db_of t).invoices
  Reach-Grows {s} here = Grows-refl (db_of s).invoices
  Reach-Grows {s} (next {t = t} {u = u} r st) =
      Grows-trans (db_of s).invoices (db_of t).invoices (db_of u).invoices (Reach-Grows r)
        (Step-Grows st)
