-- ===== src/Payout/Service/Final.antt =====
-- What becomes of a payout whose task is done.
use crypto_pay_system.Prelude.{
  ℕ, ◌≡◌, ◌≢◌, refl, sym, subst, ◌∙◌, ◌⊎◌, inl, inr, true, List, [], ◌∷◌, ◌++◌, All, arith, ◌==◌,
  Bool-cases,
}
use crypto_pay_system.Prelude.Rows.{select}
use crypto_pay_system.Prelude.Text.{Text}
use crypto_pay_system.Models.{Payout, Db}
use crypto_pay_system.Ledger.Processor.Late.Keeps.{late-payouts}
use crypto_pay_system.Ledger.Processor.Solvent.{process-payouts}
use crypto_pay_system.Payout.Processor.{Env, is_payout}
use crypto_pay_system.Api.Payouts.Create.{create_payout-others}
use crypto_pay_system.Payout.Service.{
  Stage, is_done, next_stage, PayoutTask, PayoutService, resumed, Step, request, resume, ledger,
  ledger_late, restart, Reach, here, next,
}
use crypto_pay_system.Payout.Service.Others.{next_stage-Only}
use crypto_pay_system.Payout.Service.Sound.{All-at, All-swap, All-add}

-- a task of the payout `k`, if there is one, is done
abbrev pub IsOver : ℕ → PayoutTask → Type 0
IsOver k t = t.payout_id ≡ k → is_done t.stage ≡ true

-- The payout `k` is the row `p`, and its tasks are done.
abbrev pub IsFinal : ℕ → Payout → PayoutService → Type 0
IsFinal k p s = (select (is_payout k) s.db.payouts ≡ p ∷ []) × All (IsOver k) s.tasks

step_done :
    (env : Env) (id : ℕ) (stage : Stage) (db : Db)
    → is_done stage ≡ true
    → next_stage env id stage db ≡ (Stage.done, db)
unfolding next_stage
step_done env id Stage.done db e = refl
step_done env id Stage.created db e = cc
step_done env id (Stage.prepared p selected) db e = cc
step_done env id (Stage.signed selected tx) db e = cc
step_done env id (Stage.persisted selected tx) db e = cc
step_done env id (Stage.broadcasted txid selected tx) db e = cc
step_done env id (Stage.failing reason) db e = cc

same_id : (k j : ℕ) → (j ≡ k) ⊎ (k ≢ j)
same_id k j = elim (Bool-cases (j == k)) [
  | inl e ↦ inl (ground arith)
  | inr e ↦ inr (λ h. ground arith)
]

resumed-IsFinal :
    (k : ℕ) (p : Payout) (before : List PayoutTask) (t : PayoutTask) (after : List PayoutTask)
    (db : Db)
    → IsFinal k p (record { db = db; tasks = before ++ t ∷ after })
    → IsFinal k p (resumed before t after db)
unfolding resumed
resumed-IsFinal k p before t after db (found, over) = elim (same_id k t.payout_id) [
  | inl own ↦
      let finished =
        step_done t.env t.payout_id t.stage db (All-at (IsOver k) before t after over own) in
      rw finished (found, All-swap (IsOver k) before t _ after (λ _ _. refl) over)
  | inr other ↦ (
    next_stage-Only t.env t.payout_id t.stage db k other ∙ found,
    All-swap (IsOver k) before t _ after (λ h e. absurd (other (sym e))) over,
  )
]

Step-IsFinal :
    {strip : Text → Text} {s t : PayoutService} (k : ℕ) (p : Payout)
    → Step strip s t
    → IsFinal k p s
    → IsFinal k p t
Step-IsFinal {strip} k p (request s env settings registry keys merchant r q db fresh new e)
      (found, over) =
    let ne : k ≢ keys.payout_id = λ same. cc (same, fresh, found) in
    (
      create_payout-others strip settings registry keys merchant r s.db e k ne ∙ found,
      All-add (IsOver k) s.tasks _ over (λ same. absurd (ne (sym same))),
    )
Step-IsFinal k p (resume s before t after e) (found, over) =
    resumed-IsFinal k p before t after s.db (found, subst (All (IsOver k)) e over)
Step-IsFinal k p (ledger s env job q) (found, over) =
    let same = process-payouts env job (record { db = s.db; queues = q }) in (rw same found, over)
Step-IsFinal k p (ledger_late s env job q commit old) (found, over) =
    let same = late-payouts commit env job old (record { db = s.db; queues = q }) in
    (rw same found, over)
Step-IsFinal k p (restart s) (found, over) = (found, tt)

-- A payout whose task is done is final: whatever the other tasks, new requests, the ledger service
-- and restarts do, in any order, its row stays as it is, with its status and its transaction.
pub Reach-IsFinal :
    {strip : Text → Text} {s t : PayoutService} (k : ℕ) (p : Payout)
    → Reach strip s t
    → IsFinal k p s
    → IsFinal k p t
Reach-IsFinal k p here h = h
Reach-IsFinal k p (next r step) h = Step-IsFinal k p step (Reach-IsFinal k p r h)
