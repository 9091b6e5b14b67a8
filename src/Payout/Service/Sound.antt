-- ===== src/Payout/Service/Sound.antt =====
-- What holds of the tasks and their database in every state that they reach.
use crypto_pay_system.Prelude.{ℕ, ◌≡◌, ◌≢◌, refl, sym, subst, ◌∙◌, false, List, [], ◌∷◌, ◌++◌, All}
use crypto_pay_system.Prelude.Exec.{
  Exec, Result, ok, err, atomically, atomically-eq-ok, atomically-err,
}
use crypto_pay_system.Prelude.Text.{Text}
use crypto_pay_system.Models.{Db}
use crypto_pay_system.Funds.{IsSolvent}
use crypto_pay_system.Ledger.Processor.Late.Keeps.{late-IsSolvent, late-payouts}
use crypto_pay_system.Ledger.Processor.Solvent.{process-IsSolvent, process-payouts}
use crypto_pay_system.Payout.Processor.{Env, prepare, persist, finalise}
use crypto_pay_system.Payout.Processor.Books.{
  NotSent, Ready, prepare-Ready, persist-Ready, finalise-IsSolvent,
}
use crypto_pay_system.Payout.Processor.Refunds.{mark_failed-IsSolvent}
use crypto_pay_system.Api.Payouts.Create.{create_payout-Ready}
use crypto_pay_system.Payout.Service.{
  Stage, is_done, transact, next_stage, PayoutTask, PayoutService, resumed, Step, request, resume,
  ledger, ledger_late, restart, Reach, here, next,
}
use crypto_pay_system.Payout.Service.Others.{Only, next_stage-Only}

-- A task that is not done has a payout that has not been sent.
abbrev pub IsOpen : Db → ℕ → Stage → Type 0
IsOpen db id stage = is_done stage ≡ false → NotSent id db

-- every task has a payout of its own
unfoldable pub IsDistinct : List PayoutTask → Type 0
IsDistinct [] = Unit
IsDistinct (t ∷ ts) = All (λ u. u.payout_id ≢ t.payout_id) ts × IsDistinct ts

nil-IsDistinct : IsDistinct []
unfolding IsDistinct
nil-IsDistinct = tt

abbrev pub IsSound : PayoutService → Type 0
IsSound s = IsSolvent s.db × All (λ t. IsOpen s.db t.payout_id t.stage) s.tasks × IsDistinct s.tasks

abbrev Good : ℕ → Stage × Db → Type 0
Good id (stage, db) = IsSolvent db × IsOpen db id stage

module _ {A : Type 0} where
  transact-Good :
      (env : Env) (id : ℕ) (k : A → Stage) (m : Exec Db A) (db : Db)
      → Ready id db
      → ((a : A) (db' : Db) → m db ≡ (ok a, db') → Good id (k a, db'))
      → Good id (transact env k (atomically m db))
  transact-Good env id k m db h committed = ends (atomically m db).0 (atomically m db).1 refl
    where
      ends : (r : Result A) (d : Db) → atomically m db ≡ (r, d) → Good id (transact env k (r, d))
      ends (ok a) d e = committed a d (atomically-eq-ok m db e)
      ends (err x) d e = rw (atomically-err m db {e = x} e) (h.0, λ open_task. h.1)

next_stage-Good :
    (env : Env) (id : ℕ) (stage : Stage) (db : Db)
    → Good id (stage, db)
    → Good id (next_stage env id stage db)
unfolding next_stage
next_stage-Good env id Stage.created db (s, n) =
    transact-Good env id _ (prepare env id) db (s, n refl)
      (λ r db' e. let (s', n') = prepare-Ready env id db (s, n refl) e in (s', λ open_task. n'))
next_stage-Good env id (Stage.prepared p selected) db (s, n) = (s, λ open_task. n refl)
next_stage-Good env id (Stage.signed selected tx) db (s, n) =
    transact-Good env id _ (persist id tx) db (s, n refl)
      (λ r db' e. let (s', n') = persist-Ready id tx db (s, n refl) e in (s', λ open_task. n'))
next_stage-Good env id (Stage.persisted selected tx) db (s, n) = (s, λ open_task. n refl)
next_stage-Good env id (Stage.broadcasted txid selected tx) db (s, n) =
    transact-Good env id _ (finalise env id txid selected tx) db (s, n refl)
      (λ r db' e. (finalise-IsSolvent env id txid selected tx db (s, n refl) e, λ open_task. cc))
next_stage-Good env id (Stage.failing reason) db (s, n) =
    (mark_failed-IsSolvent id reason db (s, n refl), λ open_task. cc)
next_stage-Good env id Stage.done db h = h

pub others-IsOpen :
    (db db' : Db) (id : ℕ) (tasks : List PayoutTask)
    → Only id db db'
    → All (λ u. u.payout_id ≢ id) tasks
    → All (λ t. IsOpen db t.payout_id t.stage) tasks
    → All (λ t. IsOpen db' t.payout_id t.stage) tasks
others-IsOpen db db' id [] only ne h = tt
others-IsOpen db db' id (t ∷ ts) only ne h = (
  λ open_task p e. h.0 open_task p (sym (only t.payout_id ne.0) ∙ e),
  others-IsOpen db db' id ts only ne.1 h.1,
)

module _ {A : Type 0} (P : A → Type 0) where
  pub All-at : (before : List A) (a : A) (after : List A) → All P (before ++ a ∷ after) → P a
  All-at [] a after h = h.0
  All-at (b ∷ before) a after h = All-at before a after h.1

  pub All-swap :
      (before : List A) (a a' : A) (after : List A)
      → (P a → P a')
      → All P (before ++ a ∷ after)
      → All P (before ++ a' ∷ after)
  All-swap [] a a' after k h = (k h.0, h.1)
  All-swap (b ∷ before) a a' after k h = (h.0, All-swap before a a' after k h.1)

  pub All-add : (xs : List A) (a : A) → All P xs → P a → All P (xs ++ a ∷ [])
  All-add [] a h k = (k, tt)
  All-add (b ∷ xs) a h k = (h.0, All-add xs a h.1 k)

IsDistinct-swap :
    (before : List PayoutTask) (t t' : PayoutTask) (after : List PayoutTask)
    → t'.payout_id ≡ t.payout_id
    → IsDistinct (before ++ t ∷ after)
    → IsDistinct (before ++ t' ∷ after)
unfolding IsDistinct
IsDistinct-swap [] t t' after same d = rw same d
IsDistinct-swap (b ∷ before) t t' after same d = (
  All-swap (λ u. u.payout_id ≢ b.payout_id) before t t' after (λ ne e. ne (sym same ∙ e)) d.0,
  IsDistinct-swap before t t' after same d.1,
)

IsDistinct-add :
    (tasks : List PayoutTask) (t : PayoutTask)
    → All (λ u. u.payout_id ≢ t.payout_id) tasks
    → IsDistinct tasks
    → IsDistinct (tasks ++ t ∷ [])
unfolding IsDistinct
IsDistinct-add [] t ne d = (tt, tt)
IsDistinct-add (u ∷ tasks) t ne d = (
  All-add (λ v. v.payout_id ≢ u.payout_id) tasks t d.0 (λ e. ne.0 (sym e)),
  IsDistinct-add tasks t ne.1 d.1,
)

resumed-IsOpen :
    (db db' : Db) (before : List PayoutTask) (t t' : PayoutTask) (after : List PayoutTask)
    → Only t.payout_id db db'
    → IsDistinct (before ++ t ∷ after)
    → IsOpen db' t'.payout_id t'.stage
    → All (λ u. IsOpen db u.payout_id u.stage) (before ++ t ∷ after)
    → All (λ u. IsOpen db' u.payout_id u.stage) (before ++ t' ∷ after)
unfolding IsDistinct
resumed-IsOpen db db' [] t t' after only d new h =
    (new, others-IsOpen db db' t.payout_id after only d.0 h.1)
resumed-IsOpen db db' (b ∷ before) t t' after only d new h =
    let ne = All-at (λ u. u.payout_id ≢ b.payout_id) before t after d.0 in
    (
      λ open_task p e. h.0 open_task p (sym (only b.payout_id (λ same. ne (sym same))) ∙ e),
      resumed-IsOpen db db' before t t' after only d.1 new h.1,
    )

resumed-IsSound :
    (before : List PayoutTask) (t : PayoutTask) (after : List PayoutTask) (db : Db)
    → IsSound (record { db = db; tasks = before ++ t ∷ after })
    → IsSound (resumed before t after db)
unfolding resumed
resumed-IsSound before t after db (s, o, d) =
    let here_open = All-at (λ u. IsOpen db u.payout_id u.stage) before t after o in
    let (stage, db') = next_stage t.env t.payout_id t.stage db in
    let (s', n') = next_stage-Good t.env t.payout_id t.stage db (s, here_open) in
    (
      s',
      resumed-IsOpen db db' before t (record t { stage = stage }) after
          (next_stage-Only t.env t.payout_id t.stage db) d n' o,
      IsDistinct-swap before t (record t { stage = stage }) after refl d,
    )

pub Step-IsSound :
    {strip : Text → Text} {s t : PayoutService} → Step strip s t → IsSound s → IsSound t
Step-IsSound {strip} (request s env settings registry keys merchant r p db fresh new e) (h, o, d) =
    let ((s', n'), only) =
      create_payout-Ready strip settings registry keys merchant r s.db h fresh e in
    (
      s',
      All-add (λ u. IsOpen db u.payout_id u.stage) s.tasks _
          (others-IsOpen s.db db keys.payout_id s.tasks only new o) (λ open_task. n'),
      IsDistinct-add s.tasks _ new d,
    )
Step-IsSound (resume s before t after e) (h, o, d) =
    resumed-IsSound before t after s.db
      (h, subst (All (λ u. IsOpen s.db u.payout_id u.stage)) e o, subst IsDistinct e d)
Step-IsSound (ledger s env job q) (h, o, d) =
    let same = process-payouts env job (record { db = s.db; queues = q }) in
    (process-IsSolvent env job (record { db = s.db; queues = q }) h, rw same o, d)
Step-IsSound (ledger_late s env job q commit old) (h, o, d) =
    let same = late-payouts commit env job old (record { db = s.db; queues = q }) in
    (late-IsSolvent commit env job old (record { db = s.db; queues = q }) h, rw same o, d)
Step-IsSound (restart s) (h, o, d) = (h, tt, nil-IsDistinct)

-- However the tasks of the payouts interleave, with each other, with new requests, with the jobs of
-- the ledger service and with restarts that lose them: the books stay balanced, the tasks have
-- payouts of their own, and the payout of a task that is not done has not been sent.
pub Reach-IsSound :
    {strip : Text → Text} {s t : PayoutService} → Reach strip s t → IsSound s → IsSound t
Reach-IsSound here h = h
Reach-IsSound (next r step) h = Step-IsSound step (Reach-IsSound r h)
