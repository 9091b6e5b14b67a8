-- ===== src/Ledger/Service/Weights.antt =====
-- A weight of the ledger service: the steps that its jobs have left at most.
use crypto_pay_system.Prelude.{
  ℕ, ◌+◌, ◌-◌, ◌*◌, ◌≤◌, ◌≡◌, refl, ap, ◌∙◌, inl, inr, Bool-cases, leb, arith, List, [], ◌∷◌, ◌++◌,
  reverse, length, Option, none, some,
}
use mathlib.Core.List.{reverse-append}
use crypto_pay_system.Prelude.Rows.{select}
use crypto_pay_system.Models.{Settings}
use crypto_pay_system.Ledger.Queue.{
  LedgerJob, Payload, or_zero, to_json, Queues, pop, push_retry, retried, split_last, zrem, zinsert,
  due, promote_due_retries,
}
use crypto_pay_system.Ledger.Queue.Order.{
  left_after, promote_each-hot, left_after-nil, left_after-cons, left_after-due, due-cons,
}
use crypto_pay_system.Ledger.Service.{LedgerService}

-- the sum of the weights of the elements
unfoldable pub total {ℓ} : {A : Type ℓ} → (A → ℕ) → List A → ℕ
total w [] = 0
total w (x ∷ xs) = w x + total w xs

pub total-append {ℓ} :
    {A : Type ℓ} (w : A → ℕ) (xs ys : List A) → total w (xs ++ ys) ≡ total w xs + total w ys
unfolding total
total-append w [] ys = omega arith
total-append w (x ∷ xs) ys = grind (arith, total-append w xs ys)

total-reverse {ℓ} : {A : Type ℓ} (w : A → ℕ) (xs : List A) → total w (reverse xs) ≡ total w xs
unfolding total
total-reverse w [] = refl
total-reverse w (x ∷ xs) =
    ap (total w) (reverse-append (x ∷ []) xs)
    ∙ total-append w (reverse xs) (x ∷ [])
    ∙ grind (arith, total-reverse w xs)

module _ (settings : Settings) where
  -- the steps that a job with this many retries has left
  unfoldable pub rounds_left : ℕ → ℕ
  rounds_left retries = 4 * (settings.ledger_max_retries + 2 - retries)

  unfoldable pub weight_retry : Payload → ℕ
  unfolding rounds_left
  weight_retry p = rounds_left (or_zero p.retry_count) + 4

  pub weight_hot : Payload → ℕ
  unfolding rounds_left
  weight_hot p = rounds_left (or_zero p.retry_count) + 3

  unfoldable pub weight_waiting : LedgerJob → ℕ
  unfolding rounds_left
  weight_waiting job = rounds_left job.retry_count + 2

  unfoldable pub weight_running : LedgerJob → ℕ
  unfolding rounds_left
  weight_running job = rounds_left job.retry_count + 1

  unfoldable pub weight_queues : Queues → ℕ
  unfolding total weight_retry weight_hot
  weight_queues q = total weight_hot q.hot + total (λ e. weight_retry e.0) q.retry

  unfoldable pub weight : LedgerService → ℕ
  unfolding total weight_queues weight_waiting weight_running
  weight s =
      weight_queues s.world.queues + total weight_waiting s.waiting + total weight_running s.running

  split_last_weight :
      (p : Payload) (ps : List Payload)
      → let (l, front) = split_last p ps in
        total weight_hot (p ∷ ps) ≡ total weight_hot front + weight_hot l
  unfolding total
  split_last_weight p [] = omega arith
  split_last_weight p (r ∷ rs) = grind (arith, split_last_weight r rs)

  popped_weight : Option LedgerJob × Queues → ℕ
  unfolding weight_queues weight_waiting
  popped_weight (none, q) = weight_queues q
  popped_weight (some job, q) = weight_queues q + (weight_waiting job + 1)

  pop-popped_weight :
      (hot : List Payload) (retry : List (Payload × ℕ))
      → let q : Queues = record { hot = hot; retry = retry } in
        weight_queues q ≡ popped_weight (pop q)
  unfolding pop weight_queues popped_weight total weight_hot weight_waiting rounds_left
  pop-popped_weight [] retry = refl
  pop-popped_weight (p ∷ ps) retry = grind (arith, split_last_weight p ps)

  pub pop_weight :
      (q : Queues) (job : LedgerJob) (q' : Queues)
      → pop q ≡ (some job, q')
      → weight_queues q ≡ weight_queues q' + (weight_waiting job + 1)
  unfolding popped_weight
  pop_weight q job q' e = pop-popped_weight q.hot q.retry ∙ ap popped_weight e

  zrem_weight :
      (w : Payload → ℕ) (p : Payload) (es : List (Payload × ℕ))
      → total (λ e. w e.0) (zrem p es) ≤ total (λ e. w e.0) es
  unfolding total zrem select
  zrem_weight w p [] = omega arith
  zrem_weight w p (e ∷ es) = ground (arith, zrem_weight w p es)

  zinsert_weight :
      (w : Payload → ℕ) (p : Payload) (score : ℕ) (es : List (Payload × ℕ))
      → total (λ e. w e.0) (zinsert p score es) ≡ w p + total (λ e. w e.0) es
  unfolding total zinsert
  zinsert_weight w p score [] = refl
  zinsert_weight w p score (e ∷ es) = ground (arith, zinsert_weight w p score es)

  pub push_retry_weight :
      (now : ℕ) (job : LedgerJob) (q : Queues)
      → weight_queues (push_retry settings now job q)
        ≤ weight_queues q + weight_retry (to_json (retried job))
  unfolding weight_queues push_retry
  push_retry_weight now job q =
      let p = to_json (retried job) in
      let score = now + settings.ledger_retry_delay in
      let put = zinsert_weight weight_retry p score (zrem p q.retry) in
      let gone = zrem_weight weight_retry p q.retry in omega arith

  retry_hot_weight : (ps : List Payload) → total weight_retry ps ≡ total weight_hot ps + length ps
  unfolding total weight_retry weight_hot
  retry_hot_weight [] = refl
  retry_hot_weight (p ∷ ps) = grind (arith, retry_hot_weight ps)

  left_after_weight :
      (w : Payload → ℕ) (now : ℕ) (pre : List Payload) (es : List (Payload × ℕ))
      → total w (due now es) + total (λ e. w e.0) (left_after (pre ++ due now es) es)
        ≤ total (λ e. w e.0) es
  unfolding total due select
  left_after_weight w now pre [] = rw (left_after-nil (pre ++ [])) (omega arith)
  left_after_weight w now pre (e ∷ es) = elim (Bool-cases (leb e.1 now)) [
    | inl t ↦
        let split : due now (e ∷ es) ≡ e.0 ∷ due now es = ground (arith, due-cons now e es) in
        let rest = left_after_weight w now (pre ++ e.0 ∷ []) es in
        rw (left_after-due now pre e es t, split) (omega arith)
    | inr f ↦
        let same : due now (e ∷ es) ≡ due now es = ground (arith, due-cons now e es) in
        let rest = left_after_weight w now pre es in
        rw (same, left_after-cons (pre ++ due now es) e es) (ground arith)
  ]

  pub promote_weight :
      (now : ℕ) (q : Queues)
      → let (moved, q') = promote_due_retries now q in weight_queues q' + moved ≤ weight_queues q
  unfolding promote_due_retries weight_queues total
  promote_weight now q =
      let ps = due now q.retry in
      let moved = promote_each-hot ps q in
      let kept = left_after_weight weight_retry now [] q.retry in
      let more = retry_hot_weight ps in
      let hot = total-append weight_hot (reverse ps) q.hot in
      let turned = total-reverse weight_hot ps in rw (moved, hot, turned) (omega arith)
