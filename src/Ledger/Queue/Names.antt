-- ===== src/Ledger/Queue/Names.antt =====
-- What holds of every job on the queues: a property of the invoice, the address and the merchant
-- that it names.
use crypto_pay_system.Prelude.{
  ℕ, ◌≡◌, subst, List, [], ◌∷◌, Option, none, some, All, Bool-cases, inl, inr, leb, Bool,
}
use crypto_pay_system.Prelude.Rows.{select}
use crypto_pay_system.Prelude.Text.{Text}
use crypto_pay_system.Models.{Settings}
use crypto_pay_system.Ledger.Queue.{
  LedgerJob, Payload, Queues, split_last, pop, zrem, zinsert, push_retry, due, promote_each,
  promote_due_retries,
}

pub select-All :
    {A : Type 0} (P : A → Type 0) (p : A → Bool) (rows : List A)
    → All P rows
    → All P (select p rows)
unfolding select
select-All P p [] h = tt
select-All P p (r ∷ rows) h = elim (Bool-cases (p r)) [
  | inl t ↦ rw t (h.0, select-All P p rows h.1)
  | inr f ↦ rw f (select-All P p rows h.1)
]

module _ (P : ℕ → Text → ℕ → Type 0) where
  abbrev pub OfPayload : Payload → Type 0
  OfPayload p = P p.invoice_id p.address p.merchant_id

  abbrev pub OfJob : LedgerJob → Type 0
  OfJob j = P j.invoice_id j.address j.merchant_id

  abbrev pub OfQueues : Queues → Type 0
  OfQueues q = All OfPayload q.hot × All (λ e. OfPayload e.0) q.retry

  split_last-All :
      (p : Payload) (ps : List Payload)
      → OfPayload p
      → All OfPayload ps
      → OfPayload (split_last p ps).0 × All OfPayload (split_last p ps).1
  split_last-All p [] h hs = (h, tt)
  split_last-All p (r ∷ rs) h hs = let (l, front) = split_last-All r rs hs.0 hs.1 in (l, (h, front))

  OfPopped : Option LedgerJob × Queues → Type 0
  OfPopped (none, q) = OfQueues q
  OfPopped (some job, q) = OfJob job × OfQueues q

  popped :
      (hot : List Payload) (retry : List (Payload × ℕ))
      → OfQueues (record { hot = hot; retry = retry })
      → OfPopped (pop (record { hot = hot; retry = retry }))
  unfolding pop OfPopped
  popped [] retry h = h
  popped (p ∷ ps) retry h = let (l, front) = split_last-All p ps h.0.0 h.0.1 in (l, (front, h.1))

  -- the job that is taken off, and those that stay
  pub pop-OfQueues :
      (q : Queues) {job : LedgerJob} {q' : Queues}
      → OfQueues q
      → pop q ≡ (some job, q')
      → OfJob job × OfQueues q'
  unfolding OfPopped
  pop-OfQueues q h e = subst OfPopped e (popped q.hot q.retry h)

  zinsert-All :
      (p : Payload) (score : ℕ) (es : List (Payload × ℕ))
      → OfPayload p
      → All (λ e. OfPayload e.0) es
      → All (λ e. OfPayload e.0) (zinsert p score es)
  unfolding zinsert
  zinsert-All p score [] h hs = (h, tt)
  zinsert-All p score (e ∷ es) h hs = elim (Bool-cases (leb e.1 score)) [
    | inl t ↦ rw t (hs.0, zinsert-All p score es h hs.1)
    | inr f ↦ rw f (h, hs)
  ]

  -- a retry names what the job names
  pub push_retry-OfQueues :
      (settings : Settings) (now : ℕ) (job : LedgerJob) (q : Queues)
      → OfJob job
      → OfQueues q
      → OfQueues (push_retry settings now job q)
  unfolding push_retry zrem
  push_retry-OfQueues settings now job q h hq =
      (hq.0, zinsert-All _ _ _ h (select-All (λ e. OfPayload e.0) _ q.retry hq.1))

  due-All :
      (now : ℕ) (es : List (Payload × ℕ)) → All (λ e. OfPayload e.0) es → All OfPayload (due now es)
  unfolding due select
  due-All now [] h = tt
  due-All now (e ∷ es) h = elim (Bool-cases (leb e.1 now)) [
    | inl t ↦ rw t (h.0, due-All now es h.1)
    | inr f ↦ rw f (due-All now es h.1)
  ]

  promote_each-OfQueues :
      (ps : List Payload) (q : Queues)
      → All OfPayload ps
      → OfQueues q
      → OfQueues (promote_each ps q)
  unfolding promote_each zrem
  promote_each-OfQueues [] q h hq = hq
  promote_each-OfQueues (p ∷ ps) q h hq =
      promote_each-OfQueues ps _ h.1 ((h.0, hq.0), select-All (λ e. OfPayload e.0) _ q.retry hq.1)

  -- the promoted jobs are the retries that were due
  pub promote-OfQueues :
      (now : ℕ) (q : Queues) → OfQueues q → OfQueues (promote_due_retries now q).1
  unfolding promote_due_retries
  promote-OfQueues now q h = promote_each-OfQueues (due now q.retry) q (due-All now q.retry h.1) h
