-- ===== src/Ledger/Queue/Fifo.antt =====
-- The hot list as a first-in first-out queue of jobs.
use crypto_pay_system.Prelude.{
  ℕ, ◌≡◌, refl, sym, ap, ◌∙◌, List, [], ◌∷◌, ◌++◌, map, reverse, Option, none, some, leb,
}
use mathlib.Core.List.{reverse-append, reverse-reverse, map-append}
use crypto_pay_system.Ledger.Queue.{
  LedgerJob, Payload, to_json, from_json, Queues, pop, push_hot, split_last, due, push_retry,
  promote_due_retries,
}
use crypto_pay_system.Prelude.Rows.{select}
use crypto_pay_system.Models.{Settings}
use crypto_pay_system.Ledger.Queue.Sorted.{
  IsSorted, select-IsSorted, push_retry-IsSorted, promote-IsSorted,
}
use crypto_pay_system.Ledger.Queue.Order.{promote_each-hot}

-- the jobs that wait, the next one first
pub fifo : Queues → List LedgerJob
fifo q = map from_json (reverse q.hot)

abbrev pub front : List LedgerJob → Option LedgerJob
front [] = none
front (job ∷ jobs) = some job

abbrev pub behind : List LedgerJob → List LedgerJob
behind [] = []
behind (job ∷ jobs) = jobs

reverse-split_last :
    (p : Payload) (ps : List Payload)
    → let (l, rest) = split_last p ps in reverse (p ∷ ps) ≡ l ∷ reverse rest
reverse-split_last p [] = refl
reverse-split_last p (r ∷ rs) =
    let (l, rest) = split_last r rs in
    reverse-append (p ∷ []) (r ∷ rs)
    ∙ ap (λ s. s ++ p ∷ []) (reverse-split_last r rs)
    ∙ ap (λ s. l ∷ s) (sym (reverse-append (p ∷ []) rest))

pop-fifo :
    (hot : List Payload) (retry : List (Payload × ℕ))
    → let q : Queues = record { hot = hot; retry = retry } in
      ((pop q).0 ≡ front (fifo q)) × (fifo (pop q).1 ≡ behind (fifo q))
unfolding pop fifo
pop-fifo [] retry = (refl, refl)
pop-fifo (p ∷ ps) retry = rw (reverse-split_last p ps) (refl, refl)

reverse-reverse-append {ℓ} :
    {A : Type ℓ} (xs ys : List A) → reverse (reverse xs ++ ys) ≡ reverse ys ++ xs
reverse-reverse-append xs ys =
    reverse-append (reverse xs) ys ∙ ap (λ l. reverse ys ++ l) (reverse-reverse xs)

due-map :
    (now : ℕ) (es : List (Payload × ℕ))
    → map from_json (due now es) ≡ map (λ e. from_json e.0) (select (λ e. leb e.1 now) es)
unfolding due
due-map now es = twice (select (λ e. leb e.1 now) es)
  where
    twice :
        (es : List (Payload × ℕ)) → map from_json (map (λ e. e.0) es) ≡ map (λ e. from_json e.0) es
    twice [] = refl
    twice (e ∷ es) = ap (λ l. from_json e.0 ∷ l) (twice es)

-- The hot list behaves as a queue of jobs, first in, first out: `push_hot` puts a job behind the
-- others, `pop` takes the front job (and none when there is no job), and `promote_due_retries`
-- puts the jobs whose time has come behind the others, in the order in which the set of retries
-- keeps them. Where that set is in the order of the times, this is the order of their times, and
-- the set is in the order of the times after `push_retry` and after `promote_due_retries` too.
pub queue-fifo :
    (settings : Settings) (job : LedgerJob) (now : ℕ) (q : Queues)
    → IsSorted q.retry
    → (fifo (push_hot job q) ≡ fifo q ++ job ∷ [])
      × ((pop q).0 ≡ front (fifo q))
      × (fifo (pop q).1 ≡ behind (fifo q))
      × (fifo (promote_due_retries now q).1
          ≡ fifo q ++ map (λ e. from_json e.0) (select (λ e. leb e.1 now) q.retry))
      × IsSorted (select (λ e. leb e.1 now) q.retry)
      × IsSorted (push_retry settings now job q).retry
      × IsSorted (promote_due_retries now q).1.retry
unfolding push_hot fifo promote_due_retries
queue-fifo settings job now q sorted =
    let popped = pop-fifo q.hot q.retry in
    let ps = due now q.retry in
    (
      ap (map from_json) (reverse-append (to_json job ∷ []) q.hot)
          ∙ map-append from_json (reverse q.hot) (to_json job ∷ []),
      popped.0,
      popped.1,
      ap (λ r. map from_json (reverse r.hot)) (promote_each-hot ps q)
          ∙ ap (map from_json) (reverse-reverse-append ps q.hot)
          ∙ map-append from_json (reverse q.hot) ps
          ∙ ap (λ l. map from_json (reverse q.hot) ++ l) (due-map now q.retry),
      select-IsSorted (λ e. leb e.1 now) q.retry sorted,
      push_retry-IsSorted settings now job q sorted,
      promote-IsSorted now q sorted,
    )
