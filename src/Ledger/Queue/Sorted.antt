-- ===== src/Ledger/Queue/Sorted.antt =====
-- The sorted set of retries: its entries stand in the order of their times.
use crypto_pay_system.Prelude.{ℕ, ◌≤◌, Bool, Bool-cases, inl, inr, leb, List, [], ◌∷◌, All, arith}
use crypto_pay_system.Prelude.Rows.{select}
use crypto_pay_system.Models.{Settings}
use crypto_pay_system.Ledger.Queue.{
  LedgerJob, Payload, Queues, zrem, zinsert, push_retry, promote_each, due, promote_due_retries,
}

abbrev pub After : ℕ → List (Payload × ℕ) → Type 0
After time = All (λ e. time ≤ e.1)

abbrev pub IsSorted : List (Payload × ℕ) → Type 0
IsSorted [] = Unit
IsSorted (e ∷ es) = After e.1 es × IsSorted es

select-After :
    (keep : Payload × ℕ → Bool) (time : ℕ) (es : List (Payload × ℕ))
    → After time es
    → After time (select keep es)
unfolding select
select-After keep time [] h = tt
select-After keep time (e ∷ es) h = elim (Bool-cases (keep e)) [
  | inl t ↦ rw t (h.0, select-After keep time es h.1)
  | inr f ↦ rw f (select-After keep time es h.1)
]

pub select-IsSorted :
    (keep : Payload × ℕ → Bool) (es : List (Payload × ℕ)) → IsSorted es → IsSorted (select keep es)
unfolding select
select-IsSorted keep [] h = tt
select-IsSorted keep (e ∷ es) h = elim (Bool-cases (keep e)) [
  | inl t ↦ rw t (select-After keep e.1 es h.0, select-IsSorted keep es h.1)
  | inr f ↦ rw f (select-IsSorted keep es h.1)
]

earlier-After :
    (early late : ℕ) (es : List (Payload × ℕ)) → early ≤ late → After late es → After early es
earlier-After early late [] le h = tt
earlier-After early late (e ∷ es) le h =
    let first = h.0 in (omega (arith, first), earlier-After early late es le h.1)

zinsert-After :
    (time : ℕ) (p : Payload) (score : ℕ) (es : List (Payload × ℕ))
    → time ≤ score
    → After time es
    → After time (zinsert p score es)
unfolding zinsert
zinsert-After time p score [] le h = (le, tt)
zinsert-After time p score (e ∷ es) le h = elim (Bool-cases (leb e.1 score)) [
  | inl t ↦ rw t (h.0, zinsert-After time p score es le h.1)
  | inr f ↦ rw f (le, h)
]

zinsert-IsSorted :
    (p : Payload) (score : ℕ) (es : List (Payload × ℕ))
    → IsSorted es
    → IsSorted (zinsert p score es)
unfolding zinsert
zinsert-IsSorted p score [] h = (tt, tt)
zinsert-IsSorted p score (e ∷ es) h = elim (Bool-cases (leb e.1 score)) [
  | inl t ↦ rw t (zinsert-After e.1 p score es (ground arith) h.0, zinsert-IsSorted p score es h.1)
  | inr f ↦
      let before : score ≤ e.1 = ground arith in
      rw f ((before, earlier-After score e.1 es before h.0), h)
]

pub push_retry-IsSorted :
    (settings : Settings) (now : ℕ) (job : LedgerJob) (q : Queues)
    → IsSorted q.retry
    → IsSorted (push_retry settings now job q).retry
unfolding push_retry zrem
push_retry-IsSorted settings now job q h = zinsert-IsSorted _ _ _ (select-IsSorted _ q.retry h)

promote_each-IsSorted :
    (ps : List Payload) (q : Queues) → IsSorted q.retry → IsSorted (promote_each ps q).retry
unfolding promote_each zrem
promote_each-IsSorted [] q h = h
promote_each-IsSorted (p ∷ ps) q h =
    promote_each-IsSorted ps (record { hot = p ∷ q.hot; retry = zrem p q.retry })
      (select-IsSorted _ q.retry h)

pub promote-IsSorted :
    (now : ℕ) (q : Queues) → IsSorted q.retry → IsSorted (promote_due_retries now q).1.retry
unfolding promote_due_retries
promote-IsSorted now q h = promote_each-IsSorted (due now q.retry) q h
