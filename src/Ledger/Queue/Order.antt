-- ===== src/Ledger/Queue/Order.antt =====
-- The order in which jobs leave the ledger queue, and the promotion of the retries that are due.
use crypto_pay_system.Prelude.{
  ℕ, ◌≡◌, refl, sym, ap, ◌∙◌, Bool, true, false, List, [], ◌∷◌, ◌++◌, reverse, Option, none, some,
  arith, leb, ◌||◌, Bool-cases, inl, inr, if◌then◌else◌, append_assoc, length,
}
use mathlib.Core.List.{reverse-append}
use crypto_pay_system.Prelude.Rows.{select}
use crypto_pay_system.Prelude.Text.{text_eq_refl}
use crypto_pay_system.Ledger.Queue.{
  LedgerJob, Payload, from_json, payload_eq, count_eq, Queues, pop, push_hot, split_last, zrem, due,
  promote_each, promote_due_retries,
}

split_last-append :
    (p : Payload) (ps : List Payload) (l : Payload) → split_last p (ps ++ l ∷ []) ≡ (l, p ∷ ps)
split_last-append p [] l = refl
split_last-append p (r ∷ ps) l = ap (λ s. (s.0, p ∷ s.1)) (split_last-append r ps l)

-- `pop` takes the payload that has been on the hot list longest, fills in `retry_count`, and leaves
-- the other payloads as they are.
pub pop_oldest :
    (front : List Payload) (p : Payload) (retry : List (Payload × ℕ))
    → pop (record { hot = front ++ p ∷ []; retry = retry })
      ≡ (some (from_json p), record { hot = front; retry = retry })
unfolding pop
pop_oldest [] p retry = refl
pop_oldest (r ∷ front) p retry =
    ap (λ s. (some (from_json s.0), record { hot = s.1; retry = retry }))
      (split_last-append r front p)

-- A job that is pushed and waits behind the jobs `front` is the job that `pop` returns after
-- those are gone: nothing is lost in the encoding.
pub pop-push_hot :
    (job : LedgerJob) (retry : List (Payload × ℕ))
    → pop (push_hot job (record { hot = []; retry = retry }))
      ≡ (some job, record { hot = []; retry = retry })
unfolding pop push_hot
pop-push_hot job retry = refl

-- what stays in the sorted set after the members `ps` are removed one by one
pub left_after : List Payload → List (Payload × ℕ) → List (Payload × ℕ)
left_after [] es = es
left_after (p ∷ ps) es = left_after ps (zrem p es)

pub promote_each-hot :
    (ps : List Payload) (q : Queues)
    → promote_each ps q ≡ record { hot = reverse ps ++ q.hot; retry = left_after ps q.retry }
unfolding promote_each left_after
promote_each-hot [] q = refl
promote_each-hot (p ∷ ps) q =
    promote_each-hot ps (record { hot = p ∷ q.hot; retry = zrem p q.retry })
    ∙ ap (λ h. record { hot = h; retry = left_after ps (zrem p q.retry) })
        (sym (append_assoc (reverse ps) (p ∷ []) q.hot)
          ∙ ap (λ r. r ++ q.hot) (sym (reverse-append (p ∷ []) ps)))

count_eq_refl : (c : Option ℕ) → count_eq c c ≡ true
unfolding count_eq
count_eq_refl none = refl
count_eq_refl (some n) = ground arith

payload_eq_refl : (p : Payload) → payload_eq p p ≡ true
unfolding payload_eq
payload_eq_refl p = ground (
  arith,
  text_eq_refl p.txid,
  text_eq_refl p.address,
  text_eq_refl p.coin_symbol,
  count_eq_refl p.retry_count,
)

pub left_after-nil : (ps : List Payload) → left_after ps [] ≡ []
unfolding left_after zrem select
left_after-nil [] = refl
left_after-nil (p ∷ ps) = left_after-nil ps

-- whether a payload is one of a list, as the sorted set compares them
pub hit : List Payload → Payload → Bool
hit [] p = false
hit (r ∷ rs) p = payload_eq p r || hit rs p

pub left_after-cons :
    (ps : List Payload) (e : Payload × ℕ) (es : List (Payload × ℕ))
    → left_after ps (e ∷ es) ≡ (if hit ps e.0 then left_after ps es else e ∷ left_after ps es)
unfolding left_after zrem hit select
left_after-cons [] e es = refl
left_after-cons (p ∷ ps) e es = ground (arith, left_after-cons ps e (zrem p es))

pub hit-middle :
    (pre : List Payload) (p : Payload) (ps : List Payload) → hit (pre ++ p ∷ ps) p ≡ true
unfolding hit
hit-middle [] p ps = ground (arith, payload_eq_refl p)
hit-middle (r ∷ pre) p ps = ground (arith, hit-middle pre p ps)

pub due-cons :
    (now : ℕ) (e : Payload × ℕ) (es : List (Payload × ℕ))
    → due now (e ∷ es) ≡ (if leb e.1 now then e.0 ∷ due now es else due now es)
unfolding due select
due-cons now e es = ground arith

-- a member that is due leaves with the others
pub left_after-due :
    (now : ℕ) (pre : List Payload) (e : Payload × ℕ) (es : List (Payload × ℕ))
    → leb e.1 now ≡ true
    → left_after (pre ++ due now (e ∷ es)) (e ∷ es)
      ≡ left_after ((pre ++ e.0 ∷ []) ++ due now es) es
left_after-due now pre e es t =
    let split : due now (e ∷ es) ≡ e.0 ∷ due now es = ground (arith, due-cons now e es) in
    let moved : left_after (pre ++ e.0 ∷ due now es) (e ∷ es)
        ≡ left_after (pre ++ e.0 ∷ due now es) es =
      ground
        (arith, left_after-cons (pre ++ e.0 ∷ due now es) e es, hit-middle pre e.0 (due now es)) in
    ap (λ l. left_after (pre ++ l) (e ∷ es)) split
    ∙ moved
    ∙ ap (λ l. left_after l es) (sym (append_assoc pre (e.0 ∷ []) (due now es)))

left_due :
    (now : ℕ) (pre : List Payload) (es : List (Payload × ℕ))
    → due now (left_after (pre ++ due now es) es) ≡ []
unfolding due select
left_due now pre [] = ap (due now) (left_after-nil (pre ++ []))
left_due now pre (e ∷ es) = elim (Bool-cases (leb e.1 now)) [
  | inl t ↦ ap (due now) (left_after-due now pre e es t) ∙ left_due now (pre ++ e.0 ∷ []) es
  | inr f ↦
      let same : due now (e ∷ es) ≡ due now es = ground (arith, due-cons now e es) in
      ap (λ l. due now (left_after (pre ++ l) (e ∷ es))) same
      ∙ ground (
        arith,
        left_after-cons (pre ++ due now es) e es,
        due-cons now e (left_after (pre ++ due now es) es),
        left_due now pre es,
      )
]

-- `promote_due_retries` puts every job whose time has come on the hot list, the later ones in
-- front, returns their number, and leaves no job in the sorted set that is due.
pub promote_due_retries_lem :
    (now : ℕ) (q : Queues)
    → let (moved, q') = promote_due_retries now q in
      (moved ≡ length (due now q.retry))
      × (q'.hot ≡ reverse (due now q.retry) ++ q.hot)
      × (due now q'.retry ≡ [])
unfolding promote_due_retries
promote_due_retries_lem now q =
    let moved = promote_each-hot (due now q.retry) q in
    (refl, ap (λ r. r.hot) moved, ap (λ r. due now r.retry) moved ∙ left_due now [] q.retry)
