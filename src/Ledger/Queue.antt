-- ===== src/Ledger/Queue.antt =====
-- services/ledger/queue.py: the hot list and the delayed retries, as Redis keeps them. The head of
-- a Redis list is the head of the list; a sorted set is the list of its members with their scores.
pub mod Order
pub mod Fifo
pub mod Sorted
pub mod Names
use crypto_pay_system.Prelude.{
  ℕ, ◌+◌, ◌==◌, ◌&&◌, ◌||◌, not, leb, Bool, true, false, List, [], ◌∷◌, ◌++◌, map, reverse, Option,
  none, some, length, if◌then◌else◌,
}
use crypto_pay_system.Prelude.Text.{Text, text_eq}
use crypto_pay_system.Prelude.Rows.{select}
use crypto_pay_system.Models.{Settings}

pub record LedgerJob : Type 0 where
  pub txid : Text
  pub invoice_id : ℕ
  pub address : Text
  pub amount_sat : ℕ
  pub coin_symbol : Text
  pub merchant_id : ℕ
  pub confirmations : ℕ
  pub retry_count : ℕ

-- The JSON object of a payload; the Watcher's have no `retry_count`.
pub record Payload : Type 0 where
  pub txid : Text
  pub invoice_id : ℕ
  pub address : Text
  pub amount_sat : ℕ
  pub coin_symbol : Text
  pub merchant_id : ℕ
  pub confirmations : ℕ
  pub retry_count : Option ℕ

abbrev pub to_json : LedgerJob → Payload
to_json j = record {
  txid = j.txid;
  invoice_id = j.invoice_id;
  address = j.address;
  amount_sat = j.amount_sat;
  coin_symbol = j.coin_symbol;
  merchant_id = j.merchant_id;
  confirmations = j.confirmations;
  retry_count = some j.retry_count;
}

-- `d.setdefault("retry_count", 0)`
abbrev pub or_zero : Option ℕ → ℕ
or_zero none = 0
or_zero (some n) = n

abbrev pub from_json : Payload → LedgerJob
from_json d = record {
  txid = d.txid;
  invoice_id = d.invoice_id;
  address = d.address;
  amount_sat = d.amount_sat;
  coin_symbol = d.coin_symbol;
  merchant_id = d.merchant_id;
  confirmations = d.confirmations;
  retry_count = or_zero d.retry_count;
}

count_eq : Option ℕ → Option ℕ → Bool
count_eq none none = true
count_eq (some a) (some b) = a == b
count_eq _ _ = false

-- Two members of a sorted set are one when their texts are equal.
pub payload_eq : Payload → Payload → Bool
unfolding count_eq
payload_eq a b =
    text_eq a.txid b.txid
    && a.invoice_id == b.invoice_id
    && text_eq a.address b.address
    && a.amount_sat == b.amount_sat
    && text_eq a.coin_symbol b.coin_symbol
    && a.merchant_id == b.merchant_id
    && a.confirmations == b.confirmations
    && count_eq a.retry_count b.retry_count

pub record Queues : Type 0 where
  pub hot : List Payload
  pub retry : List (Payload × ℕ)

-- LPUSH
abbrev pub lpush : Payload → Queues → Queues
lpush p q = record q { hot = p ∷ q.hot }

-- ZADD and ZREM: a member that is there gets the new score.
unfoldable pub zrem : Payload → List (Payload × ℕ) → List (Payload × ℕ)
zrem p = select (λ e. not (payload_eq e.0 p))

-- The set is kept by rising score, a new member behind those of its score.
unfoldable pub zinsert : Payload → ℕ → List (Payload × ℕ) → List (Payload × ℕ)
zinsert p score [] = (p, score) ∷ []
zinsert p score (e ∷ es) = if leb e.1 score then e ∷ zinsert p score es else (p, score) ∷ e ∷ es

abbrev pub zadd : Payload → ℕ → Queues → Queues
zadd p score q = record q { retry = zinsert p score (zrem p q.retry) }

abbrev pub split_last : Payload → List Payload → Payload × List Payload
split_last p [] = (p, [])
split_last p (r ∷ rs) = let (l, front) = split_last r rs in (l, p ∷ front)

-- `pop`: BRPOP takes the tail; `none` is the timeout.
unfoldable pub pop : Queues → Option LedgerJob × Queues
pop q = elim q.hot [
  | [] ↦ (none, q)
  | p ∷ ps ↦ let (l, front) = split_last p ps in (some (from_json l), record q { hot = front })
]

pub push_hot : LedgerJob → Queues → Queues
push_hot job = lpush (to_json job)

abbrev pub retried : LedgerJob → LedgerJob
retried job = record job { retry_count = job.retry_count + 1 }

-- `push_retry` at the time `now`.
unfoldable pub push_retry : Settings → ℕ → LedgerJob → Queues → Queues
push_retry settings now job = zadd (to_json (retried job)) (now + settings.ledger_retry_delay)

-- the members with score at most `now`, in order
unfoldable pub due : ℕ → List (Payload × ℕ) → List Payload
due now es = map (λ e. e.0) (select (λ e. leb e.1 now) es)

-- the pipeline of `promote_due_retries`
pub promote_each : List Payload → Queues → Queues
promote_each [] q = q
promote_each (p ∷ ps) q = promote_each ps (record { hot = p ∷ q.hot; retry = zrem p q.retry })

-- `promote_due_retries` at the time `now`, and the number that it returns
unfoldable pub promote_due_retries : ℕ → Queues → ℕ × Queues
promote_due_retries now q = let ps = due now q.retry in (length ps, promote_each ps q)
