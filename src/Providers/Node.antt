-- ===== src/Providers/Node.antt =====
-- providers/bitcoin_rpc.py: what the client makes of the node's answers. A call gives the JSON value
-- that the node returns, or raises: a JSONRPCException with a message, or another exception. A count
-- of confirmations is a number; the negative counts of a transaction in conflict are left out.
use crypto_pay_system.Prelude.{
  ℕ, ◌+◌, ◌/◌, ◌*◌, ◌≤◌, ◌<◌, ltb, leb, max, not, ◌&&◌, ◌||◌, Bool, true, false, [], ◌∷◌, map,
  Option, none, some, if◌then◌else◌, arith,
}
use crypto_pay_system.Prelude.Text.{Text, codes, starts_with}
use crypto_pay_system.Prelude.Int.{ℤ, pos, negsuc}
use crypto_pay_system.Models.{Settings}

pub data Reply (A : Type 0) : Type 0 where
  replied : A → Reply A
  rpc_failed : Text → Reply A
  broke : Reply A

-- `part in text`
unfoldable pub contains_text : Text → Text → Bool
contains_text part [] = starts_with [] part
contains_text part (c ∷ text) = starts_with (c ∷ text) part || contains_text part text

-- `str.lower` on ASCII text
abbrev pub lower : Text → Text
lower = map (λ c. if leb 65 c && leb c 90 then c + 32 else c)

-- `data.get("confirmations", 0)`
abbrev pub count_of : Option ℕ → ℕ
count_of none = 0
count_of (some n) = n

-- the messages that send `get_confirmations` on to the second call
unfoldable pub not_of_wallet : Text → Bool
not_of_wallet msg =
    contains_text (codes "Invalid or non-wallet transaction") msg
    || contains_text (codes "not found") (lower msg)

unfoldable pub left_mempool : Text → Bool
left_mempool msg =
    contains_text (codes "No such mempool transaction") msg
    || contains_text (codes "No such mempool or blockchain transaction") msg

-- the second call, getrawtransaction
unfoldable pub from_mempool : Reply (Option ℕ) → Reply ℕ
unfolding left_mempool
from_mempool (replied found) = replied (count_of found)
from_mempool (rpc_failed msg) = if left_mempool msg then replied 1 else rpc_failed msg
from_mempool broke = broke

-- `get_confirmations`: the answers to gettransaction and to getrawtransaction
unfoldable pub get_confirmations : Reply (Option ℕ) → Reply (Option ℕ) → Reply ℕ
unfolding not_of_wallet from_mempool
get_confirmations (replied found) raw = replied (count_of found)
get_confirmations (rpc_failed msg) raw =
    if not (not_of_wallet msg) then rpc_failed msg else from_mempool raw
get_confirmations broke raw = broke

-- `ping`: the answer to getblockcount
abbrev pub ping : {A : Type 0} → Reply A → Bool
ping (replied height) = true
ping _ = false

rate_of : Settings → ℤ → ℕ
rate_of settings (pos n) = if ltb 0 n then max 1 (n / 1000) else settings.payout_fee_rate_sat_vbyte
rate_of settings (negsuc n) = settings.payout_fee_rate_sat_vbyte

-- `estimate_smart_fee`: the node's `feerate`, in satoshis for 1000 bytes, if it gives one. In this
-- unit `int(feerate * 100_000)` is the quotient by 1000.
pub estimate_smart_fee : Settings → Reply (Option ℤ) → ℕ
unfolding rate_of
estimate_smart_fee settings (replied none) = rate_of settings (negsuc 0)
estimate_smart_fee settings (replied (some feerate)) = rate_of settings feerate
estimate_smart_fee settings _ = settings.payout_fee_rate_sat_vbyte

-- A rate that the node gives is used rounded down to whole satoshis for a byte, and at least one.
pub estimate_smart_fee_given :
    (settings : Settings) (n : ℕ)
    → 0 < n
    → let rate = estimate_smart_fee settings (replied (some (pos n))) in
      (1 ≤ rate) × (rate * 1000 ≤ max n 1000) × (n < (rate + 1) * 1000)
unfolding estimate_smart_fee
estimate_smart_fee_given settings n h = ground arith

-- The fee rate is never zero, whatever the node answers, if the configured one is not zero.
pub estimate_smart_fee_pos :
    (settings : Settings) (reply : Reply (Option ℤ))
    → 0 < settings.payout_fee_rate_sat_vbyte
    → 0 < estimate_smart_fee settings reply
unfolding estimate_smart_fee
estimate_smart_fee_pos settings (replied none) h = h
estimate_smart_fee_pos settings (replied (some (pos n))) h = ground arith
estimate_smart_fee_pos settings (replied (some (negsuc n))) h = h
estimate_smart_fee_pos settings (rpc_failed msg) h = h
estimate_smart_fee_pos settings broke h = h
