-- ===== src/Watcher/Matching.antt =====
-- services/watcher: the address cache (address_cache.py), the messages (tx_queue.py), and the
-- handlers of raw transactions and blocks (zmq_watcher.py). The address of an output is a parameter
-- here, `address_of`; Watcher.Service gives the one of Watcher.Address.
pub mod Matches
pub mod Lookup
pub mod Names
use crypto_pay_system.Prelude.{
  ℕ, ◌==◌, ltb, ◌&&◌, ◌||◌, Bool, true, false, List, [], ◌∷◌, ◌++◌, Option, none, some, length,
  if◌then◌else◌,
}
use crypto_pay_system.Prelude.Exec.{Result, ok, err}
use crypto_pay_system.Prelude.Rows.{select}
use crypto_pay_system.Prelude.Text.{Text, text_eq}
use crypto_pay_system.Models.{InvoiceStatus, Invoice, Coin, Db, status_eq}
use crypto_pay_system.Watcher.Decoder.{Bytes, TxOutput, RawTx, decode_raw_tx}
use crypto_pay_system.Ledger.Queue.{Payload, Queues, lpush}

pub record CachedInvoice : Type 0 where
  pub invoice_id : ℕ
  pub address : Text
  pub amount_expected : ℕ
  pub coin_symbol : Text
  pub merchant_id : ℕ

-- the dict of AddressCache: address -> CachedInvoice
abbrev pub Cache : Type 0
Cache = List (Text × CachedInvoice)

pub cached : Text → Cache → Option CachedInvoice
cached a [] = none
cached a ((k, v) ∷ d) = if text_eq k a then some v else cached a d

pub store : Text → CachedInvoice → Cache → Cache
store a v [] = (a, v) ∷ []
store a v ((k, w) ∷ d) = if text_eq k a then (k, v) ∷ d else (k, w) ∷ store a v d

-- `add` and `remove`
pub add : CachedInvoice → Cache → Cache
add invoice = store invoice.address invoice

unfoldable pub remove : Text → Cache → Cache
remove a [] = []
remove a ((k, v) ∷ d) = if text_eq k a then d else (k, v) ∷ remove a d

abbrev pub is_active_status : InvoiceStatus → Bool
is_active_status InvoiceStatus.new = true
is_active_status InvoiceStatus.partial = true
is_active_status InvoiceStatus.pending = true
is_active_status _ = false

-- `.join(Invoice.coin)`: an invoice with the row of its coin
unfoldable pub coin_of : ℕ → List Coin → Option Coin
coin_of id [] = none
coin_of id (c ∷ cs) = if c.id == id then some c else coin_of id cs

abbrev entry : Invoice → Coin → CachedInvoice
entry inv coin = record {
  invoice_id = inv.id;
  address = inv.address;
  amount_expected = inv.amount_expected;
  coin_symbol = coin.symbol;
  merchant_id = inv.merchant_id;
}

with_coin : Invoice → Option Coin → Cache → Cache
with_coin inv none new_cache = new_cache
with_coin inv (some coin) new_cache = store inv.address (entry inv coin) new_cache

-- the loop of `refresh`, from the first row of the result on
fill : Db → List Invoice → Cache → Cache
unfolding coin_of with_coin
fill db [] new_cache = new_cache
fill db (inv ∷ invs) new_cache =
    fill db invs (with_coin inv (coin_of inv.coin_id db.coins) new_cache)

-- `AddressCache.refresh`; a database error leaves the old cache
pub refresh : Result Db → Cache → Cache
unfolding fill
refresh (ok db) old = fill db (select (λ i. is_active_status i.status) db.invoices) []
refresh (err e) old = old

-- `TxMatch` as it is pushed: there is no `retry_count`
abbrev pub tx_match : RawTx → TxOutput → Text → CachedInvoice → Payload
tx_match tx output address c = record {
  txid = tx.txid;
  invoice_id = c.invoice_id;
  address = address;
  amount_sat = output.value_sat;
  coin_symbol = c.coin_symbol;
  merchant_id = c.merchant_id;
  confirmations = 0;
  retry_count = none;
}

matched : RawTx → TxOutput → Text → Option CachedInvoice → List Payload
matched tx output address none = []
matched tx output address (some c) = tx_match tx output address c ∷ []

addressed : Cache → RawTx → TxOutput → Option Text → List Payload
unfolding matched
addressed cache tx output none = []
addressed cache tx output (some address) = matched tx output address (cached address cache)

module _ (address_of : TxOutput → Option Text) where
  -- one round of the loop of `_handle_raw_tx`: what it pushes
  pub output_match : Cache → RawTx → TxOutput → List Payload
  unfolding addressed
  output_match cache tx output = addressed cache tx output (address_of output)

  push_all : List Payload → Queues → Queues
  push_all [] q = q
  push_all (p ∷ ps) q = push_all ps (lpush p q)

  match_outputs : Cache → RawTx → List TxOutput → Queues → Queues
  unfolding push_all output_match
  match_outputs cache tx [] q = q
  match_outputs cache tx (o ∷ os) q =
      match_outputs cache tx os (push_all (output_match cache tx o) q)

  handled : Cache → Result RawTx → Queues → Queues
  unfolding match_outputs
  handled cache (ok tx) q = match_outputs cache tx tx.outputs q
  handled cache (err e) q = q

  unfoldable pub handle_raw_tx : (Bytes → Bytes) → Bool → Cache → Bytes → Queues → Queues
  unfolding handled
  handle_raw_tx hash256 testnet cache payload q =
      handled cache (decode_raw_tx hash256 payload testnet) q

-- `_handle_raw_block`
unfoldable pub handle_raw_block : Bytes → Result Db → Cache → Cache
unfolding refresh
handle_raw_block payload db cache = if ltb (length payload) 80 then cache else refresh db cache
