-- ===== src/Providers/Bitcoin.antt =====
-- BitcoinProvider of providers/bitcoin.py, less the payout transaction: confirmations, transaction
-- data of Esplora, balances, and the check of an address. Here the answers of HTTP requests and the
-- derived addresses are arguments; the requests are in Esplora and the keys in Wallet.
pub mod Confirmations
pub mod Address
pub mod Wallet
pub mod Esplora
pub mod Calls
use crypto_pay_system.Prelude.{
  ℕ, ◌+◌, ◌||◌, Bool, true, false, List, [], ◌∷◌, Option, none, some, if◌then◌else◌,
}
use crypto_pay_system.Prelude.Exec.{Exn, Result, ok, err, provider_error, tx_not_found}
use crypto_pay_system.Prelude.Int.{ℤ, pos, ◌-ℤ◌}
use crypto_pay_system.Prelude.Text.{Text, codes, starts_with}
use crypto_pay_system.Providers.Registry.{Provider}
use crypto_pay_system.Providers.Node.{
  Reply, replied, rpc_failed, broke, count_of, not_of_wallet, left_mempool, ping,
}

-- the second try of `check_confirmations`
unfoldable pub second_try : Reply (Option ℕ) → Result ℕ
unfolding left_mempool
second_try (replied found) = ok (count_of found)
second_try (rpc_failed msg) = if left_mempool msg then ok 1 else err provider_error
second_try broke = err provider_error

-- `check_confirmations`: the answers to gettransaction and to getrawtransaction
unfoldable pub check_confirmations : Reply (Option ℕ) → Reply (Option ℕ) → Result ℕ
unfolding not_of_wallet second_try
check_confirmations (replied found) raw = ok (count_of found)
check_confirmations (rpc_failed msg) raw =
    if not_of_wallet msg then second_try raw else err provider_error
check_confirmations broke raw = second_try raw

any_prefix : Text → List Text → Bool
any_prefix address [] = false
any_prefix address (p ∷ ps) = starts_with address p || any_prefix address ps

-- `validate_address`
unfoldable pub validate_address : Bool → Text → Bool
unfolding any_prefix
validate_address testnet address =
    if testnet
    then any_prefix address (codes "m" ∷ codes "n" ∷ codes "2" ∷ codes "tb1" ∷ [])
    else any_prefix address (codes "1" ∷ codes "3" ∷ codes "bc1" ∷ [])

-- An output and a transaction in the answer of Esplora; a key that is absent is `none`.
pub record EsploraOut : Type 0 where
  pub value : Option ℕ
  pub scriptpubkey_address : Option Text

pub record EsploraTx : Type 0 where
  pub txid : Text
  pub confirmed : Bool
  pub vin : List (Option EsploraOut)
  pub vout : List EsploraOut
  pub fee : Option ℕ

pub record TxInfo : Type 0 where
  pub txid : Text
  pub amount : ℕ
  pub confirmations : ℕ
  pub to_address : Text
  pub from_address : Option Text
  pub fee : Option ℕ

total_out : List EsploraOut → ℕ
total_out [] = 0
total_out (o ∷ os) = count_of o.value + total_out os

-- the address of the output, unless it is absent or empty
usable : Option Text → Option Text
usable none = none
usable (some []) = none
usable (some (c ∷ a)) = some (c ∷ a)

or_else : Option Text → Text → Text
or_else none rest = rest
or_else (some a) rest = a

first_address : List EsploraOut → Text
unfolding usable or_else
first_address [] = []
first_address (o ∷ os) = or_else (usable o.scriptpubkey_address) (first_address os)

from_first : List (Option EsploraOut) → Option Text
from_first [] = none
from_first (none ∷ vin) = none
from_first (some prevout ∷ vin) = prevout.scriptpubkey_address

-- `_parse_tx`, amounts in satoshis
pub parse_tx : EsploraTx → TxInfo
unfolding total_out first_address from_first
parse_tx raw = record {
  txid = raw.txid;
  amount = total_out raw.vout;
  confirmations = if raw.confirmed then 1 else 0;
  to_address = first_address raw.vout;
  from_address = from_first raw.vin;
  fee = raw.fee;
}

-- `get_tx_info`, with what `_fetch_tx` returns or raises
pub get_tx_info : Result EsploraTx → Result TxInfo
unfolding parse_tx
get_tx_info (ok raw) = ok (parse_tx raw)
get_tx_info (err tx_not_found) = err tx_not_found
get_tx_info (err _) = err provider_error

-- `get_balance`: `funded_txo_sum` and `spent_txo_sum`
unfoldable pub get_balance : Option ℕ → Option ℕ → ℤ
get_balance funded spent = pos (count_of funded) -ℤ pos (count_of spent)

-- What the node and the key derivation answer.
pub record Node : Type 0 where
  pub gettransaction : Text → Reply (Option ℕ)
  pub getrawtransaction : Text → Reply (Option ℕ)
  pub derive : ℕ → ℕ → Result Text
  pub testnet : Bool

-- the adapter that `bootstrap_providers` registers
abbrev pub bitcoin_provider : Node → Provider
bitcoin_provider node = record {
  symbol = codes "BTC";
  generate_address = λ index change. node.derive index change;
  check_confirmations =
      λ txid. check_confirmations (node.gettransaction txid) (node.getrawtransaction txid);
  validate_address = λ address. validate_address node.testnet address;
}
