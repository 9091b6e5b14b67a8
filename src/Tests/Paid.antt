-- ===== src/Tests/Paid.antt =====
-- A payment to an invoice, from the node's message to the queue, and the texts of addresses.
use crypto_pay_system.Prelude.{ℕ, ◌≡◌, refl, true, false, some, [], ◌∷◌, arith}
use crypto_pay_system.Prelude.Int.{pos}
use crypto_pay_system.Prelude.Text.{Text, codes, text_eq}
use crypto_pay_system.Models.{Db}
use crypto_pay_system.Providers.Bitcoin.Address.{derive_address, pay_to}
use crypto_pay_system.Watcher.Decoder.{Bytes, TxOutput, RawTx, legacy_serialise, txid_of}
use crypto_pay_system.Watcher.Decoder.Parts.{IsOutput}
use crypto_pay_system.Watcher.Decoder.Layout.{IsTx}
use crypto_pay_system.Watcher.Address.{bech32_encode}
use crypto_pay_system.Watcher.Matching.{CachedInvoice}
use crypto_pay_system.Watcher.Matching.Lookup.{watched_invoice}
use crypto_pay_system.Ledger.Queue.{Queues}
use crypto_pay_system.Tests.Data.{btc, shop, invoice}
use crypto_pay_system.Tests.Watcher.{copies, hash, input, input-IsInput}

-- stands for RIPEMD-160 of SHA-256
abbrev pub hash160 : Bytes → Bytes
hash160 bs = copies 20 7

abbrev pub public_key : ℕ → ℕ → Bytes
public_key change index = change ∷ index ∷ []

abbrev pub own_address : Text
own_address = derive_address hash hash160 public_key 0 4

abbrev pub open_shop : Db
open_shop = record shop { invoices = record invoice { address = own_address } ∷ [] }

abbrev pub watched : CachedInvoice
watched = record {
  invoice_id = 3;
  address = own_address;
  amount_expected = 100_001;
  coin_symbol = btc;
  merchant_id = 7;
}

pub test_watched_invoice : watched_invoice open_shop own_address open_shop.invoices ≡ some watched
unfolding watched_invoice text_eq derive_address
test_watched_invoice = refl

abbrev pub output : TxOutput
output = record {
  value_sat = 100_001;
  script_pubkey = pay_to hash hash160 public_key 0 4;
  testnet = true;
}

output-IsOutput : IsOutput true output
output-IsOutput = record { value = omega arith; script = omega arith; network = refl }

pub payment-IsTx : IsTx true (pos 2) (input ∷ []) (output ∷ []) 0
payment-IsTx = record {
  version_fits = omega arith;
  input_count = (omega arith, omega arith);
  inputs_fit = (input-IsInput, tt);
  output_count = omega arith;
  outputs_fit = (output-IsOutput, tt);
  locktime_fits = omega arith;
}

abbrev pub raw : Bytes
raw = legacy_serialise (pos 2) (input ∷ []) (output ∷ []) 0

abbrev pub payment : RawTx
payment = record {
  txid = txid_of hash raw;
  version = pos 2;
  locktime = 0;
  inputs = input ∷ [];
  outputs = output ∷ [];
  is_segwit = false;
  testnet = true;
}

abbrev pub empty : Queues
empty = record { hot = []; retry = [] }

-- the first test vector of BIP 173
test_bech32_encode :
    bech32_encode (codes "bc") 0 (
      0x75 ∷ 0x1e ∷ 0x76 ∷ 0xe8 ∷ 0x19 ∷ 0x91 ∷ 0x96 ∷ 0xd4 ∷ 0x54 ∷ 0x94 ∷ 0x1c ∷ 0x45 ∷ 0xd1
      ∷ 0xb3 ∷ 0xa3 ∷ 0x23 ∷ 0xf1 ∷ 0x43 ∷ 0x3b ∷ 0xd6 ∷ [])
    ≡ codes "bc1qw508d6qejxtdg4y5r3zarvary0c5xw7kv8f3t4"
unfolding bech32_encode
test_bech32_encode = refl
