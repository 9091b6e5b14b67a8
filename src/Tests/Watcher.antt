-- ===== src/Tests/Watcher.antt =====
-- The theorems on decoding and matching at small transactions.
use crypto_pay_system.Prelude.{
  ℕ, zero, suc, ◌≡◌, refl, true, false, some, Option, List, [], ◌∷◌, arith, All,
}
use crypto_pay_system.Prelude.Exec.{ok}
use crypto_pay_system.Prelude.Int.{pos}
use crypto_pay_system.Prelude.Text.{Text, codes}
use crypto_pay_system.Watcher.Decoder.{
  Bytes, TxInput, TxOutput, RawTx, hex, legacy_serialise, concat_map, txid_of, decode_raw_tx,
}
use crypto_pay_system.Watcher.Decoder.Bytes.{IsByte}
use crypto_pay_system.Watcher.Decoder.Parts.{IsInput, IsOutput}
use crypto_pay_system.Watcher.Decoder.Layout.{IsTx, serialise_stack, witness_serialise}
use crypto_pay_system.Watcher.Decoder.RoundTrip.{decode-witness}
use crypto_pay_system.Watcher.Matching.{CachedInvoice}

abbrev pub copies : ℕ → ℕ → Bytes
copies zero b = []
copies (suc n) b = b ∷ copies n b

copies-IsByte : (n : ℕ) → All IsByte (copies n 17)
copies-IsByte zero = tt
copies-IsByte (suc n) = (omega arith, copies-IsByte n)

abbrev pub input : TxInput
input = record {
  prev_txid = hex (copies 32 17);
  prev_vout = 1;
  script_sig = 81 ∷ [];
  sequence = 4_294_967_295;
}

abbrev output : TxOutput
output = record { value_sat = 100_001; script_pubkey = 0 ∷ 20 ∷ []; testnet = true }

pub input-IsInput : IsInput input
input-IsInput = record {
  prev = copies 32 17;
  prev_bytes = copies-IsByte 32;
  prev_length = refl;
  prev_hex = refl;
  vout = omega arith;
  script = omega arith;
  sequence = omega arith;
}

output-IsOutput : IsOutput true output
output-IsOutput = record { value = omega arith; script = omega arith; network = refl }

small-IsTx : IsTx true (pos 2) (input ∷ []) (output ∷ []) 0
small-IsTx = record {
  version_fits = omega arith;
  input_count = (omega arith, omega arith);
  inputs_fit = (input-IsInput, tt);
  output_count = omega arith;
  outputs_fit = (output-IsOutput, tt);
  locktime_fits = omega arith;
}

-- a stand-in for the double hash: the bytes themselves
abbrev pub hash : Bytes → Bytes
hash bs = bs

abbrev raw : Bytes
raw = legacy_serialise (pos 2) (input ∷ []) (output ∷ []) 0

abbrev small : RawTx
small = record {
  txid = txid_of hash raw;
  version = pos 2;
  locktime = 0;
  inputs = input ∷ [];
  outputs = output ∷ [];
  is_segwit = false;
  testnet = true;
}

abbrev stacks : List (List Bytes)
stacks = ((48 ∷ 1 ∷ []) ∷ [] ∷ []) ∷ []

decode-witness_example :
    decode_raw_tx hash
      (witness_serialise (pos 2) (input ∷ []) (output ∷ []) (concat_map serialise_stack stacks) 0)
      true
    ≡ ok (record small { is_segwit = true })
decode-witness_example =
    decode-witness hash true (pos 2) (input ∷ []) (output ∷ []) 0 small-IsTx stacks refl
      ((omega arith, (omega arith, (omega arith, tt))), tt)

abbrev watched : CachedInvoice
watched = record {
  invoice_id = 3;
  address = codes "tb1a";
  amount_expected = 100_001;
  coin_symbol = codes "BTC";
  merchant_id = 7;
}

-- every script pays the watched address
abbrev to_watched : TxOutput → Option Text
to_watched o = some (codes "tb1a")
