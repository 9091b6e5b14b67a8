-- ===== src/Payout/Signing.antt =====
-- The amounts of BitcoinProvider._build_and_sign in providers/bitcoin.py: inputs, fee, change and
-- outputs. What signs them is the function `sign`; Payout.Signing.Transaction is the code's.
pub mod Balance
pub mod Transaction
pub mod Spends
pub mod Wallet
pub mod Pays
use crypto_pay_system.Prelude.{
  ℕ, ◌+◌, ◌*◌, max, ◌==◌, ltb, Bool, true, false, List, [], ◌∷◌, Option, none, some, if◌then◌else◌,
}
use crypto_pay_system.Prelude.Exec.{Result, ok, err, insufficient_funds, provider_error}
use crypto_pay_system.Prelude.Int.{ℤ, pos, negsuc, ◌+ℤ◌, ◌-ℤ◌, ltb_ℤ}
use crypto_pay_system.Prelude.{length}
use crypto_pay_system.Prelude.Text.{Text}
use crypto_pay_system.Payout.Selector.{SelectedUtxo}
use crypto_pay_system.Models.{Settings}

unfoldable pub total_input : List SelectedUtxo → ℕ
total_input [] = 0
total_input (u ∷ us) = u.amount_sat + total_input us

-- `10 + 148 * n_in + 34 * n_out`
abbrev pub estimated_size : ℕ → ℕ → ℕ
estimated_size n_in n_out = 10 + 148 * n_in + 34 * n_out

pub record Amounts : Type 0 where
  pub fee_sat : ℤ
  pub amount_out_sat : ℕ
  pub change_sat : ℤ

abbrev max_ℤ : ℤ → ℤ → ℤ
max_ℤ a b = if ltb_ℤ a b then b else a

-- Change below the dust threshold goes to the fee.
pub drop_dust : Settings → ℕ → ℕ → ℕ → ℤ → ℤ → Amounts
drop_dust settings n_in amount_sat rate fee_sat change_sat =
    if ltb_ℤ change_sat (pos settings.payout_dust_threshold_sat)
    then record {
      fee_sat = max_ℤ (fee_sat +ℤ change_sat) (pos (estimated_size n_in 1 * rate));
      amount_out_sat = amount_sat;
      change_sat = pos 0;
    }
    else record { fee_sat = fee_sat; amount_out_sat = amount_sat; change_sat = change_sat }

int_eq : ℤ → ℤ → Bool
int_eq a b = if ltb_ℤ a b then false else if ltb_ℤ b a then false else true

-- `expected_total != total_input_sat`
pub verified : ℕ → Amounts → Result Amounts
unfolding int_eq
verified total_input_sat a =
    if int_eq (pos a.amount_out_sat +ℤ a.fee_sat +ℤ a.change_sat) (pos total_input_sat)
    then ok a
    else err provider_error

unfoldable pub plan_amounts : Settings → List SelectedUtxo → ℕ → ℕ → Result Amounts
unfolding drop_dust verified
plan_amounts settings utxos amount_sat rate =
    let total_input_sat = total_input utxos in
    let fee_sat = pos (estimated_size (length utxos) 2 * rate) in
    let change_sat = pos total_input_sat -ℤ pos amount_sat -ℤ fee_sat in
    if ltb_ℤ change_sat (pos 0)
    then err insufficient_funds
    else verified total_input_sat
        (drop_dust settings (length utxos) amount_sat rate fee_sat change_sat)

-- A transaction output: its value and the address that it pays.
pub record TxOut : Type 0 where
  pub value : ℤ
  pub address : Text

-- `vout`: the destination, and the change if there is any
unfoldable pub outputs : Text → Text → Amounts → List TxOut
outputs destination change_address a =
    record { value = pos a.amount_out_sat; address = destination }
    ∷ (if ltb_ℤ (pos 0) a.change_sat
        then record { value = a.change_sat; address = change_address } ∷ []
        else [])

-- The dict that `create_payout_transaction` returns.
pub record Signed : Type 0 where
  pub raw_hex : Text
  pub txid : Text
  pub fee_sat : ℤ
  pub amount_out_sat : ℕ
  pub change_sat : ℤ

-- `fee_rate_sat_vbyte or settings.payout_fee_rate_sat_vbyte`
abbrev pub rate_or_default : Settings → ℕ → ℕ
rate_or_default settings rate = if rate == 0 then settings.payout_fee_rate_sat_vbyte else rate

module _ (sign : List SelectedUtxo → List TxOut → Result (Text × Text)) where
  finished : Amounts → Result (Text × Text) → Result Signed
  finished a (ok (raw_hex, txid)) = ok (record {
    raw_hex = raw_hex;
    txid = txid;
    fee_sat = a.fee_sat;
    amount_out_sat = a.amount_out_sat;
    change_sat = a.change_sat;
  })
  finished a (err e) = err e

  signed_with : List SelectedUtxo → Text → Text → Result Amounts → Result Signed
  unfolding finished
  signed_with utxos destination change_address (ok a) =
      finished a (sign utxos (outputs destination change_address a))
  signed_with utxos destination change_address (err e) = err e

  unfoldable pub create_payout_transaction :
      Settings → List SelectedUtxo → Text → ℕ → Text → ℕ → Result Signed
  unfolding signed_with
  create_payout_transaction settings utxos destination amount_sat change_address fee_rate =
      signed_with utxos destination change_address
        (plan_amounts settings utxos amount_sat (rate_or_default settings fee_rate))
