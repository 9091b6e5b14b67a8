-- ===== src/Payout/Signing/Balance.antt =====
-- How the amounts of a payout transaction relate, and which inputs are refused.
use crypto_pay_system.Prelude.{
  ℕ, ◌+◌, ◌*◌, ◌≤◌, ◌<◌, ◌≡◌, refl, ◌⊎◌, inl, inr, true, false, List, arith, length, Bool-cases,
}
use crypto_pay_system.Prelude.Exec.{ok, err, insufficient_funds}
use crypto_pay_system.Prelude.Int.{pos, ◌+ℤ◌, ◌-ℤ◌, ◌≤ℤ◌, ltb_ℤ, +ℤ_parts}
use crypto_pay_system.Models.{Settings}
use crypto_pay_system.Payout.Selector.{SelectedUtxo}
use crypto_pay_system.Payout.Signing.{
  Amounts, estimated_size, total_input, plan_amounts, drop_dust, verified,
}

-- What is promised of the amounts: the inputs are spent exactly, the destination gets the requested
-- amount, and what is left of the inputs is change where it is not dust, with the fee at the rate
-- for two outputs, and is added to that fee where it is.
pub record IsBalanced (settings : Settings) (utxos : List SelectedUtxo) (amount rate : ℕ)
    (a : Amounts) : Type 0 where
  pub out : a.amount_out_sat ≡ amount
  pub spent : pos a.amount_out_sat +ℤ a.fee_sat +ℤ a.change_sat ≡ pos (total_input utxos)
  pub fee : pos (estimated_size (length utxos) 1 * rate) ≤ℤ a.fee_sat
  pub change : (a.change_sat ≡ pos 0) ⊎ (pos settings.payout_dust_threshold_sat ≤ℤ a.change_sat)
  pub nonneg : pos 0 ≤ℤ a.change_sat
  pub paid :
      amount + estimated_size (length utxos) 2 * rate + settings.payout_dust_threshold_sat
        ≤ total_input utxos
      → a.fee_sat ≡ pos (estimated_size (length utxos) 2 * rate)
  pub dropped :
      total_input utxos
        < amount + estimated_size (length utxos) 2 * rate + settings.payout_dust_threshold_sat
      → a.change_sat ≡ pos 0

drop_dust-IsBalanced :
    (settings : Settings) (utxos : List SelectedUtxo) (amount rate : ℕ)
    → amount + estimated_size (length utxos) 2 * rate ≤ total_input utxos
    → let fee = pos (estimated_size (length utxos) 2 * rate) in
      IsBalanced settings utxos amount rate (
        drop_dust settings
          (length utxos)
          amount
          rate
          fee
          (pos (total_input utxos) -ℤ pos amount -ℤ fee))
unfolding drop_dust ◌+ℤ◌ ◌-ℤ◌
drop_dust-IsBalanced settings utxos amount rate h = record {
  out = ground arith;
  spent = ground arith;
  fee = ground arith;
  change = ground arith;
  nonneg = ground arith;
  paid = λ enough. ground arith;
  dropped = λ dust. ground arith;
}

verified-IsBalanced :
    (settings : Settings) (utxos : List SelectedUtxo) (amount rate : ℕ) (a : Amounts)
    → IsBalanced settings utxos amount rate a
    → verified (total_input utxos) a ≡ ok a
unfolding verified
verified-IsBalanced settings utxos amount rate a h =
    ground (arith, +ℤ_parts (pos a.amount_out_sat) a.fee_sat, h.spent)

covers :
    (utxos : List SelectedUtxo) (amount fee : ℕ)
    → ltb_ℤ (pos (total_input utxos) -ℤ pos amount -ℤ pos fee) (pos 0) ≡ false
    → amount + fee ≤ total_input utxos
unfolding ◌-ℤ◌
covers utxos amount fee h = ground arith

covers_not :
    (utxos : List SelectedUtxo) (amount fee : ℕ)
    → ltb_ℤ (pos (total_input utxos) -ℤ pos amount -ℤ pos fee) (pos 0) ≡ true
    → total_input utxos < amount + fee
unfolding ◌-ℤ◌
covers_not utxos amount fee h = ground arith

-- For any inputs, amount and rate: if the inputs cover the amount and the fee of a transaction with
-- two outputs, the amounts are planned and balance. The inputs are spent exactly on the output, the
-- fee and the change; the destination gets the requested amount. Where what is left is at least the
-- dust threshold, the fee is the rate for the size with two outputs and the rest is change; where
-- it is less, there is no change, and the fee is all the rest, which is at least the rate for the
-- size with one output. If the inputs do not cover it, InsufficientFundsError is raised. So the
-- check `Balance mismatch` never fails.
pub plan_amounts_lem :
    (settings : Settings) (utxos : List SelectedUtxo) (amount rate : ℕ)
    → let need = amount + estimated_size (length utxos) 2 * rate in
      ((need ≤ total_input utxos)
        × (a : Amounts) × (plan_amounts settings utxos amount rate ≡ ok a)
        × IsBalanced settings utxos amount rate a)
      ⊎ ((total_input utxos < need)
          × (plan_amounts settings utxos amount rate ≡ err insufficient_funds))
unfolding plan_amounts
plan_amounts_lem settings utxos amount rate =
    let fee = pos (estimated_size (length utxos) 2 * rate) in
    let change = pos (total_input utxos) -ℤ pos amount -ℤ fee in
    elim (Bool-cases (ltb_ℤ change (pos 0))) [
      | inl low ↦
          inr (covers_not utxos amount (estimated_size (length utxos) 2 * rate) low, rw low refl)
      | inr fine ↦
          let h = covers utxos amount (estimated_size (length utxos) 2 * rate) fine in
          let b = drop_dust-IsBalanced settings utxos amount rate h in
          inl (
            h,
            drop_dust settings (length utxos) amount rate fee change,
            rw fine (verified-IsBalanced settings utxos amount rate _ b),
            b,
          )
    ]
