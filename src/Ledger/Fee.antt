-- ===== src/Ledger/Fee.antt =====
-- calculate_fee of services/ledger/accounting.py. With the amount in satoshis and the percentage in
-- hundredths, `commission_pcent / 100` times the amount is gross * pcent / 10000 satoshis, and
-- ROUND_DOWN is the floor. The product has at most 28 digits for every amount that a transaction
-- output can hold, so Python's Decimal does not round before `quantize`.
use crypto_pay_system.Prelude.{ℕ, ◌*◌, ◌/◌, ◌^◌, ◌+◌, ◌≤◌, ◌<◌, ◌≡◌, arith}
use crypto_pay_system.Prelude.Int.{ℤ, pos, ◌+ℤ◌, ◌-ℤ◌, ◌≤ℤ◌, int_laws}

pub record FeeResult : Type 0 where
  pub gross : ℕ
  pub commission_pcent : ℕ
  pub fee : ℕ
  pub net : ℤ

pub calculate_fee : ℕ → ℕ → FeeResult
calculate_fee gross commission_pcent =
    let fee = gross * commission_pcent / 10000 in
    record {
      gross = gross;
      commission_pcent = commission_pcent;
      fee = fee;
      net = pos gross -ℤ pos fee;
    }

-- For every amount and percentage the fee and the net amount add up to the gross amount, and the
-- fee is the exact share rounded down: below it by less than one satoshi.
pub calculate_fee_split :
    (gross pcent : ℕ)
    → let r = calculate_fee gross pcent in
      (pos r.fee +ℤ r.net ≡ pos gross)
      × (r.fee * 10000 ≤ gross * pcent)
      × (gross * pcent < (r.fee + 1) * 10000)
unfolding calculate_fee
calculate_fee_split gross pcent = (omega int_laws, omega arith, omega arith)

div_share : (gross pcent : ℕ) → pcent ≤ 10000 → gross * pcent / 10000 ≤ gross
div_share gross pcent h = grind arith

-- With a percentage of at most 100.00 the fee is at most the amount, so the merchant's net amount
-- is not negative.
pub calculate_fee_bounds :
    (gross pcent : ℕ)
    → pcent ≤ 10000
    → ((calculate_fee gross pcent).fee ≤ gross) × (pos 0 ≤ℤ (calculate_fee gross pcent).net)
unfolding calculate_fee
calculate_fee_bounds gross pcent h =
    (div_share gross pcent h, omega (int_laws, div_share gross pcent h))

-- Rounding each payment down never charges more than the fee on the joined payments, and less than
-- one satoshi is lost: for two amounts the fees add up to the fee of the sum, or to one less.
pub calculate_fee_merge :
    (a b pcent : ℕ)
    → ((calculate_fee a pcent).fee + (calculate_fee b pcent).fee
        ≤ (calculate_fee (a + b) pcent).fee)
      × ((calculate_fee (a + b) pcent).fee
          ≤ (calculate_fee a pcent).fee + (calculate_fee b pcent).fee + 1)
unfolding calculate_fee
calculate_fee_merge a b pcent = (omega arith, omega arith)

-- The product that Python computes as a Decimal fits its 28 digits of precision.
pub fee_product_digits :
    (gross pcent : ℕ) → gross < 2 ^ 64 → pcent ≤ 10000 → gross * pcent < 10 ^ 28
fee_product_digits gross pcent h k = grind arith
