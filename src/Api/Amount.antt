-- ===== src/Api/Amount.antt =====
-- The amounts of requests, and the columns that keep them: an `amount` of core/schemas.py and of
-- services/payout/router.py is a Decimal, and a column Numeric(28, 8) of core/models.py rounds it to
-- whole satoshis. Zero stands for the amounts that `gt=0` refuses; amounts are those of at most 28
-- digits, with which Python's Decimal and the column are exact.
use crypto_pay_system.Prelude.{ℕ, ◌*◌, ◌+◌, ◌/◌, ◌^◌, ◌≤◌, ◌<◌, ◌≡◌, Bool, true, false, ltb, arith}
use native.Mathlib.Nat.{one-le-pow}
use crypto_pay_system.Prelude.Int.{ℤ, pos, negsuc, ◌≤ℤ◌}

-- `units / 10 ^ places`
pub record Decimal : Type 0 where
  pub units : ℕ
  pub places : ℕ

-- `_SAT`
abbrev pub satoshi : ℕ
satoshi = 100_000_000

-- `int(amount * _SAT)`
unfoldable pub sat_floor : Decimal → ℕ
sat_floor d = d.units * satoshi / (10 ^ d.places)

-- what Numeric(28, 8) keeps: the nearest number of satoshis, the upper of two
unfoldable pub sat_rounded : Decimal → ℕ
sat_rounded d = (2 * (d.units * satoshi) + 10 ^ d.places) / (2 * 10 ^ d.places)

-- the value of a column
abbrev pub of_sat : ℕ → Decimal
of_sat sat = record { units = sat; places = 8 }

-- `available < amount`, for an available amount in satoshis
unfoldable pub is_below : ℤ → Decimal → Bool
is_below (pos a) d = ltb (a * 10 ^ d.places) (d.units * satoshi)
is_below (negsuc a) d = true

rounded_le : (x t a : ℕ) → 0 < t → x ≤ a * t → (2 * x + t) / (2 * t) ≤ a
rounded_le x t a some_t h = grind arith

floor_le : (x t : ℕ) → 0 < t → x / t ≤ (2 * x + t) / (2 * t)
floor_le x t some_t = grind arith

power_positive : (k : ℕ) → 0 < 10 ^ k
power_positive k = one-le-pow k 10 (omega arith)

-- An available amount is a whole number of satoshis: one that covers an amount covers it rounded.
pub is_below-sat_rounded :
    (available : ℤ) (d : Decimal) → is_below available d ≡ false → pos (sat_rounded d) ≤ℤ available
unfolding is_below sat_rounded
is_below-sat_rounded (pos a) d h =
    let covers : d.units * satoshi ≤ a * 10 ^ d.places = ground arith in
    let least = rounded_le (d.units * satoshi) (10 ^ d.places) a (power_positive d.places) covers in
    omega (arith, least)
is_below-sat_rounded (negsuc a) d h = absurd (cc h)

pub sat_floor-sat_rounded : (d : Decimal) → sat_floor d ≤ sat_rounded d
unfolding sat_floor sat_rounded
sat_floor-sat_rounded d = floor_le (d.units * satoshi) (10 ^ d.places) (power_positive d.places)
