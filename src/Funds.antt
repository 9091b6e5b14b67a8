-- ===== src/Funds.antt =====
-- What the books say of one account, a merchant and a coin: the money held on its balances, the net
-- amounts that the fee log has booked for it, and what its sent payouts have taken out.
use crypto_pay_system.Prelude.{ℕ, ◌≡◌, Bool, true, false, ◌&&◌, ◌==◌, if◌then◌else◌}
use crypto_pay_system.Prelude.Int.{ℤ, pos, ◌+ℤ◌}
use crypto_pay_system.Prelude.Rows.{sum}
use crypto_pay_system.Models.{Balance, SystemFeeLog, Payout, PayoutStatus, Db}

abbrev pub is_sent : PayoutStatus → Bool
is_sent PayoutStatus.sent = true
is_sent PayoutStatus.confirmed = true
is_sent _ = false

module _ (m c : ℕ) where
  unfoldable pub held_weight : Balance → ℤ
  held_weight b =
      if b.merchant_id == m && b.coin_id == c then b.amount_available +ℤ b.amount_locked else pos 0

  unfoldable pub earned_weight : SystemFeeLog → ℤ
  earned_weight l = if l.merchant_id == m && l.coin_id == c then l.net_amount else pos 0

  unfoldable pub paid_weight : Payout → ℤ
  paid_weight p =
      if is_sent p.status && (p.merchant_id == m && p.coin_id == c)
      then pos p.amount_requested
      else pos 0

  abbrev pub held : Db → ℤ
  held db = sum held_weight db.balances

  abbrev pub earned : Db → ℤ
  earned db = sum earned_weight db.fee_logs

  abbrev pub paid_out : Db → ℤ
  paid_out db = sum paid_weight db.payouts

-- Every account holds what was booked for it less what was sent.
abbrev pub IsSolvent : Db → Type 0
IsSolvent db = (m c : ℕ) → held m c db +ℤ paid_out m c db ≡ earned m c db
