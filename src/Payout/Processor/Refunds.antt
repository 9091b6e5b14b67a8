-- ===== src/Payout/Processor/Refunds.antt =====
-- The books when a payout is marked failed.
use crypto_pay_system.Prelude.{
  ℕ, ◌≡◌, ◌≢◌, refl, false, [], ◌∷◌, Option, none, some, not, arith, if◌then◌else◌, ◌==◌, ◌&&◌,
  Bool-cases, inl, inr,
}
use crypto_pay_system.Prelude.Exec.{Result, ok, err, atomically-keeps, Result-cases}
use crypto_pay_system.Prelude.Rows.{
  select, modify_where, scalar_one_or_none, scalar_one_or_none-some, modify_where-none,
  scalar_one_or_none-none,
}
use crypto_pay_system.Prelude.Text.{Text}
use crypto_pay_system.Models.{Payout, Db}
use crypto_pay_system.Funds.{is_sent, held_weight, paid_weight, held, IsSolvent}
use crypto_pay_system.Ledger.Accounting.{is_account, flush}
use crypto_pay_system.Payout.Processor.{
  is_payout, refund, set_failed, was_locked, refunded, fail_found, fail_block, mark_failed,
}
use crypto_pay_system.Payout.Processor.Books.{Ready, held-refund, paid-failed, sum-same}

-- the refund of a payout that fails
pub refund-held : (m c : ℕ) (p : Payout) (db : Db) → held m c (refunded p db).1 ≡ held m c db
unfolding refunded
refund-held m c p db =
    let acct = is_account p.merchant_id p.coin_id in
    let rows = select acct db.balances in
    elim (Result-cases (scalar_one_or_none rows)) [
      | inl (none, e) ↦ ground (
        arith,
        modify_where-none acct (refund p.amount_requested) db.balances
            (scalar_one_or_none-none rows e),
      )
      | inl (some b, e) ↦ ground (
        arith,
        sum-same (held_weight m c) acct (refund p.amount_requested) db.balances b
            (scalar_one_or_none-some rows e) (held-refund m c p.amount_requested b),
      )
      | inr (x, e) ↦ ground arith
    ]

pub refund-frame :
    (p : Payout) (db : Db)
    → ((refunded p db).1.payouts ≡ db.payouts) × ((refunded p db).1.fee_logs ≡ db.fee_logs)
unfolding refunded
refund-frame p db = ground arith

unfoldable pub failed_db : ℕ → Text → Db → Db
failed_db id reason db = record db {
  payouts = modify_where (is_payout id) (set_failed reason) db.payouts;
}

pub fail_found-state :
    (id : ℕ) (reason : Text) (p : Payout) (db : Db)
    → (fail_found id reason (some p) db).1 ≡ (
        if was_locked p.status && not (p.amount_requested == 0)
        then (refunded p (failed_db id reason db)).1
        else failed_db id reason db)
unfolding fail_found failed_db flush
fail_found-state id reason p db = ground arith

pub failed_db-IsSolvent :
    (id : ℕ) (reason : Text) (p : Payout) (db : Db)
    → IsSolvent db
    → select (is_payout id) db.payouts ≡ p ∷ []
    → is_sent p.status ≡ false
    → IsSolvent (failed_db id reason db)
unfolding failed_db
failed_db-IsSolvent id reason p db s found n m c =
    rw
      (sum-same (paid_weight m c) (is_payout id) (set_failed reason) db.payouts p found
        (paid-failed m c reason p n))
      (s m c)

pub refunded-IsSolvent : (p : Payout) (db : Db) → IsSolvent db → IsSolvent (refunded p db).1
refunded-IsSolvent p db s m c =
    let (fp, ff) = refund-frame p db in rw (fp, ff, refund-held m c p db) (s m c)

pub fail_found-IsSolvent :
    (id : ℕ) (reason : Text) (p : Payout) (db : Db)
    → Ready id db
    → select (is_payout id) db.payouts ≡ p ∷ []
    → IsSolvent (fail_found id reason (some p) db).1
fail_found-IsSolvent id reason p db (s, n) found =
    let k = failed_db-IsSolvent id reason p db s found (n p found) in
    rw (fail_found-state id reason p db)
      (elim (Bool-cases (was_locked p.status && not (p.amount_requested == 0))) [
        | inl t ↦ rw t (refunded-IsSolvent p (failed_db id reason db) k)
        | inr f ↦ rw f k
      ])

pub fail_block-found :
    (id : ℕ) (reason : Text) (db : Db) (p : Payout)
    → scalar_one_or_none (select (is_payout id) db.payouts) ≡ ok (some p)
    → fail_block id reason db ≡ fail_found id reason (some p) db
unfolding fail_block
fail_block-found id reason db p e = ground arith

pub fail_block-other :
    (id : ℕ) (reason : Text) (db : Db)
    → ((p : Payout) → scalar_one_or_none (select (is_payout id) db.payouts) ≢ ok (some p))
    → (fail_block id reason db).1 ≡ db
unfolding fail_block fail_found
fail_block-other id reason db k = grind (arith, k)

pub fail_block-IsSolvent :
    (id : ℕ) (reason : Text) (db : Db) (r : Result (Option Payout))
    → scalar_one_or_none (select (is_payout id) db.payouts) ≡ r
    → Ready id db
    → IsSolvent (fail_block id reason db).1
fail_block-IsSolvent id reason db (ok none) e (s, n) =
    rw (fail_block-other id reason db (λ p q. cc)) s
fail_block-IsSolvent id reason db (ok (some p)) e h =
    rw (fail_block-found id reason db p e)
      (fail_found-IsSolvent id reason p db h (scalar_one_or_none-some _ e))
fail_block-IsSolvent id reason db (err x) e (s, n) =
    rw (fail_block-other id reason db (λ p q. cc)) s

-- Marking a payout failed that has not been sent keeps the books balanced, whether or not it
-- refunds, finds its rows, or is itself rolled back.
pub mark_failed-IsSolvent :
    (id : ℕ) (reason : Text) (db : Db) → Ready id db → IsSolvent (mark_failed id reason db)
unfolding mark_failed
mark_failed-IsSolvent id reason db h =
    atomically-keeps IsSolvent (fail_block id reason) db h.0
      (fail_block-IsSolvent id reason db _ refl h)
