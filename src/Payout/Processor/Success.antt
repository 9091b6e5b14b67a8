-- ===== src/Payout/Processor/Success.antt =====
-- What a payout has done when its steps succeed.
use crypto_pay_system.Prelude.{ℕ, ◌≡◌, refl, true, List, [], ◌∷◌}
use crypto_pay_system.Prelude.Exec.{ok}
use crypto_pay_system.Prelude.Int.{pos, ◌-ℤ◌, ◌≤ℤ◌, int_laws}
use crypto_pay_system.Prelude.Rows.{select, select-modify_where}
use crypto_pay_system.Prelude.Text.{Text}
use crypto_pay_system.Models.{Balance, Payout, Db}
use crypto_pay_system.Ledger.Accounting.{is_account}
use crypto_pay_system.Payout.Selector.{SelectedUtxo}
use crypto_pay_system.Payout.Signing.{Signed}
use crypto_pay_system.Payout.Processor.{
  Env, is_payout, is_pending, selection, freeze, prepare, unlock, set_sent, finalise,
}
use crypto_pay_system.Payout.Processor.Steps.{prepare_inv, finalise_inv}

-- A payout is prepared only if it is PENDING, its account has one balance row, the available amount
-- covers the request and coins were selected for it. Exactly the requested amount then moves from
-- available to locked, so the available amount does not become negative; all else is as before.
pub prepare_lem :
    (env : Env) (id : ℕ) (db : Db) {p : Payout} {selected : List SelectedUtxo} {db' : Db}
    → prepare env id db ≡ (ok (p, selected), db')
    → (b : Balance) × (is_pending p.status ≡ true)
      × (select (is_account p.merchant_id p.coin_id) db.balances ≡ b ∷ [])
      × (selection env p db ≡ ok selected)
      × (select (is_account p.merchant_id p.coin_id) db'.balances
          ≡ freeze p.amount_requested b ∷ [])
      × (pos 0 ≤ℤ (freeze p.amount_requested b).amount_available)
      × (db' ≡ record db { balances = db'.balances })
unfolding is_account
prepare_lem env id db {p} e =
    let (b, k) = prepare_inv env id db e in
    (
      b,
      k.pending,
      k.balance,
      k.coins,
      rw k.frozen (
          select-modify_where (is_account p.merchant_id p.coin_id) (freeze p.amount_requested)
            db.balances b (λ q. refl) k.balance),
      room b p.amount_requested k.covered,
      rw k.frozen refl,
    )
  where
    room :
        (b : Balance) (a : ℕ) → pos a ≤ℤ b.amount_available → pos 0 ≤ℤ (b.amount_available -ℤ pos a)
    room b a h = omega int_laws

-- A payout that is finalised is SENT with the broadcast txid and no signed transaction stored, and
-- its requested amount has left the locked part of its account; nothing is added to the fee log.
pub finalise_lem :
    (env : Env) (id : ℕ) (txid : Text) (selected : List SelectedUtxo) (signed : Signed) (db : Db)
    {u : Unit {0}} {db' : Db}
    → finalise env id txid selected signed db ≡ (ok u, db')
    → (p : Payout) × (b : Balance) × (select (is_payout id) db.payouts ≡ p ∷ [])
      × (select (is_payout id) db'.payouts ≡ set_sent env.now txid signed p ∷ [])
      × (select (is_account p.merchant_id p.coin_id) db.balances ≡ b ∷ [])
      × (select (is_account p.merchant_id p.coin_id) db'.balances
          ≡ unlock p.amount_requested b ∷ [])
      × (db'.fee_logs ≡ db.fee_logs)
unfolding is_account
finalise_lem env id txid selected signed db e =
    let (p, b, k) = finalise_inv env id txid selected signed db e in
    (
      p,
      b,
      k.payout,
      rw k.payouts (
          select-modify_where (is_payout id) (set_sent env.now txid signed) db.payouts p (λ q. refl)
            k.payout),
      k.balance,
      rw k.balances (
          select-modify_where (is_account p.merchant_id p.coin_id) (unlock p.amount_requested)
            db.balances b (λ q. refl) k.balance),
      k.fee_logs,
    )
