-- ===== src/Payout/Service/Twice.antt =====
-- Two tasks of one account between their first transactions and the end of the first.
use crypto_pay_system.Prelude.{ℕ, ◌≡◌, refl, ◌∙◌, true, false, arith, List, [], ◌∷◌, ◌+◌}
use crypto_pay_system.Prelude.Exec.{ok}
use crypto_pay_system.Prelude.Int.{pos, ltb_ℤ, ◌≤ℤ◌, ℤ, ◌-ℤ◌, -ℤ_parts}
use crypto_pay_system.Prelude.Rows.{select, select-modify_where}
use crypto_pay_system.Models.{Balance, Payout, Db}
use crypto_pay_system.Ledger.Accounting.{is_account, constraints}
use crypto_pay_system.Payout.Selector.{SelectedUtxo, select_utxos, candidates}
use crypto_pay_system.Payout.Processor.{Env, is_payout, is_pending, freeze, prepare, selection}
use crypto_pay_system.Payout.Processor.Steps.{prepare_inv}
use crypto_pay_system.Payout.Processor.Sends.{frozen, frozen_fits, prepare_total}

selection-frame :
    (env : Env) (p : Payout) (db db' : Db)
    → db'.utxos ≡ db.utxos
    → db'.invoices ≡ db.invoices
    → selection env p db' ≡ selection env p db
unfolding selection select_utxos candidates
selection-frame env p db db' us is = rw (us, is) refl

selection-same :
    (env : Env) (p q : Payout) (db : Db)
    → q.merchant_id ≡ p.merchant_id
    → q.coin_id ≡ p.coin_id
    → q.amount_requested ≡ p.amount_requested
    → selection env q db ≡ selection env p db
unfolding selection
selection-same env p q db m c a = rw (m, c, a) refl

left_covers : (a c : ℕ) (b : ℤ) → pos (a + c) ≤ℤ b → ltb_ℤ (b -ℤ pos a) (pos c) ≡ false
left_covers a c b h = ground (arith, -ℤ_parts b (pos a))

-- Where a payout is prepared and a second pending payout of the same merchant, coin and amount is
-- prepared next, the account covering both amounts, the second preparation succeeds and takes the
-- very coins that the first has taken: a preparation freezes an amount, and no coin.
pub prepare_twice :
    (env : Env) (id id' : ℕ) (db db' : Db) (p q : Payout) (b : Balance) (coins : List SelectedUtxo)
    → prepare env id db ≡ (ok (p, coins), db')
    → select (is_payout id') db.payouts ≡ q ∷ []
    → is_pending q.status ≡ true
    → q.merchant_id ≡ p.merchant_id
    → q.coin_id ≡ p.coin_id
    → q.amount_requested ≡ p.amount_requested
    → select (is_account p.merchant_id p.coin_id) db.balances ≡ b ∷ []
    → pos (p.amount_requested + q.amount_requested) ≤ℤ b.amount_available
    → env.btc_provider ≡ ok tt
    → constraints db ≡ true
    → prepare env id' db' ≡ (ok (q, coins), frozen q db')
unfolding is_account
prepare_twice env id id' db db' p q b coins e found pending m c a account covered ready fine =
    let (b', k) = prepare_inv env id db e in
    let row =
      select-modify_where (is_account p.merchant_id p.coin_id) (freeze p.amount_requested)
        db.balances b (λ r. refl) account in
    let left = freeze p.amount_requested b in
    let enough : ltb_ℤ left.amount_available (pos q.amount_requested) ≡ false =
      left_covers p.amount_requested q.amount_requested b.amount_available covered in
    rw k.frozen (
      prepare_total env id' (frozen p db) q left coins found pending (rw (m, c) row) enough ready
        (selection-same env p q (frozen p db) m c a
          ∙ selection-frame env p db (frozen p db) refl refl
          ∙ k.coins)
        (frozen_fits p db fine))
