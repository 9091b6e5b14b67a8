-- ===== src/Tests/Sent.antt =====
-- A payout that is sent, at the data of Tests.Data.
use crypto_pay_system.Prelude.{◌≡◌, refl, [], ◌∷◌}
use crypto_pay_system.Prelude.Int.{◌-ℤ◌, ◌+ℤ◌}
use crypto_pay_system.Prelude.Rows.{select, scalar_one_or_none, unique, any}
use crypto_pay_system.Prelude.Text.{codes}
use crypto_pay_system.Ledger.Accounting.{is_account, constraints}
use crypto_pay_system.Payout.Selector.{
  select_utxos, candidates, order_by_amount, insert_by_amount, greedy_loop,
}
use crypto_pay_system.Payout.Signing.{create_payout_transaction, plan_amounts, total_input}
use crypto_pay_system.Payout.Processor.{
  is_payout, freeze, unlock, set_processing, set_sent, selection, execute,
}
use crypto_pay_system.Payout.Processor.Sent.{execute_sent}
use crypto_pay_system.Tests.Data.{paying, payout, balance, utxo}
use crypto_pay_system.Tests.Payout.{env, coins, signed}

execute_sent_example :
    let db' = execute env 9 paying in
    (select (is_payout 9) db'.payouts
      ≡ set_sent 40 (codes "bb") signed (set_processing signed payout) ∷ [])
    × (select (is_account 7 1) db'.balances ≡ unlock 60_000 (freeze 60_000 balance) ∷ [])
    × (db'.fee_logs ≡ [])
unfolding select is_account constraints unique any select_utxos scalar_one_or_none candidates
    order_by_amount insert_by_amount greedy_loop create_payout_transaction selection plan_amounts
    total_input ◌-ℤ◌ ◌+ℤ◌
execute_sent_example =
    execute_sent env 9 paying payout balance coins (codes "tb1c") (codes "bb") signed refl refl refl
      refl refl ((utxo, refl), tt) refl refl refl refl refl
