-- ===== src/Tests/Ledger.antt =====
-- The ledger's theorems at the data of Tests.Data.
use crypto_pay_system.Prelude.{◌≡◌, refl, false, none, [], ◌∷◌, arith, ◌+◌, ◌*◌, ◌≤◌, ◌<◌}
use crypto_pay_system.Prelude.Exec.{ok, err, value_error}
use crypto_pay_system.Prelude.Int.{pos, ◌+ℤ◌}
use crypto_pay_system.Prelude.Rows.{
  sum, select, modify_where, scalar_one, scalar_one_or_none, unique, any,
}
use crypto_pay_system.Prelude.Text.{codes, text_eq, upper}
use crypto_pay_system.Models.{Db, Transaction, default_settings}
use crypto_pay_system.Funds.{IsSolvent, held, earned}
use crypto_pay_system.Providers.Registry.{register, contains, get}
use crypto_pay_system.Ledger.Fee.{calculate_fee, calculate_fee_split}
use crypto_pay_system.Ledger.Accounting.{Fresh, constraints, credit, set_paid}
use crypto_pay_system.Ledger.Accounting.Solvency.{share, credit_lem}
use crypto_pay_system.Ledger.Queue.{Queues, to_json}
use crypto_pay_system.Ledger.Processor.{
  Env, World, done, process_in_session, get_confirmations, process,
}
use crypto_pay_system.Ledger.Processor.Keeps.{SameMoney}
use crypto_pay_system.Ledger.Processor.Solvent.{process-IsSolvent}
use crypto_pay_system.Ledger.Processor.Unconfirmed.{process-SameMoney}
use crypto_pay_system.Ledger.Processor.Once.{Finds, credited_once}
use crypto_pay_system.Tests.Data.{shop, job, merchant, coin, invoice, provider}

abbrev pub fresh : Fresh
fresh = record { tx_id = 11; balance_id = 5; fee_log_id = 6; utxo_id = 2; now = 30 }

abbrev pub env : Env
env = record { settings = default_settings; registry = register provider []; fresh = fresh }

abbrev broken : Env
broken = record env {
  registry = register (record provider { check_confirmations = λ txid. err value_error }) [];
}

abbrev pub world : World
world = record { db = shop; queues = record { hot = []; retry = [] } }

abbrev tx : Transaction
tx = record {
  id = 11;
  invoice_id = 3;
  txid = codes "aa";
  amount_received = 100_001;
  confirmations = 3;
  credited = false;
  retry_count = 0;
  detected_at = 12;
  confirmed_at = none;
}

abbrev credited : Db
credited = (credit fresh tx invoice merchant coin shop).1

test_credit :
    credit fresh tx invoice merchant coin shop ≡ (ok (calculate_fee 100_001 150), credited)
unfolding credit scalar_one_or_none select constraints unique any modify_where
test_credit = refl

calculate_fee_split_example :
    let r = calculate_fee 100_001 150 in
    (pos r.fee +ℤ r.net ≡ pos 100_001)
    × (r.fee * 10000 ≤ 100_001 * 150)
    × (100_001 * 150 < (r.fee + 1) * 10000)
calculate_fee_split_example = calculate_fee_split 100_001 150

credit_lem_example :
    (tx.credited ≡ false)
    × (calculate_fee 100_001 150 ≡ calculate_fee tx.amount_received merchant.commission_pcent)
    × (held 7 1 credited
        ≡ held 7 1 shop +ℤ share 7 1 merchant.id coin.id (calculate_fee 100_001 150).net)
    × (earned 7 1 credited
        ≡ earned 7 1 shop +ℤ share 7 1 merchant.id coin.id (calculate_fee 100_001 150).net)
    × (credited.payouts ≡ shop.payouts)
credit_lem_example = credit_lem 7 1 fresh tx invoice merchant coin shop test_credit

pub shop-IsSolvent : IsSolvent shop
unfolding sum ◌+ℤ◌
shop-IsSolvent m c = refl

process-IsSolvent_example : IsSolvent (process env job world).1.db
process-IsSolvent_example = process-IsSolvent env job world shop-IsSolvent

test-Finds : Finds job shop invoice
unfolding select
test-Finds = refl

abbrev paid_shop : Db
paid_shop = record shop { invoices = set_paid 30 invoice ∷ [] }

abbrev settled_shop : Db
settled_shop = (process_in_session env job 3 shop).1

credited_once_example :
    Finds job settled_shop (set_paid 30 invoice)
    × (process_in_session broken job 9 settled_shop ≡ (ok done, settled_shop))
unfolding process_in_session select scalar_one_or_none scalar_one constraints unique credit any
    modify_where
credited_once_example =
    credited_once env broken job job 3 9 shop invoice {db' = settled_shop} refl refl refl refl

abbrev delayed : Queues
delayed = record {
  hot = [];
  retry = (to_json job, 40) ∷ (to_json (record job { invoice_id = 4 }), 90) ∷ [];
}

-- a provider that has seen one confirmation
abbrev pub early : Env
early = record env {
  registry = register (record provider { check_confirmations = λ txid. ok 1 }) [];
}

process-SameMoney_example : SameMoney shop (process early job world).1.db
unfolding get_confirmations contains get register text_eq upper
process-SameMoney_example = process-SameMoney early job world 1 refl (omega arith)
