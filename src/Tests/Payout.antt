-- ===== src/Tests/Payout.antt =====
-- The payout theorems at the data of Tests.Data.
use crypto_pay_system.Prelude.{
  ◌≡◌, refl, ◌⊎◌, some, List, [], ◌∷◌, length, arith, ◌+◌, ◌*◌, ◌≤◌, ◌<◌,
}
use crypto_pay_system.Prelude.Exec.{ok, err, insufficient_funds}
use crypto_pay_system.Prelude.Int.{pos, ◌+ℤ◌}
use crypto_pay_system.Prelude.Rows.{sum, select, unique, any}
use crypto_pay_system.Prelude.Text.{codes}
use crypto_pay_system.Models.{PayoutStatus, SystemFeeLog, Payout, Balance, Db, default_settings}
use crypto_pay_system.Funds.{IsSolvent, held_weight, earned_weight, paid_weight}
use crypto_pay_system.Ledger.Accounting.{is_account, constraints}
use crypto_pay_system.Payout.Selector.{SelectedUtxo, Candidate, selected_utxo}
use crypto_pay_system.Payout.Signing.{Amounts, Signed, estimated_size, total_input, plan_amounts}
use crypto_pay_system.Payout.Signing.Balance.{IsBalanced, plan_amounts_lem}
use crypto_pay_system.Payout.Processor.{
  Env, is_payout, prepare, finalise, set_failed, refund, execute,
}
use crypto_pay_system.Payout.Processor.Books.{NotSent}
use crypto_pay_system.Payout.Processor.Solvency.{execute-IsSolvent}
use crypto_pay_system.Payout.Processor.Failure.{
  execute_overdraft, execute_finished, execute-processing,
}
use crypto_pay_system.Tests.Data.{paying, payout, balance, utxo}

abbrev pub env : Env
env = record {
  settings = default_settings;
  btc_provider = ok tt;
  fee_rate = 1;
  change_address = ok (codes "tb1c");
  sign = λ utxos outputs. ok (codes "00", codes "bb");
  broadcast = λ raw_hex. ok (codes "bb");
  message = λ e. codes "error";
  now = 40;
}

abbrev pub log : SystemFeeLog
log = record {
  id = 6;
  transaction_id = 11;
  merchant_id = 7;
  coin_id = 1;
  gross_amount = 138_501;
  commission_pcent = 0;
  fee_amount = 0;
  net_amount = pos 138_501;
  created_at = 30;
}

abbrev pub books : Db
books = record paying { fee_logs = log ∷ [] }

books-IsSolvent : IsSolvent books
unfolding sum held_weight earned_weight paid_weight ◌+ℤ◌
books-IsSolvent m c = ground arith

books-NotSent : NotSent 9 books
unfolding select
books-NotSent p e = cc

execute-IsSolvent_example : IsSolvent (execute env 9 books)
execute-IsSolvent_example = execute-IsSolvent env 9 books books-IsSolvent books-NotSent

abbrev pub coins : List SelectedUtxo
coins = selected_utxo (utxo, 4) ∷ []

plan_amounts_lem_example :
    let need = 60_000 + estimated_size (length coins) 2 * 1 in
    ((need ≤ total_input coins)
      × (a : Amounts) × (plan_amounts default_settings coins 60_000 1 ≡ ok a)
      × IsBalanced default_settings coins 60_000 1 a)
    ⊎ ((total_input coins < need)
        × (plan_amounts default_settings coins 60_000 1 ≡ err insufficient_funds))
plan_amounts_lem_example = plan_amounts_lem default_settings coins 60_000 1

abbrev three : List Candidate
three =
    (record utxo { amount = 700 }, 4)
    ∷ (record utxo { amount = 500 }, 5)
    ∷ (record utxo { amount = 900 }, 6)
    ∷ []

-- the payout asks for more than is there
abbrev poor : Balance
poor = record balance { amount_available = pos 100 }

abbrev poor_db : Db
poor_db = record paying { balances = poor ∷ [] }

execute_overdraft_example :
    let db' = execute env 9 poor_db in
    (select (is_payout 9) db'.payouts ≡ set_failed (codes "error") payout ∷ [])
    × (select (is_account 7 1) db'.balances ≡ refund 60_000 poor ∷ [])
unfolding select is_account constraints unique any
execute_overdraft_example =
    execute_overdraft env 9 poor_db payout poor refl refl refl refl refl refl

abbrev sent : Payout
sent = record payout { status = PayoutStatus.sent; txid = some (codes "bb") }

execute_finished_example :
    let db' = execute env 9 (record paying { payouts = sent ∷ [] }) in
    (select (is_payout 9) db'.payouts ≡ set_failed (codes "error") sent ∷ [])
    × (db'.balances ≡ balance ∷ [])
unfolding select constraints unique any
execute_finished_example =
    execute_finished env 9 (record paying { payouts = sent ∷ [] }) sent refl refl refl

abbrev processing : Payout
processing = record payout { status = PayoutStatus.processing }

execute-processing_example :
    let db' = execute env 9 (record paying { payouts = processing ∷ [] }) in
    (select (is_payout 9) db'.payouts ≡ set_failed (codes "error") processing ∷ [])
    × (select (is_account 7 1) db'.balances ≡ refund 60_000 balance ∷ [])
unfolding select is_account constraints unique any
execute-processing_example =
    execute-processing env 9 (record paying { payouts = processing ∷ [] }) processing balance refl
      refl refl refl refl

abbrev frozen : Db
frozen = (prepare env 9 paying).1

abbrev pub signed : Signed
signed = record {
  raw_hex = codes "00";
  txid = codes "bb";
  fee_sat = pos 226;
  amount_out_sat = 60_000;
  change_sat = pos 39_775;
}

abbrev final : Db
final = (finalise env 9 (codes "bb") coins signed paying).1
