-- ===== src/Ledger/Accounting.antt =====
-- AccountingEngine of services/ledger/accounting.py: one credit, run inside the caller's database
-- transaction. What the database and the clock supply (keys of new rows, the time) is an argument.
pub mod Credit
pub mod Solvency
pub mod Succeeds
pub mod Collides
use crypto_pay_system.Prelude.{
  ℕ, Bool, true, false, Option, none, some, ◌++◌, ◌∷◌, [], ◌&&◌, not, ◌==◌, if◌then◌else◌,
}
use crypto_pay_system.Prelude.Exec.{
  Exec, ok, err, already_credited, integrity_error, pure, raise, lift, gets, modify, raise_if,
  ◌>>=◌, ◌>>◌,
}
use crypto_pay_system.Prelude.Int.{ℤ, pos, ◌+ℤ◌}
use crypto_pay_system.Prelude.Rows.{select, modify_where, scalar_one_or_none, unique}
use crypto_pay_system.Prelude.Text.{Text, text_eq}
use crypto_pay_system.Models.{
  InvoiceStatus, Coin, Merchant, Invoice, Balance, Transaction, SystemFeeLog, Utxo, Db,
}
use crypto_pay_system.Ledger.Fee.{FeeResult, calculate_fee}

-- What uuid4, the autoincrement columns and the clock give during one job.
pub record Fresh : Type 0 where
  pub tx_id : ℕ
  pub balance_id : ℕ
  pub fee_log_id : ℕ
  pub utxo_id : ℕ
  pub now : ℕ

-- UniqueConstraint("merchant_id", "coin_id") and UniqueConstraint("txid", "vout")
unfoldable pub same_account : Balance → Balance → Bool
same_account a b = a.merchant_id == b.merchant_id && a.coin_id == b.coin_id

unfoldable pub same_output : Utxo → Utxo → Bool
same_output a b = text_eq a.txid b.txid && a.vout == b.vout

unfoldable pub constraints : Db → Bool
constraints db = unique same_account db.balances && unique same_output db.utxos

-- `await session.flush()`: the pending rows are written, and the constraints are checked.
unfoldable pub flush : Exec Db (Unit {0})
flush db = raise_if (not (constraints db)) integrity_error db

unfoldable pub is_account : ℕ → ℕ → Balance → Bool
is_account merchant_id coin_id b = b.merchant_id == merchant_id && b.coin_id == coin_id

abbrev new_balance : Fresh → ℕ → ℕ → Balance
new_balance fresh merchant_id coin_id = record {
  id = fresh.balance_id;
  merchant_id = merchant_id;
  coin_id = coin_id;
  amount_available = pos 0;
  amount_locked = pos 0;
}

created_balance : Fresh → ℕ → ℕ → Option Balance → Exec Db Balance
unfolding flush
created_balance fresh merchant_id coin_id (some balance) = pure balance
created_balance fresh merchant_id coin_id none = do
  let balance = new_balance fresh merchant_id coin_id
  modify (λ db. record db { balances = db.balances ++ balance ∷ [] })
  flush
  pure balance

pub get_or_create_balance_locked : Fresh → ℕ → ℕ → Exec Db Balance
unfolding created_balance
get_or_create_balance_locked fresh merchant_id coin_id = do
  found ← λ db. lift (scalar_one_or_none (select (is_account merchant_id coin_id) db.balances)) db
  created_balance fresh merchant_id coin_id found

unfoldable pub is_utxo_of : Text → ℕ → Utxo → Bool
is_utxo_of txid invoice_id u = text_eq u.txid txid && u.invoice_id == invoice_id

-- `vout=0` is the sentinel of the source.
abbrev new_utxo : Fresh → Transaction → Invoice → Utxo
new_utxo fresh tx invoice = record {
  id = fresh.utxo_id;
  invoice_id = invoice.id;
  txid = tx.txid;
  vout = 0;
  amount = tx.amount_received;
  script_pubkey = none;
  is_spent = false;
  spent_by_payout_id = none;
  created_at = fresh.now;
}

added_utxo : Fresh → Transaction → Invoice → Option Utxo → Exec Db (Unit {0})
added_utxo fresh tx invoice (some existing) = pure tt
added_utxo fresh tx invoice none =
    modify (λ db. record db { utxos = db.utxos ++ new_utxo fresh tx invoice ∷ [] })

pub register_utxo : Fresh → Transaction → Invoice → Exec Db (Unit {0})
unfolding added_utxo
register_utxo fresh tx invoice = do
  existing ← λ db. lift (scalar_one_or_none (select (is_utxo_of tx.txid invoice.id) db.utxos)) db
  added_utxo fresh tx invoice existing

abbrev pub add_available : ℤ → Balance → Balance
add_available net b = record b { amount_available = b.amount_available +ℤ net }

abbrev pub fee_log : Fresh → Transaction → Merchant → Coin → FeeResult → SystemFeeLog
fee_log fresh tx merchant coin result = record {
  id = fresh.fee_log_id;
  transaction_id = tx.id;
  merchant_id = merchant.id;
  coin_id = coin.id;
  gross_amount = result.gross;
  commission_pcent = result.commission_pcent;
  fee_amount = result.fee;
  net_amount = result.net;
  created_at = fresh.now;
}

-- the assignments to the loaded Transaction and to the loaded Invoice
abbrev pub set_credited : ℕ → Transaction → Transaction
set_credited now t = record t { credited = true; confirmed_at = some now }

abbrev pub set_paid : ℕ → Invoice → Invoice
set_paid now i = record i { status = InvoiceStatus.paid; paid_at = some now }

-- the part of `credit` that runs with the Balance row locked
pub booked : Fresh → Transaction → Invoice → Merchant → Coin → FeeResult → Exec Db FeeResult
unfolding register_utxo flush
booked fresh tx invoice merchant coin result = do
  modify (λ db. record db {
    balances = modify_where (is_account merchant.id coin.id) (add_available result.net) db.balances;
  })
  modify (λ db. record db { fee_logs = db.fee_logs ++ fee_log fresh tx merchant coin result ∷ [] })
  register_utxo fresh tx invoice
  modify (λ db. record db {
    transactions = modify_where (λ t. t.id == tx.id) (set_credited fresh.now) db.transactions;
  })
  modify (λ db. record db {
    invoices = modify_where (λ i. i.id == invoice.id) (set_paid fresh.now) db.invoices;
  })
  flush
  pure result

unfoldable pub credit : Fresh → Transaction → Invoice → Merchant → Coin → Exec Db FeeResult
unfolding get_or_create_balance_locked booked
credit fresh tx invoice merchant coin = do
  raise_if tx.credited already_credited
  let result = calculate_fee tx.amount_received merchant.commission_pcent
  get_or_create_balance_locked fresh merchant.id coin.id
  booked fresh tx invoice merchant coin result
