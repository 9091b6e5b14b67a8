-- ===== src/Payout/Processor.antt =====
-- PayoutProcessor of services/payout/processor.py: one payout, in four database transactions with
-- the signing and the broadcast between them. Amounts are satoshis, so `int(amount * _SAT)` is the
-- stored amount.
pub mod Steps
pub mod Books
pub mod Refunds
pub mod Solvency
pub mod Failure
pub mod Success
pub mod Sends
pub mod Sent
pub mod Frame
use crypto_pay_system.Prelude.{
  ℕ, ◌+◌, ◌*◌, ◌==◌, ◌&&◌, ◌||◌, not, Bool, true, false, List, [], ◌∷◌, Option, none, some, take,
  if◌then◌else◌,
}
use crypto_pay_system.Prelude.Exec.{
  Exec, Exn, Result, ok, err, value_error, insufficient_funds, insufficient_utxo, pure, raise, lift,
  modify, raise_if, atomically, ◌>>=◌, ◌>>◌,
}
use crypto_pay_system.Prelude.Int.{ℤ, pos, ◌+ℤ◌, ◌-ℤ◌, ltb_ℤ, min_ℤ, pos_part}
use crypto_pay_system.Prelude.Rows.{select, modify_where, scalar_one_or_none, scalar_one}
use crypto_pay_system.Prelude.Text.{Text}
use crypto_pay_system.Models.{PayoutStatus, Balance, Payout, Utxo, Db, Settings}
use crypto_pay_system.Ledger.Accounting.{is_account, flush}
use crypto_pay_system.Payout.Selector.{SelectedUtxo, select_utxos}
use crypto_pay_system.Payout.Signing.{Signed, TxOut, create_payout_transaction}

-- What the node, the key derivation, the signer and the clock answer during one payout.
pub record Env : Type 0 where
  pub settings : Settings
  -- `_get_btc_provider`, `get_fee_rate` and `_get_change_address`
  pub btc_provider : Result (Unit {0})
  pub fee_rate : ℕ
  pub change_address : Result Text
  pub sign : List SelectedUtxo → List TxOut → Result (Text × Text)
  pub broadcast : Text → Result Text
  pub message : Exn → Text
  pub now : ℕ

abbrev pub is_payout : ℕ → Payout → Bool
is_payout id p = p.id == id

abbrev pub is_pending : PayoutStatus → Bool
is_pending PayoutStatus.pending = true
is_pending _ = false

or_value_error : {A : Type 0} → Option A → Result A
or_value_error none = err value_error
or_value_error (some a) = ok a

-- a query whose missing row is a ValueError
required : {A : Type 0} → Result (Option A) → Result A
unfolding or_value_error
required (ok o) = or_value_error o
required (err e) = err e

pub load_payout_locked : ℕ → Exec Db Payout
unfolding required
load_payout_locked id db =
    lift (required (scalar_one_or_none (select (is_payout id) db.payouts))) db

pub load_balance_locked : ℕ → ℕ → Exec Db Balance
unfolding required
load_balance_locked m c db =
    lift (required (scalar_one_or_none (select (is_account m c) db.balances))) db

-- `rough_fee * fee_rate`
abbrev pub rough_fee_sat : ℕ → ℕ
rough_fee_sat fee_rate = (10 + 148 * 10 + 34 * 2) * fee_rate

-- `except InsufficientUTXOError as exc: raise ValueError`
as_value_error : {A : Type 0} → Result A → Result A
as_value_error (err insufficient_utxo) = err value_error
as_value_error r = r

unfoldable pub selection : Env → Payout → Db → Result (List SelectedUtxo)
unfolding as_value_error
selection env payout db = as_value_error (
    select_utxos payout.merchant_id payout.coin_id payout.amount_requested
      (rough_fee_sat env.fee_rate) db)

abbrev pub freeze : ℕ → Balance → Balance
freeze amount b = record b {
  amount_available = b.amount_available -ℤ pos amount;
  amount_locked = b.amount_locked +ℤ pos amount;
}

-- `_prepare` from the UTXO selection on
pub freeze_selected : Env → Payout → Exec Db (Payout × List SelectedUtxo)
unfolding selection
freeze_selected env payout = do
  selected ← λ db. lift (selection env payout db) db
  modify (λ db. record db {
    balances =
        modify_where (is_account payout.merchant_id payout.coin_id) (freeze payout.amount_requested)
          db.balances;
  })
  flush
  pure (payout, selected)

-- `_prepare` from the check of the balance on
pub with_balance : Env → Payout → Balance → Exec Db (Payout × List SelectedUtxo)
unfolding freeze_selected
with_balance env payout balance = do
  raise_if (ltb_ℤ balance.amount_available (pos payout.amount_requested)) value_error
  lift env.btc_provider
  freeze_selected env payout

pub with_payout : Env → Payout → Exec Db (Payout × List SelectedUtxo)
unfolding load_balance_locked with_balance
with_payout env payout = do
  raise_if (not (is_pending payout.status)) value_error
  balance ← load_balance_locked payout.merchant_id payout.coin_id
  with_balance env payout balance

unfoldable pub prepare : Env → ℕ → Exec Db (Payout × List SelectedUtxo)
unfolding load_payout_locked with_payout
prepare env payout_id = do payout ← load_payout_locked payout_id; with_payout env payout

abbrev pub set_processing : Signed → Payout → Payout
set_processing signed p = record p {
  status = PayoutStatus.processing;
  miner_fee = some (pos_part signed.fee_sat);
  amount_net = some signed.amount_out_sat;
  raw_tx_hex = some signed.raw_hex;
}

-- Step 3 of `_run`
pub persist : ℕ → Signed → Exec Db (Unit {0})
unfolding load_payout_locked
persist payout_id signed = do
  load_payout_locked payout_id
  modify (λ db. record db {
    payouts = modify_where (is_payout payout_id) (set_processing signed) db.payouts;
  })
  flush

abbrev pub is_utxo : ℕ → Utxo → Bool
is_utxo id u = u.id == id

abbrev pub set_spent : ℕ → Utxo → Utxo
set_spent payout_id u = record u { is_spent = true; spent_by_payout_id = some payout_id }

pub mark_spent : ℕ → List SelectedUtxo → Exec Db (Unit {0})
mark_spent payout_id [] = pure tt
mark_spent payout_id (s ∷ rest) =
    (λ db. lift (scalar_one (select (is_utxo s.utxo_id) db.utxos)) db) >>= λ utxo.
    modify
      (λ db. record db { utxos = modify_where (is_utxo s.utxo_id) (set_spent payout_id) db.utxos })
    >> mark_spent payout_id rest

abbrev pub unlock : ℕ → Balance → Balance
unlock amount b = record b { amount_locked = b.amount_locked -ℤ pos amount }

abbrev pub set_sent : ℕ → Text → Signed → Payout → Payout
set_sent now txid signed p = record p {
  status = PayoutStatus.sent;
  txid = some txid;
  raw_tx_hex = none;
  sent_at = some now;
  miner_fee = some (pos_part signed.fee_sat);
  amount_net = some signed.amount_out_sat;
}

-- the writes of `_finalise` once the balance is loaded
pub written : Env → ℕ → Text → Signed → Payout → Exec Db (Unit {0})
written env payout_id txid signed payout = do
  modify (λ db. record db {
    balances =
        modify_where (is_account payout.merchant_id payout.coin_id) (unlock payout.amount_requested)
          db.balances;
  })
  modify (λ db. record db {
    payouts = modify_where (is_payout payout_id) (set_sent env.now txid signed) db.payouts;
  })
  flush

-- `_finalise` from the release of the lock on
pub released : Env → ℕ → Text → Signed → Payout → Exec Db (Unit {0})
unfolding load_balance_locked written
released env payout_id txid signed payout = do
  load_balance_locked payout.merchant_id payout.coin_id
  written env payout_id txid signed payout

pub finalise : Env → ℕ → Text → List SelectedUtxo → Signed → Exec Db (Unit {0})
unfolding load_payout_locked released
finalise env payout_id txid selected signed = do
  payout ← load_payout_locked payout_id
  mark_spent payout_id selected
  released env payout_id txid signed payout

abbrev pub was_locked : PayoutStatus → Bool
was_locked PayoutStatus.pending = true
was_locked PayoutStatus.processing = true
was_locked _ = false

abbrev pub set_failed : Text → Payout → Payout
set_failed reason p = record p {
  status = PayoutStatus.failed;
  error_message = some (take 2000 reason);
  raw_tx_hex = none;
}

abbrev pub refund : ℕ → Balance → Balance
refund amount b =
    let back = min_ℤ b.amount_locked (pos amount) in
    record b {
      amount_available = b.amount_available +ℤ back;
      amount_locked = b.amount_locked -ℤ back;
    }

-- the refund; where no row is found there is none to update
pub refunded : Payout → Exec Db (Unit {0})
refunded payout =
    (λ db.
      lift (scalar_one_or_none (select (is_account payout.merchant_id payout.coin_id) db.balances))
        db)
    >>= λ found. modify (λ db. record db {
      balances =
          modify_where (is_account payout.merchant_id payout.coin_id)
            (refund payout.amount_requested) db.balances;
    })

pub fail_found : ℕ → Text → Option Payout → Exec Db (Unit {0})
unfolding refunded
fail_found payout_id reason none = pure tt
fail_found payout_id reason (some payout) =
    modify (λ db. record db {
      payouts = modify_where (is_payout payout_id) (set_failed reason) db.payouts;
    })
    >> (λ db.
        (if was_locked payout.status && not (payout.amount_requested == 0)
            then refunded payout
            else pure tt)
          db)
    >> flush

pub fail_block : ℕ → Text → Exec Db (Unit {0})
unfolding fail_found
fail_block payout_id reason =
    (λ db. lift (scalar_one_or_none (select (is_payout payout_id) db.payouts)) db)
    >>= fail_found payout_id reason

-- `_mark_failed`: an exception here is logged and swallowed, after the rollback.
unfoldable pub mark_failed : ℕ → Text → Db → Db
unfolding fail_block
mark_failed payout_id reason db = (atomically (fail_block payout_id reason) db).1

unfoldable pub broadcast_and_finalise :
    Env → ℕ → List SelectedUtxo → Signed → Result Text → Exec Db (Unit {0})
unfolding mark_failed finalise
broadcast_and_finalise env payout_id selected signed (err e) =
    modify (mark_failed payout_id (env.message e))
broadcast_and_finalise env payout_id selected signed (ok txid) =
    atomically (finalise env payout_id txid selected signed)

unfoldable pub after_signing : Env → ℕ → List SelectedUtxo → Result Signed → Exec Db (Unit {0})
unfolding persist broadcast_and_finalise
after_signing env payout_id selected (ok signed) =
    atomically (persist payout_id signed)
    >> broadcast_and_finalise env payout_id selected signed (env.broadcast signed.raw_hex)
after_signing env payout_id selected (err insufficient_funds) =
    modify (mark_failed payout_id (env.message insufficient_funds))
after_signing env payout_id selected (err e) = raise e

-- `_run`
unfoldable pub run : Env → ℕ → Exec Db (Unit {0})
unfolding prepare after_signing
run env payout_id = atomically (prepare env payout_id) >>= λ prepared.
    lift env.btc_provider
    >> (lift env.change_address >>= λ change_address. after_signing env payout_id prepared.1 (
        create_payout_transaction env.sign env.settings prepared.1 prepared.0.destination_address
          prepared.0.amount_requested change_address env.fee_rate))

-- `except Exception` of `execute`
unfoldable pub caught : Env → ℕ → Result (Unit {0}) × Db → Db
unfolding mark_failed
caught env payout_id (ok u, db) = db
caught env payout_id (err e, db) = mark_failed payout_id (env.message e) db

unfoldable pub execute : Env → ℕ → Db → Db
unfolding run caught
execute env payout_id db = caught env payout_id (run env payout_id db)
