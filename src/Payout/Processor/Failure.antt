-- ===== src/Payout/Processor/Failure.antt =====
-- What marking a payout failed does, and the paths of `execute` on which it happens.
use crypto_pay_system.Prelude.{ℕ, ◌≡◌, refl, true, false, List, [], ◌∷◌, some, arith, ◌==◌}
use crypto_pay_system.Prelude.Exec.{Exn, ok, err, value_error, atomically}
use crypto_pay_system.Prelude.Int.{pos, ltb_ℤ}
use crypto_pay_system.Prelude.Rows.{
  select, modify_where, scalar_one_or_none, unique-modify_where, select-modify_where,
}
use crypto_pay_system.Prelude.Text.{Text}
use crypto_pay_system.Models.{PayoutStatus, Balance, Payout, Db}
use crypto_pay_system.Ledger.Accounting.{is_account, flush, constraints, same_account}
use crypto_pay_system.Payout.Processor.{
  Env, is_payout, is_pending, refund, set_failed, was_locked, fail_found, mark_failed, prepare,
  with_payout, with_balance, load_payout_locked, load_balance_locked, required, or_value_error, run,
  caught, execute,
}
use crypto_pay_system.Payout.Processor.Refunds.{fail_block-found}

one_row :
    {A : Type 0} (rows : List A) (r : A) → rows ≡ r ∷ [] → scalar_one_or_none rows ≡ ok (some r)
unfolding scalar_one_or_none
one_row rows r h = rw h refl

constraints-refund :
    (m c a : ℕ) (reason : Text) (id : ℕ) (db : Db)
    → constraints db ≡ true
    → constraints (record db {
      payouts = modify_where (is_payout id) (set_failed reason) db.payouts;
      balances = modify_where (is_account m c) (refund a) db.balances;
    })
      ≡ true
unfolding constraints same_account
constraints-refund m c a reason id db h = ground (
  arith,
  unique-modify_where same_account (is_account m c) (refund a) (λ x y. refl) (λ x y. refl)
      db.balances,
)

-- the database with the payout failed and its amount refunded
pub refunded_db : ℕ → Text → Payout → Db → Db
refunded_db id reason p db = record db {
  payouts = modify_where (is_payout id) (set_failed reason) db.payouts;
  balances =
      modify_where (is_account p.merchant_id p.coin_id) (refund p.amount_requested) db.balances;
}

mark_failed_refunds :
    (id : ℕ) (reason : Text) (db : Db) (p : Payout) (b : Balance)
    → select (is_payout id) db.payouts ≡ p ∷ []
    → select (is_account p.merchant_id p.coin_id) db.balances ≡ b ∷ []
    → was_locked p.status ≡ true
    → (p.amount_requested == 0) ≡ false
    → constraints db ≡ true
    → mark_failed id reason db ≡ refunded_db id reason p db
unfolding mark_failed atomically refunded_db fail_found flush
mark_failed_refunds id reason db p b found only lk nz c = ground (
  arith,
  fail_block-found id reason db p (one_row _ p found),
  one_row (select (is_account p.merchant_id p.coin_id) db.balances) b only,
  constraints-refund p.merchant_id p.coin_id p.amount_requested reason id db c,
)

-- `_mark_failed` on a payout that is PENDING or PROCESSING: the payout is FAILED, and its account
-- gets back what is locked there, up to the requested amount, whether or not this payout locked it.
pub mark_failed_lem :
    (id : ℕ) (reason : Text) (db : Db) (p : Payout) (b : Balance)
    → select (is_payout id) db.payouts ≡ p ∷ []
    → select (is_account p.merchant_id p.coin_id) db.balances ≡ b ∷ []
    → was_locked p.status ≡ true
    → (p.amount_requested == 0) ≡ false
    → constraints db ≡ true
    → let db' = mark_failed id reason db in
      (select (is_payout id) db'.payouts ≡ set_failed reason p ∷ [])
      × (select (is_account p.merchant_id p.coin_id) db'.balances
          ≡ refund p.amount_requested b ∷ [])
unfolding refunded_db is_account
mark_failed_lem id reason db p b found only lk nz c =
    let acct = is_account p.merchant_id p.coin_id in
    rw (mark_failed_refunds id reason db p b found only lk nz c) (
      select-modify_where (is_payout id) (set_failed reason) db.payouts p (λ q. refl) found,
      select-modify_where acct (refund p.amount_requested) db.balances b (λ q. refl) only,
    )

prepare_short :
    (env : Env) (id : ℕ) (db : Db) (p : Payout) (b : Balance)
    → select (is_payout id) db.payouts ≡ p ∷ []
    → is_pending p.status ≡ true
    → select (is_account p.merchant_id p.coin_id) db.balances ≡ b ∷ []
    → ltb_ℤ b.amount_available (pos p.amount_requested) ≡ true
    → prepare env id db ≡ (err value_error, db)
unfolding prepare with_payout with_balance load_payout_locked load_balance_locked required
    or_value_error
prepare_short env id db p b found pend only short = ground (
  arith,
  one_row (select (is_payout id) db.payouts) p found,
  one_row (select (is_account p.merchant_id p.coin_id) db.balances) b only,
)

execute_refused :
    (env : Env) (id : ℕ) (db : Db) (x : Exn)
    → prepare env id db ≡ (err x, db)
    → execute env id db ≡ mark_failed id (env.message x) db
unfolding execute run caught atomically
execute_refused env id db x e = ground (arith, e)

-- A PENDING payout that asks for more than is available never froze anything. `execute` marks it
-- FAILED, and still moves money of its account from locked to available: the requested amount, or
-- all that is locked there if that is less. So the money locked for another payout is released.
pub execute_overdraft :
    (env : Env) (id : ℕ) (db : Db) (p : Payout) (b : Balance)
    → select (is_payout id) db.payouts ≡ p ∷ []
    → p.status ≡ PayoutStatus.pending
    → select (is_account p.merchant_id p.coin_id) db.balances ≡ b ∷ []
    → ltb_ℤ b.amount_available (pos p.amount_requested) ≡ true
    → (p.amount_requested == 0) ≡ false
    → constraints db ≡ true
    → let db' = execute env id db in
      (select (is_payout id) db'.payouts ≡ set_failed (env.message value_error) p ∷ [])
      × (select (is_account p.merchant_id p.coin_id) db'.balances
          ≡ refund p.amount_requested b ∷ [])
execute_overdraft env id db p b found pend only short nz c =
    rw
      (execute_refused env id db value_error
        (prepare_short env id db p b found (ground arith) only short))
      (mark_failed_lem id (env.message value_error) db p b found only (ground arith) nz c)

prepare_not_pending :
    (env : Env) (id : ℕ) (db : Db) (p : Payout)
    → select (is_payout id) db.payouts ≡ p ∷ []
    → is_pending p.status ≡ false
    → prepare env id db ≡ (err value_error, db)
unfolding prepare with_payout load_payout_locked required or_value_error
prepare_not_pending env id db p found pend =
    ground (arith, one_row (select (is_payout id) db.payouts) p found)

mark_failed_plain :
    (id : ℕ) (reason : Text) (db : Db) (p : Payout)
    → select (is_payout id) db.payouts ≡ p ∷ []
    → was_locked p.status ≡ false
    → constraints db ≡ true
    → mark_failed id reason db
      ≡ record db { payouts = modify_where (is_payout id) (set_failed reason) db.payouts }
unfolding mark_failed atomically fail_found flush constraints
mark_failed_plain id reason db p found lk c =
    ground (arith, fail_block-found id reason db p (one_row _ p found))

-- `execute` on a payout that is SENT, CONFIRMED or FAILED already is refused as not PENDING, and
-- the refusal itself marks the payout FAILED: a payout whose transaction was broadcast is then
-- recorded as failed, with the balances as they were after the sending.
pub execute_finished :
    (env : Env) (id : ℕ) (db : Db) (p : Payout)
    → select (is_payout id) db.payouts ≡ p ∷ []
    → was_locked p.status ≡ false
    → constraints db ≡ true
    → let db' = execute env id db in
      (select (is_payout id) db'.payouts ≡ set_failed (env.message value_error) p ∷ [])
      × (db'.balances ≡ db.balances)
execute_finished env id db p found lk c =
    let f = set_failed (env.message value_error) in
    rw
      (execute_refused env id db value_error (prepare_not_pending env id db p found (ground arith)))
      (rw (mark_failed_plain id (env.message value_error) db p found lk c)
        (select-modify_where (is_payout id) f db.payouts p (λ q. refl) found, refl))

-- `execute` on a payout that another run has brought to PROCESSING marks it FAILED and releases its
-- locked amount, though that run may still broadcast the transaction.
pub execute-processing :
    (env : Env) (id : ℕ) (db : Db) (p : Payout) (b : Balance)
    → select (is_payout id) db.payouts ≡ p ∷ []
    → p.status ≡ PayoutStatus.processing
    → select (is_account p.merchant_id p.coin_id) db.balances ≡ b ∷ []
    → (p.amount_requested == 0) ≡ false
    → constraints db ≡ true
    → let db' = execute env id db in
      (select (is_payout id) db'.payouts ≡ set_failed (env.message value_error) p ∷ [])
      × (select (is_account p.merchant_id p.coin_id) db'.balances
          ≡ refund p.amount_requested b ∷ [])
execute-processing env id db p b found st only nz c =
    rw
      (execute_refused env id db value_error (prepare_not_pending env id db p found (ground arith)))
      (mark_failed_lem id (env.message value_error) db p b found only (ground arith) nz c)
