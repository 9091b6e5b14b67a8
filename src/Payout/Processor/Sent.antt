-- ===== src/Payout/Processor/Sent.antt =====
-- A payout from PENDING to SENT.
use crypto_pay_system.Prelude.{subst, ℕ, ◌≡◌, refl, sym, ap, true, false, List, [], ◌∷◌, All, arith}
use crypto_pay_system.Prelude.Exec.{Result, ok, atomically}
use crypto_pay_system.Prelude.Int.{pos, ltb_ℤ}
use crypto_pay_system.Prelude.Rows.{select, unique-modify_where, select-modify_where}
use crypto_pay_system.Prelude.Text.{Text}
use crypto_pay_system.Models.{Balance, Payout, Db}
use crypto_pay_system.Ledger.Accounting.{is_account, same_account, constraints, flush}
use crypto_pay_system.Payout.Selector.{SelectedUtxo}
use crypto_pay_system.Payout.Signing.{Signed, create_payout_transaction}
use crypto_pay_system.Payout.Processor.{
  Env, is_payout, is_pending, selection, freeze, set_processing, prepare, persist, unlock, set_sent,
  written, released, finalise, broadcast_and_finalise, after_signing, run, caught, execute,
}
use crypto_pay_system.Payout.Processor.Success.{finalise_lem}
use crypto_pay_system.Payout.Processor.Sends.{
  IsFound, frozen, processed, frozen_fits, load_payout_lem, load_balance_lem, prepare_total,
  persist_total, mark_spent_total,
}

finalise_total :
    (env : Env) (id : ℕ) (txid : Text) (selected : List SelectedUtxo) (signed : Signed) (db : Db)
    (p : Payout) (b : Balance)
    → select (is_payout id) db.payouts ≡ p ∷ []
    → select (is_account p.merchant_id p.coin_id) db.balances ≡ b ∷ []
    → All (IsFound db.utxos) selected
    → constraints db ≡ true
    → (finalise env id txid selected signed db).0 ≡ ok tt
unfolding finalise released written flush constraints same_account
finalise_total env id txid selected signed db p b found row coins fine =
    let payout_row = load_payout_lem id db p found in
    let (us, spent, fits) = mark_spent_total id selected db coins (ground arith) in
    let balance_row = load_balance_lem p.merchant_id p.coin_id (record db { utxos = us }) b row in
    let kept =
      unique-modify_where same_account (is_account p.merchant_id p.coin_id)
        (unlock p.amount_requested) (λ a b. refl) (λ a b. refl) db.balances in
    ground arith

processed_fits :
    (id : ℕ) (signed : Signed) (db : Db)
    → constraints db ≡ true
    → constraints (processed id signed db) ≡ true
unfolding constraints
processed_fits id signed db fine = fine

executed :
    (env : Env) (id : ℕ) (db db1 db2 db3 : Db) (p : Payout) (selected : List SelectedUtxo)
    (change txid : Text) (signed : Signed)
    → prepare env id db ≡ (ok (p, selected), db1)
    → env.btc_provider ≡ ok tt
    → env.change_address ≡ ok change
    → create_payout_transaction env.sign env.settings selected p.destination_address
        p.amount_requested change env.fee_rate
      ≡ ok signed
    → persist id signed db1 ≡ (ok tt, db2)
    → env.broadcast signed.raw_hex ≡ ok txid
    → finalise env id txid selected signed db2 ≡ (ok tt, db3)
    → execute env id db ≡ db3
unfolding execute caught run after_signing broadcast_and_finalise atomically
executed env id db db1 db2 db3 p selected change txid signed prepared ready change_row built
      persisted taken final =
    ground arith

-- what a finalised payout leaves, of the rows that were there
finalised :
    (env : Env) (id : ℕ) (txid : Text) (selected : List SelectedUtxo) (signed : Signed)
    (db db' : Db) (p : Payout) (b : Balance)
    → select (is_payout id) db.payouts ≡ p ∷ []
    → select (is_account p.merchant_id p.coin_id) db.balances ≡ b ∷ []
    → finalise env id txid selected signed db ≡ (ok tt, db')
    → (select (is_payout id) db'.payouts ≡ set_sent env.now txid signed p ∷ [])
      × (select (is_account p.merchant_id p.coin_id) db'.balances
          ≡ unlock p.amount_requested b ∷ [])
      × (db'.fee_logs ≡ db.fee_logs)
finalised env id txid selected signed db db' p b found row e =
    let (p', b', one, sent, account, unlocked, logs) =
      finalise_lem env id txid selected signed db {u = tt} {db' = db'} e in
    let same : p' ≡ p = cc (one, found) in
    let account_p : select (is_account p.merchant_id p.coin_id) db.balances ≡ b' ∷ [] =
      subst (λ (q : Payout). select (is_account q.merchant_id q.coin_id) db.balances ≡ b' ∷ []) same
        account in
    let unlocked_p : select (is_account p.merchant_id p.coin_id) db'.balances
        ≡ unlock p.amount_requested b' ∷ [] =
      subst
        (λ (q : Payout).
          select (is_account q.merchant_id q.coin_id) db'.balances
          ≡ unlock q.amount_requested b' ∷ [])
        same unlocked in
    let same_b : b' ≡ b = cc (account_p, row) in
    (
      subst
          (λ (q : Payout). select (is_payout id) db'.payouts ≡ set_sent env.now txid signed q ∷ [])
          same sent,
      subst
          (λ (x : Balance).
            select (is_account p.merchant_id p.coin_id) db'.balances
            ≡ unlock p.amount_requested x ∷ [])
          same_b unlocked_p,
      logs,
    )

module _ (env : Env) (id : ℕ) (db : Db) (p : Payout) (b : Balance) (selected : List SelectedUtxo)
    (change txid : Text) (signed : Signed) where
  -- the payout as it is stored before it is sent, and its account
  stored :
      select (is_payout id) db.payouts ≡ p ∷ []
      → select (is_payout id) (processed id signed (frozen p db)).payouts
        ≡ set_processing signed p ∷ []
  stored found =
      select-modify_where (is_payout id) (set_processing signed) db.payouts p (λ a. refl) found

  held_back :
      select (is_account p.merchant_id p.coin_id) db.balances ≡ b ∷ []
      → select (is_account p.merchant_id p.coin_id) (processed id signed (frozen p db)).balances
        ≡ freeze p.amount_requested b ∷ []
  unfolding is_account
  held_back row =
      select-modify_where (is_account p.merchant_id p.coin_id) (freeze p.amount_requested)
        db.balances b (λ a. refl) row

  -- A PENDING payout is sent. It and its account have one row each, the available amount covers it,
  -- coins are selected for it and each has its row, the database's constraints hold, the provider
  -- and the change address are there, the transaction is built and signed, and the node takes it.
  -- Then `execute` leaves the payout SENT with the node's txid and the fee of the transaction; the
  -- requested amount has left the account, first from the available and then from the locked part;
  -- and the fee log is as before.
  pub execute_sent :
      select (is_payout id) db.payouts ≡ p ∷ []
      → is_pending p.status ≡ true
      → select (is_account p.merchant_id p.coin_id) db.balances ≡ b ∷ []
      → ltb_ℤ b.amount_available (pos p.amount_requested) ≡ false
      → selection env p db ≡ ok selected
      → All (IsFound db.utxos) selected
      → constraints db ≡ true
      → env.btc_provider ≡ ok tt
      → env.change_address ≡ ok change
      → create_payout_transaction env.sign env.settings selected p.destination_address
          p.amount_requested change env.fee_rate
        ≡ ok signed
      → env.broadcast signed.raw_hex ≡ ok txid
      → let db' = execute env id db in
        (select (is_payout id) db'.payouts
          ≡ set_sent env.now txid signed (set_processing signed p) ∷ [])
        × (select (is_account p.merchant_id p.coin_id) db'.balances
            ≡ unlock p.amount_requested (freeze p.amount_requested b) ∷ [])
        × (db'.fee_logs ≡ db.fee_logs)
  execute_sent found pending row covered coins coin_rows fine ready change_row built taken =
      let db1 = frozen p db in
      let db2 = processed id signed db1 in
      let p2 = set_processing signed p in
      let b2 = freeze p.amount_requested b in
      let fine1 = frozen_fits p db fine in
      let fine2 : constraints db2 ≡ true = processed_fits id signed db1 fine1 in
      let prepared =
        prepare_total env id db p b selected found pending row covered ready coins fine in
      let persisted = persist_total id signed db1 p found fine1 in
      let last =
        finalise_total env id txid selected signed db2 p2 b2 (stored found) (held_back row)
          coin_rows fine2 in
      let db3 = (finalise env id txid selected signed db2).1 in
      let final : finalise env id txid selected signed db2 ≡ (ok tt, db3) =
        ap (λ (r : Result (Unit {0})). (r, db3)) last in
      let whole =
        executed env id db db1 db2 db3 p selected change txid signed prepared ready change_row built
          persisted taken final in
      let left =
        finalised env id txid selected signed db2 db3 p2 b2 (stored found) (held_back row) final in
      subst
        (λ (d : Db).
          (select (is_payout id) d.payouts ≡ set_sent env.now txid signed p2 ∷ [])
          × (select (is_account p.merchant_id p.coin_id) d.balances
              ≡ unlock p.amount_requested b2 ∷ [])
          × (d.fee_logs ≡ db.fee_logs))
        (sym whole) left
