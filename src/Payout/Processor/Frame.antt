-- ===== src/Payout/Processor/Frame.antt =====
-- The tables that the transactions of a payout only read.
use crypto_pay_system.Prelude.{
  ℕ, ◌≡◌, refl, ◌∙◌, Bool, true, false, List, [], ◌∷◌, Option, none, some, if◌then◌else◌, not, ◌&&◌,
  ◌==◌,
}
use crypto_pay_system.Prelude.Exec.{
  Exec, Result, ok, err, atomically, atomically-keeps, lift, modify, pure, ◌>>=◌, ◌>>◌,
}
use crypto_pay_system.Prelude.Rows.{select, scalar_one_or_none, modify_where}
use crypto_pay_system.Prelude.Text.{Text}
use crypto_pay_system.Models.{Utxo, Payout, Balance, Db}
use crypto_pay_system.Ledger.Accounting.{flush}
use crypto_pay_system.Payout.Selector.{SelectedUtxo}
use crypto_pay_system.Payout.Signing.{Signed}
use crypto_pay_system.Payout.Processor.{
  Env, selection, load_payout_locked, load_balance_locked, freeze_selected, with_balance,
  with_payout, prepare, persist, mark_spent, written, released, finalise, was_locked, set_failed,
  set_sent, is_payout, refunded, fail_found, fail_block, mark_failed,
}

-- the tables that no transaction of a payout writes
pub record Reads (db db' : Db) : Type 0 where
  pub coins : db'.coins ≡ db.coins
  pub merchants : db'.merchants ≡ db.merchants
  pub invoices : db'.invoices ≡ db.invoices
  pub transactions : db'.transactions ≡ db.transactions
  pub fee_logs : db'.fee_logs ≡ db.fee_logs

pub Reads-refl : (db : Db) → Reads db db
Reads-refl db = record {
  coins = refl;
  merchants = refl;
  invoices = refl;
  transactions = refl;
  fee_logs = refl;
}

Reads-trans : {db db' db'' : Db} → Reads db db' → Reads db' db'' → Reads db db''
Reads-trans h k = record {
  coins = k.coins ∙ h.coins;
  merchants = k.merchants ∙ h.merchants;
  invoices = k.invoices ∙ h.invoices;
  transactions = k.transactions ∙ h.transactions;
  fee_logs = k.fee_logs ∙ h.fee_logs;
}

-- An action that leaves those tables, however it ends.
pub record ReadsOnly {A : Type 0} (m : Exec Db A) : Type 0 where
  pub at : (db : Db) → Reads db (m db).1

module _ {A B : Type 0} where
  bind-Reads :
      (r : Result A) (db db' : Db) (f : A → Exec Db B)
      → Reads db db'
      → ((a : A) → ReadsOnly (f a))
      → Reads db (((λ (_ : Db). (r, db')) >>= f) db).1
  bind-Reads (ok a) db db' f h k = Reads-trans h ((k a).at db')
  bind-Reads (err x) db db' f h k = h

  bind-ReadsOnly :
      (m : Exec Db A) (f : A → Exec Db B)
      → ReadsOnly m
      → ((a : A) → ReadsOnly (f a))
      → ReadsOnly (m >>= f)
  bind-ReadsOnly m f hm hf = record { at = λ db. bind-Reads (m db).0 db (m db).1 f (hm.at db) hf }

module _ {A : Type 0} where
  lift-ReadsOnly : (r : Db → Result A) → ReadsOnly (λ db. lift (r db) db)
  lift-ReadsOnly r = record { at = Reads-refl }

  if-ReadsOnly :
      (b : Bool) (m n : Exec Db A)
      → ReadsOnly m
      → ReadsOnly n
      → ReadsOnly (λ db. (if b then m else n) db)
  if-ReadsOnly true m n hm hn = hm
  if-ReadsOnly false m n hm hn = hn

-- a write to the tables that a payout does change
module _ (f : Db → List Balance) (g : Db → List Payout) (h : Db → List Utxo) where
  write-ReadsOnly :
      ReadsOnly (modify (λ db. record db { balances = f db; payouts = g db; utxos = h db }))
  write-ReadsOnly = record {
    at = λ db. record {
      coins = refl;
      merchants = refl;
      invoices = refl;
      transactions = refl;
      fee_logs = refl;
    };
  }

flush-ReadsOnly : ReadsOnly flush
unfolding flush
flush-ReadsOnly = record { at = λ db. Reads-refl db }

freeze_selected-ReadsOnly : (env : Env) (p : Payout) → ReadsOnly (freeze_selected env p)
unfolding freeze_selected
freeze_selected-ReadsOnly env p =
    bind-ReadsOnly (λ db. lift (selection env p db) db) _ (lift-ReadsOnly (selection env p))
      (λ selected.
        bind-ReadsOnly (modify _) _ (write-ReadsOnly _ (λ db. db.payouts) (λ db. db.utxos)) (λ _.
          bind-ReadsOnly flush _ flush-ReadsOnly (λ _. lift-ReadsOnly (λ db. ok (p, selected)))))

with_balance-ReadsOnly : (env : Env) (p : Payout) (b : Balance) → ReadsOnly (with_balance env p b)
unfolding with_balance
with_balance-ReadsOnly env p b = bind-ReadsOnly _ _ (lift-ReadsOnly _) (λ _.
    bind-ReadsOnly (lift env.btc_provider) (λ _. freeze_selected env p) (lift-ReadsOnly _)
      (λ _. freeze_selected-ReadsOnly env p))

pub prepare-ReadsOnly : (env : Env) (id : ℕ) → ReadsOnly (prepare env id)
unfolding prepare with_payout load_payout_locked load_balance_locked
prepare-ReadsOnly env id =
    bind-ReadsOnly (load_payout_locked id) (with_payout env) (lift-ReadsOnly _) (λ p.
      bind-ReadsOnly _ _ (lift-ReadsOnly _) (λ _.
        bind-ReadsOnly (load_balance_locked p.merchant_id p.coin_id) (with_balance env p)
          (lift-ReadsOnly _) (with_balance-ReadsOnly env p)))

pub persist-ReadsOnly : (id : ℕ) (tx : Signed) → ReadsOnly (persist id tx)
unfolding persist load_payout_locked
persist-ReadsOnly id tx = bind-ReadsOnly (load_payout_locked id) _ (lift-ReadsOnly _) (λ _.
    bind-ReadsOnly (modify _) (λ _. flush) (write-ReadsOnly (λ db. db.balances) _ (λ db. db.utxos))
      (λ _. flush-ReadsOnly))

mark_spent-ReadsOnly : (id : ℕ) (selected : List SelectedUtxo) → ReadsOnly (mark_spent id selected)
unfolding mark_spent
mark_spent-ReadsOnly id [] = lift-ReadsOnly (λ db. ok tt)
mark_spent-ReadsOnly id (s ∷ rest) = bind-ReadsOnly _ _ (lift-ReadsOnly _) (λ u.
    bind-ReadsOnly (modify _) (λ _. mark_spent id rest)
      (write-ReadsOnly (λ db. db.balances) (λ db. db.payouts) _)
      (λ _. mark_spent-ReadsOnly id rest))

pub finalise-ReadsOnly :
    (env : Env) (id : ℕ) (txid : Text) (selected : List SelectedUtxo) (tx : Signed)
    → ReadsOnly (finalise env id txid selected tx)
unfolding finalise released written load_payout_locked load_balance_locked
finalise-ReadsOnly env id txid selected tx =
    bind-ReadsOnly (load_payout_locked id) _ (lift-ReadsOnly _) (λ p.
      bind-ReadsOnly (mark_spent id selected) (λ _. released env id txid tx p)
        (mark_spent-ReadsOnly id selected)
        (λ _.
          bind-ReadsOnly (load_balance_locked p.merchant_id p.coin_id)
            (λ _. written env id txid tx p) (lift-ReadsOnly _)
            (λ _.
              bind-ReadsOnly (modify _) _ (write-ReadsOnly _ (λ db. db.payouts) (λ db. db.utxos))
                (λ _.
                  bind-ReadsOnly (modify _) (λ _. flush)
                    (write-ReadsOnly (λ db. db.balances)
                      (λ db. modify_where (is_payout id) (set_sent env.now txid tx) db.payouts)
                      (λ db. db.utxos))
                    (λ _. flush-ReadsOnly)))))

refunded-ReadsOnly : (p : Payout) → ReadsOnly (refunded p)
unfolding refunded
refunded-ReadsOnly p =
    bind-ReadsOnly _ _ (lift-ReadsOnly _)
      (λ _. write-ReadsOnly _ (λ db. db.payouts) (λ db. db.utxos))

fail_found-ReadsOnly :
    (id : ℕ) (reason : Text) (found : Option Payout) → ReadsOnly (fail_found id reason found)
unfolding fail_found
fail_found-ReadsOnly id reason none = lift-ReadsOnly (λ db. ok tt)
fail_found-ReadsOnly id reason (some p) =
    let refunds = was_locked p.status && not (p.amount_requested == 0) in
    let fails = modify (λ (db : Db). record db {
      payouts = modify_where (is_payout id) (set_failed reason) db.payouts;
    }) in
    bind-ReadsOnly (fails >> (λ db. (if refunds then refunded p else pure tt) db)) (λ _. flush)
      (bind-ReadsOnly fails (λ _ db. (if refunds then refunded p else pure tt) db)
        (write-ReadsOnly (λ db. db.balances) _ (λ db. db.utxos))
        (λ _.
          if-ReadsOnly refunds (refunded p) (pure tt) (refunded-ReadsOnly p)
            (lift-ReadsOnly (λ db. ok tt))))
      (λ _. flush-ReadsOnly)

fail_block-ReadsOnly : (id : ℕ) (reason : Text) → ReadsOnly (fail_block id reason)
unfolding fail_block
fail_block-ReadsOnly id reason =
    bind-ReadsOnly _ (fail_found id reason)
      (lift-ReadsOnly (λ db. scalar_one_or_none (select (is_payout id) db.payouts)))
      (fail_found-ReadsOnly id reason)

-- A transaction that only reads those tables leaves them where it commits and where it is rolled
-- back.
pub atomically-Reads :
    {A : Type 0} (m : Exec Db A) (db : Db) → ReadsOnly m → Reads db (atomically m db).1
atomically-Reads m db h = atomically-keeps (Reads db) m db (Reads-refl db) (h.at db)

pub mark_failed-Reads : (id : ℕ) (reason : Text) (db : Db) → Reads db (mark_failed id reason db)
unfolding mark_failed
mark_failed-Reads id reason db =
    atomically-Reads (fail_block id reason) db (fail_block-ReadsOnly id reason)
