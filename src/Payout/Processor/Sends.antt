-- ===== src/Payout/Processor/Sends.antt =====
-- A payout that runs to its end: each of its steps goes through.
use crypto_pay_system.Prelude.{
  ℕ, ◌≡◌, refl, ap, ◌∙◌, Bool, true, false, List, [], ◌∷◌, All, arith, if◌then◌else◌,
}
use crypto_pay_system.Prelude.Exec.{ok}
use crypto_pay_system.Prelude.Int.{pos, ltb_ℤ}
use crypto_pay_system.Prelude.Rows.{
  select, modify_where, scalar_one, scalar_one_or_none, unique, unique-modify_where,
}
use crypto_pay_system.Models.{Balance, Payout, Utxo, Db}
use crypto_pay_system.Ledger.Accounting.{is_account, same_account, same_output, constraints, flush}
use crypto_pay_system.Payout.Selector.{SelectedUtxo}
use crypto_pay_system.Payout.Signing.{Signed}
use crypto_pay_system.Payout.Processor.{
  Env, is_payout, is_pending, load_payout_locked, load_balance_locked, selection, freeze,
  freeze_selected, with_balance, with_payout, prepare, set_processing, persist, is_utxo, set_spent,
  mark_spent,
}

-- An update that keeps a condition commutes with the query for it.
select_updated {ℓ} :
    {A : Type ℓ} (q p : A → Bool) (f : A → A) (rows : List A)
    → ((a : A) → q (f a) ≡ q a)
    → select q (modify_where p f rows) ≡ modify_where p f (select q rows)
unfolding select modify_where
select_updated q p f [] k = refl
select_updated q p f (r ∷ rows) k = ground (arith, k r, select_updated q p f rows k)

pub load_payout_lem :
    (id : ℕ) (db : Db) (p : Payout)
    → select (is_payout id) db.payouts ≡ p ∷ []
    → load_payout_locked id db ≡ (ok p, db)
unfolding load_payout_locked scalar_one_or_none
load_payout_lem id db p e = rw e refl

pub load_balance_lem :
    (m c : ℕ) (db : Db) (b : Balance)
    → select (is_account m c) db.balances ≡ b ∷ []
    → load_balance_locked m c db ≡ (ok b, db)
unfolding load_balance_locked scalar_one_or_none
load_balance_lem m c db b e = rw e refl

-- the database after the amount is frozen
abbrev pub frozen : Payout → Db → Db
frozen p db = record db {
  balances =
      modify_where (is_account p.merchant_id p.coin_id) (freeze p.amount_requested) db.balances;
}

pub frozen_fits : (p : Payout) (db : Db) → constraints db ≡ true → constraints (frozen p db) ≡ true
unfolding constraints same_account
frozen_fits p db fine =
    let kept =
      unique-modify_where same_account (is_account p.merchant_id p.coin_id)
        (freeze p.amount_requested) (λ a b. refl) (λ a b. refl) db.balances in
    ground arith

pub prepare_total :
    (env : Env) (id : ℕ) (db : Db) (p : Payout) (b : Balance) (selected : List SelectedUtxo)
    → select (is_payout id) db.payouts ≡ p ∷ []
    → is_pending p.status ≡ true
    → select (is_account p.merchant_id p.coin_id) db.balances ≡ b ∷ []
    → ltb_ℤ b.amount_available (pos p.amount_requested) ≡ false
    → env.btc_provider ≡ ok tt
    → selection env p db ≡ ok selected
    → constraints db ≡ true
    → prepare env id db ≡ (ok (p, selected), frozen p db)
unfolding prepare with_payout with_balance freeze_selected flush
prepare_total env id db p b selected found pending row covered ready coins fine =
    let payout_row = load_payout_lem id db p found in
    let balance_row = load_balance_lem p.merchant_id p.coin_id db b row in
    let fits = frozen_fits p db fine in ground arith

-- the database after the signed transaction is stored
abbrev pub processed : ℕ → Signed → Db → Db
processed id signed db = record db {
  payouts = modify_where (is_payout id) (set_processing signed) db.payouts;
}

pub persist_total :
    (id : ℕ) (signed : Signed) (db : Db) (p : Payout)
    → select (is_payout id) db.payouts ≡ p ∷ []
    → constraints db ≡ true
    → persist id signed db ≡ (ok tt, processed id signed db)
unfolding persist flush constraints
persist_total id signed db p found fine =
    let payout_row = load_payout_lem id db p found in ground arith

-- a selected coin has one row
abbrev pub IsFound : List Utxo → SelectedUtxo → Type 0
IsFound utxos s = (u : Utxo) × (select (is_utxo s.utxo_id) utxos ≡ u ∷ [])

IsFound-set_spent :
    (id k : ℕ) (utxos : List Utxo) (s : SelectedUtxo)
    → IsFound utxos s
    → IsFound (modify_where (is_utxo k) (set_spent id) utxos) s
unfolding modify_where
IsFound-set_spent id k utxos s (u, e) = (
  (if is_utxo k u then set_spent id u else u),
  select_updated (is_utxo s.utxo_id) (is_utxo k) (set_spent id) utxos (λ a. refl)
      ∙ ap (modify_where (is_utxo k) (set_spent id)) e,
)

All-IsFound :
    (id k : ℕ) (utxos : List Utxo) (selected : List SelectedUtxo)
    → All (IsFound utxos) selected
    → All (IsFound (modify_where (is_utxo k) (set_spent id) utxos)) selected
All-IsFound id k utxos [] h = tt
All-IsFound id k utxos (s ∷ selected) h =
    (IsFound-set_spent id k utxos s h.0, All-IsFound id k utxos selected h.1)

pub mark_spent_total :
    (id : ℕ) (selected : List SelectedUtxo) (db : Db)
    → All (IsFound db.utxos) selected
    → unique same_output db.utxos ≡ true
    → (us : List Utxo) × (mark_spent id selected db ≡ (ok tt, record db { utxos = us }))
      × (unique same_output us ≡ true)
unfolding mark_spent scalar_one same_output
mark_spent_total id [] db h u = (db.utxos, refl, u)
mark_spent_total id (s ∷ selected) db h u =
    let us = modify_where (is_utxo s.utxo_id) (set_spent id) db.utxos in
    let kept =
      unique-modify_where same_output (is_utxo s.utxo_id) (set_spent id) (λ a b. refl) (λ a b. refl)
        db.utxos in
    let (end, rest, fits) =
      mark_spent_total id selected (record db { utxos = us })
        (All-IsFound id s.utxo_id db.utxos selected h.1) (kept ∙ u) in
    let row = h.0.1 in (end, ground arith, fits)
