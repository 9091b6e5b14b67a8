-- ===== src/Ledger/Accounting/Succeeds.antt =====
-- When a credit goes through: the constraints on the rows that it writes.
use crypto_pay_system.Prelude.{
  ℕ, ◌≡◌, refl, ap, ◌∙◌, ◌⊎◌, inl, inr, ◌||◌, Bool, Bool-cases, true, false, none, List, [], ◌∷◌,
  ◌++◌, arith,
}
use crypto_pay_system.Prelude.Exec.{ok}
use crypto_pay_system.Prelude.Rows.{select, scalar_one_or_none, unique, any, unique-modify_where}
use crypto_pay_system.Prelude.Text.{Text, text_eq}
use crypto_pay_system.Models.{Invoice, Balance, Transaction, Utxo, Merchant, Coin, Db}
use crypto_pay_system.Ledger.Fee.{FeeResult, calculate_fee}
use crypto_pay_system.Ledger.Accounting.{
  is_utxo_of, Fresh, new_balance, constraints, flush, is_account, same_account, same_output,
  new_utxo, created_balance, get_or_create_balance_locked, add_available, booked, credit,
}

module _ {ℓ} {A : Type ℓ} (same : A → A → Bool) where
  pub any-append :
      (p : A → Bool) (rows : List A) (r : A) → any p (rows ++ r ∷ []) ≡ (any p rows || p r)
  unfolding any
  any-append p [] r = ground arith
  any-append p (s ∷ rows) r = ground (arith, any-append p rows r)

  -- A row that collides with none can be added.
  pub unique-append :
      (rows : List A) (r : A)
      → unique same rows ≡ true
      → any (λ s. same s r) rows ≡ false
      → unique same (rows ++ r ∷ []) ≡ true
  unfolding unique any
  unique-append [] r u fresh = refl
  unique-append (s ∷ rows) r u fresh =
      ground (arith, any-append (same s) rows r, unique-append rows r)

module _ {ℓ} {A : Type ℓ} where
  -- whether a condition selects a row
  any-select : (p : A → Bool) (rows : List A) → select p rows ≡ [] → any p rows ≡ false
  unfolding any select
  any-select p [] h = refl
  any-select p (r ∷ rows) h = ground (arith, any-select p rows)

  select-any :
      (p q : A → Bool) (rows : List A)
      → ((a : A) → p a ≡ true → q a ≡ true)
      → any q rows ≡ false
      → select p rows ≡ []
  unfolding any select
  select-any p q [] k h = refl
  select-any p q (r ∷ rows) k h = ground (arith, k r, select-any p q rows k)

-- No two rows are of one account, so a query for an account returns one row at most.
other_accounts :
    (m c : ℕ) (b : Balance) (rows : List Balance)
    → is_account m c b ≡ true
    → any (same_account b) rows ≡ false
    → select (is_account m c) rows ≡ []
unfolding select any is_account same_account
other_accounts m c b [] h none_same = refl
other_accounts m c b (s ∷ rows) h none_same = ground (arith, other_accounts m c b rows)

account_cases :
    (m c : ℕ) (rows : List Balance)
    → unique same_account rows ≡ true
    → (select (is_account m c) rows ≡ [])
      ⊎ ((b : Balance) × (select (is_account m c) rows ≡ b ∷ []))
unfolding select unique
account_cases m c [] u = inl refl
account_cases m c (b ∷ rows) u = elim (Bool-cases (is_account m c b)) [
  | inl t ↦ inr (b, ground (arith, other_accounts m c b rows))
  | inr f ↦ rw f (account_cases m c rows (ground arith))
]

created_total :
    (fresh : Fresh) (m c : ℕ) (db : Db)
    → constraints db ≡ true
    → select (is_account m c) db.balances ≡ []
    → let b = new_balance fresh m c in
      let db1 = record db { balances = db.balances ++ b ∷ [] } in
      (created_balance fresh m c none db ≡ (ok b, db1)) × (constraints db1 ≡ true)
unfolding created_balance flush constraints is_account same_account
created_total fresh m c db ok_db no_row =
    let free = any-select (is_account m c) db.balances no_row in
    let fits = unique-append same_account db.balances (new_balance fresh m c) (ground arith) free in
    let outs : unique same_output db.utxos ≡ true = ground arith in (ground arith, ground arith)

-- The balance is locked, and the rows are consistent afterwards.
pub locked_total :
    (fresh : Fresh) (m c : ℕ) (db : Db)
    → constraints db ≡ true
    → (b : Balance) × (db1 : Db) × (get_or_create_balance_locked fresh m c db ≡ (ok b, db1))
      × (constraints db1 ≡ true)
      × (db1.utxos ≡ db.utxos)
unfolding get_or_create_balance_locked created_balance scalar_one_or_none constraints
locked_total fresh m c db ok_db = elim (account_cases m c db.balances (ground arith)) [
  | inl no_row ↦
      let (made, fine) = created_total fresh m c db ok_db no_row in
      (
        new_balance fresh m c,
        record db { balances = db.balances ++ new_balance fresh m c ∷ [] },
        ground arith,
        fine,
        refl,
      )
  | inr (b, one) ↦ (b, db, ground arith, ok_db, refl)
]

-- whether an output of a transaction is registered, for whichever invoice
abbrev pub has_output : Text → Db → Bool
has_output txid db = any (λ u. text_eq u.txid txid) db.utxos

booked_total :
    (fresh : Fresh) (tx : Transaction) (invoice : Invoice) (merchant : Merchant) (coin : Coin)
    (result : FeeResult) (db : Db)
    → constraints db ≡ true
    → has_output tx.txid db ≡ false
    → (booked fresh tx invoice merchant coin result db).0 ≡ ok result
unfolding booked constraints scalar_one_or_none same_account same_output is_utxo_of
booked_total fresh tx invoice merchant coin result db ok_db new_tx =
    let is_of = λ (u : Utxo). text_eq u.txid tx.txid in
    let unregistered =
      select-any (is_utxo_of tx.txid invoice.id) is_of db.utxos (λ u h. ground arith) new_tx in
    let accounts =
      unique-modify_where same_account (is_account merchant.id coin.id) (add_available result.net)
        (λ a b. refl) (λ a b. refl) db.balances in
    let free =
      any-select (λ u. same_output u (new_utxo fresh tx invoice)) db.utxos
        (select-any (λ u. same_output u (new_utxo fresh tx invoice)) is_of db.utxos
          (λ u h. ground arith) new_tx) in
    let fits = unique-append same_output db.utxos (new_utxo fresh tx invoice) (ground arith) free in
    let accounts_hold : unique same_account db.balances ≡ true = ground arith in ground arith

-- A credit goes through when the transaction is not yet credited, the rows are consistent, and no
-- output of the transaction is registered.
pub credit_total :
    (fresh : Fresh) (tx : Transaction) (invoice : Invoice) (merchant : Merchant) (coin : Coin)
    (db : Db)
    → tx.credited ≡ false
    → constraints db ≡ true
    → has_output tx.txid db ≡ false
    → (credit fresh tx invoice merchant coin db).0
      ≡ ok (calculate_fee tx.amount_received merchant.commission_pcent)
unfolding credit
credit_total fresh tx invoice merchant coin db fr ok_db new_tx =
    let result = calculate_fee tx.amount_received merchant.commission_pcent in
    let (b, db1, lock, ok_db1, same) = locked_total fresh merchant.id coin.id db ok_db in
    let still = ap (λ (us : List Utxo). any (λ u. text_eq u.txid tx.txid) us) same ∙ new_tx in
    let rest = booked_total fresh tx invoice merchant coin result db1 ok_db1 still in ground arith
