-- ===== src/Ledger/Accounting/Credit.antt =====
-- What each step of a credit does to the balances, the fee log and the other tables.
use crypto_pay_system.Prelude.{
  ℕ, ◌≡◌, ◌≢◌, ◌⊎◌, inl, inr, ==_refl, Bool, true, Option, none, some, List, [], ◌∷◌, ◌++◌, ◌==◌,
  arith, if◌then◌else◌,
}
use crypto_pay_system.Prelude.Int.{pos}
use crypto_pay_system.Prelude.Exec.{already_credited, ok, err, Result-cases}
use crypto_pay_system.Prelude.Rows.{
  select, modify_where, scalar_one_or_none, scalar_one_or_none-some, scalar_one_or_none-none,
  scalar_one_or_none-err,
}
use crypto_pay_system.Models.{Invoice, Balance, Transaction, Merchant, Coin, Db}
use crypto_pay_system.Ledger.Fee.{FeeResult, calculate_fee}
use crypto_pay_system.Ledger.Accounting.{
  is_utxo_of, Fresh, new_balance, set_credited, set_paid, constraints, flush, is_account,
  created_balance, register_utxo, added_utxo, get_or_create_balance_locked, add_available, fee_log,
  booked, credit,
}

module _ {ℓ} {A : Type ℓ} where
  -- A row that is appended is found behind those that were there.
  pub select-append :
      (p : A → Bool) (rows : List A) (r : A)
      → select p (rows ++ r ∷ []) ≡ select p rows ++ (if p r then r ∷ [] else [])
  unfolding select
  select-append p [] r = ground arith
  select-append p (s ∷ rows) r = ground (arith, select-append p rows r)

-- A locked Balance row is the only row of its account; of the database only the table of balances
-- may have changed, and there the sums have not.
pub record Locked (m c : ℕ) (db db' : Db) (b : Balance) : Type 0 where
  pub only : select (is_account m c) db'.balances ≡ b ∷ []
  pub frame : db' ≡ record db { balances = db'.balances }
  pub change :
      (db'.balances ≡ db.balances)
      ⊎ (db'.balances ≡ db.balances ++ b ∷ [])
        × (b.amount_available ≡ pos 0)
        × (b.amount_locked ≡ pos 0)

locked :
    (fresh : Fresh) (m c : ℕ) (db : Db) (o : Option Balance) {b : Balance} {db' : Db}
    → scalar_one_or_none (select (is_account m c) db.balances) ≡ ok o
    → created_balance fresh m c o db ≡ (ok b, db')
    → Locked m c db db' b
unfolding created_balance flush is_account
locked fresh m c db none h e = record {
  only = ground (
    arith,
    scalar_one_or_none-none _ h,
    select-append (is_account m c) db.balances (new_balance fresh m c),
    ==_refl m,
    ==_refl c,
  );
  frame = ground arith;
  change = inr (ground arith);
}
locked fresh m c db (some b') h e = record {
  only = ground (arith, scalar_one_or_none-some _ h);
  frame = ground arith;
  change = inl (ground arith);
}

pub get_or_create-Locked :
    (fresh : Fresh) (m c : ℕ) (db : Db) {b : Balance} {db' : Db}
    → get_or_create_balance_locked fresh m c db ≡ (ok b, db')
    → Locked m c db db' b
unfolding get_or_create_balance_locked
get_or_create-Locked fresh m c db e =
    elim (Result-cases (scalar_one_or_none (select (is_account m c) db.balances))) [
      | inl (o, found) ↦ locked fresh m c db o found (ground arith)
      | inr (x, found) ↦ cc
    ]

-- What a credit leaves in the tables of money, after it has locked the balance in `db`.
pub record Booked (fresh : Fresh) (tx : Transaction) (invoice : Invoice) (merchant : Merchant)
    (coin : Coin) (r : FeeResult) (db db' : Db) : Type 0 where
  pub balances :
      db'.balances ≡ modify_where (is_account merchant.id coin.id) (add_available r.net) db.balances
  pub fee_logs : db'.fee_logs ≡ db.fee_logs ++ fee_log fresh tx merchant coin r ∷ []
  pub payouts : db'.payouts ≡ db.payouts
  pub transactions :
      db'.transactions ≡ modify_where (λ t. t.id == tx.id) (set_credited fresh.now) db.transactions
  pub invoices :
      db'.invoices ≡ modify_where (λ i. i.id == invoice.id) (set_paid fresh.now) db.invoices
  pub consistent : constraints db' ≡ true

pub booked-Booked :
    (fresh : Fresh) (tx : Transaction) (invoice : Invoice) (merchant : Merchant) (coin : Coin)
    (result : FeeResult) (db : Db) {r : FeeResult} {db' : Db}
    → booked fresh tx invoice merchant coin result db ≡ (ok r, db')
    → (r ≡ result) × Booked fresh tx invoice merchant coin r db db'
unfolding booked
booked-Booked fresh tx invoice merchant coin result db e = (
  ground arith,
  record {
    balances = ground arith;
    fee_logs = ground arith;
    payouts = ground arith;
    transactions = ground arith;
    invoices = ground arith;
    consistent = ground arith;
  },
)

added-ne-already :
    (fresh : Fresh) (m c : ℕ) (o : Option Balance) (db : Db)
    → (created_balance fresh m c o db).0 ≢ err already_credited
unfolding created_balance flush
added-ne-already fresh m c none db = λ e. ground arith
added-ne-already fresh m c (some b) db = λ e. cc

lock-ne-already :
    (fresh : Fresh) (m c : ℕ) (db : Db)
    → (get_or_create_balance_locked fresh m c db).0 ≢ err already_credited
unfolding get_or_create_balance_locked
lock-ne-already fresh m c db e =
    let rows = select (is_account m c) db.balances in
    elim (Result-cases (scalar_one_or_none rows)) [
      | inl (o, found) ↦ ground (arith, added-ne-already fresh m c o db)
      | inr (x, found) ↦ ground (arith, scalar_one_or_none-err rows found)
    ]

booked-ne-already :
    (fresh : Fresh) (tx : Transaction) (invoice : Invoice) (merchant : Merchant) (coin : Coin)
    (result : FeeResult) (db : Db)
    → (booked fresh tx invoice merchant coin result db).0 ≢ err already_credited
unfolding booked
booked-ne-already fresh tx invoice merchant coin result db e =
    let rows = select (is_utxo_of tx.txid invoice.id) db.utxos in
    elim (Result-cases (scalar_one_or_none rows)) [
      | inl (o, found) ↦ ground arith
      | inr (x, found) ↦ ground (arith, scalar_one_or_none-err rows found)
    ]

-- A credit that finds the transaction credited before has changed nothing.
pub credit_already :
    (fresh : Fresh) (tx : Transaction) (invoice : Invoice) (merchant : Merchant) (coin : Coin)
    (db : Db)
    → (credit fresh tx invoice merchant coin db).0 ≡ err already_credited
    → (credit fresh tx invoice merchant coin db).1 ≡ db
unfolding credit
credit_already fresh tx invoice merchant coin db e =
    let result = calculate_fee tx.amount_received merchant.commission_pcent in
    ground (
      arith,
      lock-ne-already fresh merchant.id coin.id db,
      booked-ne-already fresh tx invoice merchant coin result
          (get_or_create_balance_locked fresh merchant.id coin.id db).1,
    )

-- A credit leaves the payouts alone, however it ends.
pub credit-payouts :
    (fresh : Fresh) (tx : Transaction) (invoice : Invoice) (merchant : Merchant) (coin : Coin)
    (db : Db)
    → (credit fresh tx invoice merchant coin db).1.payouts ≡ db.payouts
unfolding credit get_or_create_balance_locked created_balance booked register_utxo added_utxo flush
credit-payouts fresh tx invoice merchant coin db = ground arith
