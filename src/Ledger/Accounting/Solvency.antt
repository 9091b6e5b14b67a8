-- ===== src/Ledger/Accounting/Solvency.antt =====
-- What a credit does to the accounts and to the books.
use crypto_pay_system.Prelude.{
  ℕ, ◌≡◌, inl, inr, false, List, [], ◌∷◌, ◌&&◌, ◌==◌, arith, ap, refl, ◌∙◌, if◌then◌else◌,
}
use crypto_pay_system.Prelude.Exec.{already_credited, raise_if, >>=-eq-ok, ok, ◌>>=◌}
use crypto_pay_system.Prelude.Int.{ℤ, pos, ◌+ℤ◌, int_laws}
use crypto_pay_system.Prelude.Rows.{select, sum-append, sum-modify_where, sum-one, select-holds}
use crypto_pay_system.Models.{Invoice, Balance, Transaction, Merchant, Coin, Db}
use crypto_pay_system.Funds.{held_weight, earned_weight, held, earned, IsSolvent}
use crypto_pay_system.Ledger.Fee.{FeeResult, calculate_fee}
use crypto_pay_system.Ledger.Accounting.{
  Fresh, is_account, get_or_create_balance_locked, booked, add_available, fee_log, credit,
}
use crypto_pay_system.Ledger.Accounting.Credit.{Locked, get_or_create-Locked, Booked, booked-Booked}

-- what an account receives when the credit is for (m', c')
abbrev pub share : ℕ → ℕ → ℕ → ℕ → ℤ → ℤ
share m c m' c' x = if m' == m && c' == c then x else pos 0

held-Locked :
    (m c m' c' : ℕ) {db db' : Db} {b : Balance} → Locked m' c' db db' b → held m c db' ≡ held m c db
unfolding held_weight
held-Locked m c m' c' {db} {db'} {b} l = elim l.change [
  | inl same ↦ rw same
  | inr (added, av, lk) ↦ rw added (
      rw (sum-append (held_weight m c) db.balances (b ∷ []))
        (grind (int_laws, av, lk, sum-one (held_weight m c) b)))
]

-- The selected row of an account has its keys.
pub select-keys :
    (m c : ℕ) (rows : List Balance) {b : Balance}
    → select (is_account m c) rows ≡ b ∷ []
    → (b.merchant_id ≡ m) × (b.coin_id ≡ c)
unfolding is_account
select-keys m c rows {b} h = ground (arith, select-holds (is_account m c) rows b [] h)

weight_gain :
    (m c m' c' : ℕ) (x : ℤ) (b : Balance)
    → b.merchant_id ≡ m'
    → b.coin_id ≡ c'
    → held_weight m c (add_available x b) ≡ held_weight m c b +ℤ share m c m' c' x
unfolding held_weight
weight_gain m c m' c' x b p q = grind int_laws

earned-Booked :
    (m c : ℕ) {fresh : Fresh} {tx : Transaction} {invoice : Invoice} {merchant : Merchant}
    {coin : Coin} {r : FeeResult} {db db' : Db}
    → Booked fresh tx invoice merchant coin r db db'
    → earned m c db' ≡ earned m c db +ℤ share m c merchant.id coin.id r.net
unfolding earned_weight
earned-Booked m c {fresh} {tx} {merchant} {coin} {r} {db} k =
    let log = fee_log fresh tx merchant coin r in
    rw k.fee_logs (
      rw (sum-append (earned_weight m c) db.fee_logs (log ∷ []), sum-one (earned_weight m c) log)
        refl)

held-Booked :
    (m c : ℕ) {fresh : Fresh} {tx : Transaction} {invoice : Invoice} {merchant : Merchant}
    {coin : Coin} {r : FeeResult} {db db1 db' : Db} {b : Balance}
    → Locked merchant.id coin.id db db1 b
    → Booked fresh tx invoice merchant coin r db1 db'
    → held m c db' ≡ held m c db +ℤ share m c merchant.id coin.id r.net
held-Booked m c {merchant = merchant} {coin} {r} {db} {db1} {b = b} l k =
    let acct = is_account merchant.id coin.id in
    let (em, ec) = select-keys merchant.id coin.id db1.balances l.only in
    rw k.balances (
      grind (
        int_laws,
        sum-modify_where (held_weight m c) acct (add_available r.net) db1.balances b l.only,
        weight_gain m c merchant.id coin.id r.net b em ec,
        held-Locked m c merchant.id coin.id l,
      ))

not_credited :
    (tx : Transaction) (db : Db) {db' : Db} {u : Unit {0}}
    → raise_if tx.credited already_credited db ≡ (ok u, db')
    → (tx.credited ≡ false) × (db' ≡ db)
not_credited tx db h = (ground arith, ground arith)

-- A credit that succeeds: the row that was locked, the state then, and what was booked there.
pub credit_inv :
    (fresh : Fresh) (tx : Transaction) (invoice : Invoice) (merchant : Merchant) (coin : Coin)
    (db : Db) {r : FeeResult} {db' : Db}
    → credit fresh tx invoice merchant coin db ≡ (ok r, db')
    → (tx.credited ≡ false)
      × (r ≡ calculate_fee tx.amount_received merchant.commission_pcent)
      × (b : Balance) × (db1 : Db) × Locked merchant.id coin.id db db1 b
      × Booked fresh tx invoice merchant coin r db1 db'
unfolding credit
credit_inv fresh tx invoice merchant coin db e =
    let result = calculate_fee tx.amount_received merchant.commission_pcent in
    let (u, db0, e0, k0) =
      >>=-eq-ok (raise_if tx.credited already_credited)
        (λ _. get_or_create_balance_locked fresh merchant.id coin.id >>= λ _.
          booked fresh tx invoice merchant coin result)
        db e in
    let (fr, same) = not_credited tx db e0 in
    let (b, db1, e1, k1) =
      >>=-eq-ok (get_or_create_balance_locked fresh merchant.id coin.id)
        (λ _. booked fresh tx invoice merchant coin result) db (rw same at k0) in
    let (er, k) = booked-Booked fresh tx invoice merchant coin result db1 k1 in
    (fr, er, b, db1, get_or_create-Locked fresh merchant.id coin.id db e1, k)

-- A credit that succeeds was of a transaction not yet credited, and its result is the fee split.
-- The account of the invoice's merchant and coin holds more by exactly the net amount, the fee log
-- shows the same net amount, and every other account is as before; no payout row is touched.
pub credit_lem :
    (m c : ℕ) (fresh : Fresh) (tx : Transaction) (invoice : Invoice) (merchant : Merchant)
    (coin : Coin) (db : Db) {r : FeeResult} {db' : Db}
    → credit fresh tx invoice merchant coin db ≡ (ok r, db')
    → (tx.credited ≡ false)
      × (r ≡ calculate_fee tx.amount_received merchant.commission_pcent)
      × (held m c db' ≡ held m c db +ℤ share m c merchant.id coin.id r.net)
      × (earned m c db' ≡ earned m c db +ℤ share m c merchant.id coin.id r.net)
      × (db'.payouts ≡ db.payouts)
credit_lem m c fresh tx invoice merchant coin db {r} {db'} e =
    let (fr, er, b, db1, l, k) = credit_inv fresh tx invoice merchant coin db e in
    (
      fr,
      er,
      held-Booked m c l k,
      earned-Booked m c k
          ∙ ap (λ (d : Db). earned m c d +ℤ share m c merchant.id coin.id r.net) l.frame,
      k.payouts ∙ ap (λ (d : Db). d.payouts) l.frame,
    )

-- A credit keeps the books balanced: where every account holds what was booked for it less what was
-- sent, it still does when a credit has succeeded.
pub credit-IsSolvent :
    (fresh : Fresh) (tx : Transaction) (invoice : Invoice) (merchant : Merchant) (coin : Coin)
    (db : Db) {r : FeeResult} {db' : Db}
    → IsSolvent db
    → credit fresh tx invoice merchant coin db ≡ (ok r, db')
    → IsSolvent db'
credit-IsSolvent fresh tx invoice merchant coin db {r} {db'} s e m c =
    let (_, _, h, k, p) = credit_lem m c fresh tx invoice merchant coin db e in
    rw p (grind (int_laws, h, k, s m c))
