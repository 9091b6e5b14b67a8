-- ===== src/Ledger/Accounting/Collides.antt =====
-- A credit for a transaction whose output 0 is registered for another invoice.
use crypto_pay_system.Prelude.{
  ◌≡◌, ap, ◌∙◌, ◌==◌, ◌&&◌, Bool, true, false, List, [], ◌∷◌, ◌++◌, arith,
}
use crypto_pay_system.Prelude.Exec.{err, integrity_error}
use crypto_pay_system.Prelude.Rows.{select, scalar_one_or_none, unique, any}
use crypto_pay_system.Prelude.Text.{Text, text_eq}
use crypto_pay_system.Models.{Invoice, Transaction, Utxo, Merchant, Coin, Db}
use crypto_pay_system.Ledger.Fee.{FeeResult, calculate_fee}
use crypto_pay_system.Ledger.Accounting.{
  is_utxo_of, Fresh, constraints, flush, same_output, new_utxo, booked, credit,
}
use crypto_pay_system.Ledger.Accounting.Succeeds.{any-append, locked_total}

-- A row that collides with one that is there breaks the constraint.
unique-collides {ℓ} :
    {A : Type ℓ} (same : A → A → Bool) (rows : List A) (r : A)
    → any (λ s. same s r) rows ≡ true
    → unique same (rows ++ r ∷ []) ≡ false
unfolding unique any
unique-collides same [] r hit = absurd (ground arith)
unique-collides same (s ∷ rows) r hit =
    ground (arith, any-append same (same s) rows r, unique-collides same rows r)

-- whether output 0 of a transaction is registered
abbrev pub has_output_0 : Text → Db → Bool
has_output_0 txid db = any (λ u. text_eq u.txid txid && u.vout == 0) db.utxos

booked_collides :
    (fresh : Fresh) (tx : Transaction) (invoice : Invoice) (merchant : Merchant) (coin : Coin)
    (result : FeeResult) (db : Db)
    → has_output_0 tx.txid db ≡ true
    → select (is_utxo_of tx.txid invoice.id) db.utxos ≡ []
    → (booked fresh tx invoice merchant coin result db).0 ≡ err integrity_error
unfolding booked scalar_one_or_none same_output constraints flush
booked_collides fresh tx invoice merchant coin result db hit other =
    let broken = unique-collides same_output db.utxos (new_utxo fresh tx invoice) hit in
    ground arith

-- The credit fails on the constraint on outputs.
pub credit_collides :
    (fresh : Fresh) (tx : Transaction) (invoice : Invoice) (merchant : Merchant) (coin : Coin)
    (db : Db)
    → tx.credited ≡ false
    → constraints db ≡ true
    → has_output_0 tx.txid db ≡ true
    → select (is_utxo_of tx.txid invoice.id) db.utxos ≡ []
    → (credit fresh tx invoice merchant coin db).0 ≡ err integrity_error
unfolding credit
credit_collides fresh tx invoice merchant coin db fr fine hit other =
    let result = calculate_fee tx.amount_received merchant.commission_pcent in
    let (b, db1, lock, fine1, same) = locked_total fresh merchant.id coin.id db fine in
    let still : has_output_0 tx.txid db1 ≡ true =
      ap (λ (us : List Utxo). any (λ u. text_eq u.txid tx.txid && u.vout == 0) us) same ∙ hit in
    let other1 = ap (select (is_utxo_of tx.txid invoice.id)) same ∙ other in
    let rest = booked_collides fresh tx invoice merchant coin result db1 still other1 in
    ground arith
