-- ===== src/Payout/Processor/Books.antt =====
-- What the steps of a payout do to the books: freezing, persisting and sending.
use crypto_pay_system.Prelude.{ℕ, ◌≡◌, refl, Bool, false, List, [], ◌∷◌, arith}
use crypto_pay_system.Prelude.Exec.{ok, ◌>>◌, modify, >>=-eq-ok}
use crypto_pay_system.Prelude.Int.{ℤ, pos, ◌+ℤ◌, int_laws}
use crypto_pay_system.Prelude.Rows.{
  select, modify_where, sum, sum-modify_where, select-modify_where,
}
use crypto_pay_system.Prelude.Text.{Text}
use crypto_pay_system.Models.{Balance, Payout, Db}
use crypto_pay_system.Funds.{is_sent, held_weight, paid_weight, IsSolvent}
use crypto_pay_system.Ledger.Accounting.{is_account, flush}
use crypto_pay_system.Ledger.Accounting.Solvency.{share, select-keys}
use crypto_pay_system.Payout.Selector.{SelectedUtxo}
use crypto_pay_system.Payout.Signing.{Signed}
use crypto_pay_system.Payout.Processor.{
  Env, is_payout, freeze, prepare, unlock, refund, set_sent, set_failed, set_processing, persist,
  finalise, load_payout_locked,
}
use crypto_pay_system.Payout.Processor.Steps.{prepare_inv, finalise_inv, load_payout_inv}

-- Where the payout `id` is found, it has not been sent.
abbrev pub NotSent : ℕ → Db → Type 0
NotSent id db = (p : Payout) → select (is_payout id) db.payouts ≡ p ∷ [] → is_sent p.status ≡ false

abbrev pub Ready : ℕ → Db → Type 0
Ready id db = IsSolvent db × NotSent id db

pub held-freeze : (m c a : ℕ) (b : Balance) → held_weight m c (freeze a b) ≡ held_weight m c b
unfolding held_weight
held-freeze m c a b = grind int_laws

pub held-unlock :
    (m c m' c' a : ℕ) (b : Balance)
    → b.merchant_id ≡ m'
    → b.coin_id ≡ c'
    → held_weight m c (unlock a b) +ℤ share m c m' c' (pos a) ≡ held_weight m c b
unfolding held_weight
held-unlock m c m' c' a b p q = grind int_laws

pub held-refund : (m c a : ℕ) (b : Balance) → held_weight m c (refund a b) ≡ held_weight m c b
unfolding held_weight
held-refund m c a b = grind int_laws

pub paid-sent :
    (m c now : ℕ) (txid : Text) (signed : Signed) (p : Payout)
    → is_sent p.status ≡ false
    → paid_weight m c (set_sent now txid signed p)
      ≡ paid_weight m c p +ℤ share m c p.merchant_id p.coin_id (pos p.amount_requested)
unfolding paid_weight
paid-sent m c now txid signed p h = grind int_laws

pub paid-failed :
    (m c : ℕ) (reason : Text) (p : Payout)
    → is_sent p.status ≡ false
    → paid_weight m c (set_failed reason p) ≡ paid_weight m c p
unfolding paid_weight
paid-failed m c reason p h = ground arith

pub paid-processing :
    (m c : ℕ) (signed : Signed) (p : Payout)
    → is_sent p.status ≡ false
    → paid_weight m c (set_processing signed p) ≡ paid_weight m c p
unfolding paid_weight
paid-processing m c signed p h = ground arith

-- A change of one row that keeps its weight keeps the sum.
pub sum-same :
    {A : Type 0} (w : A → ℤ) (p : A → Bool) (f : A → A) (rows : List A) (r : A)
    → select p rows ≡ r ∷ []
    → w (f r) ≡ w r
    → sum w (modify_where p f rows) ≡ sum w rows
sum-same w p f rows r h e = grind (int_laws, sum-modify_where w p f rows r h)

pub prepare-Ready :
    (env : Env) (id : ℕ) (db : Db) {r : Payout × List SelectedUtxo} {db' : Db}
    → Ready id db
    → prepare env id db ≡ (ok r, db')
    → Ready id db'
prepare-Ready env id db {r} {db'} (s, n) e =
    let (b, k) = prepare_inv env id db e in
    let p = r.0 in
    rw k.frozen (
      λ m c.
          rw
            (sum-same (held_weight m c) (is_account p.merchant_id p.coin_id)
              (freeze p.amount_requested) db.balances b k.balance
              (held-freeze m c p.amount_requested b))
            (s m c),
      n,
    )

-- A payout that is finalised pays its amount out of the locked part of its account.
pub finalise-IsSolvent :
    (env : Env) (id : ℕ) (txid : Text) (selected : List SelectedUtxo) (signed : Signed) (db : Db)
    {u : Unit {0}} {db' : Db}
    → Ready id db
    → finalise env id txid selected signed db ≡ (ok u, db')
    → IsSolvent db'
finalise-IsSolvent env id txid selected signed db (s, n) e m c =
    let (p, b, k) = finalise_inv env id txid selected signed db e in
    let (em, ec) = select-keys p.merchant_id p.coin_id db.balances k.balance in
    rw (k.balances, k.payouts, k.fee_logs)
      (grind (
        int_laws,
        s m c,
        sum-modify_where (held_weight m c) (is_account p.merchant_id p.coin_id)
            (unlock p.amount_requested) db.balances b k.balance,
        held-unlock m c p.merchant_id p.coin_id p.amount_requested b em ec,
        sum-modify_where (paid_weight m c) (is_payout id) (set_sent env.now txid signed) db.payouts
            p k.payout,
        paid-sent m c env.now txid signed p (n p k.payout),
      ))

pub persist-effect :
    (id : ℕ) (signed : Signed) (db : Db) {u : Unit {0}} {db' : Db}
    → persist id signed db ≡ (ok u, db')
    → (p : Payout) × (select (is_payout id) db.payouts ≡ p ∷ [])
      × (db'
          ≡ record db { payouts = modify_where (is_payout id) (set_processing signed) db.payouts })
unfolding persist flush
persist-effect id signed db e =
    let (p, db1, e1, k1) =
      >>=-eq-ok (load_payout_locked id)
        (λ _.
          modify (λ db. record db {
            payouts = modify_where (is_payout id) (set_processing signed) db.payouts;
          })
          >> flush)
        db e in
    let (found, same) = load_payout_inv id db e1 in (p, found, ground arith)

pub not-sent-one :
    (id : ℕ) (db : Db) (p : Payout)
    → select (is_payout id) db.payouts ≡ p ∷ []
    → is_sent p.status ≡ false
    → NotSent id db
not-sent-one id db p found h q other = ground arith

pub persist-Ready :
    (id : ℕ) (signed : Signed) (db : Db) {u : Unit {0}} {db' : Db}
    → Ready id db
    → persist id signed db ≡ (ok u, db')
    → Ready id db'
persist-Ready id signed db (s, n) e =
    let (p, found, eff) = persist-effect id signed db e in
    let f = set_processing signed in
    rw eff (
      λ m c.
          rw
            (sum-same (paid_weight m c) (is_payout id) f db.payouts p found
              (paid-processing m c signed p (n p found)))
            (s m c),
      not-sent-one id (record db { payouts = modify_where (is_payout id) f db.payouts }) (f p)
          (select-modify_where (is_payout id) f db.payouts p (λ q. refl) found) refl,
    )
