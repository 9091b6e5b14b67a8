-- ===== src/Payout/Processor/Steps.antt =====
-- What each committed step of a payout has read and written.
use crypto_pay_system.Prelude.{ℕ, ◌≡◌, refl, ap, Bool, true, false, List, [], ◌∷◌, not, arith}
use crypto_pay_system.Prelude.Exec.{Exn, Result, ok, value_error, ◌>>=◌, ◌>>◌, >>=-eq-ok, raise_if}
use crypto_pay_system.Prelude.Int.{pos, ◌≤ℤ◌}
use crypto_pay_system.Prelude.Rows.{select, modify_where, scalar_one_or_none}
use crypto_pay_system.Prelude.Text.{Text}
use crypto_pay_system.Models.{Balance, Payout, Db}
use crypto_pay_system.Ledger.Accounting.{is_account, flush}
use crypto_pay_system.Payout.Selector.{SelectedUtxo}
use crypto_pay_system.Payout.Signing.{Signed}
use crypto_pay_system.Payout.Processor.{
  Env, is_payout, is_pending, required, or_value_error, load_payout_locked, load_balance_locked,
  is_utxo, set_spent, freeze_selected, with_balance, with_payout, selection, freeze, prepare,
  mark_spent, unlock, set_sent, written, released, finalise,
}

required_inv :
    {A : Type 0} (rows : List A) {a : A} → required (scalar_one_or_none rows) ≡ ok a → rows ≡ a ∷ []
unfolding required scalar_one_or_none or_value_error
required_inv [] h = cc
required_inv (r ∷ []) h = cc
required_inv (r ∷ s ∷ rows) h = cc

pub load_payout_inv :
    (id : ℕ) (db : Db) {p : Payout} {db' : Db}
    → load_payout_locked id db ≡ (ok p, db')
    → (select (is_payout id) db.payouts ≡ p ∷ []) × (db' ≡ db)
unfolding load_payout_locked
load_payout_inv id db e = (required_inv (select (is_payout id) db.payouts) (cc e), cc e)

pub load_balance_inv :
    (m c : ℕ) (db : Db) {b : Balance} {db' : Db}
    → load_balance_locked m c db ≡ (ok b, db')
    → (select (is_account m c) db.balances ≡ b ∷ []) × (db' ≡ db)
unfolding load_balance_locked
load_balance_inv m c db e = (required_inv (select (is_account m c) db.balances) (cc e), cc e)

raise_if_inv :
    (t : Bool) (x : Exn) (db : Db) {u : Unit {0}} {db' : Db}
    → raise_if t x db ≡ (ok u, db')
    → (t ≡ false) × (db' ≡ db)
raise_if_inv t x db h = (ground arith, ground arith)

flush_inv : (db : Db) {u : Unit {0}} {db' : Db} → flush db ≡ (ok u, db') → db' ≡ db
unfolding flush
flush_inv db e = ground arith

-- What a prepared payout was: pending, covered by the available balance, with coins selected; and
-- the one change, the frozen amount.
pub record Prepared (env : Env) (id : ℕ) (db : Db) (p : Payout) (selected : List SelectedUtxo)
    (b : Balance) (db' : Db) : Type 0 where
  pub payout : select (is_payout id) db.payouts ≡ p ∷ []
  pub pending : is_pending p.status ≡ true
  pub balance : select (is_account p.merchant_id p.coin_id) db.balances ≡ b ∷ []
  pub covered : pos p.amount_requested ≤ℤ b.amount_available
  pub coins : selection env p db ≡ ok selected
  pub frozen : db' ≡ record db {
    balances =
        modify_where (is_account p.merchant_id p.coin_id) (freeze p.amount_requested) db.balances;
  }

frozen_inv :
    (env : Env) (p : Payout) (db : Db) {r : Payout × List SelectedUtxo} {db' : Db}
    → freeze_selected env p db ≡ (ok r, db')
    → (r.0 ≡ p)
      × (selection env p db ≡ ok r.1)
      × (db' ≡ record db {
        balances =
            modify_where
              (is_account p.merchant_id p.coin_id)
              (freeze p.amount_requested)
              db.balances;
      })
unfolding freeze_selected flush
frozen_inv env p db e = (ground arith, ground arith, ground arith)

with_balance_inv :
    (env : Env) (p : Payout) (b : Balance) (db : Db) {r : Payout × List SelectedUtxo} {db' : Db}
    → with_balance env p b db ≡ (ok r, db')
    → (pos p.amount_requested ≤ℤ b.amount_available) × (freeze_selected env p db ≡ (ok r, db'))
unfolding with_balance
with_balance_inv env p b db e = (ground arith, ground arith)

with_payout_inv :
    (env : Env) (id : ℕ) (p : Payout) (db : Db) {r : Payout × List SelectedUtxo} {db' : Db}
    → select (is_payout id) db.payouts ≡ p ∷ []
    → with_payout env p db ≡ (ok r, db')
    → (r.0 ≡ p) × (b : Balance) × Prepared env id db p r.1 b db'
unfolding with_payout
with_payout_inv env id p db {r} {db'} found e =
    let load = load_balance_locked p.merchant_id p.coin_id in
    let (u, db1, e1, k1) =
      >>=-eq-ok (raise_if (not (is_pending p.status)) value_error)
        (λ _. load >>= with_balance env p) db e in
    let (pend, same1) = raise_if_inv (not (is_pending p.status)) value_error db e1 in
    let (b, db2, e2, k2) = >>=-eq-ok load (with_balance env p) db (rw same1 at k1) in
    let (only, same2) = load_balance_inv p.merchant_id p.coin_id db e2 in
    let (cov, k3) = with_balance_inv env p b db (rw same2 at k2) in
    let (same, sel, eff) = frozen_inv env p db k3 in
    (
      same,
      b,
      record {
        payout = found;
        pending = ground arith;
        balance = only;
        covered = cov;
        coins = sel;
        frozen = eff;
      },
    )

named :
    {env : Env} {id : ℕ} {db : Db} {p q : Payout} {selected : List SelectedUtxo} {b : Balance}
    {db' : Db}
    → q ≡ p
    → Prepared env id db p selected b db'
    → Prepared env id db q selected b db'
named eq k = rw eq k

pub prepare_inv :
    (env : Env) (id : ℕ) (db : Db) {r : Payout × List SelectedUtxo} {db' : Db}
    → prepare env id db ≡ (ok r, db')
    → (b : Balance) × Prepared env id db r.0 r.1 b db'
unfolding prepare
prepare_inv env id db {r} {db'} e =
    let (p, db1, e1, k1) = >>=-eq-ok (load_payout_locked id) (with_payout env) db e in
    let (found, same) = load_payout_inv id db e1 in
    let (eq, b, k) = with_payout_inv env id p db found (rw same at k1) in (b, named eq k)

-- Marking coins spent changes only the coins.
pub mark_spent-frame :
    (id : ℕ) (selected : List SelectedUtxo) (db : Db)
    → ((mark_spent id selected db).1.balances ≡ db.balances)
      × ((mark_spent id selected db).1.payouts ≡ db.payouts)
      × ((mark_spent id selected db).1.fee_logs ≡ db.fee_logs)
unfolding mark_spent
mark_spent-frame id [] db = (refl, refl, refl)
mark_spent-frame id (s ∷ rest) db = ground (
  arith,
  mark_spent-frame id rest
      (record db { utxos = modify_where (is_utxo s.utxo_id) (set_spent id) db.utxos }),
)

-- What a finished payout leaves: the lock released, the row sent, and no other money touched.
pub record Finalised (env : Env) (id : ℕ) (txid : Text) (signed : Signed) (db : Db) (p : Payout)
    (b : Balance) (db' : Db) : Type 0 where
  pub payout : select (is_payout id) db.payouts ≡ p ∷ []
  pub balance : select (is_account p.merchant_id p.coin_id) db.balances ≡ b ∷ []
  pub balances :
      db'.balances
      ≡ modify_where (is_account p.merchant_id p.coin_id) (unlock p.amount_requested) db.balances
  pub payouts : db'.payouts ≡ modify_where (is_payout id) (set_sent env.now txid signed) db.payouts
  pub fee_logs : db'.fee_logs ≡ db.fee_logs

spent_frame :
    {env : Env} {id : ℕ} {txid : Text} {signed : Signed} {db d db2 db' : Db} {p : Payout}
    {b : Balance}
    → select (is_payout id) db.payouts ≡ p ∷ []
    → d ≡ db2
    → d.balances ≡ db.balances
    → d.payouts ≡ db.payouts
    → d.fee_logs ≡ db.fee_logs
    → select (is_account p.merchant_id p.coin_id) db2.balances ≡ b ∷ []
    → db'.balances
      ≡ modify_where (is_account p.merchant_id p.coin_id) (unlock p.amount_requested) db2.balances
    → db'.payouts ≡ modify_where (is_payout id) (set_sent env.now txid signed) db2.payouts
    → db'.fee_logs ≡ db2.fee_logs
    → Finalised env id txid signed db p b db'
spent_frame found same fb fp ff only bs ps fs = record {
  payout = found;
  balance = ground arith;
  balances = ground arith;
  payouts = ground arith;
  fee_logs = ground arith;
}

released_inv :
    (env : Env) (id : ℕ) (txid : Text) (signed : Signed) (p : Payout) (db : Db) {u : Unit {0}}
    {db' : Db}
    → released env id txid signed p db ≡ (ok u, db')
    → (b : Balance) × (select (is_account p.merchant_id p.coin_id) db.balances ≡ b ∷ [])
      × (db'.balances
          ≡ modify_where
              (is_account p.merchant_id p.coin_id)
              (unlock p.amount_requested)
              db.balances)
      × (db'.payouts ≡ modify_where (is_payout id) (set_sent env.now txid signed) db.payouts)
      × (db'.fee_logs ≡ db.fee_logs)
unfolding released written flush
released_inv env id txid signed p db e =
    let (b, db1, e1, k1) =
      >>=-eq-ok (load_balance_locked p.merchant_id p.coin_id) (λ _. written env id txid signed p) db
        e in
    let (only, same) = load_balance_inv p.merchant_id p.coin_id db e1 in
    (b, only, ground arith, ground arith, ground arith)

pub finalise_inv :
    (env : Env) (id : ℕ) (txid : Text) (selected : List SelectedUtxo) (signed : Signed) (db : Db)
    {u : Unit {0}} {db' : Db}
    → finalise env id txid selected signed db ≡ (ok u, db')
    → (p : Payout) × (b : Balance) × Finalised env id txid signed db p b db'
unfolding finalise
finalise_inv env id txid selected signed db e =
    let spend = mark_spent id selected in
    let (p, db1, e1, k1) =
      >>=-eq-ok (load_payout_locked id) (λ p. spend >> released env id txid signed p) db e in
    let (found, same1) = load_payout_inv id db e1 in
    let (u, db2, e2, k2) =
      >>=-eq-ok spend (λ _. released env id txid signed p) db (rw same1 at k1) in
    let (b, only, bs, ps, fs) = released_inv env id txid signed p db2 k2 in
    let at2 = λ (q : Result (Unit {0}) × Db). q.1 in
    let (fb, fp, ff) = mark_spent-frame id selected db in
    (p, b, spent_frame found (ap at2 e2) fb fp ff only bs ps fs)
