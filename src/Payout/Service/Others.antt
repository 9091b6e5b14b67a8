-- ===== src/Payout/Service/Others.antt =====
-- What a step of one task leaves of the other payouts.
use crypto_pay_system.Prelude.{
  ℕ, ◌≡◌, ◌≢◌, refl, List, [], ◌∷◌, Option, none, some, arith, inl, inr, Bool-cases, not, ◌&&◌,
  ◌==◌,
}
use crypto_pay_system.Prelude.Exec.{Exec, Result, ok, err, atomically, atomically-keeps}
use crypto_pay_system.Prelude.Rows.{select, modify_where, scalar_one_or_none}
use crypto_pay_system.Prelude.Text.{Text}
use crypto_pay_system.Models.{Payout, Db}
use crypto_pay_system.Payout.Selector.{SelectedUtxo}
use crypto_pay_system.Payout.Signing.{Signed}
use crypto_pay_system.Payout.Processor.{
  Env, is_payout, prepare, persist, finalise, mark_failed, fail_block, set_processing, set_sent,
  set_failed, was_locked,
}
use crypto_pay_system.Payout.Processor.Steps.{prepare_inv, finalise_inv}
use crypto_pay_system.Payout.Processor.Books.{persist-effect}
use crypto_pay_system.Payout.Processor.Refunds.{
  fail_block-found, fail_block-other, fail_found-state, refund-frame, failed_db,
}
use crypto_pay_system.Payout.Service.{Stage, next_stage}

-- The payouts of the other ids are found as before.
abbrev pub Only : ℕ → Db → Db → Type 0
Only id db db' =
    (k : ℕ) → k ≢ id → select (is_payout k) db'.payouts ≡ select (is_payout k) db.payouts

select-other :
    (id k : ℕ) (f : Payout → Payout) (rows : List Payout)
    → k ≢ id
    → ((p : Payout) → (f p).id ≡ p.id)
    → select (is_payout k) (modify_where (is_payout id) f rows) ≡ select (is_payout k) rows
unfolding select modify_where
select-other id k f [] ne same = refl
select-other id k f (p ∷ rows) ne same = ground (arith, same p, select-other id k f rows)

module _ {A : Type 0} where
  -- What a transaction does where it commits, it does.
  committed-Only :
      (id : ℕ) (m : Exec Db A) (db : Db)
      → ((a : A) (db' : Db) → m db ≡ (ok a, db') → Only id db db')
      → Only id db (atomically m db).1
  unfolding atomically
  committed-Only id m db h = ends (m db).0 (m db).1 refl
    where
      ends :
          (r : Result A) (d : Db)
          → m db ≡ (r, d)
          → Only id db (atomically (λ (_ : Db). (r, d)) db).1
      ends (ok a) d e = h a d e
      ends (err x) d e = λ k ne. refl

prepare-Only : (env : Env) (id : ℕ) (db : Db) → Only id db (atomically (prepare env id) db).1
prepare-Only env id db =
    committed-Only id (prepare env id) db
      (λ r db' e k ne. let (b, h) = prepare_inv env id db e in rw h.frozen refl)

persist-Only : (id : ℕ) (tx : Signed) (db : Db) → Only id db (atomically (persist id tx) db).1
persist-Only id tx db = committed-Only id (persist id tx) db (λ u db' e k ne.
    let (p, found, eff) = persist-effect id tx db e in
    rw eff (select-other id k (set_processing tx) db.payouts ne (λ q. refl)))

finalise-Only :
    (env : Env) (id : ℕ) (txid : Text) (selected : List SelectedUtxo) (tx : Signed) (db : Db)
    → Only id db (atomically (finalise env id txid selected tx) db).1
finalise-Only env id txid selected tx db =
    committed-Only id (finalise env id txid selected tx) db (λ u db' e k ne.
      let (p, b, h) = finalise_inv env id txid selected tx db e in
      rw h.payouts (select-other id k (set_sent env.now txid tx) db.payouts ne (λ q. refl)))

fail_block-Only :
    (id : ℕ) (reason : Text) (db : Db) (r : Result (Option Payout))
    → scalar_one_or_none (select (is_payout id) db.payouts) ≡ r
    → Only id db (fail_block id reason db).1
unfolding failed_db
fail_block-Only id reason db (ok none) e k ne = rw (fail_block-other id reason db (λ p q. cc)) refl
fail_block-Only id reason db (err x) e k ne = rw (fail_block-other id reason db (λ p q. cc)) refl
fail_block-Only id reason db (ok (some p)) e k ne =
    let other = select-other id k (set_failed reason) db.payouts ne (λ q. refl) in
    rw (fail_block-found id reason db p e, fail_found-state id reason p db)
      (elim (Bool-cases (was_locked p.status && not (p.amount_requested == 0))) [
        | inl t ↦ rw (t, (refund-frame p (failed_db id reason db)).0) other
        | inr f ↦ rw f other
      ])

mark_failed-Only : (id : ℕ) (reason : Text) (db : Db) → Only id db (mark_failed id reason db)
unfolding mark_failed
mark_failed-Only id reason db =
    atomically-keeps (Only id db) (fail_block id reason) db (λ k ne. refl)
      (fail_block-Only id reason db _ refl)

-- A step of a task changes no payout but its own.
pub next_stage-Only :
    (env : Env) (id : ℕ) (stage : Stage) (db : Db) → Only id db (next_stage env id stage db).1
unfolding next_stage
next_stage-Only env id Stage.created db = prepare-Only env id db
next_stage-Only env id (Stage.prepared p selected) db = λ k ne. refl
next_stage-Only env id (Stage.signed selected tx) db = persist-Only id tx db
next_stage-Only env id (Stage.persisted selected tx) db = λ k ne. refl
next_stage-Only env id (Stage.broadcasted txid selected tx) db =
    finalise-Only env id txid selected tx db
next_stage-Only env id (Stage.failing reason) db = mark_failed-Only id reason db
next_stage-Only env id Stage.done db = λ k ne. refl
