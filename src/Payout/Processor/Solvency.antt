-- ===== src/Payout/Processor/Solvency.antt =====
-- The books through the pipeline of `execute`.
use crypto_pay_system.Prelude.{ℕ, ◌≡◌, refl, List}
use crypto_pay_system.Prelude.Exec.{
  Result, ok, err, insufficient_funds, ◌>>=◌, ◌>>◌, atomically, atomically-eq-ok, atomically-err,
  lift,
}
use crypto_pay_system.Prelude.Text.{Text}
use crypto_pay_system.Models.{Payout, Db}
use crypto_pay_system.Funds.{IsSolvent}
use crypto_pay_system.Payout.Selector.{SelectedUtxo}
use crypto_pay_system.Payout.Signing.{Signed, create_payout_transaction}
use crypto_pay_system.Payout.Processor.{
  Env, prepare, persist, finalise, broadcast_and_finalise, after_signing, run, caught, execute,
}
use crypto_pay_system.Payout.Processor.Books.{
  NotSent, Ready, prepare-Ready, finalise-IsSolvent, persist-Ready,
}
use crypto_pay_system.Payout.Processor.Refunds.{mark_failed-IsSolvent}

-- What `run` leaves: balanced books, and a payout that can still fail if it raised.
abbrev Ran : ℕ → Result (Unit {0}) × Db → Type 0
Ran id (ok u, db) = IsSolvent db
Ran id (err e, db) = Ready id db

broadcast-Ran :
    (env : Env) (id : ℕ) (selected : List SelectedUtxo) (signed : Signed) (r : Result Text)
    (db : Db)
    → Ready id db
    → Ran id (broadcast_and_finalise env id selected signed r db)
unfolding broadcast_and_finalise
broadcast-Ran env id selected signed (err e) db h = mark_failed-IsSolvent id (env.message e) db h
broadcast-Ran env id selected signed (ok txid) db h =
    ended (atomically (finalise env id txid selected signed) db).0
      (atomically (finalise env id txid selected signed) db).1 refl
  where
    ended :
        (r : Result (Unit {0})) (d : Db)
        → atomically (finalise env id txid selected signed) db ≡ (r, d)
        → Ran id (r, d)
    ended (ok u) d e =
        finalise-IsSolvent env id txid selected signed db h
          (atomically-eq-ok (finalise env id txid selected signed) db e)
    ended (err x) d e = rw (atomically-err (finalise env id txid selected signed) db {e = x} e) h

signing-Ran :
    (env : Env) (id : ℕ) (selected : List SelectedUtxo) (r : Result Signed) (db : Db)
    → Ready id db
    → Ran id (after_signing env id selected r db)
unfolding after_signing
signing-Ran env id selected (err insufficient_funds) db h =
    mark_failed-IsSolvent id (env.message insufficient_funds) db h
signing-Ran env id selected (err _) db h = h
signing-Ran env id selected (ok signed) db h =
    ended (atomically (persist id signed) db).0 (atomically (persist id signed) db).1 refl
  where
    ended :
        (r : Result (Unit {0})) (d : Db)
        → atomically (persist id signed) db ≡ (r, d)
        → Ran id (
            ((λ (_ : Db). (r, d))
                >> broadcast_and_finalise env id selected signed (env.broadcast signed.raw_hex))
              db)
    ended (ok u) d e =
        broadcast-Ran env id selected signed (env.broadcast signed.raw_hex) d
          (persist-Ready id signed db h (atomically-eq-ok (persist id signed) db e))
    ended (err x) d e = rw (atomically-err (persist id signed) db {e = x} e) h

run-Ran : (env : Env) (id : ℕ) (db : Db) → Ready id db → Ran id (run env id db)
unfolding run
run-Ran env id db h =
    prepared (atomically (prepare env id) db).0 (atomically (prepare env id) db).1 refl
  where
    signing :
        (p : Payout × List SelectedUtxo) (d : Db) (a : Result Text)
        → Ready id d
        → Ran id (
            (lift a >>= λ change. after_signing env id p.1 (
                create_payout_transaction env.sign env.settings p.1 p.0.destination_address
                  p.0.amount_requested change env.fee_rate))
              d)
    signing p d (ok change) k = signing-Ran env id p.1 _ d k
    signing p d (err x) k = k

    provided :
        (p : Payout × List SelectedUtxo) (d : Db) (b : Result (Unit {0}))
        → Ready id d
        → Ran id (
            (lift b
                >> (lift env.change_address >>= λ change. after_signing env id p.1 (
                    create_payout_transaction env.sign env.settings p.1 p.0.destination_address
                      p.0.amount_requested change env.fee_rate)))
              d)
    provided p d (ok u) k = signing p d env.change_address k
    provided p d (err x) k = k

    prepared :
        (r : Result (Payout × List SelectedUtxo)) (d : Db)
        → atomically (prepare env id) db ≡ (r, d)
        → Ran id (
            ((λ (_ : Db). (r, d)) >>= λ p.
            lift env.btc_provider
            >> (lift env.change_address >>= λ change. after_signing env id p.1 (
                create_payout_transaction env.sign env.settings p.1 p.0.destination_address
                  p.0.amount_requested change env.fee_rate)))
              db)
    prepared (ok p) d e =
        provided p d env.btc_provider
          (prepare-Ready env id db h (atomically-eq-ok (prepare env id) db e))
    prepared (err x) d e = rw (atomically-err (prepare env id) db {e = x} e) h

caught-IsSolvent :
    (env : Env) (id : ℕ) (r : Result (Unit {0})) (db : Db)
    → Ran id (r, db)
    → IsSolvent (caught env id (r, db))
unfolding caught
caught-IsSolvent env id (ok u) db h = h
caught-IsSolvent env id (err e) db h = mark_failed-IsSolvent id (env.message e) db h

-- `execute` on a payout that has not been sent keeps the books balanced on every path: refused,
-- failed in any of its steps, or sent. What an account holds, with what was sent from it, stays
-- the sum of what was booked for it.
pub execute-IsSolvent :
    (env : Env) (id : ℕ) (db : Db) → IsSolvent db → NotSent id db → IsSolvent (execute env id db)
unfolding execute
execute-IsSolvent env id db s n =
    let (r, db') = run env id db in caught-IsSolvent env id r db' (run-Ran env id db (s, n))
