-- ===== src/Ledger/Processor/Settles.antt =====
-- Invariants of the database part of a job: kept where it returns, and where it stops because the
-- transaction was credited before. After any other exception the database is rolled back.
use crypto_pay_system.Prelude.{Bool, true, false, if◌then◌else◌}
use crypto_pay_system.Prelude.Exec.{Exec, Result, ok, err, already_credited, atomically, ◌>>=◌}
use crypto_pay_system.Models.{Db}
use crypto_pay_system.Ledger.Processor.{Next, tolerant, tolerate_credited}

abbrev pub After : {A : Type 0} → (Db → Type 0) → Result A × Db → Type 0
After P (ok a, db) = P db
After P (err already_credited, db) = P db
After P (err e, db) = Unit

pub record Settles {A : Type 0} (P : Db → Type 0) (m : Exec Db A) : Type 0 where
  pub at : (db : Db) → P db → After P (m db)

pub tolerated :
    (P : Db → Type 0) (r : Result Next) (db db' : Db)
    → P db
    → After P (r, db')
    → P (atomically (tolerant (λ (_ : Db). (r, db'))) db).1
unfolding atomically tolerant tolerate_credited
tolerated P (ok a) db db' h k = k
tolerated P (err already_credited) db db' h k = k
tolerated P (err _) db db' h k = h

module _ {P : Db → Type 0} where
  pub rest-After :
      {A B : Type 0} (r : Result A) (db : Db) (f : A → Exec Db B)
      → After P (r, db)
      → ((a : A) → Settles P (f a))
      → After P (((λ (_ : Db). (r, db)) >>= f) db)
  rest-After (ok a) db f h k = (k a).at db h
  rest-After (err already_credited) db f h k = h
  rest-After (err _) db f h k = tt

  pub Settles-bind :
      {A B : Type 0} (m : Exec Db A) (f : A → Exec Db B)
      → Settles P m
      → ((a : A) → Settles P (f a))
      → Settles P (m >>= f)
  Settles-bind m f hm hf = record { at = λ db h. rest-After (m db).0 (m db).1 f (hm.at db h) hf }

  -- An action that keeps the invariant in every outcome.
  pub Settles-always : {A : Type 0} (m : Exec Db A) → ((db : Db) → P db → P (m db).1) → Settles P m
  Settles-always m k = record { at = λ db h. always (m db).0 (m db).1 (k db h) }
    where
      always : {A : Type 0} (r : Result A) (db : Db) → P db → After P (r, db)
      always (ok a) db h = h
      always (err already_credited) db h = h
      always (err _) db h = tt

  pub Settles-if :
      {A : Type 0} (b : Bool) (m n : Exec Db A)
      → Settles P m
      → Settles P n
      → Settles P (λ db. (if b then m else n) db)
  Settles-if true m n hm hn = hm
  Settles-if false m n hm hn = hn

  -- The transaction of a job keeps what its body settles, however the body ends.
  pub atomically-Settles :
      (m : Exec Db Next) → Settles P m → (db : Db) → P db → P (atomically (tolerant m) db).1
  unfolding atomically tolerant
  atomically-Settles m k db h = tolerated P (m db).0 db (m db).1 h (k.at db h)
