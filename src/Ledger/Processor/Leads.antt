-- ===== src/Ledger/Processor/Leads.antt =====
-- The database part of a job, from what holds before it to what holds where it is committed.
use crypto_pay_system.Prelude.{Bool, true, false, if◌then◌else◌}
use crypto_pay_system.Prelude.Exec.{Exec, Result, ok, err, already_credited, ◌>>=◌}
use crypto_pay_system.Models.{Db}
use crypto_pay_system.Ledger.Processor.Settles.{After}

module _ (P Q : Db → Type 0) where
  -- From `P`, an action ends in `Q`, where it returns or finds the transaction credited.
  pub record Leads {A : Type 0} (m : Exec Db A) : Type 0 where
    pub at : (db : Db) → P db → After Q (m db)

  pub always-Leads : {A : Type 0} (r : Result A) (db : Db) → Q db → After Q (r, db)
  always-Leads (ok a) db h = h
  always-Leads (err already_credited) db h = h
  always-Leads (err _) db h = tt

  pub then-Leads :
      {A B : Type 0} (r : Result A) (db : Db) (f : A → Exec Db B)
      → (P db → Q db)
      → P db
      → ((a : A) → Leads (f a))
      → After Q (((λ (_ : Db). (r, db)) >>= f) db)
  then-Leads (ok a) db f k h hf = (hf a).at db h
  then-Leads (err already_credited) db f k h hf = k h
  then-Leads (err _) db f k h hf = tt

  pub bind-Leads :
      {A B : Type 0} (m : Exec Db A) (f : A → Exec Db B)
      → ((db : Db) → P db → Q db)
      → ((db : Db) → P db → P (m db).1)
      → ((a : A) → Leads (f a))
      → Leads (m >>= f)
  bind-Leads m f k hm hf = record {
    at = λ db h. then-Leads (m db).0 (m db).1 f (k (m db).1) (hm db h) hf;
  }

  pub Leads-if :
      {A : Type 0} (b : Bool) (m n : Exec Db A)
      → Leads m
      → Leads n
      → Leads (λ db. (if b then m else n) db)
  Leads-if true m n hm hn = hm
  Leads-if false m n hm hn = hn
