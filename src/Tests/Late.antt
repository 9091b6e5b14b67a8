-- ===== src/Tests/Late.antt =====
-- Jobs of the ledger that run beside each other, at the data of Tests.Data.
use crypto_pay_system.Prelude.{◌≡◌, refl, none, arith}
use crypto_pay_system.Prelude.Exec.{Result, err, value_error, atomically}
use crypto_pay_system.Prelude.Int.{◌+ℤ◌}
use crypto_pay_system.Prelude.Rows.{
  select, modify_where, scalar_one, scalar_one_or_none, unique, any,
}
use crypto_pay_system.Prelude.Text.{text_eq, upper}
use crypto_pay_system.Models.{Db}
use crypto_pay_system.Funds.{held}
use crypto_pay_system.Providers.Registry.{register, contains, get}
use crypto_pay_system.Ledger.Accounting.{constraints, credit, is_account, is_utxo_of}
use crypto_pay_system.Ledger.Processor.{World, get_confirmations}
use crypto_pay_system.Ledger.Processor.Late.{
  Loaded, read_rows, write_rows, late_session, late_process,
}
use crypto_pay_system.Ledger.Processor.Late.Keeps.{Survives, late_process_err}
use crypto_pay_system.Ledger.Processor.Late.Twice.{credit_of, credited_twice}
use crypto_pay_system.Tests.Data.{shop, job, merchant, coin, invoice}
use crypto_pay_system.Tests.Ledger.{env, early, world}

abbrev refused : Result (Unit {0})
refused = err value_error

-- a job that waits, with a COMMIT that fails
abbrev left : World
left = (late_process refused early job shop world).1

late_process_err_example : Survives refused early job world value_error left
unfolding late_process read_rows write_rows late_session get_confirmations contains get register
    text_eq upper select scalar_one scalar_one_or_none unique any modify_where constraints
    atomically
late_process_err_example =
    late_process_err refused early job shop world {e = value_error} {w' = left} refl

-- what each of the two jobs reads
abbrev seen : Loaded
seen = record { invoice = invoice; merchant = merchant; coin = coin; found = none }

abbrev first : Db
first = (late_session env job 3 shop shop).1

abbrev both : Db
both = (late_session env job 3 shop first).1

credited_twice_example :
    held 7 1 both ≡ (held 7 1 shop +ℤ credit_of 7 1 job seen) +ℤ credit_of 7 1 job seen
unfolding late_session read_rows write_rows select scalar_one_or_none scalar_one constraints unique
    credit any modify_where text_eq is_account is_utxo_of
credited_twice_example =
    credited_twice 7 1 env env job job 3 3 shop shop seen seen {db1 = first} {db2 = both} refl refl
      refl (omega arith) (omega arith) refl refl
