-- ===== src/Tests/Credits.antt =====
-- A confirmed payment, and one transaction for two invoices, at the data of Tests.Data.
use crypto_pay_system.Prelude.{◌≡◌, refl, inl, [], ◌∷◌, arith}
use crypto_pay_system.Prelude.Exec.{ok, err, integrity_error}
use crypto_pay_system.Prelude.Int.{◌+ℤ◌}
use crypto_pay_system.Prelude.Rows.{select, unique, any}
use crypto_pay_system.Prelude.Text.{text_eq, upper}
use crypto_pay_system.Funds.{held}
use crypto_pay_system.Providers.Registry.{register, contains, get}
use crypto_pay_system.Ledger.Fee.{calculate_fee}
use crypto_pay_system.Ledger.Accounting.{constraints, set_paid, is_utxo_of}
use crypto_pay_system.Ledger.Accounting.Solvency.{share}
use crypto_pay_system.Ledger.Processor.{World, process, get_confirmations}
use crypto_pay_system.Ledger.Processor.Once.{Finds}
use crypto_pay_system.Ledger.Processor.Credits.{process_credits}
use crypto_pay_system.Ledger.Processor.Shared.{process_shared}
use crypto_pay_system.Tests.Data.{shop, job, invoice, merchant, coin, utxo}
use crypto_pay_system.Tests.Ledger.{env, world}

process_credits_example :
    let (r, w') = process env job world in
    (r ≡ ok tt)
    × (w'.queues ≡ world.queues)
    × Finds job w'.db (set_paid 30 invoice)
    × (held 7 1 w'.db ≡ held 7 1 shop +ℤ share 7 1 7 1 (calculate_fee 100_001 150).net)
unfolding get_confirmations contains get register text_eq upper select constraints unique any
process_credits_example =
    process_credits 7 1 env job 3 world invoice merchant coin (omega arith) refl (omega arith) refl
      refl refl refl (inl refl) refl refl

-- another invoice's output of the same transaction
abbrev half_paid : World
half_paid = record world { db = record shop { utxos = record utxo { invoice_id = 99 } ∷ [] } }

process_shared_example : process env job half_paid ≡ (err integrity_error, half_paid)
unfolding get_confirmations contains get register text_eq upper select constraints unique any
    is_utxo_of
process_shared_example =
    process_shared env job 3 invoice merchant coin half_paid (omega arith) refl (omega arith) refl
      refl refl refl (inl refl) refl refl refl
