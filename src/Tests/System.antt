-- ===== src/Tests/System.antt =====
-- The services together, at the data of Tests.Data: one open invoice, and its payment on the queue.
use crypto_pay_system.Prelude.{◌≡◌, ◌≢◌, refl, true, inl, [], ◌∷◌, none, arith, Each, All, List, ℕ}
use crypto_pay_system.Prelude.Exec.{Result, ok}
use crypto_pay_system.Prelude.Text.{Text, codes, text_eq, upper}
use crypto_pay_system.Prelude.Rows.{select}
use crypto_pay_system.Models.{default_settings}
use crypto_pay_system.Ledger.Queue.{to_json, pop}
use crypto_pay_system.Ledger.Processor.{process}
use crypto_pay_system.Ledger.Processor.Progress.{Moves, process-Moves}
use crypto_pay_system.Ledger.Service.{consumed, started, finished, consume, start, finish}
use crypto_pay_system.Payout.Service.Sound.{IsDistinct}
use crypto_pay_system.Watcher.Matching.{refresh, cached, coin_of}
use crypto_pay_system.System.{System, db_of, Reach, ledger_round, refresh_round, here, next}
use crypto_pay_system.System.Books.{IsOrderly, Reach-IsOrderly}
use crypto_pay_system.Ledger.Processor.Late.Rows.{Grows}
use crypto_pay_system.System.Invoices.{Reach-Grows}
use crypto_pay_system.System.Traces.{IsTraced, Reach-IsTraced}
use crypto_pay_system.Providers.Registry.{Registry, register, contains}
use crypto_pay_system.Watcher.Service.{
  start_watcher, start_cache, imports, import_existing_addresses,
}
use crypto_pay_system.Watcher.Service.Starts.{start_watcher_lem}
use crypto_pay_system.Watcher.Matching.Lookup.{watched_invoice}
use crypto_pay_system.Tests.Data.{job, shop, provider}
use crypto_pay_system.Tests.Ledger.{env, world, shop-IsSolvent}
use crypto_pay_system.Tests.Watcher.{hash}

process-Moves_example : Each (Moves 30) shop.invoices (process env job world).1.db.invoices
process-Moves_example = process-Moves env job world

-- a payment has been pushed, and nothing is in memory
abbrev loaded : System
loaded = record {
  ledger = record {
    world = record world { queues = record { hot = to_json job ∷ []; retry = [] } };
    waiting = [];
    running = [];
  };
  cache = [];
  tasks = [];
}

-- the watcher has read the invoices
abbrev watching : System
watching = record loaded { cache = refresh (ok shop) [] }

abbrev taken : System
taken = record watching { ledger = consumed job (record { hot = []; retry = [] }) watching.ledger }

abbrev busy : System
busy = record taken { ledger = started job [] taken.ledger }

abbrev over : System
over = record busy { ledger = finished env [] job [] busy.ledger }

abbrev Runs : System → System → Type 0
Runs = Reach default_settings hash true (λ text. text)

to_busy : Runs loaded busy
unfolding pop
to_busy =
    next
      (next (next here (refresh_round loaded (ok shop) (inl refl))) (
        ledger_round watching taken.ledger
          (consume watching.ledger job (record { hot = []; retry = [] }) refl)))
      (ledger_round taken busy.ledger (start taken.ledger job [] refl (omega arith)))

to_over : Runs loaded over
to_over = next to_busy (ledger_round busy over.ledger (finish busy.ledger env [] job [] refl refl))

Reach-IsOrderly_example : IsOrderly default_settings over
unfolding IsDistinct
Reach-IsOrderly_example = Reach-IsOrderly to_over ((shop-IsSolvent, tt, tt), omega arith)

Reach-Grows_example : Grows shop.invoices (db_of over).invoices
Reach-Grows_example = Reach-Grows to_over

loaded-IsTraced : IsTraced loaded
loaded-IsTraced = (tt, (((inl (refl, refl, refl), tt), tt), tt, tt))

Reach-IsTraced_example : IsTraced over
Reach-IsTraced_example = Reach-IsTraced to_over loaded-IsTraced

abbrev registered : Registry
registered = register provider []

abbrev calls : List (Text × ℕ)
calls = (codes "tb1a", 3) ∷ []

known_coin : coin_of 1 shop.coins ≢ none
unfolding coin_of
known_coin = λ e. cc

abbrev connected : Result (Unit {0})
connected = ok tt

start_watcher_lem_example :
    (connected ≡ ok tt)
    × ((a : Text) → cached a (refresh (ok shop) []) ≡ watched_invoice shop a shop.invoices)
    × All (λ (call : Text × ℕ). cached call.0 (refresh (ok shop) []) ≢ none) calls
unfolding start_watcher start_cache imports import_existing_addresses contains register text_eq
    upper select
start_watcher_lem_example =
    start_watcher_lem registered true connected shop {d = refresh (ok shop) []} {calls = calls}
      (known_coin, tt) refl
