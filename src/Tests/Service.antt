-- ===== src/Tests/Service.antt =====
-- The theorems on the ledger service, its queue, and a pruned node.
use crypto_pay_system.Prelude.{ℕ, ◌+◌, ◌≤◌, ◌≡◌, refl, true, leb, [], ◌∷◌, ◌++◌, map, arith}
use crypto_pay_system.Prelude.Exec.{err, address_generation_error}
use crypto_pay_system.Prelude.Rows.{select}
use crypto_pay_system.Prelude.Text.{Text, codes, starts_with, upper}
use crypto_pay_system.Models.{default_settings}
use crypto_pay_system.Providers.Registry.{register}
use crypto_pay_system.Providers.Node.{
  rpc_failed, not_of_wallet, left_mempool, contains_text, get_confirmations,
}
use crypto_pay_system.Providers.Bitcoin.{Node, bitcoin_provider, check_confirmations}
use crypto_pay_system.Providers.Bitcoin.Confirmations.{
  as_provider, check_confirmations-get_confirmations,
}
use crypto_pay_system.Ledger.Queue.{
  Queues, to_json, from_json, push_hot, pop, push_retry, promote_due_retries,
}
use crypto_pay_system.Ledger.Queue.Sorted.{IsSorted}
use crypto_pay_system.Ledger.Queue.Fifo.{fifo, front, behind, queue-fifo}
use crypto_pay_system.Ledger.Processor.{Env, process}
use crypto_pay_system.Ledger.Processor.Keeps.{SameMoney}
use crypto_pay_system.Ledger.Processor.Pruned.{pruned-SameMoney}
use crypto_pay_system.Ledger.Service.{
  LedgerService, consumed, started, finished, Work, consume, start, finish, arrived,
}
use crypto_pay_system.Ledger.Service.Weights.{weight}
use crypto_pay_system.Ledger.Service.Ends.{Run, stop, go, Run-bound, IsIdle, drains}
use crypto_pay_system.Tests.Data.{job, shop}
use crypto_pay_system.Tests.Ledger.{env, world}

-- a service with nothing to do, and the states after a payment arrives and is processed
abbrev quiet : LedgerService
quiet = record { world = world; waiting = []; running = [] }

abbrev loaded : LedgerService
loaded = arrived (to_json job) quiet

abbrev taken : LedgerService
taken = consumed job (record { hot = []; retry = [] }) loaded

abbrev busy : LedgerService
busy = started job [] taken

abbrev over : LedgerService
over = finished env [] job [] busy

take_job : Work default_settings loaded taken
unfolding pop
take_job = consume loaded job (record { hot = []; retry = [] }) refl

start_job : Work default_settings taken busy
start_job = start taken job [] refl (omega arith)

finish_job : Work default_settings busy over
finish_job = finish busy env [] job [] refl refl

Run-bound_example : 3 + weight default_settings over ≤ weight default_settings loaded
Run-bound_example = Run-bound (go take_job (go start_job (go finish_job stop)))

drains_example : (n : ℕ) × ((t : LedgerService) × (Run default_settings n busy t × IsIdle t))
drains_example = drains env busy (omega arith)

abbrev two : Queues
two = record {
  hot = to_json (record job { invoice_id = 4 }) ∷ to_json job ∷ [];
  retry = (to_json (record job { retry_count = 1 }), 25) ∷ [];
}

queue-fifo_example :
    (fifo (push_hot job two) ≡ fifo two ++ job ∷ [])
    × ((pop two).0 ≡ front (fifo two))
    × (fifo (pop two).1 ≡ behind (fifo two))
    × (fifo (promote_due_retries 30 two).1
        ≡ fifo two ++ map (λ e. from_json e.0) (select (λ e. leb e.1 30) two.retry))
    × IsSorted (select (λ e. leb e.1 30) two.retry)
    × IsSorted (push_retry default_settings 30 job two).retry
    × IsSorted (promote_due_retries 30 two).1.retry
queue-fifo_example = queue-fifo default_settings job 30 two (tt, tt)

abbrev not_ours : Text
not_ours = codes "Invalid or non-wallet transaction id"

abbrev gone : Text
gone = codes "No such mempool transaction"

check_confirmations-get_confirmations_example :
    check_confirmations (rpc_failed not_ours) (rpc_failed gone)
    ≡ as_provider (get_confirmations (rpc_failed not_ours) (rpc_failed gone))
check_confirmations-get_confirmations_example =
    check_confirmations-get_confirmations (rpc_failed not_ours) (rpc_failed gone) (λ e. cc e)

abbrev pruned : Node
pruned = record {
  gettransaction = λ txid. rpc_failed not_ours;
  getrawtransaction = λ txid. rpc_failed gone;
  derive = λ index change. err address_generation_error;
  testnet = true;
}

abbrev pruned_env : Env
pruned_env = record env { registry = register (bitcoin_provider pruned) [] }

pruned-SameMoney_example : SameMoney shop (process pruned_env job world).1.db
unfolding not_of_wallet left_mempool contains_text starts_with upper
pruned-SameMoney_example =
    pruned-SameMoney pruned_env job world pruned [] not_ours gone refl refl refl refl refl refl
      (omega arith)
