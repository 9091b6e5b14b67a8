-- ===== src/Ledger/Processor/Pruned.antt =====
-- Jobs whose transaction a pruned node no longer holds: the answers of the node, through the Bitcoin
-- provider and the registry, to the processor.
use crypto_pay_system.Prelude.{◌<◌, ◌≡◌, refl, ap, ◌∙◌, true, if◌then◌else◌}
use crypto_pay_system.Prelude.Exec.{ok}
use crypto_pay_system.Prelude.Text.{Text, codes, upper, text_eq}
use crypto_pay_system.Providers.Registry.{
  Registry, register, get, contains, get-register, contains-register,
}
use crypto_pay_system.Providers.Node.{rpc_failed, not_of_wallet, left_mempool}
use crypto_pay_system.Providers.Bitcoin.{Node, bitcoin_provider, check_confirmations, second_try}
use crypto_pay_system.Ledger.Queue.{LedgerJob}
use crypto_pay_system.Ledger.Processor.{Env, World, get_confirmations, process}
use crypto_pay_system.Ledger.Processor.Keeps.{SameMoney}
use crypto_pay_system.Ledger.Processor.Unconfirmed.{process-SameMoney}

one_confirmation :
    (node : Node) (txid not_ours gone : Text)
    → node.gettransaction txid ≡ rpc_failed not_ours
    → not_of_wallet not_ours ≡ true
    → node.getrawtransaction txid ≡ rpc_failed gone
    → left_mempool gone ≡ true
    → check_confirmations (node.gettransaction txid) (node.getrawtransaction txid) ≡ ok 1
unfolding check_confirmations second_try
one_confirmation node txid not_ours gone e h e' h' = rw (e, e', h) (rw h' refl)

same_symbol :
    (symbol : Text)
    → upper symbol ≡ codes "BTC"
    → text_eq (upper (codes "BTC")) (upper symbol) ≡ true
unfolding upper text_eq
same_symbol symbol s = rw s refl

asked :
    (env : Env) (job : LedgerJob) (node : Node) (d : Registry)
    → env.registry ≡ register (bitcoin_provider node) d
    → upper job.coin_symbol ≡ codes "BTC"
    → get_confirmations env job
      ≡ check_confirmations (node.gettransaction job.txid) (node.getrawtransaction job.txid)
unfolding get_confirmations
asked env job node d r s =
    let p = bitcoin_provider node in
    let same = same_symbol job.coin_symbol s in
    let here : contains job.coin_symbol (register p d) ≡ true =
      contains-register job.coin_symbol p d
      ∙ ap (λ b. if b then true else contains job.coin_symbol d) same in
    let found : get job.coin_symbol (register p d) ≡ ok p =
      get-register job.coin_symbol p d ∙ ap (λ b. if b then ok p else get job.coin_symbol d) same in
    rw r (rw here (rw found refl))

-- On a pruned node, a transaction that is not of the node's wallet and has left the mempool counts
-- as confirmed once, however deep it is. So where more than one confirmation is required, a bitcoin
-- job for it moves no money, on this and on every later try.
pub pruned-SameMoney :
    (env : Env) (job : LedgerJob) (w : World) (node : Node) (d : Registry) (not_ours gone : Text)
    → env.registry ≡ register (bitcoin_provider node) d
    → upper job.coin_symbol ≡ codes "BTC"
    → node.gettransaction job.txid ≡ rpc_failed not_ours
    → not_of_wallet not_ours ≡ true
    → node.getrawtransaction job.txid ≡ rpc_failed gone
    → left_mempool gone ≡ true
    → 1 < env.settings.ledger_required_confirmations
    → SameMoney w.db (process env job w).1.db
pruned-SameMoney env job w node d not_ours gone r s e h e' h' more =
    process-SameMoney env job w 1
      (asked env job node d r s ∙ one_confirmation node job.txid not_ours gone e h e' h') more
