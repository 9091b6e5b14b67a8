-- ===== src/Providers/Bitcoin/Confirmations.antt =====
-- How the confirmations that the provider reports relate to those of the client, and what they make
-- of a job on a pruned node.
use crypto_pay_system.Prelude.{ℕ, ◌≡◌, ◌≢◌, refl, Option, arith}
use crypto_pay_system.Prelude.Exec.{Result, ok, err, provider_error}
use crypto_pay_system.Providers.Node.{
  Reply, replied, rpc_failed, broke, from_mempool, get_confirmations,
}
use crypto_pay_system.Providers.Bitcoin.{second_try, check_confirmations}

-- `except …: raise ProviderError`
abbrev pub as_provider : Reply ℕ → Result ℕ
as_provider (replied n) = ok n
as_provider _ = err provider_error

second_try-from_mempool : (raw : Reply (Option ℕ)) → second_try raw ≡ as_provider (from_mempool raw)
unfolding second_try from_mempool
second_try-from_mempool (replied found) = refl
second_try-from_mempool (rpc_failed msg) = ground arith
second_try-from_mempool broke = refl

-- The provider's check and the client's are two codes for one rule. Whenever the node answered the
-- first call, in whatever way, they report the same number, and the provider raises ProviderError
-- exactly where the client lets an exception through.
pub check_confirmations-get_confirmations :
    (wallet raw : Reply (Option ℕ))
    → wallet ≢ broke
    → check_confirmations wallet raw ≡ as_provider (get_confirmations wallet raw)
unfolding check_confirmations get_confirmations
check_confirmations-get_confirmations (replied found) raw h = refl
check_confirmations-get_confirmations (rpc_failed msg) raw h =
    ground (arith, second_try-from_mempool raw)
check_confirmations-get_confirmations broke raw h = absurd (h refl)
