-- ===== src/Providers/Bootstrap.antt =====
-- `bootstrap_providers` of providers/registry.py.
use crypto_pay_system.Prelude.{◌≡◌, ◌≢◌, refl, ◌∙◌, ◌⊎◌, inl, inr, true, [], none}
use crypto_pay_system.Prelude.Exec.{Result, ok, err, value_error}
use crypto_pay_system.Prelude.Text.{codes, text_eq, upper}
use crypto_pay_system.Providers.Registry.{Provider, Registry, register, contains, contains-register}
use crypto_pay_system.Providers.Bitcoin.Wallet.{
  BtcSettings, BitcoinProvider, new_bitcoin_provider, new_bitcoin_provider_lem, or_default,
}

registered : (BitcoinProvider → Provider) → Registry → Result BitcoinProvider → Result Registry
registered adapter d (ok p) = ok (register (adapter p) d)
registered adapter d (err value_error) = ok d
registered adapter d (err e) = err e

-- `adapter` is what the methods of the provider do.
pub bootstrap_providers : BtcSettings → (BitcoinProvider → Provider) → Registry → Result Registry
unfolding registered
bootstrap_providers settings adapter d =
    registered adapter d (new_bitcoin_provider settings none none)

-- The start never fails. Afterwards an adapter with the symbol BTC is in the registry if an XPUB is
-- configured; otherwise the registry is what it was.
pub bootstrap_providers_lem :
    (settings : BtcSettings) (adapter : BitcoinProvider → Provider) (d : Registry)
    → ((p : BitcoinProvider) → (adapter p).symbol ≡ codes "BTC")
    → ((settings.btc_xpub ≡ []) × (bootstrap_providers settings adapter d ≡ ok d))
      ⊎ ((settings.btc_xpub ≢ [])
          × (d' : Registry) × (bootstrap_providers settings adapter d ≡ ok d')
          × (contains (codes "btc") d' ≡ true))
unfolding bootstrap_providers or_default text_eq upper
bootstrap_providers_lem settings adapter d named =
    elim (new_bitcoin_provider_lem settings none none) [
      | inl (missing, e) ↦ inl (missing, rw e refl)
      | inr (given, p, e, key, base) ↦ inr (
        given,
        register (adapter p) d,
        rw e refl,
        contains-register (codes "btc") (adapter p) d ∙ rw (named p) refl,
      )
    ]
