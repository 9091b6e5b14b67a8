-- ===== src/Providers/Bitcoin/Wallet.antt =====
-- The set-up of BitcoinProvider in providers/bitcoin.py, and its keys: the addresses from the XPUB
-- and the private keys from the XPRIV. What bip32utils does is the record `Bip32`.
use crypto_pay_system.Prelude.{
  ℕ, ◌≡◌, ◌≢◌, refl, sym, ◌⊎◌, inl, inr, Bool, true, [], ◌∷◌, Option, none, some, if◌then◌else◌,
  arith,
}
use crypto_pay_system.Prelude.Exec.{
  Exn, Result, ok, err, bind, bind-eq-ok, value_error, provider_error, address_generation_error,
}
use crypto_pay_system.Prelude.Text.{Text, codes}
use crypto_pay_system.Watcher.Decoder.{Bytes}
use crypto_pay_system.Providers.Bitcoin.Address.{derive_address}

-- `text or default`
unfoldable pub or_default : Option Text → Text → Text
or_default none default = default
or_default (some []) default = default
or_default (some (c ∷ text)) default = c ∷ text

-- The fields `btc_xpub`, `btc_xpriv` and `btc_testnet` of the settings.
pub record BtcSettings : Type 0 where
  pub btc_xpub : Text
  pub btc_xpriv : Text
  pub btc_testnet : Bool

pub record BitcoinProvider : Type 0 where
  pub xpub : Text
  pub testnet : Bool
  pub esplora_base : Text

network_of : Option Bool → Bool → Bool
network_of none default = default
network_of (some testnet) default = testnet

abbrev pub esplora_url : Bool → Text
esplora_url testnet =
    if testnet
    then codes "https://blockstream.info/testnet/api"
    else codes "https://blockstream.info/api"

-- `if not self._xpub`
configured : BitcoinProvider → Text → Result BitcoinProvider
configured provider [] = err value_error
configured provider (c ∷ xpub) = ok provider

-- `__init__`
pub new_bitcoin_provider : BtcSettings → Option Text → Option Bool → Result BitcoinProvider
unfolding or_default network_of configured
new_bitcoin_provider settings xpub testnet =
    let key = or_default xpub settings.btc_xpub in
    let net = network_of testnet settings.btc_testnet in
    configured (record { xpub = key; testnet = net; esplora_base = esplora_url net }) key

-- Without any XPUB the set-up raises ValueError; otherwise the provider has the XPUB that was given,
-- or else the configured one, and asks Esplora for the network that it is on.
pub new_bitcoin_provider_lem :
    (settings : BtcSettings) (xpub : Option Text) (testnet : Option Bool)
    → let key = or_default xpub settings.btc_xpub in
      ((key ≡ []) × (new_bitcoin_provider settings xpub testnet ≡ err value_error))
      ⊎ ((key ≢ [])
          × (p : BitcoinProvider) × (new_bitcoin_provider settings xpub testnet ≡ ok p)
          × (p.xpub ≡ key)
          × (p.esplora_base ≡ esplora_url p.testnet))
unfolding new_bitcoin_provider
new_bitcoin_provider_lem settings xpub testnet = cases (or_default xpub settings.btc_xpub) refl
  where
    cases :
        (key : Text)
        → or_default xpub settings.btc_xpub ≡ key
        → ((or_default xpub settings.btc_xpub ≡ [])
            × (new_bitcoin_provider settings xpub testnet ≡ err value_error))
          ⊎ ((or_default xpub settings.btc_xpub ≢ [])
              × (p : BitcoinProvider) × (new_bitcoin_provider settings xpub testnet ≡ ok p)
              × (p.xpub ≡ or_default xpub settings.btc_xpub)
              × (p.esplora_base ≡ esplora_url p.testnet))
    cases [] e = inl (e, rw e refl)
    cases (c ∷ key) e =
        let net = network_of testnet settings.btc_testnet in
        let p : BitcoinProvider = record {
          xpub = c ∷ key;
          testnet = net;
          esplora_base = esplora_url net;
        } in
        inr (λ h. cc, p, rw e refl, sym e, refl)

-- BIP32Key of bip32utils: reading an extended key, a child key, and what a key gives.
pub record Bip32 (Key : Type 0) : Type 0 where
  pub from_xpub : Text → Result Key
  pub from_xpriv : Text → Result Key
  pub child_key : Key → ℕ → Result Key
  pub public_key : Key → Bytes
  pub private_key : Key → Result Bytes
  pub address : Key → Text

module _ {A : Type 0} where
  -- `except Exception as exc: raise AddressGenerationError`
  abbrev pub as_address_error : Result A → Result A
  as_address_error (ok a) = ok a
  as_address_error (err e) = err address_generation_error

  -- `except Exception as exc: raise ProviderError`
  abbrev pub as_provider_error : Result A → Result A
  as_provider_error (ok a) = ok a
  as_provider_error (err e) = err provider_error

module _ {Key : Type 0} (bip32 : Bip32 Key) where
  -- `_get_change_node`; its cache keeps what it returns.
  unfoldable pub change_node : BitcoinProvider → ℕ → Result Key
  change_node provider change =
      as_address_error
        (bind (bip32.from_xpub provider.xpub) (λ account. bip32.child_key account change))

module _ {Key : Type 0} (bip32 : Bip32 Key) (hash256 hash160 : Bytes → Bytes) where
  -- the text of a child key on either network
  key_address : Bool → Key → Text
  key_address testnet child =
      if testnet
      then derive_address hash256 hash160 (λ change index. bip32.public_key child) 0 0
      else bip32.address child

  -- `_derive_address`
  unfoldable pub derived : BitcoinProvider → ℕ → ℕ → Result Text
  unfolding key_address change_node
  derived provider change index =
      bind (change_node bip32 provider change) (λ node.
        bind (bip32.child_key node index) (λ child. ok (key_address provider.testnet child)))

  -- `generate_address`: the address, or an AddressGenerationError
  pub generate_address : BitcoinProvider → ℕ → ℕ → Result Text
  unfolding derived
  generate_address provider index change = as_address_error (derived provider change index)

  -- `generate_address` raises nothing but AddressGenerationError.
  pub generate_address_err :
      (provider : BitcoinProvider) (index change : ℕ) (e : Exn)
      → generate_address provider index change ≡ err e
      → e ≡ address_generation_error
  unfolding generate_address
  generate_address_err provider index change e h = ground arith

  -- On the test network an address is that of the public key at its path.
  pub derived_inv :
      (provider : BitcoinProvider) (change index : ℕ) (text : Text)
      → provider.testnet ≡ true
      → derived provider change index ≡ ok text
      → (node : Key) × (child : Key) × (change_node bip32 provider change ≡ ok node)
        × (bip32.child_key node index ≡ ok child)
        × (text ≡ derive_address hash256 hash160 (λ _ _. bip32.public_key child) 0 0)
  unfolding derived
  derived_inv provider change index text net e =
      let (node, e1, k1) = bind-eq-ok (change_node bip32 provider change) _ e in
      let (child, e2, k2) = bind-eq-ok (bip32.child_key node index) _ k1 in
      (node, child, e1, e2, ground arith)

-- `_get_xpriv_key`
xpriv_key : {Key : Type 0} → Bip32 Key → Text → Result Key
xpriv_key bip32 [] = err provider_error
xpriv_key bip32 (c ∷ xpriv) = as_provider_error (bip32.from_xpriv (c ∷ xpriv))

-- `_derive_private_key_bytes`
unfoldable pub private_key_bytes : {Key : Type 0} → Bip32 Key → BtcSettings → ℕ → ℕ → Result Bytes
unfolding xpriv_key
private_key_bytes bip32 settings change index =
    bind (xpriv_key bip32 settings.btc_xpriv) (λ account.
      bind (bip32.child_key account change)
        (λ node. bind (bip32.child_key node index) (λ child. bip32.private_key child)))
