-- ===== src/Payout/Signing/Wallet.antt =====
-- The keys that a payout is signed with: those of the wallet of providers/bitcoin.py.
use crypto_pay_system.Watcher.Decoder.{Bytes}
use crypto_pay_system.Providers.Bitcoin.Wallet.{
  Bip32, BtcSettings, BitcoinProvider, derived, private_key_bytes,
}
use crypto_pay_system.Payout.Signing.Transaction.{Keys}

-- what the signing loop asks of the provider
abbrev pub keys_of :
    {Key : Type 0}
    → Bip32 Key
    → (Bytes → Bytes)
    → (Bytes → Bytes)
    → BtcSettings
    → BitcoinProvider
    → Keys
keys_of bip32 hash256 hash160 settings provider = record {
  private_key = λ change index. private_key_bytes bip32 settings change index;
  address = λ change index. derived bip32 hash256 hash160 provider change index;
}
