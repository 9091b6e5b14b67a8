-- ===== src/Tests/Wallet.antt =====
-- The wallet, the node client and a signed payout, with a small library of keys and scripts.
use crypto_pay_system.Prelude.{◌≡◌, refl, true, [], ◌∷◌, ◌++◌}
use crypto_pay_system.Prelude.Exec.{ok}
use crypto_pay_system.Prelude.Int.{pos, ◌-ℤ◌, ◌+ℤ◌}
use crypto_pay_system.Prelude.Text.{codes, starts_with}
use crypto_pay_system.Models.{default_settings}
use crypto_pay_system.Watcher.Decoder.{Bytes, hex}
use crypto_pay_system.Providers.Node.{contains_text}
use crypto_pay_system.Providers.Client.{split_once, proxy_url}
use crypto_pay_system.Providers.Bitcoin.Wallet.{
  Bip32, BtcSettings, BitcoinProvider, private_key_bytes, derived,
}
use crypto_pay_system.Payout.Signing.{
  Signed, create_payout_transaction, plan_amounts, total_input, outputs,
}
use crypto_pay_system.Payout.Signing.Transaction.{
  Bitcoinlib, CTransaction, sign_transaction, fromhex_from,
}
use crypto_pay_system.Payout.Signing.Pays.{IsPayoutTx, create_payout_transaction_lem}
use crypto_pay_system.Payout.Signing.Wallet.{keys_of}
use crypto_pay_system.Tests.Payout.{coins}

-- keys are their paths, and the public key is the private key
abbrev bip32 : Bip32 Bytes
bip32 = record {
  from_xpub = λ xpub. ok [];
  from_xpriv = λ xpriv. ok [];
  child_key = λ key index. ok (index ∷ key);
  public_key = λ key. key;
  private_key = λ key. ok key;
  address = λ key. key;
}

abbrev lib : Bitcoinlib
lib = record {
  check_outpoint = λ hash n. ok tt;
  script_of = λ address. ok address;
  public_of = λ key. key;
  sign = λ key hash. hash;
  signature_hash = λ script tx i. ok script;
  script_sig = λ sig key. sig ++ key;
  serialize = λ tx. 1 ∷ [];
}

abbrev hash : Bytes → Bytes
hash bytes = bytes

abbrev btc_settings : BtcSettings
btc_settings = record { btc_xpub = codes "tpub"; btc_xpriv = codes "tprv"; btc_testnet = true }

abbrev provider : BitcoinProvider
provider = record { xpub = codes "tpub"; testnet = true; esplora_base = codes "esplora" }

abbrev signed : Signed
signed = record {
  raw_hex = codes "01";
  txid = codes "01";
  fee_sat = pos 226;
  amount_out_sat = 60_000;
  change_sat = pos 39_775;
}

create_payout_transaction_lem_example :
    (tx : CTransaction) × IsPayoutTx lib
      (keys_of bip32 hash hash btc_settings provider)
      hash
      coins
      (codes "tb1d")
      60_000
      signed
      tx
unfolding create_payout_transaction plan_amounts ◌-ℤ◌ total_input ◌+ℤ◌ sign_transaction fromhex_from
    outputs private_key_bytes derived hex
create_payout_transaction_lem_example =
    create_payout_transaction_lem lib (keys_of bip32 hash hash btc_settings provider) hash
      default_settings coins (codes "tb1d") 60_000 (codes "tb1c") 1 signed refl

test_proxy_url :
    proxy_url (record { url = codes "http://node"; user = codes "u"; password = codes "p" })
    ≡ codes "http://u:p@node"
unfolding proxy_url split_once contains_text starts_with
test_proxy_url = refl
