-- ===== src/Scripts.antt =====
-- scripts/seed.py: the coins and a demo merchant that a new database starts with.
pub mod Again
use crypto_pay_system.Prelude.{ℕ, Bool, true, false, not, ◌&&◌, List, [], ◌∷◌, ◌++◌, some, none}
use crypto_pay_system.Prelude.Exec.{
  Exec, integrity_error, modify, raise_if, atomically, ◌>>=◌, ◌>>◌,
}
use crypto_pay_system.Prelude.Rows.{unique}
use crypto_pay_system.Prelude.Text.{Text, codes, text_eq}
use crypto_pay_system.Models.{Coin, Merchant, Db}
use crypto_pay_system.Ledger.Accounting.{constraints}
use crypto_pay_system.Api.Admin.{same_key}

-- what the database, uuid4, `secrets` and the clock give: the ids of three coins, and a merchant's
-- id, key and time
pub record SeedKeys : Type 0 where
  pub btc_id : ℕ
  pub eth_id : ℕ
  pub trx_id : ℕ
  pub merchant_id : ℕ
  pub api_key : Text
  pub now : ℕ

abbrev pub new_coin : ℕ → Text → Text → Bool → Coin
new_coin id symbol name is_active = record {
  id = id;
  symbol = symbol;
  name = name;
  is_active = is_active;
}

abbrev pub btc : SeedKeys → Coin
btc keys = new_coin keys.btc_id (codes "BTC") (codes "Bitcoin") true

abbrev pub eth : SeedKeys → Coin
eth keys = new_coin keys.eth_id (codes "ETH") (codes "Ethereum") true

abbrev pub trx : SeedKeys → Coin
trx keys = new_coin keys.trx_id (codes "TRX") (codes "TRON") false

abbrev pub demo_merchant : SeedKeys → Merchant
demo_merchant keys = record {
  id = keys.merchant_id;
  api_key = keys.api_key;
  commission_pcent = 100;
  webhook_url = some (codes "https://example.com/webhook");
  is_active = true;
  created_at = keys.now;
}

-- the unique index on the symbol of a coin
pub same_symbol : Coin → Coin → Bool
same_symbol a b = text_eq a.symbol b.symbol

abbrev pub consistent : Db → Bool
consistent db = constraints db && unique same_key db.merchants && unique same_symbol db.coins

-- `session.commit()`
commit : Exec Db (Unit {0})
commit db = raise_if (not (consistent db)) integrity_error db

-- the session of `seed`, which is rolled back where the commit fails
pub seed : SeedKeys → Exec Db (Unit {0})
unfolding commit
seed keys = atomically (
    modify (λ db. record db { coins = db.coins ++ btc keys ∷ eth keys ∷ trx keys ∷ [] })
    >> modify (λ db. record db { merchants = db.merchants ++ demo_merchant keys ∷ [] })
    >> commit)
