-- ===== src/Api/Admin.antt =====
-- services/api/routers/admin_merchants.py: the administration of merchants. The limits on the fields
-- of a request are those that pydantic checks before the handler runs; it answers 422.
pub mod Keys
pub mod Create
use crypto_pay_system.Prelude.{
  ℕ, ◌+◌, ◌==◌, ◌&&◌, leb, not, Bool, true, false, List, [], ◌∷◌, ◌++◌, map, Option, none, some,
  length, if◌then◌else◌,
}
use crypto_pay_system.Prelude.Exec.{
  Exec, Exn, Result, ok, err, http_exception, integrity_error, pure, raise, lift, gets, modify,
  raise_if, ◌>>=◌, ◌>>◌,
}
use crypto_pay_system.Prelude.Int.{ℤ, pos}
use crypto_pay_system.Prelude.Rows.{select, modify_where, scalar_one_or_none, unique}
use crypto_pay_system.Prelude.Text.{Text, text_eq}
use crypto_pay_system.Models.{Coin, Merchant, Balance, Db}
use crypto_pay_system.Ledger.Accounting.{constraints}
use crypto_pay_system.Api.Paging.{page}

pub record MerchantCreateRequest : Type 0 where
  pub commission_pcent : ℕ
  pub webhook_url : Option Text
  pub note : Option Text

pub record MerchantUpdateRequest : Type 0 where
  pub commission_pcent : Option ℕ
  pub webhook_url : Option Text
  pub note : Option Text
  pub is_active : Option Bool

pub record BalanceOut : Type 0 where
  pub coin_symbol : Text
  pub amount_available : ℤ
  pub amount_locked : ℤ

pub record MerchantOut : Type 0 where
  pub id : ℕ
  pub api_key : Text
  pub commission_pcent : ℕ
  pub webhook_url : Option Text
  pub is_active : Bool
  pub created_at : ℕ
  pub balances : List BalanceOut

-- what uuid4, `secrets.token_urlsafe`, the autoincrement columns and the clock give
pub record MerchantKeys : Type 0 where
  pub merchant_id : ℕ
  pub api_key : Text
  pub balance_id : ℕ → ℕ
  pub now : ℕ

-- the unique index on `api_key`, beside the constraints on balances and outputs
abbrev pub same_key : Merchant → Merchant → Bool
same_key a b = text_eq a.api_key b.api_key

unfoldable pub flush_merchants : Exec Db (Unit {0})
flush_merchants db =
    raise_if (not (constraints db && unique same_key db.merchants)) integrity_error db

within : ℕ → Option Text → Bool
within n none = true
within n (some t) = leb (length t) n

abbrev pub valid_commission : ℕ → Bool
valid_commission pcent = leb pcent 10000

pub valid_create : MerchantCreateRequest → Bool
unfolding within
valid_create r =
    valid_commission r.commission_pcent && within 512 r.webhook_url && within 256 r.note

valid_option : Option ℕ → Bool
valid_option none = true
valid_option (some pcent) = valid_commission pcent

abbrev pub has_id : ℕ → Merchant → Bool
has_id id m = m.id == id

abbrev pub balance_of : ℕ → Balance → Bool
balance_of merchant_id b = b.merchant_id == merchant_id

-- `payload.webhook_url if payload.webhook_url else None`
abbrev pub non_empty_url : Option Text → Option Text
non_empty_url none = none
non_empty_url (some []) = none
non_empty_url (some (c ∷ url)) = some (c ∷ url)

abbrev pub new_merchant : MerchantKeys → MerchantCreateRequest → Merchant
new_merchant keys payload = record {
  id = keys.merchant_id;
  api_key = keys.api_key;
  commission_pcent = payload.commission_pcent;
  webhook_url = non_empty_url payload.webhook_url;
  is_active = true;
  created_at = keys.now;
}

-- a zero balance for each coin; `n` numbers the new rows
pub zero_balances : MerchantKeys → ℕ → List Coin → List Balance
zero_balances keys n [] = []
zero_balances keys n (coin ∷ coins) =
    record {
      id = keys.balance_id n;
      merchant_id = keys.merchant_id;
      coin_id = coin.id;
      amount_available = pos 0;
      amount_locked = pos 0;
    }
    ∷ zero_balances keys (n + 1) coins

or_404 : Option Merchant → Result Merchant
or_404 none = err (http_exception 404)
or_404 (some merchant) = ok merchant

found_or_404 : Result (Option Merchant) → Result Merchant
unfolding or_404
found_or_404 (ok o) = or_404 o
found_or_404 (err e) = err e

-- `_get_merchant_or_404`
pub get_merchant_or_404 : ℕ → Exec Db Merchant
unfolding found_or_404
get_merchant_or_404 merchant_id db =
    lift (found_or_404 (scalar_one_or_none (select (has_id merchant_id) db.merchants))) db

-- `str` of a number is Python's.
module _ (str : ℕ → Text) where
  -- `coins.get(b.coin_id, str(b.coin_id))`
  symbol_of : ℕ → List Coin → Text
  symbol_of coin_id [] = str coin_id
  symbol_of coin_id (c ∷ cs) = if c.id == coin_id then c.symbol else symbol_of coin_id cs

  balance_out : List Coin → Balance → BalanceOut
  unfolding symbol_of
  balance_out coins b = record {
    coin_symbol = symbol_of b.coin_id coins;
    amount_available = b.amount_available;
    amount_locked = b.amount_locked;
  }

  -- `_merchant_to_out`
  pub merchant_to_out : Merchant → List Balance → List Coin → MerchantOut
  unfolding balance_out
  merchant_to_out merchant balances coins = record {
    id = merchant.id;
    api_key = merchant.api_key;
    commission_pcent = merchant.commission_pcent;
    webhook_url = merchant.webhook_url;
    is_active = merchant.is_active;
    created_at = merchant.created_at;
    balances = map (balance_out coins) balances;
  }

  unfoldable pub create_merchant : MerchantKeys → MerchantCreateRequest → Exec Db MerchantOut
  unfolding valid_create zero_balances merchant_to_out
  create_merchant keys payload = do
    raise_if (not (valid_create payload)) (http_exception 422)
    modify (λ db. record db { merchants = db.merchants ++ new_merchant keys payload ∷ [] })
    coins ← gets (λ db. select (λ c. c.is_active) db.coins)
    modify (λ db. record db { balances = db.balances ++ zero_balances keys 0 coins })
    flush_merchants
    balances ← gets (λ db. select (balance_of keys.merchant_id) db.balances)
    pure (merchant_to_out (new_merchant keys payload) balances coins)

  -- `select(Balance, Coin).join(…)` of the balances of a merchant: a balance whose coin has no row
  -- is left out
  has_coin : List Coin → ℕ → Bool
  has_coin [] coin_id = false
  has_coin (c ∷ cs) coin_id = if c.id == coin_id then true else has_coin cs coin_id

  pub joined_balances : ℕ → Db → List Balance
  unfolding has_coin
  joined_balances merchant_id db =
      select (λ b. has_coin db.coins b.coin_id) (select (balance_of merchant_id) db.balances)

  -- `get_merchant`
  unfoldable pub merchant_details : ℕ → Exec Db MerchantOut
  unfolding get_merchant_or_404 merchant_to_out joined_balances
  merchant_details merchant_id = do
    merchant ← get_merchant_or_404 merchant_id
    gets (λ db. merchant_to_out merchant (joined_balances merchant_id db) db.coins)

  set_commission : Option ℕ → Merchant → Merchant
  set_commission none m = m
  set_commission (some pcent) m = record m { commission_pcent = pcent }

  set_webhook : Option Text → Merchant → Merchant
  set_webhook none m = m
  set_webhook (some url) m = record m { webhook_url = non_empty_url (some url) }

  pub updated : MerchantUpdateRequest → Merchant → Merchant
  unfolding set_commission set_webhook
  updated payload m = set_webhook payload.webhook_url (set_commission payload.commission_pcent m)

  unfoldable pub update_merchant : ℕ → MerchantUpdateRequest → Exec Db MerchantOut
  unfolding valid_option get_merchant_or_404 updated merchant_to_out joined_balances
  update_merchant merchant_id payload = do
    raise_if (not (valid_option payload.commission_pcent)) (http_exception 422)
    merchant ← get_merchant_or_404 merchant_id
    modify (λ db. record db {
      merchants = modify_where (has_id merchant_id) (updated payload) db.merchants;
    })
    flush_merchants
    gets
        (λ db. merchant_to_out (updated payload merchant) (joined_balances merchant_id db) db.coins)

-- `list_merchants`; the items show what the rows hold, without the balances
unfoldable pub list_merchants : ℕ → ℕ → Db → List Merchant
list_merchants limit offset db = page (λ m. m.created_at) limit offset db.merchants

abbrev pub set_key : Text → Merchant → Merchant
set_key new_key m = record m { api_key = new_key }

-- `rotate_api_key`
unfoldable pub rotate_api_key : Text → ℕ → Exec Db (ℕ × Text)
unfolding get_merchant_or_404
rotate_api_key new_key merchant_id = do
  get_merchant_or_404 merchant_id
  modify (λ db. record db {
    merchants = modify_where (has_id merchant_id) (set_key new_key) db.merchants;
  })
  flush_merchants
  pure (merchant_id, new_key)
