-- ===== src/Api/Profile.antt =====
-- services/api/routers/merchant.py: the merchant's own pages. The merchant comes from the session of
-- the authentication, which is closed, so a handler changes a copy; its own session holds no row of
-- that merchant, and its flush writes none.
use crypto_pay_system.Prelude.{
  ℕ, ◌==◌, ◌≡◌, sym, ap, ◌∙◌, leb, not, Bool, List, [], ◌∷◌, ◌++◌, Option, none, some, length,
  if◌then◌else◌, arith,
}
use crypto_pay_system.Prelude.Exec.{Exec, Result, ok, http_exception, pure, gets, raise_if, ◌>>◌}
use crypto_pay_system.Prelude.Rows.{select}
use crypto_pay_system.Prelude.Text.{Text}
use crypto_pay_system.Models.{Coin, Merchant, Balance, Db}
use crypto_pay_system.Ledger.Accounting.{flush}
use crypto_pay_system.Api.Auth.{get_current_merchant}
use crypto_pay_system.Api.Admin.{BalanceOut, balance_of, non_empty_url}

pub record MerchantProfileOut : Type 0 where
  pub id : ℕ
  pub commission_pcent : ℕ
  pub webhook_url : Option Text
  pub created_at : ℕ
  pub balances : List BalanceOut

-- the rows of the join for one balance
with_coins : Balance → List Coin → List BalanceOut
with_coins b [] = []
with_coins b (c ∷ cs) =
    let rest = with_coins b cs in
    if b.coin_id == c.id
    then record {
      coin_symbol = c.symbol;
      amount_available = b.amount_available;
      amount_locked = b.amount_locked;
    }
      ∷ rest
    else rest

join_coins : List Balance → List Coin → List BalanceOut
unfolding with_coins
join_coins [] coins = []
join_coins (b ∷ bs) coins = with_coins b coins ++ join_coins bs coins

-- `get_balance`
unfoldable pub get_balance : Merchant → Exec Db (List BalanceOut)
unfolding join_coins
get_balance merchant =
    gets (λ db. join_coins (select (balance_of merchant.id) db.balances) db.coins)

-- `get_profile`
pub get_profile : Merchant → Exec Db MerchantProfileOut
unfolding join_coins
get_profile merchant = gets (λ db. record {
  id = merchant.id;
  commission_pcent = merchant.commission_pcent;
  webhook_url = merchant.webhook_url;
  created_at = merchant.created_at;
  balances = join_coins (select (balance_of merchant.id) db.balances) db.coins;
})

short : Option Text → Bool
short none = Bool.true
short (some t) = leb (length t) 512

abbrev with_webhook : Option Text → Merchant → Merchant
with_webhook none m = m
with_webhook (some url) m = record m { webhook_url = non_empty_url (some url) }

saved_if : Option Text → Exec Db (Unit {0})
unfolding flush
saved_if none = pure tt
saved_if (some url) = flush

-- `update_profile`, with the `webhook_url` of the request
unfoldable pub update_profile : Option Text → Merchant → Exec Db MerchantProfileOut
unfolding short saved_if get_profile
update_profile webhook_url merchant = do
  raise_if (not (short webhook_url)) (http_exception 422)
  saved_if webhook_url
  get_profile (with_webhook webhook_url merchant)

unchanged :
    (webhook_url : Option Text) (merchant : Merchant) (db : Db)
    → (update_profile webhook_url merchant db).1 ≡ db
unfolding update_profile saved_if
unchanged none merchant db = ground arith
unchanged (some url) merchant db = ground arith

-- The update of a webhook is answered with the new address and is lost: where a request that
-- authenticates as `merchant` sets `url`, the answer shows it, and the next request with the same key
-- finds the merchant as before.
pub update_profile_lost :
    (key url : Text) (merchant : Merchant) (db : Db) {out : MerchantProfileOut} {db' : Db}
    → get_current_merchant (some key) none db ≡ ok merchant
    → update_profile (some url) merchant db ≡ (ok out, db')
    → (out.webhook_url ≡ non_empty_url (some url))
      × (get_current_merchant (some key) none db' ≡ ok merchant)
unfolding update_profile
update_profile_lost key url merchant db {out} {db'} who e =
    let same : db' ≡ db =
      ap (λ (r : Result MerchantProfileOut × Db). r.1) (sym e) ∙ unchanged (some url) merchant db in
    (ground arith, ap (get_current_merchant (some key) none) same ∙ who)
