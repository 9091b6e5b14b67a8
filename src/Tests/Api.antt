-- ===== src/Tests/Api.antt =====
-- The theorems on the endpoints at the data of Tests.Data.
use crypto_pay_system.Prelude.{ℕ, ◌+◌, ◌≡◌, refl, true, none, some, [], ◌∷◌, arith}
use crypto_pay_system.Prelude.Exec.{ok, err, http_exception}
use crypto_pay_system.Prelude.Int.{pos, ◌+ℤ◌}
use crypto_pay_system.Prelude.Rows.{sum, select, modify_where, scalar_one_or_none, unique, any}
use crypto_pay_system.Prelude.Text.{Text, codes, text_eq, upper}
use crypto_pay_system.Models.{Coin, Balance, Payout, Db, default_settings}
use crypto_pay_system.Funds.{IsSolvent, held_weight, earned_weight, paid_weight}
use crypto_pay_system.Providers.Registry.{Registry, register, get, contains}
use crypto_pay_system.Ledger.Accounting.{constraints, is_account}
use crypto_pay_system.Api.Amount.{sat_floor, sat_rounded, is_below}
use crypto_pay_system.Api.Paging.{page}
use crypto_pay_system.Api.Auth.{get_current_merchant}
use crypto_pay_system.Api.Admin.{
  MerchantKeys, MerchantCreateRequest, set_key, rotate_api_key, create_merchant, MerchantOut,
  flush_merchants, non_empty_url,
}
use crypto_pay_system.Api.Admin.Keys.{rotate_api_key_lem}
use crypto_pay_system.Api.Profile.{MerchantProfileOut, update_profile, update_profile_lost}
use crypto_pay_system.Api.Payouts.{
  PayoutKeys, PayoutCreateRequest, new_payout, create_payout, list_payouts,
}
use crypto_pay_system.Api.Payouts.Create.{Accepted, create_payout_lem}
use crypto_pay_system.Tests.Data.{btc, coin, merchant, shop, payout, paying, provider}
use crypto_pay_system.Tests.Payout.{log}

-- stands for Python's `strip` where the text has no blanks around it
abbrev strip : Text → Text
strip t = t

abbrev registry : Registry
registry = register provider []

abbrev payout_keys : PayoutKeys
payout_keys = record { payout_id = 9; now = 20 }

abbrev request : PayoutCreateRequest
request = record {
  coin_symbol = codes "btc";
  destination_address = codes "tb1destination";
  amount = record { units = 6_000_004; places = 10 };
}

abbrev before : Db
before = record paying { fee_logs = log ∷ []; payouts = [] }

abbrev requested : Payout
requested = new_payout payout_keys merchant coin request

abbrev after : Db
after = record before { payouts = requested ∷ [] }

test_create_payout :
    create_payout strip default_settings registry payout_keys merchant request before
    ≡ (ok requested, after)
unfolding create_payout scalar_one_or_none select text_eq upper contains register get is_account
    constraints unique any sat_floor sat_rounded is_below
test_create_payout = refl

create_payout_lem_example :
    (k : Coin) × (b : Balance) × Accepted default_settings registry payout_keys merchant request
      (strip (upper (codes "btc")))
      before
      k
      b
      requested
      after
create_payout_lem_example =
    create_payout_lem strip default_settings registry payout_keys merchant request before
      test_create_payout

before-IsSolvent : IsSolvent before
unfolding sum held_weight earned_weight paid_weight ◌+ℤ◌
before-IsSolvent m c = ground arith

test_list_payouts : list_payouts merchant none 20 0 paying ≡ (ok (payout ∷ []), paying)
unfolding list_payouts page select
test_list_payouts = refl

abbrev rotated : Db
rotated = record shop { merchants = set_key (codes "new") merchant ∷ [] }

test_rotate_api_key : rotate_api_key (codes "new") 7 shop ≡ (ok (7, codes "new"), rotated)
unfolding rotate_api_key scalar_one_or_none select flush_merchants constraints unique modify_where
    any
test_rotate_api_key = refl

rotate_api_key_lem_example :
    (get_current_merchant (some (codes "new")) none rotated ≡ ok (set_key (codes "new") merchant))
    × (get_current_merchant (some (codes "key")) none rotated ≡ err (http_exception 401))
unfolding unique any select text_eq
rotate_api_key_lem_example =
    rotate_api_key_lem (codes "new") 7 shop merchant refl refl refl refl test_rotate_api_key

abbrev keys : MerchantKeys
keys = record { merchant_id = 8; api_key = codes "other"; balance_id = λ n. 50 + n; now = 60 }

abbrev registration : MerchantCreateRequest
registration = record { commission_pcent = 200; webhook_url = none; note = none }

-- stands for Python's `str`
abbrev str : ℕ → Text
str n = []

abbrev registered : Db
registered = (create_merchant str keys registration shop).1

abbrev shown : MerchantOut
shown = record {
  id = 8;
  api_key = codes "other";
  commission_pcent = 200;
  webhook_url = none;
  is_active = true;
  created_at = 60;
  balances = record { coin_symbol = btc; amount_available = pos 0; amount_locked = pos 0 } ∷ [];
}

abbrev url : Text
url = codes "https://shop"

abbrev profile : MerchantProfileOut
profile = record {
  id = 7;
  commission_pcent = 150;
  webhook_url = some url;
  created_at = 0;
  balances = [];
}

test_get_current_merchant : get_current_merchant (some (codes "key")) none shop ≡ ok merchant
unfolding get_current_merchant scalar_one_or_none select text_eq
test_get_current_merchant = refl

test_update_profile : update_profile (some url) merchant shop ≡ (ok profile, shop)
unfolding update_profile constraints unique select
test_update_profile = refl

update_profile_lost_example :
    (profile.webhook_url ≡ non_empty_url (some url))
    × (get_current_merchant (some (codes "key")) none shop ≡ ok merchant)
update_profile_lost_example =
    update_profile_lost (codes "key") url merchant shop test_get_current_merchant
      test_update_profile
