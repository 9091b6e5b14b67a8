-- ===== src/Api/Payouts.antt =====
-- services/payout/router.py: the payout endpoints of an authenticated merchant. The payout that is
-- created runs afterwards, as `execute` of Payout.Processor.
pub mod Create
pub mod Listing
use crypto_pay_system.Prelude.{
  ℕ, ◌==◌, ◌&&◌, leb, ltb, not, Bool, true, false, List, [], ◌∷◌, ◌++◌, Option, none, some, length,
  if◌then◌else◌,
}
use crypto_pay_system.Prelude.Exec.{
  Exec, Exn, Result, ok, err, http_exception, pure, lift, gets, modify, raise_if, bind, ◌>>=◌, ◌>>◌,
}
use crypto_pay_system.Prelude.Int.{ℤ, pos, ltb_ℤ}
use crypto_pay_system.Prelude.Rows.{select, scalar_one_or_none}
use crypto_pay_system.Prelude.Text.{Text, upper}
use crypto_pay_system.Models.{PayoutStatus, Coin, Merchant, Balance, Payout, Db, Settings}
use crypto_pay_system.Providers.Registry.{Provider, Registry, contains, get}
use crypto_pay_system.Ledger.Accounting.{is_account, flush}
use crypto_pay_system.Invoicing.{is_active_coin}
use crypto_pay_system.Api.Paging.{page}
use crypto_pay_system.Api.Amount.{Decimal, sat_floor, sat_rounded, is_below}

pub record PayoutCreateRequest : Type 0 where
  pub coin_symbol : Text
  pub destination_address : Text
  pub amount : Decimal

abbrev pub unprocessable : Exn
unprocessable = http_exception 422

-- what uuid4 and the clock give
pub record PayoutKeys : Type 0 where
  pub payout_id : ℕ
  pub now : ℕ

pub valid_payout : PayoutCreateRequest → Bool
valid_payout r =
    leb 1 (length r.coin_symbol)
    && leb (length r.coin_symbol) 16
    && leb 10 (length r.destination_address)
    && leb (length r.destination_address) 128
    && ltb 0 r.amount.units

or_422 : {A : Type 0} → Option A → Result A
or_422 none = err unprocessable
or_422 (some a) = ok a

found_or_422 : {A : Type 0} → Result (Option A) → Result A
unfolding or_422
found_or_422 (ok o) = or_422 o
found_or_422 (err e) = err e

pub load_coin : Text → Exec Db Coin
unfolding found_or_422
load_coin symbol db =
    lift (found_or_422 (scalar_one_or_none (select (is_active_coin symbol) db.coins))) db

valid_address : Text → Provider → Result (Unit {0})
valid_address destination provider =
    if provider.validate_address destination then ok tt else err unprocessable

-- the check of the destination, if the coin has a provider
pub check_address : Registry → Text → Text → Result (Unit {0})
unfolding valid_address
check_address registry symbol destination =
    if contains symbol registry
    then bind (get symbol registry) (valid_address destination)
    else ok tt

pub load_balance : ℕ → ℕ → Exec Db Balance
unfolding found_or_422
load_balance m c db =
    lift (found_or_422 (scalar_one_or_none (select (is_account m c) db.balances))) db

-- the row as the database keeps it
abbrev pub new_payout : PayoutKeys → Merchant → Coin → PayoutCreateRequest → Payout
new_payout keys merchant coin r = record {
  id = keys.payout_id;
  merchant_id = merchant.id;
  coin_id = coin.id;
  destination_address = r.destination_address;
  amount_requested = sat_rounded r.amount;
  miner_fee = none;
  amount_net = none;
  status = PayoutStatus.pending;
  txid = none;
  raw_tx_hex = none;
  error_message = none;
  created_at = keys.now;
  sent_at = none;
}

-- `create_payout` once the balance is found
pub inserted : PayoutKeys → Merchant → Coin → PayoutCreateRequest → Balance → Exec Db Payout
unfolding flush
inserted keys merchant coin r balance = do
  raise_if (is_below balance.amount_available r.amount) unprocessable
  modify (λ db. record db { payouts = db.payouts ++ new_payout keys merchant coin r ∷ [] })
  flush
  pure (new_payout keys merchant coin r)

-- `create_payout` once the coin is found
pub with_coin :
    Settings → Registry → PayoutKeys → Merchant → PayoutCreateRequest → Text → Coin → Exec Db Payout
unfolding check_address load_balance inserted
with_coin settings registry keys merchant r symbol coin = do
  raise_if (ltb (sat_floor r.amount) settings.payout_min_amount_sat) unprocessable
  lift (check_address registry symbol r.destination_address)
  balance ← load_balance merchant.id coin.id
  inserted keys merchant coin r balance

-- `str.strip` is Python's.
module _ (strip : Text → Text) where
  unfoldable pub create_payout :
      Settings → Registry → PayoutKeys → Merchant → PayoutCreateRequest → Exec Db Payout
  unfolding valid_payout load_coin with_coin
  create_payout settings registry keys merchant r = do
    raise_if (not (valid_payout r)) unprocessable
    coin ← load_coin (strip (upper r.coin_symbol))
    with_coin settings registry keys merchant r (strip (upper r.coin_symbol)) coin

abbrev pub payout_status_eq : PayoutStatus → PayoutStatus → Bool
payout_status_eq PayoutStatus.pending PayoutStatus.pending = true
payout_status_eq PayoutStatus.processing PayoutStatus.processing = true
payout_status_eq PayoutStatus.sent PayoutStatus.sent = true
payout_status_eq PayoutStatus.confirmed PayoutStatus.confirmed = true
payout_status_eq PayoutStatus.failed PayoutStatus.failed = true
payout_status_eq _ _ = false

abbrev pub status_is : Option PayoutStatus → Payout → Bool
status_is none p = true
status_is (some s) p = payout_status_eq p.status s

abbrev pub is_own_payout : ℕ → Payout → Bool
is_own_payout merchant_id p = p.merchant_id == merchant_id

-- `list_payouts`
unfoldable pub list_payouts : Merchant → Option PayoutStatus → ℕ → ℕ → Exec Db (List Payout)
list_payouts merchant status_filter limit offset = do
  raise_if (not (leb limit 200)) unprocessable
  gets (λ db.
      page (λ p. p.created_at) limit offset
        (select (λ p. is_own_payout merchant.id p && status_is status_filter p) db.payouts))

unfoldable pub or_404 : Option Payout → Result Payout
or_404 none = err (http_exception 404)
or_404 (some p) = ok p

unfoldable pub found_or_404 : Result (Option Payout) → Result Payout
unfolding or_404
found_or_404 (ok o) = or_404 o
found_or_404 (err e) = err e

-- `get_payout`
unfoldable pub get_payout : Merchant → ℕ → Exec Db Payout
unfolding found_or_404
get_payout merchant payout_id db =
    lift
      (found_or_404 (
        scalar_one_or_none
          (select (λ p. p.id == payout_id && is_own_payout merchant.id p) db.payouts)))
      db
