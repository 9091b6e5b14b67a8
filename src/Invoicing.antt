-- ===== src/Invoicing.antt =====
-- InvoiceService of services/api/invoice_service.py: a new invoice with its derivation index and its
-- deposit address. The import of the address into the node is an effect outside the database.
pub mod Indices
use crypto_pay_system.Prelude.{
  ℕ, ◌+◌, ◌==◌, ◌&&◌, Bool, List, [], ◌∷◌, ◌++◌, Option, none, some, max, if◌then◌else◌,
}
use crypto_pay_system.Prelude.Exec.{
  Exec, Result, ok, err, value_error, pure, lift, gets, modify, bind, ◌>>=◌, ◌>>◌,
}
use crypto_pay_system.Prelude.Rows.{select, scalar_one_or_none}
use crypto_pay_system.Prelude.Text.{Text, text_eq}
use crypto_pay_system.Models.{InvoiceStatus, Coin, Merchant, Invoice, Db}
use crypto_pay_system.Providers.Registry.{Registry, get}
use crypto_pay_system.Ledger.Accounting.{flush}

-- what uuid4 and the clock give for a new invoice
pub record InvoiceKeys : Type 0 where
  pub invoice_id : ℕ
  pub now : ℕ

-- a query whose missing row is a ValueError
found_or_error : {A : Type 0} → Result (Option A) → Result A
found_or_error (ok none) = err value_error
found_or_error (ok (some a)) = ok a
found_or_error (err e) = err e

abbrev pub is_active_coin : Text → Coin → Bool
is_active_coin symbol c = text_eq c.symbol symbol && c.is_active

pub get_active_coin : Text → Exec Db Coin
unfolding found_or_error
get_active_coin symbol db =
    lift (found_or_error (scalar_one_or_none (select (is_active_coin symbol) db.coins))) db

pub get_merchant : ℕ → Exec Db Merchant
unfolding found_or_error
get_merchant id db =
    lift (found_or_error (scalar_one_or_none (select (λ m. m.id == id) db.merchants))) db

-- the invoices of a merchant for a coin
abbrev pub is_invoice_of : ℕ → ℕ → Invoice → Bool
is_invoice_of m c i = i.merchant_id == m && i.coin_id == c

-- `coalesce(max(derivation_index), -1) + 1` over those invoices
unfoldable pub next_derivation_index : ℕ → ℕ → List Invoice → ℕ
next_derivation_index m c [] = 0
next_derivation_index m c (i ∷ is) =
    let rest = next_derivation_index m c is in
    if is_invoice_of m c i then max (i.derivation_index + 1) rest else rest

abbrev pub new_invoice : InvoiceKeys → Coin → Merchant → Text → ℕ → ℕ → Invoice
new_invoice keys coin merchant address amount index = record {
  id = keys.invoice_id;
  coin_id = coin.id;
  merchant_id = merchant.id;
  address = address;
  amount_expected = amount;
  status = InvoiceStatus.new;
  derivation_index = index;
  created_at = keys.now;
  expires_at = none;
  paid_at = none;
}

-- `provider = registry.get(coin.symbol)` and `provider.generate_address(index)`
unfoldable pub derived_address : Registry → Coin → ℕ → Result Text
derived_address registry coin index =
    bind (get coin.symbol registry) (λ provider. provider.generate_address index 0)

-- `create_invoice` once the address is derived
pub saved : Invoice → Exec Db Invoice
unfolding flush
saved invoice = do
  modify (λ db. record db { invoices = db.invoices ++ invoice ∷ [] })
  flush
  pure invoice

-- `create_invoice` once the coin and the merchant are found
pub allotted : Registry → InvoiceKeys → Coin → Merchant → ℕ → Exec Db Invoice
unfolding saved
allotted registry keys coin merchant amount = do
  index ← gets (λ db. next_derivation_index merchant.id coin.id db.invoices)
  address ← lift (derived_address registry coin index)
  saved (new_invoice keys coin merchant address amount index)

unfoldable pub create_invoice : Registry → InvoiceKeys → ℕ → Text → ℕ → Exec Db Invoice
unfolding get_active_coin get_merchant allotted
create_invoice registry keys merchant_id coin_symbol amount = do
  coin ← get_active_coin coin_symbol
  merchant ← get_merchant merchant_id
  allotted registry keys coin merchant amount
