-- ===== src/Tests/Invoicing.antt =====
-- Two merchants who each create their first invoice.
use crypto_pay_system.Prelude.{ℕ, ◌≡◌, ◌≢◌, arith, refl, none, [], ◌∷◌, ◌++◌}
use crypto_pay_system.Prelude.Exec.{ok, err, http_exception}
use crypto_pay_system.Prelude.Rows.{select, any, scalar_one_or_none, unique}
use crypto_pay_system.Prelude.Text.{upper, text_eq}
use crypto_pay_system.Models.{InvoiceStatus, Invoice, Db}
use crypto_pay_system.Providers.Registry.{Registry, register, get}
use crypto_pay_system.Ledger.Accounting.{constraints}
use crypto_pay_system.Invoicing.{
  InvoiceKeys, next_derivation_index, derived_address, create_invoice,
}
use crypto_pay_system.Invoicing.Indices.{create_invoice_shared}
use crypto_pay_system.Api.Amount.{Decimal, sat_rounded}
use crypto_pay_system.Api.Invoices.{create_invoice_route}
use crypto_pay_system.Api.Forms.{invoice_out, new_invoice_out, post_invoice, show_invoice}
use crypto_pay_system.Api.Forms.Shown.{shown_invoice}
use crypto_pay_system.Tests.Data.{btc, merchant, shop, provider}

abbrev registry : Registry
registry =
    register (record provider { generate_address = λ index change. ok (98 ∷ index ∷ change ∷ []) })
      []

abbrev market : Db
market = record shop { merchants = merchant ∷ record merchant { id = 8 } ∷ []; invoices = [] }

abbrev keys : InvoiceKeys
keys = record { invoice_id = 20; now = 50 }

abbrev later_keys : InvoiceKeys
later_keys = record { invoice_id = 21; now = 51 }

-- the first invoice of the merchant `id`
abbrev first_of : ℕ → ℕ → InvoiceKeys → ℕ → Invoice
first_of id index keys amount = record {
  id = keys.invoice_id;
  coin_id = 1;
  merchant_id = id;
  address = 98 ∷ index ∷ 0 ∷ [];
  amount_expected = amount;
  status = InvoiceStatus.new;
  derivation_index = index;
  created_at = keys.now;
  expires_at = none;
  paid_at = none;
}

abbrev after_first : Db
after_first = record market { invoices = first_of 7 0 keys 500 ∷ [] }

abbrev after_both : Db
after_both = record market { invoices = first_of 7 0 keys 500 ∷ first_of 8 0 later_keys 900 ∷ [] }

test_first :
    create_invoice registry keys 7 btc 500 market ≡ (ok (first_of 7 0 keys 500), after_first)
unfolding create_invoice scalar_one_or_none select text_eq derived_address get register upper
    constraints unique next_derivation_index
test_first = refl

test_both :
    create_invoice registry later_keys 8 btc 900 after_first
    ≡ (ok (first_of 8 0 later_keys 900), after_both)
unfolding create_invoice scalar_one_or_none select text_eq derived_address get register upper
    constraints unique next_derivation_index
test_both = refl

create_invoice_shared_example :
    (first_of 7 0 keys 500).address ≡ (first_of 8 0 later_keys 900).address
unfolding any
create_invoice_shared_example =
    create_invoice_shared registry keys later_keys 7 8 btc 500 900 market refl refl refl test_first
      test_both

other_merchant : (record merchant { id = 8 }).id ≢ merchant.id
other_merchant = λ e. omega arith

-- half a satoshi less than 500
abbrev asked : Decimal
asked = record { units = 49_995; places = 10 }

test_post :
    post_invoice (λ text. text) registry keys merchant btc asked market
    ≡ (ok (new_invoice_out asked (first_of 7 0 keys 500)), after_first)
unfolding post_invoice create_invoice_route create_invoice scalar_one_or_none select text_eq
    sat_rounded derived_address get register upper constraints unique next_derivation_index
test_post = refl

-- a request of merchant 7, answered and then looked up by both merchants
shown_invoice_example :
    (show_invoice merchant 20 after_first ≡ (ok (invoice_out (first_of 7 0 keys 500)), after_first))
    × (show_invoice (record merchant { id = 8 }) 20 after_first
        ≡ (err (http_exception 404), after_first))
unfolding select sat_rounded
shown_invoice_example =
    shown_invoice (λ text. text) registry keys merchant (record merchant { id = 8 }) btc asked
      market refl other_merchant test_post

-- an amount that is more than nothing and less than half a satoshi
abbrev speck : Decimal
speck = record { units = 4; places = 9 }

test_speck : post_invoice (λ text. text) registry keys merchant btc speck market ≡ (
  ok (new_invoice_out speck (first_of 7 0 keys 0)),
  record market { invoices = market.invoices ++ first_of 7 0 keys 0 ∷ [] },
)
unfolding post_invoice create_invoice_route create_invoice scalar_one_or_none select text_eq
    sat_rounded derived_address get register upper constraints unique next_derivation_index
test_speck = refl
