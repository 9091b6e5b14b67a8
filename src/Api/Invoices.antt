-- ===== src/Api/Invoices.antt =====
-- services/api/routers/invoices.py: the invoice endpoints of an authenticated merchant.
use crypto_pay_system.Prelude.{
  ℕ, ◌≡◌, Bool-cases, inl, inr, arith, ◌==◌, ◌&&◌, leb, ltb, not, Bool, true, List, Option, none,
  some, length,
}
use crypto_pay_system.Prelude.Exec.{
  Exec, Exn, Result, ok, err, value_error, key_error, http_exception, lift, gets, raise_if, ◌>>◌,
}
use crypto_pay_system.Prelude.Rows.{select, scalar_one_or_none}
use crypto_pay_system.Prelude.Text.{Text, upper}
use crypto_pay_system.Models.{InvoiceStatus, Invoice, Merchant, Db, status_eq}
use crypto_pay_system.Providers.Registry.{Registry}
use crypto_pay_system.Invoicing.{InvoiceKeys, create_invoice}
use crypto_pay_system.Api.Paging.{page}
use crypto_pay_system.Api.Amount.{Decimal, sat_rounded}

-- the `except` clauses of `create_invoice`
abbrev pub as_http : Exn → Exn
as_http value_error = http_exception 422
as_http key_error = http_exception 400
as_http _ = http_exception 500

-- `str.strip` is Python's; the symbol is at least 1 and at most 16 characters before it.
module _ (strip : Text → Text) where
  -- `InvoiceCreateRequest`: the symbol as `normalize_symbol` leaves it
  pub valid_request : Text → Decimal → Bool
  valid_request coin_symbol amount =
      leb 1 (length coin_symbol) && leb (length coin_symbol) 16 && ltb 0 amount.units

  answered : Result Invoice × Db → Result Invoice × Db
  answered (ok i, db) = (ok i, db)
  answered (err e, db) = (err (as_http e), db)

  -- the route `create_invoice`, with the row as the database keeps it
  unfoldable pub create_invoice_route :
      Registry → InvoiceKeys → Merchant → Text → Decimal → Exec Db Invoice
  unfolding valid_request answered
  create_invoice_route registry keys merchant coin_symbol amount = do
    raise_if (not (valid_request coin_symbol amount)) (http_exception 422)
    λ db. answered (
        create_invoice registry keys merchant.id (strip (upper coin_symbol)) (sat_rounded amount)
          db)

abbrev pub status_is : Option InvoiceStatus → Invoice → Bool
status_is none i = true
status_is (some s) i = status_eq i.status s

abbrev pub is_own_invoice : ℕ → Invoice → Bool
is_own_invoice merchant_id i = i.merchant_id == merchant_id

-- `list_invoices`
unfoldable pub list_invoices : Merchant → Option InvoiceStatus → ℕ → ℕ → Exec Db (List Invoice)
list_invoices merchant status_filter limit offset = do
  raise_if (not (leb limit 200)) (http_exception 422)
  gets (λ db.
      page (λ i. i.created_at) limit offset
        (select (λ i. is_own_invoice merchant.id i && status_is status_filter i) db.invoices))

unfoldable pub or_404 : Option Invoice → Result Invoice
or_404 none = err (http_exception 404)
or_404 (some i) = ok i

unfoldable pub found_or_404 : Result (Option Invoice) → Result Invoice
unfolding or_404
found_or_404 (ok o) = or_404 o
found_or_404 (err e) = err e

-- `get_invoice`
unfoldable pub get_invoice : Merchant → ℕ → Exec Db Invoice
unfolding found_or_404
get_invoice merchant invoice_id db =
    lift
      (found_or_404 (
        scalar_one_or_none
          (select (λ i. i.id == invoice_id && is_own_invoice merchant.id i) db.invoices)))
      db

module _ (strip : Text → Text) where
  answered_inv :
      (r : Result Invoice × Db) {i : Invoice} {db : Db}
      → answered strip r ≡ (ok i, db)
      → r ≡ (ok i, db)
  unfolding answered
  answered_inv (ok j, d) h = h
  answered_inv (err e, d) h = cc

  -- a request that is answered has made an invoice
  pub create_invoice_route_inv :
      (registry : Registry) (keys : InvoiceKeys) (merchant : Merchant) (coin_symbol : Text)
      (amount : Decimal) (db : Db) {i : Invoice} {db' : Db}
      → create_invoice_route strip registry keys merchant coin_symbol amount db ≡ (ok i, db')
      → create_invoice registry keys merchant.id (strip (upper coin_symbol)) (sat_rounded amount) db
        ≡ (ok i, db')
  unfolding create_invoice_route
  create_invoice_route_inv registry keys merchant coin_symbol amount db {i} {db'} h =
      elim (Bool-cases (valid_request strip coin_symbol amount)) [
        | inl t ↦ answered_inv _ (ground arith)
        | inr f ↦ ground arith
      ]
