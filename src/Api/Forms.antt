-- ===== src/Api/Forms.antt =====
-- The answers of the invoice and payout endpoints: what core/schemas.py and services/payout/router.py
-- show of a row. A time is shown as it is stored.
pub mod Shown
use crypto_pay_system.Prelude.{ℕ, List, Option, map}
use crypto_pay_system.Prelude.Exec.{Exec, pure, ◌>>=◌}
use crypto_pay_system.Prelude.Text.{Text}
use crypto_pay_system.Models.{InvoiceStatus, PayoutStatus, Invoice, Payout, Merchant, Db, Settings}
use crypto_pay_system.Providers.Registry.{Registry}
use crypto_pay_system.Invoicing.{InvoiceKeys}
use crypto_pay_system.Api.Amount.{Decimal, of_sat}
use crypto_pay_system.Api.Invoices.{create_invoice_route, list_invoices, get_invoice}
use crypto_pay_system.Api.Payouts.{
  PayoutCreateRequest, PayoutKeys, create_payout, list_payouts, get_payout,
}

pub record InvoiceOut : Type 0 where
  pub id : ℕ
  pub coin_id : ℕ
  pub merchant_id : ℕ
  pub address : Text
  pub amount_expected : Decimal
  pub status : InvoiceStatus
  pub derivation_index : ℕ

-- `InvoiceOut.model_validate`
abbrev pub invoice_out : Invoice → InvoiceOut
invoice_out i = record {
  id = i.id;
  coin_id = i.coin_id;
  merchant_id = i.merchant_id;
  address = i.address;
  amount_expected = of_sat i.amount_expected;
  status = i.status;
  derivation_index = i.derivation_index;
}

-- The row that was just added still has the amount of the request: it is not read again.
abbrev pub new_invoice_out : Decimal → Invoice → InvoiceOut
new_invoice_out amount i = record (invoice_out i) { amount_expected = amount }

pub record PayoutOut : Type 0 where
  pub id : ℕ
  pub merchant_id : ℕ
  pub destination_address : Text
  pub amount_requested : Decimal
  pub amount_net : Option ℕ
  pub miner_fee : Option ℕ
  pub status : PayoutStatus
  pub txid : Option Text
  pub created_at : ℕ
  pub sent_at : Option ℕ

-- `PayoutOut.from_orm`
abbrev pub payout_out : Payout → PayoutOut
payout_out p = record {
  id = p.id;
  merchant_id = p.merchant_id;
  destination_address = p.destination_address;
  amount_requested = of_sat p.amount_requested;
  amount_net = p.amount_net;
  miner_fee = p.miner_fee;
  status = p.status;
  txid = p.txid;
  created_at = p.created_at;
  sent_at = p.sent_at;
}

abbrev pub new_payout_out : Decimal → Payout → PayoutOut
new_payout_out amount p = record (payout_out p) { amount_requested = amount }

-- the answer of a handler, made of what it has found
pub formed : {A B : Type 0} → (A → B) → Exec Db A → Exec Db B
formed form found = found >>= λ a. pure (form a)

-- the endpoints of invoices; `str.strip` is Python's
unfoldable pub post_invoice :
    (Text → Text) → Registry → InvoiceKeys → Merchant → Text → Decimal → Exec Db InvoiceOut
unfolding formed
post_invoice strip registry keys merchant coin_symbol amount =
    formed (new_invoice_out amount)
      (create_invoice_route strip registry keys merchant coin_symbol amount)

pub show_invoice : Merchant → ℕ → Exec Db InvoiceOut
unfolding formed
show_invoice merchant invoice_id = formed invoice_out (get_invoice merchant invoice_id)

pub show_invoices : Merchant → Option InvoiceStatus → ℕ → ℕ → Exec Db (List InvoiceOut)
unfolding formed
show_invoices merchant status_filter limit offset =
    formed (map invoice_out) (list_invoices merchant status_filter limit offset)

-- the endpoints of payouts
pub post_payout :
    (Text → Text)
    → Settings
    → Registry
    → PayoutKeys
    → Merchant
    → PayoutCreateRequest
    → Exec Db PayoutOut
unfolding formed
post_payout strip settings registry keys merchant r =
    formed (new_payout_out r.amount) (create_payout strip settings registry keys merchant r)

pub show_payout : Merchant → ℕ → Exec Db PayoutOut
unfolding formed
show_payout merchant payout_id = formed payout_out (get_payout merchant payout_id)

pub show_payouts : Merchant → Option PayoutStatus → ℕ → ℕ → Exec Db (List PayoutOut)
unfolding formed
show_payouts merchant status_filter limit offset =
    formed (map payout_out) (list_payouts merchant status_filter limit offset)
