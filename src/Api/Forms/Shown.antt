-- ===== src/Api/Forms/Shown.antt =====
-- What is shown of an invoice or a payout that was just created.
use crypto_pay_system.Prelude.{
  ℕ, ◌≡◌, ◌≢◌, refl, ap, ◌∙◌, Bool, true, false, ◌&&◌, ◌==◌, ==_iff, List, [], ◌∷◌, ◌++◌, arith,
  if◌then◌else◌,
}
use crypto_pay_system.Prelude.Exec.{Exec, ok, err, http_exception, pure, lift, ◌>>=◌, >>=-eq-ok}
use crypto_pay_system.Prelude.Rows.{select, scalar_one_or_none}
use crypto_pay_system.Prelude.Text.{Text, upper}
use crypto_pay_system.Models.{Invoice, Payout, Merchant, Db, Settings}
use crypto_pay_system.Providers.Registry.{Registry}
use crypto_pay_system.Invoicing.{InvoiceKeys}
use crypto_pay_system.Invoicing.Indices.{create_inv}
use crypto_pay_system.Payout.Processor.{is_payout}
use crypto_pay_system.Api.Amount.{Decimal, of_sat, sat_rounded}
use crypto_pay_system.Api.Invoices.{
  create_invoice_route, create_invoice_route_inv, is_own_invoice, found_or_404, or_404, get_invoice,
}
use crypto_pay_system.Api.Payouts
use crypto_pay_system.Api.Payouts.{
  is_own_payout, PayoutCreateRequest, PayoutKeys, create_payout, get_payout,
}
use crypto_pay_system.Api.Payouts.Create.{create_payout_lem}
use crypto_pay_system.Api.Forms.{
  formed, InvoiceOut, invoice_out, new_invoice_out, PayoutOut, payout_out, new_payout_out,
  post_invoice, show_invoice, post_payout, show_payout,
}

module _ {A : Type 0} (key own : A → Bool) where
  -- a new row under a new key, and a query for the key with a condition on the owner
  owned_added :
      (rows : List A) (r : A)
      → select key rows ≡ []
      → key r ≡ true
      → select (λ a. key a && own a) (rows ++ r ∷ []) ≡ (if own r then r ∷ [] else [])
  unfolding select
  owned_added [] r none_yet k = ground arith
  owned_added (a ∷ rows) r none_yet k = ground (arith, owned_added rows r)

formed_inv :
    {A B : Type 0} (form : A → B) (m : Exec Db A) (db : Db) {b : B} {db' : Db}
    → formed form m db ≡ (ok b, db')
    → (a : A) × (m db ≡ (ok a, db')) × (b ≡ form a)
unfolding formed
formed_inv form m db {b} {db'} e =
    let (a, db1, e1, k) = >>=-eq-ok m (λ a. pure (form a)) db e in
    let same : db1 ≡ db' = cc k in (a, e1 ∙ ap (λ (d : Db). (ok a, d)) same, cc k)

invoice_found :
    (merchant : Merchant) (id : ℕ) (db : Db) (i : Invoice)
    → select (λ x. x.id == id && is_own_invoice merchant.id x) db.invoices ≡ i ∷ []
    → show_invoice merchant id db ≡ (ok (invoice_out i), db)
unfolding show_invoice formed get_invoice found_or_404 or_404 scalar_one_or_none
invoice_found merchant id db i e =
    ap
      (λ (rows : List Invoice).
        (lift (found_or_404 (scalar_one_or_none rows)) >>= λ a. pure (invoice_out a)) db)
      e

invoice_missing :
    (merchant : Merchant) (id : ℕ) (db : Db)
    → select (λ x. x.id == id && is_own_invoice merchant.id x) db.invoices ≡ []
    → show_invoice merchant id db ≡ (err (http_exception 404), db)
unfolding show_invoice formed get_invoice found_or_404 or_404 scalar_one_or_none
invoice_missing merchant id db e =
    ap
      (λ (rows : List Invoice).
        (lift (found_or_404 (scalar_one_or_none rows)) >>= λ a. pure (invoice_out a)) db)
      e

-- a row of one owner among those of another
not_own : (a b c : ℕ) → a ≡ b → c ≢ b → (a == c) ≡ false
not_own a b c e ne = ground arith

module _ (strip : Text → Text) where
  -- An invoice that a request has opened under a new id is shown to the merchant who asked for it
  -- as it was answered, but with the amount rounded to whole satoshis; to every other merchant its
  -- id is answered with 404.
  pub shown_invoice :
      (registry : Registry) (keys : InvoiceKeys) (merchant other : Merchant) (coin_symbol : Text)
      (amount : Decimal) (db : Db) {out : InvoiceOut} {db' : Db}
      → select (λ i. i.id == keys.invoice_id) db.invoices ≡ []
      → other.id ≢ merchant.id
      → post_invoice strip registry keys merchant coin_symbol amount db ≡ (ok out, db')
      → (show_invoice merchant keys.invoice_id db'
          ≡ (ok (record out { amount_expected = of_sat (sat_rounded amount) }), db'))
        × (show_invoice other keys.invoice_id db' ≡ (err (http_exception 404), db'))
  unfolding post_invoice
  shown_invoice registry keys merchant other coin_symbol amount db {out} {db'} unused ne e =
      let (i, made, form) =
        formed_inv (new_invoice_out amount)
          (create_invoice_route strip registry keys merchant coin_symbol amount) db e in
      let k =
        create_inv registry keys merchant.id (strip (upper coin_symbol)) (sat_rounded amount) db
          (create_invoice_route_inv strip registry keys merchant coin_symbol amount db made) in
      let named : i.id ≡ keys.invoice_id = ap (λ (x : Invoice). x.id) k.row in
      let kept : i.amount_expected ≡ sat_rounded amount =
        ap (λ (x : Invoice). x.amount_expected) k.row in
      let owner : i.merchant_id ≡ merchant.id =
        ap (λ (x : Invoice). x.merchant_id) k.row ∙ k.owner in
      let seen_by = λ (m : Merchant).
        ap (λ (d : Db). select (λ x. x.id == keys.invoice_id && is_own_invoice m.id x) d.invoices)
          k.added
        ∙ owned_added (λ (x : Invoice). x.id == keys.invoice_id) (is_own_invoice m.id) db.invoices i
            unused ((==_iff _ _).1 named) in
      (
        invoice_found merchant keys.invoice_id db' i
              (seen_by merchant ∙ rw ((==_iff _ _).1 owner) refl)
            ∙ ap (λ o. (ok o, db')) (rw (form, ← kept) refl),
        invoice_missing other keys.invoice_id db'
            (seen_by other ∙ rw (not_own i.merchant_id merchant.id other.id owner ne) refl),
      )

payout_found :
    (merchant : Merchant) (id : ℕ) (db : Db) (p : Payout)
    → select (λ x. x.id == id && is_own_payout merchant.id x) db.payouts ≡ p ∷ []
    → show_payout merchant id db ≡ (ok (payout_out p), db)
unfolding show_payout formed get_payout Payouts.found_or_404 Payouts.or_404 scalar_one_or_none
payout_found merchant id db p e =
    ap
      (λ (rows : List Payout).
        (lift (Payouts.found_or_404 (scalar_one_or_none rows)) >>= λ a. pure (payout_out a)) db)
      e

payout_missing :
    (merchant : Merchant) (id : ℕ) (db : Db)
    → select (λ x. x.id == id && is_own_payout merchant.id x) db.payouts ≡ []
    → show_payout merchant id db ≡ (err (http_exception 404), db)
unfolding show_payout formed get_payout Payouts.found_or_404 Payouts.or_404 scalar_one_or_none
payout_missing merchant id db e =
    ap
      (λ (rows : List Payout).
        (lift (Payouts.found_or_404 (scalar_one_or_none rows)) >>= λ a. pure (payout_out a)) db)
      e

module _ (strip : Text → Text) where
  -- A payout that a request has asked for under a new id is shown to the merchant who asked for it
  -- as it was answered, but with the amount rounded to whole satoshis; to every other merchant its
  -- id is answered with 404.
  pub shown_payout :
      (settings : Settings) (registry : Registry) (keys : PayoutKeys) (merchant other : Merchant)
      (r : PayoutCreateRequest) (db : Db) {out : PayoutOut} {db' : Db}
      → select (is_payout keys.payout_id) db.payouts ≡ []
      → other.id ≢ merchant.id
      → post_payout strip settings registry keys merchant r db ≡ (ok out, db')
      → (show_payout merchant keys.payout_id db'
          ≡ (ok (record out { amount_requested = of_sat (sat_rounded r.amount) }), db'))
        × (show_payout other keys.payout_id db' ≡ (err (http_exception 404), db'))
  unfolding post_payout
  shown_payout settings registry keys merchant other r db {out} {db'} unused ne e =
      let (p, made, form) =
        formed_inv (new_payout_out r.amount) (create_payout strip settings registry keys merchant r)
          db e in
      let (coin, b, k) = create_payout_lem strip settings registry keys merchant r db made in
      let named : p.id ≡ keys.payout_id = ap (λ (x : Payout). x.id) k.row in
      let kept : p.amount_requested ≡ sat_rounded r.amount =
        ap (λ (x : Payout). x.amount_requested) k.row in
      let owner : p.merchant_id ≡ merchant.id = ap (λ (x : Payout). x.merchant_id) k.row in
      let seen_by = λ (m : Merchant).
        ap (λ (d : Db). select (λ x. x.id == keys.payout_id && is_own_payout m.id x) d.payouts)
          k.added
        ∙ owned_added (is_payout keys.payout_id) (is_own_payout m.id) db.payouts p unused
            ((==_iff _ _).1 named) in
      (
        payout_found merchant keys.payout_id db' p
              (seen_by merchant ∙ rw ((==_iff _ _).1 owner) refl)
            ∙ ap (λ o. (ok o, db')) (rw (form, ← kept) refl),
        payout_missing other keys.payout_id db'
            (seen_by other ∙ rw (not_own p.merchant_id merchant.id other.id owner ne) refl),
      )
