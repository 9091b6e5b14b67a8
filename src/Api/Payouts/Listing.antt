-- ===== src/Api/Payouts/Listing.antt =====
-- Whose payouts the endpoints show.
use crypto_pay_system.Prelude.{
  ℕ, ◌≤◌, ◌≡◌, true, ◌==◌, ◌&&◌, List, [], ◌∷◌, Option, arith, length, All,
}
use crypto_pay_system.Prelude.Exec.{ok}
use crypto_pay_system.Prelude.Rows.{select, select-holds, scalar_one_or_none}
use crypto_pay_system.Models.{PayoutStatus, Merchant, Payout, Db}
use crypto_pay_system.Api.Paging.{
  page, All-page, All-select, page-IsDescending, IsDescending, length-page,
}
use crypto_pay_system.Api.Payouts.{status_is, is_own_payout, list_payouts, found_or_404, get_payout}

-- A row that a merchant may see under a filter.
abbrev pub IsVisible : Merchant → Option PayoutStatus → Payout → Type 0
IsVisible merchant filter p = (p.merchant_id ≡ merchant.id) × (status_is filter p ≡ true)

visible :
    (merchant : Merchant) (filter : Option PayoutStatus) (rows : List Payout)
    → All (λ p. (is_own_payout merchant.id p && status_is filter p) ≡ true) rows
    → All (IsVisible merchant filter) rows
visible merchant filter [] h = tt
visible merchant filter (p ∷ rows) h =
    ((ground arith, ground arith), visible merchant filter rows h.1)

-- A listing shows the merchant's own payouts only, of the status that was asked for, newest first,
-- never more than the limit nor than 200, and changes nothing.
pub list_payouts_lem :
    (merchant : Merchant) (filter : Option PayoutStatus) (limit offset : ℕ) (db : Db)
    {rows : List Payout} {db' : Db}
    → list_payouts merchant filter limit offset db ≡ (ok rows, db')
    → All (IsVisible merchant filter) rows
      × IsDescending (λ p. p.created_at) rows
      × (length rows ≤ limit)
      × (limit ≤ 200)
      × (db' ≡ db)
unfolding list_payouts
list_payouts_lem merchant filter limit offset db {rows} {db'} e =
    let found = select (λ p. is_own_payout merchant.id p && status_is filter p) db.payouts in
    let shown : rows ≡ page (λ p. p.created_at) limit offset found = ground arith in
    (
      rw shown (
          All-page (λ p. p.created_at) (IsVisible merchant filter) limit offset found
            (visible merchant filter found
              (All-select (λ p. is_own_payout merchant.id p && status_is filter p) db.payouts))),
      rw shown (page-IsDescending (λ p. p.created_at) limit offset found),
      rw shown (length-page (λ p. p.created_at) limit offset found),
      ground arith,
      ground arith,
    )

one_row :
    (rows : List Payout) {p : Payout}
    → found_or_404 (scalar_one_or_none rows) ≡ ok p
    → rows ≡ p ∷ []
unfolding found_or_404 scalar_one_or_none
one_row [] h = cc
one_row (r ∷ []) h = cc
one_row (r ∷ s ∷ rows) h = cc

-- The endpoint of one payout answers with the payout of that id, and only to its merchant.
pub get_payout_lem :
    (merchant : Merchant) (id : ℕ) (db : Db) {p : Payout} {db' : Db}
    → get_payout merchant id db ≡ (ok p, db')
    → (p.id ≡ id) × (p.merchant_id ≡ merchant.id) × (db' ≡ db)
unfolding get_payout
get_payout_lem merchant id db {p} e =
    let own = λ (q : Payout). q.id == id && is_own_payout merchant.id q in
    let here = select-holds own db.payouts p [] (one_row (select own db.payouts) (cc e)) in
    (ground arith, ground arith, cc e)
