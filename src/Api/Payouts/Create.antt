-- ===== src/Api/Payouts/Create.antt =====
-- Which requests for a payout are accepted, what they add, and the payout that then runs.
use crypto_pay_system.Prelude.{
  ℕ, ◌≤◌, ◌≡◌, ◌≢◌, refl, sym, ap, ◌∙◌, false, not, ltb, List, [], ◌∷◌, ◌++◌, arith, if◌then◌else◌,
}
use crypto_pay_system.Prelude.Exec.{ok, err, lift, ◌>>=◌, ◌>>◌, lift->>=-eq-ok}
use crypto_pay_system.Prelude.Int.{ℤ, pos, ◌+ℤ◌, ◌≤ℤ◌, int_laws}
use crypto_pay_system.Prelude.Rows.{select, sum, sum-append, sum-one, scalar_one_or_none}
use crypto_pay_system.Prelude.Text.{Text, upper}
use crypto_pay_system.Models.{Coin, Merchant, Balance, Payout, Db, Settings}
use crypto_pay_system.Providers.Registry.{Registry}
use crypto_pay_system.Ledger.Accounting.{is_account, flush}
use crypto_pay_system.Funds.{is_sent, held, paid_out, paid_weight, IsSolvent}
use crypto_pay_system.Invoicing.{is_active_coin}
use crypto_pay_system.Payout.Processor.{Env, is_payout, execute}
use crypto_pay_system.Payout.Processor.Books.{NotSent, Ready}
use crypto_pay_system.Payout.Processor.Solvency.{execute-IsSolvent}
use crypto_pay_system.Api.Amount.{sat_floor, is_below, is_below-sat_rounded, sat_floor-sat_rounded}
use crypto_pay_system.Api.Payouts.{
  PayoutCreateRequest, PayoutKeys, unprocessable, valid_payout, found_or_422, load_coin,
  check_address, load_balance, new_payout, inserted, with_coin, create_payout,
}

found_one :
    {A : Type 0} (rows : List A) {a : A}
    → found_or_422 (scalar_one_or_none rows) ≡ ok a
    → rows ≡ a ∷ []
unfolding found_or_422 scalar_one_or_none
found_one [] h = cc
found_one (r ∷ []) h = cc
found_one (r ∷ s ∷ rows) h = cc

inserted_inv :
    (keys : PayoutKeys) (merchant : Merchant) (coin : Coin) (r : PayoutCreateRequest) (b : Balance)
    (db : Db) {p : Payout} {db' : Db}
    → inserted keys merchant coin r b db ≡ (ok p, db')
    → (is_below b.amount_available r.amount ≡ false)
      × (p ≡ new_payout keys merchant coin r)
      × (db' ≡ record db { payouts = db.payouts ++ p ∷ [] })
unfolding inserted flush
inserted_inv keys merchant coin r b db e = (ground arith, ground arith, ground arith)

-- What an accepted request has passed, and what it added.
pub record Accepted (settings : Settings) (registry : Registry) (keys : PayoutKeys)
    (merchant : Merchant) (r : PayoutCreateRequest) (symbol : Text) (db : Db) (coin : Coin)
    (balance : Balance) (p : Payout) (db' : Db) : Type 0 where
  pub known : select (is_active_coin symbol) db.coins ≡ coin ∷ []
  pub enough : settings.payout_min_amount_sat ≤ sat_floor r.amount
  pub destination : check_address registry symbol r.destination_address ≡ ok tt
  pub account : select (is_account merchant.id coin.id) db.balances ≡ balance ∷ []
  pub covered : is_below balance.amount_available r.amount ≡ false
  pub least : settings.payout_min_amount_sat ≤ p.amount_requested
  pub affordable : pos p.amount_requested ≤ℤ balance.amount_available
  pub row : p ≡ new_payout keys merchant coin r
  pub added : db' ≡ record db { payouts = db.payouts ++ p ∷ [] }

with_coin_inv :
    (settings : Settings) (registry : Registry) (keys : PayoutKeys) (merchant : Merchant)
    (r : PayoutCreateRequest) (symbol : Text) (coin : Coin) (db : Db) {p : Payout} {db' : Db}
    → select (is_active_coin symbol) db.coins ≡ coin ∷ []
    → with_coin settings registry keys merchant r symbol coin db ≡ (ok p, db')
    → (b : Balance) × Accepted settings registry keys merchant r symbol db coin b p db'
unfolding with_coin load_balance
with_coin_inv settings registry keys merchant r symbol coin db known e =
    let last = λ (b : Balance). inserted keys merchant coin r b in
    let account = select (is_account merchant.id coin.id) db.balances in
    let check = check_address registry symbol r.destination_address in
    let (u, e1, k1) =
      lift->>=-eq-ok
        (if ltb (sat_floor r.amount) settings.payout_min_amount_sat
          then err unprocessable
          else ok tt)
        (λ _. lift check >> (load_balance merchant.id coin.id >>= last)) db e in
    let (v, e2, k2) = lift->>=-eq-ok check (λ _. load_balance merchant.id coin.id >>= last) db k1 in
    let (b, e3, k3) = lift->>=-eq-ok (found_or_422 (scalar_one_or_none account)) last db k2 in
    let (cov, row, added) = inserted_inv keys merchant coin r b db k3 in
    let enough : settings.payout_min_amount_sat ≤ sat_floor r.amount = ground arith in
    (
      b,
      record {
        known = known;
        enough = enough;
        destination = e2;
        account = found_one account e3;
        covered = cov;
        least = rw row (omega (arith, enough, sat_floor-sat_rounded r.amount));
        affordable = rw row (is_below-sat_rounded b.amount_available r.amount cov);
        row = row;
        added = added;
      },
    )

module _ (strip : Text → Text) where
  -- A request for a payout that is accepted names an active coin; its amount is at least the
  -- minimum, counted in whole satoshis, and not more than what the merchant's account has
  -- available; its destination is valid for the coin's provider, if the coin has one. The request
  -- adds one PENDING payout of the amount rounded to satoshis, which is at least the minimum and
  -- not more than what is available either, and changes nothing else.
  pub create_payout_lem :
      (settings : Settings) (registry : Registry) (keys : PayoutKeys) (merchant : Merchant)
      (r : PayoutCreateRequest) (db : Db) {p : Payout} {db' : Db}
      → create_payout strip settings registry keys merchant r db ≡ (ok p, db')
      → (coin : Coin) × (b : Balance) × Accepted settings registry keys merchant r
          (strip (upper r.coin_symbol))
          db
          coin
          b
          p
          db'
  unfolding create_payout load_coin
  create_payout_lem settings registry keys merchant r db e =
      let symbol = strip (upper r.coin_symbol) in
      let named = select (is_active_coin symbol) db.coins in
      let last = λ (coin : Coin). with_coin settings registry keys merchant r symbol coin in
      let (u, e1, k1) =
        lift->>=-eq-ok (if not (valid_payout r) then err unprocessable else ok tt)
          (λ _. load_coin symbol >>= last) db e in
      let (coin, e2, k2) = lift->>=-eq-ok (found_or_422 (scalar_one_or_none named)) last db k1 in
      let known = found_one named e2 in
      let (b, k) = with_coin_inv settings registry keys merchant r symbol coin db known k2 in
      (coin, b, k)

plus_nothing : (a : ℤ) → a +ℤ pos 0 ≡ a
plus_nothing a = omega int_laws

unsent_weight : (m c : ℕ) (p : Payout) → is_sent p.status ≡ false → paid_weight m c p ≡ pos 0
unfolding paid_weight
unsent_weight m c p h = rw h refl

paid-pending :
    (m c : ℕ) (db : Db) (p : Payout)
    → is_sent p.status ≡ false
    → sum (paid_weight m c) (db.payouts ++ p ∷ []) ≡ paid_out m c db
paid-pending m c db p h =
    sum-append (paid_weight m c) db.payouts (p ∷ [])
    ∙ ap (λ x. paid_out m c db +ℤ x) (sum-one (paid_weight m c) p ∙ unsent_weight m c p h)
    ∙ plus_nothing (paid_out m c db)

-- A row that is added to payouts in which its id does not occur is the one that the id finds.
found-added :
    (id : ℕ) (p : Payout) (rows : List Payout)
    → select (is_payout id) rows ≡ []
    → select (is_payout id) (rows ++ p ∷ []) ≡ select (is_payout id) (p ∷ [])
unfolding select
found-added id p [] h = refl
found-added id p (r ∷ rows) h = ground (arith, found-added id p rows)

new-NotSent :
    (id : ℕ) (p : Payout) (db : Db)
    → select (is_payout id) db.payouts ≡ []
    → is_sent p.status ≡ false
    → NotSent id (record db { payouts = db.payouts ++ p ∷ [] })
unfolding select
new-NotSent id p db fresh unsent q e =
    let one = sym (found-added id p db.payouts fresh) ∙ e in ground (arith, one)

-- An added payout with another id is not found.
other-added :
    (k : ℕ) (p : Payout) (rows : List Payout)
    → k ≢ p.id
    → select (is_payout k) (rows ++ p ∷ []) ≡ select (is_payout k) rows
unfolding select
other-added k p [] ne = ground arith
other-added k p (r ∷ rows) ne = ground (arith, other-added k p rows ne)

module _ (strip : Text → Text) where
  -- An accepted request leaves the payouts of the other ids.
  pub create_payout-others :
      (settings : Settings) (registry : Registry) (keys : PayoutKeys) (merchant : Merchant)
      (r : PayoutCreateRequest) (db : Db) {p : Payout} {db' : Db}
      → create_payout strip settings registry keys merchant r db ≡ (ok p, db')
      → (k : ℕ) → k ≢ keys.payout_id
      → select (is_payout k) db'.payouts ≡ select (is_payout k) db.payouts
  create_payout-others settings registry keys merchant r db {p} e j ne =
      let (coin, b, k) = create_payout_lem strip settings registry keys merchant r db e in
      let named = ap (λ (q : Payout). q.id) k.row in
      rw k.added (other-added j p db.payouts (λ same. ne (same ∙ named)))

  -- An accepted request keeps the books, adds a payout that can be sent, and leaves the others.
  pub create_payout-Ready :
      (settings : Settings) (registry : Registry) (keys : PayoutKeys) (merchant : Merchant)
      (r : PayoutCreateRequest) (db : Db) {p : Payout} {db' : Db}
      → IsSolvent db
      → select (is_payout keys.payout_id) db.payouts ≡ []
      → create_payout strip settings registry keys merchant r db ≡ (ok p, db')
      → Ready keys.payout_id db'
        × ((k : ℕ)
            → k ≢ keys.payout_id
            → select (is_payout k) db'.payouts ≡ select (is_payout k) db.payouts)
  create_payout-Ready settings registry keys merchant r db {p} {db'} s fresh e =
      let (coin, b, k) = create_payout_lem strip settings registry keys merchant r db e in
      let unsent = ap (λ (q : Payout). is_sent q.status) k.row in
      (
        rw k.added (
          λ m c. ap (λ x. held m c db +ℤ x) (paid-pending m c db p unsent) ∙ s m c,
          new-NotSent keys.payout_id p db fresh unsent,
        ),
        create_payout-others settings registry keys merchant r db e,
      )

  -- A payout that is requested and then executed keeps the books balanced, whatever the request,
  -- the node and the signer do, if its id is new.
  pub requested-IsSolvent :
      (settings : Settings) (registry : Registry) (keys : PayoutKeys) (merchant : Merchant)
      (r : PayoutCreateRequest) (env : Env) (db : Db) {p : Payout} {db' : Db}
      → IsSolvent db
      → select (is_payout keys.payout_id) db.payouts ≡ []
      → create_payout strip settings registry keys merchant r db ≡ (ok p, db')
      → IsSolvent (execute env keys.payout_id db')
  requested-IsSolvent settings registry keys merchant r env db {p} {db'} s fresh e =
      let ((solvent, unsent), others) =
        create_payout-Ready settings registry keys merchant r db s fresh e in
      execute-IsSolvent env keys.payout_id db' solvent unsent
