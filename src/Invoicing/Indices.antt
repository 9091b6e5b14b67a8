-- ===== src/Invoicing/Indices.antt =====
-- Which derivation index and address a new invoice gets.
use crypto_pay_system.Prelude.{
  ℕ, ◌≤◌, ◌==◌, ◌&&◌, ◌≡◌, refl, sym, ap, ◌∙◌, Bool, false, List, [], ◌∷◌, ◌++◌, arith,
}
use crypto_pay_system.Prelude.Exec.{ok, lift, ◌>>=◌, >>=-eq-ok}
use crypto_pay_system.Prelude.Rows.{select, any, scalar_one_or_none, select-holds}
use crypto_pay_system.Prelude.Text.{Text}
use crypto_pay_system.Models.{InvoiceStatus, Coin, Merchant, Invoice, Db}
use crypto_pay_system.Providers.Registry.{Registry}
use crypto_pay_system.Ledger.Accounting.{flush}
use crypto_pay_system.Invoicing.{
  InvoiceKeys, found_or_error, is_active_coin, get_active_coin, get_merchant, is_invoice_of,
  next_derivation_index, new_invoice, derived_address, saved, allotted, create_invoice,
}

-- no invoice of the merchant for the coin has this index
abbrev pub is_index_of : ℕ → ℕ → ℕ → Invoice → Bool
is_index_of m c n i = is_invoice_of m c i && i.derivation_index == n

index_above :
    (m c n : ℕ) (is : List Invoice)
    → next_derivation_index m c is ≤ n
    → any (is_index_of m c n) is ≡ false
unfolding next_derivation_index any
index_above m c n [] h = refl
index_above m c n (i ∷ is) h = ground (arith, index_above m c n is)

first_index :
    (m c : ℕ) (is : List Invoice)
    → any (λ i. i.merchant_id == m) is ≡ false
    → next_derivation_index m c is ≡ 0
unfolding next_derivation_index any
first_index m c [] h = refl
first_index m c (i ∷ is) h = ground (arith, first_index m c is)

-- What a creation that succeeds has found and added.
pub record Created (registry : Registry) (keys : InvoiceKeys) (m : ℕ) (symbol : Text) (amount : ℕ)
    (db : Db) (inv : Invoice) (db' : Db) : Type 0 where
  pub coin : Coin
  pub found : select (is_active_coin symbol) db.coins ≡ coin ∷ []
  pub merchant : Merchant
  pub owner : merchant.id ≡ m
  pub address : Text
  pub derived :
      derived_address registry coin (next_derivation_index merchant.id coin.id db.invoices)
      ≡ ok address
  pub row :
      inv
      ≡ new_invoice keys coin merchant address amount
          (next_derivation_index merchant.id coin.id db.invoices)
  pub added : db' ≡ record db { invoices = db.invoices ++ inv ∷ [] }

saved_inv :
    (i : Invoice) (db : Db) {inv : Invoice} {db' : Db}
    → saved i db ≡ (ok inv, db')
    → (inv ≡ i) × (db' ≡ record db { invoices = db.invoices ++ inv ∷ [] })
unfolding saved flush
saved_inv i db e = (ground arith, ground arith)

allotted_inv :
    (registry : Registry) (keys : InvoiceKeys) (coin : Coin) (merchant : Merchant) (amount : ℕ)
    (db : Db) {inv : Invoice} {db' : Db}
    → allotted registry keys coin merchant amount db ≡ (ok inv, db')
    → let n = next_derivation_index merchant.id coin.id db.invoices in
      (address : Text) × (derived_address registry coin n ≡ ok address)
      × (inv ≡ new_invoice keys coin merchant address amount n)
      × (db' ≡ record db { invoices = db.invoices ++ inv ∷ [] })
unfolding allotted
allotted_inv registry keys coin merchant amount db e =
    let n = next_derivation_index merchant.id coin.id db.invoices in
    let (address, db1, e1, k) =
      >>=-eq-ok (lift (derived_address registry coin n))
        (λ address. saved (new_invoice keys coin merchant address amount n)) db e in
    let same : db1 ≡ db = cc e1 in
    let (row, added) =
      saved_inv (new_invoice keys coin merchant address amount n) db (rw same at k) in
    (address, cc e1, row, added)

required_one :
    {A : Type 0} (rows : List A) {a : A}
    → found_or_error (scalar_one_or_none rows) ≡ ok a
    → rows ≡ a ∷ []
unfolding found_or_error scalar_one_or_none
required_one [] h = cc
required_one (r ∷ []) h = cc
required_one (r ∷ s ∷ rows) h = cc

coin_inv :
    (symbol : Text) (db : Db) {c : Coin} {db' : Db}
    → get_active_coin symbol db ≡ (ok c, db')
    → (select (is_active_coin symbol) db.coins ≡ c ∷ []) × (db' ≡ db)
unfolding get_active_coin
coin_inv symbol db e = (required_one (select (is_active_coin symbol) db.coins) (cc e), cc e)

merchant_inv :
    (id : ℕ) (db : Db) {m : Merchant} {db' : Db}
    → get_merchant id db ≡ (ok m, db')
    → (m.id ≡ id) × (db' ≡ db)
unfolding get_merchant
merchant_inv id db {m} e =
    let one = required_one (select (λ (m : Merchant). m.id == id) db.merchants) {a = m} (cc e) in
    let here = select-holds (λ (m : Merchant). m.id == id) db.merchants m [] one in
    (ground (arith, here), cc e)

pub create_inv :
    (registry : Registry) (keys : InvoiceKeys) (m : ℕ) (symbol : Text) (amount : ℕ) (db : Db)
    {inv : Invoice} {db' : Db}
    → create_invoice registry keys m symbol amount db ≡ (ok inv, db')
    → Created registry keys m symbol amount db inv db'
unfolding create_invoice
create_inv registry keys m symbol amount db e =
    let (coin, db1, e1, k1) =
      >>=-eq-ok (get_active_coin symbol)
        (λ coin. get_merchant m >>= λ merchant. allotted registry keys coin merchant amount) db e in
    let (only, same1) = coin_inv symbol db e1 in
    let (merchant, db2, e2, k2) =
      >>=-eq-ok (get_merchant m) (λ merchant. allotted registry keys coin merchant amount) db
        (rw same1 at k1) in
    let (owner, same2) = merchant_inv m db e2 in
    let (address, derived, row, added) =
      allotted_inv registry keys coin merchant amount db (rw same2 at k2) in
    record {
      coin = coin;
      found = only;
      merchant = merchant;
      owner = owner;
      address = address;
      derived = derived;
      row = row;
      added = added;
    }

-- A creation that succeeds adds one NEW invoice for the merchant and changes nothing else. Its index
-- is one that no invoice of this merchant for this coin has, and its address is the one that the
-- provider of the coin derives for that index alone.
pub create_invoice_lem :
    (registry : Registry) (keys : InvoiceKeys) (m : ℕ) (symbol : Text) (amount : ℕ) (db : Db)
    {inv : Invoice} {db' : Db}
    → create_invoice registry keys m symbol amount db ≡ (ok inv, db')
    → (coin : Coin) × (select (is_active_coin symbol) db.coins ≡ coin ∷ [])
      × (derived_address registry coin inv.derivation_index ≡ ok inv.address)
      × (inv.merchant_id ≡ m)
      × (inv.coin_id ≡ coin.id)
      × (inv.status ≡ InvoiceStatus.new)
      × (inv.amount_expected ≡ amount)
      × (any (is_index_of inv.merchant_id inv.coin_id inv.derivation_index) db.invoices ≡ false)
      × (db' ≡ record db { invoices = db.invoices ++ inv ∷ [] })
create_invoice_lem registry keys m symbol amount db {inv} e =
    let k = create_inv registry keys m symbol amount db e in
    let n = next_derivation_index k.merchant.id k.coin.id db.invoices in
    (
      k.coin,
      k.found,
      ap (λ (i : Invoice). derived_address registry k.coin i.derivation_index) k.row
          ∙ k.derived
          ∙ ap (λ (i : Invoice). ok i.address) (sym k.row),
      ap (λ (i : Invoice). i.merchant_id) k.row ∙ k.owner,
      ap (λ (i : Invoice). i.coin_id) k.row,
      ap (λ (i : Invoice). i.status) k.row,
      ap (λ (i : Invoice). i.amount_expected) k.row,
      ap (λ (i : Invoice). any (is_index_of i.merchant_id i.coin_id i.derivation_index) db.invoices)
            k.row
          ∙ index_above k.merchant.id k.coin.id n db.invoices (omega arith),
      k.added,
    )

ok_inj : {a b : Text} → ok a ≡ ok b → a ≡ b
ok_inj e = cc

any-snoc :
    (p : Invoice → Bool) (is : List Invoice) (i : Invoice)
    → any p is ≡ false
    → p i ≡ false
    → any p (is ++ i ∷ []) ≡ false
unfolding any
any-snoc p [] i h k = ground (arith, k)
any-snoc p (j ∷ is) i h k = ground (arith, any-snoc p is i)

same_coin :
    (symbol : Text) (cs cs' : List Coin) (c c' : Coin)
    → cs' ≡ cs
    → select (is_active_coin symbol) cs ≡ c ∷ []
    → select (is_active_coin symbol) cs' ≡ c' ∷ []
    → c' ≡ c
same_coin symbol cs cs' c c' e h h' = cc

first_address :
    (registry : Registry) (keys : InvoiceKeys) (m : ℕ) (symbol : Text) (amount : ℕ) (db : Db)
    (inv : Invoice) (db' : Db) (k : Created registry keys m symbol amount db inv db')
    → any (λ i. i.merchant_id == m) db.invoices ≡ false
    → derived_address registry k.coin 0 ≡ ok inv.address
first_address registry keys m symbol amount db inv db' k none_m =
    let none_k = ap (λ x. any (λ i. i.merchant_id == x) db.invoices) k.owner ∙ none_m in
    ap (derived_address registry k.coin)
      (sym (first_index k.merchant.id k.coin.id db.invoices none_k))
    ∙ k.derived
    ∙ ap (λ (i : Invoice). ok i.address) (sym k.row)

-- Two merchants who have no invoice yet, and one after the other create an invoice for the same
-- coin, are given the same deposit address.
pub create_invoice_shared :
    (registry : Registry) (keys keys' : InvoiceKeys) (m m' : ℕ) (symbol : Text) (amount amount' : ℕ)
    (db : Db) {inv inv' : Invoice} {db' db'' : Db}
    → (m == m') ≡ false
    → any (λ i. i.merchant_id == m) db.invoices ≡ false
    → any (λ i. i.merchant_id == m') db.invoices ≡ false
    → create_invoice registry keys m symbol amount db ≡ (ok inv, db')
    → create_invoice registry keys' m' symbol amount' db' ≡ (ok inv', db'')
    → inv.address ≡ inv'.address
create_invoice_shared registry keys keys' m m' symbol amount amount' db {inv} {inv'} {db'} {db''}
      differ none_m none_m' e e' =
    let k = create_inv registry keys m symbol amount db e in
    let k' = create_inv registry keys' m' symbol amount' db' e' in
    let other : (inv.merchant_id == m') ≡ false =
      ap (λ x. x == m') (ap (λ (i : Invoice). i.merchant_id) k.row ∙ k.owner) ∙ differ in
    let none_later : any (λ i. i.merchant_id == m') db'.invoices ≡ false =
      ap (λ (d : Db). any (λ i. i.merchant_id == m') d.invoices) k.added
      ∙ any-snoc (λ i. i.merchant_id == m') db.invoices inv none_m' other in
    let coin =
      same_coin symbol db.coins db'.coins k.coin k'.coin (ap (λ (d : Db). d.coins) k.added) k.found
        k'.found in
    ok_inj (
      sym (first_address registry keys m symbol amount db inv db' k none_m)
      ∙ ap (λ c. derived_address registry c 0) (sym coin)
      ∙ first_address registry keys' m' symbol amount' db' inv' db'' k' none_later)
