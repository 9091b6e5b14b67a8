-- ===== src/Watcher/Matching/Lookup.antt =====
-- The address cache after a refresh, and the table of invoices.
use crypto_pay_system.Prelude.{
  ◌≡◌, refl, ap, ◌∙◌, ◌&&◌, true, ◌≢◌, All, All-map, List, [], ◌∷◌, Bool-cases, inl, inr, Option,
  none, some, arith, if◌then◌else◌,
}
use crypto_pay_system.Prelude.Exec.{ok}
use crypto_pay_system.Prelude.Rows.{select}
use crypto_pay_system.Prelude.Text.{Text, text_eq, text_eq_refl}
use crypto_pay_system.Models.{Invoice, Coin, Db}
use crypto_pay_system.Watcher.Matching.{
  CachedInvoice, Cache, cached, is_active_status, coin_of, entry, with_coin, fill, refresh,
}
use crypto_pay_system.Watcher.Matching.Matches.{cached-store}

-- the first of two answers
abbrev or_else {ℓ} : {A : Type ℓ} → Option A → Option A → Option A
or_else none b = b
or_else (some a) b = some a

entry_of : Invoice → Option Coin → Option CachedInvoice
entry_of inv none = none
entry_of inv (some coin) = some (entry inv coin)

-- The last of the invoices with this address that is active and has a coin.
unfoldable pub watched_invoice : Db → Text → List Invoice → Option CachedInvoice
unfolding entry_of coin_of
watched_invoice db a [] = none
watched_invoice db a (inv ∷ invs) =
    let later = watched_invoice db a invs in
    or_else later (
      if is_active_status inv.status && text_eq inv.address a
      then entry_of inv (coin_of inv.coin_id db.coins)
      else none)

cached-with_coin :
    (a : Text) (inv : Invoice) (found : Option Coin) (d : Cache)
    → cached a (with_coin inv found d)
      ≡ or_else (if text_eq inv.address a then entry_of inv found else none) (cached a d)
unfolding with_coin entry_of
cached-with_coin a inv none d = ground arith
cached-with_coin a inv (some coin) d = ground (arith, cached-store a inv.address (entry inv coin) d)

or_else_assoc {ℓ} :
    {A : Type ℓ} (x y z : Option A) → or_else x (or_else y z) ≡ or_else (or_else x y) z
or_else_assoc none y z = refl
or_else_assoc (some a) y z = refl

or_else-none {ℓ} : {A : Type ℓ} (x : Option A) → or_else x none ≡ x
or_else-none none = refl
or_else-none (some a) = refl

cached-fill :
    (db : Db) (a : Text) (invs : List Invoice) (d : Cache)
    → cached a (fill db (select (λ i. is_active_status i.status) invs) d)
      ≡ or_else (watched_invoice db a invs) (cached a d)
unfolding fill watched_invoice select
cached-fill db a [] d = refl
cached-fill db a (inv ∷ invs) d =
    let coin = coin_of inv.coin_id db.coins in
    let later = watched_invoice db a invs in
    elim (Bool-cases (is_active_status inv.status)) [
      | inl t ↦ rw t (
          cached-fill db a invs (with_coin inv coin d)
          ∙ ap (or_else later) (cached-with_coin a inv coin d)
          ∙ or_else_assoc later (if text_eq inv.address a then entry_of inv coin else none)
              (cached a d))
      | inr f ↦ rw (f, or_else-none later) (cached-fill db a invs d)
    ]

-- After a refresh that reaches the database, the cache answers for an address with the last of the
-- active invoices that the table has for it, and with nothing when it has none, whatever the cache
-- held before.
pub cached-refresh :
    (db : Db) (old : Cache) (a : Text)
    → cached a (refresh (ok db) old) ≡ watched_invoice db a db.invoices
unfolding refresh cached
cached-refresh db old a =
    cached-fill db a db.invoices [] ∙ or_else-none (watched_invoice db a db.invoices)

or_else-first : {A : Type 0} (x y : Option A) → x ≢ none → or_else x y ≢ none
or_else-first none y h = λ e. h refl
or_else-first (some a) y h = h

or_else-second : {A : Type 0} (x y : Option A) → y ≢ none → or_else x y ≢ none
or_else-second none y h = h
or_else-second (some a) y h = λ e. cc

entry_of-some : (i : Invoice) (coin : Option Coin) → coin ≢ none → entry_of i coin ≢ none
unfolding entry_of
entry_of-some i none h = absurd (h refl)
entry_of-some i (some coin) h = λ e. cc

-- every invoice has the row of its coin, as the foreign key demands
abbrev pub HasCoins : Db → List Invoice → Type 0
HasCoins db = All (λ i. coin_of i.coin_id db.coins ≢ none)

-- the address of an active invoice is watched
pub active_watched :
    (db : Db) (rows : List Invoice)
    → HasCoins db rows
    → All (λ i. is_active_status i.status ≡ true → watched_invoice db i.address rows ≢ none) rows
unfolding watched_invoice
active_watched db [] h = tt
active_watched db (i ∷ rows) h = (
  λ active.
      or_else-second (watched_invoice db i.address rows) _
        (rw (active, text_eq_refl i.address) (entry_of-some i (coin_of i.coin_id db.coins) h.0)),
  All-map _ _ rows (λ j k active. or_else-first (watched_invoice db j.address rows) _ (k active))
      (active_watched db rows h.1),
)
