-- ===== src/Watcher/Service/Starts.antt =====
-- What the watcher listens for once it has started.
use crypto_pay_system.Prelude.{
  ℕ, ◌≡◌, ◌≢◌, refl, sym, ap, subst, ◌∙◌, Bool, true, List, [], ◌∷◌, none, All, Bool-cases, inl,
  inr, map, All-map,
}
use crypto_pay_system.Prelude.Exec.{Result, ok, err, bind}
use crypto_pay_system.Prelude.Rows.{select}
use crypto_pay_system.Prelude.Text.{Text, codes}
use crypto_pay_system.Models.{InvoiceStatus, Invoice, Db}
use crypto_pay_system.Providers.Registry.{Registry, contains}
use crypto_pay_system.Watcher.Matching.{Cache, cached, refresh, is_active_status}
use crypto_pay_system.Watcher.Matching.Lookup.{
  watched_invoice, HasCoins, active_watched, cached-refresh,
}
use crypto_pay_system.Watcher.Service.{
  is_imported_status, import_existing_addresses, imports, start_cache, start_watcher,
}

imported_active : (s : InvoiceStatus) → is_imported_status s ≡ true → is_active_status s ≡ true
imported_active InvoiceStatus.new h = refl
imported_active InvoiceStatus.partial h = refl
imported_active InvoiceStatus.pending h = cc
imported_active InvoiceStatus.paid h = cc
imported_active InvoiceStatus.expired h = cc

calls_watched :
    (P : Text → Type 0) (rows : List Invoice)
    → All (λ i. is_active_status i.status ≡ true → P i.address) rows
    → All
        (λ (call : Text × ℕ). P call.0)
        (map (λ i. (i.address, i.id)) (select (λ i. is_imported_status i.status) rows))
unfolding select
calls_watched P [] h = tt
calls_watched P (i ∷ rows) h = elim (Bool-cases (is_imported_status i.status)) [
  | inl t ↦ rw t (h.0 (imported_active i.status t), calls_watched P rows h.1)
  | inr f ↦ rw f (calls_watched P rows h.1)
]

imported_watched :
    (registry : Registry) (reachable : Bool) (db : Db) (d : Cache)
    → d ≡ refresh (ok db) []
    → HasCoins db db.invoices
    → All
        (λ (call : Text × ℕ). cached call.0 d ≢ none)
        (import_existing_addresses registry reachable db)
unfolding import_existing_addresses
imported_watched registry reachable db d fresh coins =
    let watched =
      calls_watched (λ a. cached a d ≢ none) db.invoices
        (All-map _ _ db.invoices
          (λ i k active e.
            k active (sym (cached-refresh db [] i.address) ∙ ap (cached i.address) (sym fresh) ∙ e))
          (active_watched db db.invoices coins)) in
    elim (Bool-cases (contains (codes "BTC") registry)) [
      | inl known ↦ elim (Bool-cases reachable) [
        | inl t ↦ rw (known, t) watched
        | inr f ↦ rw (known, f) tt
      ]
      | inr unknown ↦ rw unknown tt
    ]

imports_ok :
    (registry : Registry) (reachable : Bool) (db : Db)
    → imports registry reachable (ok db) ≡ ok (import_existing_addresses registry reachable db)
unfolding imports import_existing_addresses
imports_ok registry reachable db = elim (Bool-cases (contains (codes "BTC") registry)) [
  | inl known ↦ elim (Bool-cases reachable) [
    | inl t ↦ rw (known, t) refl
    | inr f ↦ rw (known, f) refl
  ]
  | inr unknown ↦ rw unknown refl
]

-- Where the watcher comes to its listeners, the two queries having seen the same tables and every
-- invoice having its coin: the cache answers for an address as the table does, and every address
-- that it has asked the node to import is one that it watches.
pub start_watcher_lem :
    (registry : Registry) (reachable : Bool) (connected : Result (Unit {0})) (db : Db) {d : Cache}
    {calls : List (Text × ℕ)}
    → HasCoins db db.invoices
    → start_watcher registry reachable connected (ok db) (ok db) ≡ ok (d, calls)
    → (connected ≡ ok tt)
      × ((a : Text) → cached a d ≡ watched_invoice db a db.invoices)
      × All (λ (call : Text × ℕ). cached call.0 d ≢ none) calls
unfolding start_watcher start_cache
start_watcher_lem registry reachable (err x) db coins e = absurd (cc e)
start_watcher_lem registry reachable (ok u) db {d} {calls} coins e =
    let made = import_existing_addresses registry reachable db in
    let both : ok (refresh (ok db) [], made) ≡ ok (d, calls) =
      sym (ap (λ r. bind r (λ cs. ok (refresh (ok db) [], cs))) (imports_ok registry reachable db))
      ∙ e in
    let fresh : d ≡ refresh (ok db) [] = cc both in
    let asked : made ≡ calls = cc both in
    (
      refl,
      λ a. ap (cached a) fresh ∙ cached-refresh db [] a,
      subst (All (λ (call : Text × ℕ). cached call.0 d ≢ none)) asked
          (imported_watched registry reachable db d fresh coins),
    )
