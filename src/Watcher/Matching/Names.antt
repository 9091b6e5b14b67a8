-- ===== src/Watcher/Matching/Names.antt =====
-- What the handlers put on the queue names what the cache names.
use crypto_pay_system.Prelude.{
  ℕ, ◌≡◌, Bool, List, [], ◌∷◌, Option, none, some, All, Bool-cases, inl, inr, ◌⊎◌, subst,
}
use crypto_pay_system.Prelude.Exec.{Exn, Result, ok, err}
use crypto_pay_system.Prelude.Text.{Text, text_eq, text_eq_iff}
use crypto_pay_system.Models.{Invoice, Coin, Db}
use crypto_pay_system.Watcher.Decoder.{Bytes, TxOutput, RawTx, decode_raw_tx}
use crypto_pay_system.Ledger.Queue.{Payload, Queues}
use crypto_pay_system.Ledger.Queue.Names.{OfPayload, OfQueues, select-All}
use crypto_pay_system.Watcher.Matching.{
  CachedInvoice, Cache, cached, store, coin_of, entry, with_coin, fill, refresh, matched, addressed,
  output_match, push_all, match_outputs, handled, handle_raw_tx,
}

module _ (P : ℕ → Text → ℕ → Type 0) where
  -- what an entry of the cache names: its invoice, its key and its merchant
  abbrev pub OfEntry : Text × CachedInvoice → Type 0
  OfEntry (a, c) = P c.invoice_id a c.merchant_id

  abbrev pub OfCache : Cache → Type 0
  OfCache d = All OfEntry d

  store-OfCache :
      (a : Text) (c : CachedInvoice) (d : Cache)
      → P c.invoice_id a c.merchant_id
      → OfCache d
      → OfCache (store a c d)
  unfolding store
  store-OfCache a c [] h hd = (h, tt)
  store-OfCache a c ((k, w) ∷ d) h hd = elim (Bool-cases (text_eq k a)) [
    | inl t ↦ rw (t, (text_eq_iff k a).0 t) (h, hd.1)
    | inr f ↦ rw f (hd.0, store-OfCache a c d h hd.1)
  ]

  with_coin-OfCache :
      (i : Invoice) (coin : Option Coin) (d : Cache)
      → P i.id i.address i.merchant_id
      → OfCache d
      → OfCache (with_coin i coin d)
  unfolding with_coin
  with_coin-OfCache i none d h hd = hd
  with_coin-OfCache i (some coin) d h hd = store-OfCache i.address (entry i coin) d h hd

  fill-OfCache :
      (db : Db) (invs : List Invoice) (d : Cache)
      → All (λ i. P i.id i.address i.merchant_id) invs
      → OfCache d
      → OfCache (fill db invs d)
  unfolding fill
  fill-OfCache db [] d h hd = hd
  fill-OfCache db (i ∷ invs) d h hd =
      fill-OfCache db invs _ h.1 (with_coin-OfCache i (coin_of i.coin_id db.coins) d h.0 hd)

  -- after a refresh, whether or not it reaches the database
  pub refresh-OfCache :
      (db : Db) (r : Result Db) (d : Cache)
      → (r ≡ ok db) ⊎ ((e : Exn) × (r ≡ err e))
      → All (λ i. P i.id i.address i.merchant_id) db.invoices
      → OfCache d
      → OfCache (refresh r d)
  unfolding refresh
  refresh-OfCache db r d (inl e) h hd =
      rw e (fill-OfCache db _ [] (select-All _ _ db.invoices h) tt)
  refresh-OfCache db r d (inr (x, e)) h hd = rw e hd

  Found : Text → Option CachedInvoice → Type 0
  Found a none = Unit
  Found a (some c) = P c.invoice_id a c.merchant_id

  cached-Found : (a : Text) (d : Cache) → OfCache d → Found a (cached a d)
  unfolding cached Found
  cached-Found a [] h = tt
  cached-Found a ((k, v) ∷ d) h = elim (Bool-cases (text_eq k a)) [
    | inl t ↦ rw t (subst (λ x. P v.invoice_id x v.merchant_id) ((text_eq_iff k a).0 t) h.0)
    | inr f ↦ rw f (cached-Found a d h.1)
  ]

  matched-All :
      (tx : RawTx) (o : TxOutput) (a : Text) (found : Option CachedInvoice)
      → Found a found
      → All (OfPayload P) (matched tx o a found)
  unfolding matched Found
  matched-All tx o a none h = tt
  matched-All tx o a (some c) h = (h, tt)

  addressed-All :
      (d : Cache) (tx : RawTx) (o : TxOutput) (address : Option Text)
      → OfCache d
      → All (OfPayload P) (addressed d tx o address)
  unfolding addressed
  addressed-All d tx o none h = tt
  addressed-All d tx o (some a) h = matched-All tx o a (cached a d) (cached-Found a d h)

  module _ (address_of : TxOutput → Option Text) where
    push_all-OfQueues :
        (ps : List Payload) (q : Queues)
        → All (OfPayload P) ps
        → OfQueues P q
        → OfQueues P (push_all address_of ps q)
    unfolding push_all
    push_all-OfQueues [] q h hq = hq
    push_all-OfQueues (p ∷ ps) q h hq = push_all-OfQueues ps _ h.1 ((h.0, hq.0), hq.1)

    match_outputs-OfQueues :
        (d : Cache) (tx : RawTx) (os : List TxOutput) (q : Queues)
        → OfCache d
        → OfQueues P q
        → OfQueues P (match_outputs address_of d tx os q)
    unfolding match_outputs output_match
    match_outputs-OfQueues d tx [] q h hq = hq
    match_outputs-OfQueues d tx (o ∷ os) q h hq = match_outputs-OfQueues d tx os _ h (
        push_all-OfQueues (output_match address_of d tx o) q (addressed-All d tx o (address_of o) h)
          hq)

    handled-OfQueues :
        (d : Cache) (r : Result RawTx) (q : Queues)
        → OfCache d
        → OfQueues P q
        → OfQueues P (handled address_of d r q)
    unfolding handled
    handled-OfQueues d (ok tx) q h hq = match_outputs-OfQueues d tx tx.outputs q h hq
    handled-OfQueues d (err e) q h hq = hq

    -- What is pushed for a transaction names an entry of the cache.
    pub handle_raw_tx-OfQueues :
        (hash256 : Bytes → Bytes) (testnet : Bool) (d : Cache) (payload : Bytes) (q : Queues)
        → OfCache d
        → OfQueues P q
        → OfQueues P (handle_raw_tx address_of hash256 testnet d payload q)
    unfolding handle_raw_tx
    handle_raw_tx-OfQueues hash256 testnet d payload q h hq =
        handled-OfQueues d (decode_raw_tx hash256 payload testnet) q h hq
