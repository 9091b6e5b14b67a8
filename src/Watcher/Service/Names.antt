-- ===== src/Watcher/Service/Names.antt =====
-- What a message of the node puts on the queue or into the cache names a watched invoice.
use crypto_pay_system.Prelude.{
  ℕ, ◌≡◌, ◌⊎◌, Bool, List, [], ◌∷◌, All, Bool-cases, inl, inr, ltb, length,
}
use crypto_pay_system.Prelude.Exec.{Exn, Result, ok, err}
use crypto_pay_system.Prelude.Text.{Text, text_eq}
use crypto_pay_system.Models.{Db}
use crypto_pay_system.Watcher.Decoder.{Bytes}
use crypto_pay_system.Watcher.Address.{address}
use crypto_pay_system.Ledger.Queue.{Queues}
use crypto_pay_system.Ledger.Queue.Names.{OfQueues}
use crypto_pay_system.Watcher.Matching.{Cache, handle_raw_block}
use crypto_pay_system.Watcher.Matching.Names.{OfCache, refresh-OfCache, handle_raw_tx-OfQueues}
use crypto_pay_system.Watcher.Service.{
  zmq_topic_raw_tx, zmq_topic_raw_block, listen_tx, listen_block,
}

module _ (P : ℕ → Text → ℕ → Type 0) where
  pub listen_tx-OfQueues :
      (hash256 : Bytes → Bytes) (testnet : Bool) (d : Cache) (parts : List Bytes) (q : Queues)
      → OfCache P d
      → OfQueues P q
      → OfQueues P (listen_tx hash256 testnet d parts q)
  unfolding listen_tx
  listen_tx-OfQueues hash256 testnet d [] q h hq = hq
  listen_tx-OfQueues hash256 testnet d (topic ∷ []) q h hq = hq
  listen_tx-OfQueues hash256 testnet d (topic ∷ payload ∷ rest) q h hq =
      elim (Bool-cases (text_eq topic zmq_topic_raw_tx)) [
        | inl t ↦ rw t (handle_raw_tx-OfQueues P (address hash256) hash256 testnet d payload q h hq)
        | inr f ↦ rw f hq
      ]

  pub listen_block-OfCache :
      (db : Db) (parts : List Bytes) (r : Result Db) (d : Cache)
      → (r ≡ ok db) ⊎ ((e : Exn) × (r ≡ err e))
      → All (λ i. P i.id i.address i.merchant_id) db.invoices
      → OfCache P d
      → OfCache P (listen_block parts r d)
  unfolding listen_block handle_raw_block
  listen_block-OfCache db [] r d a h hd = hd
  listen_block-OfCache db (topic ∷ []) r d a h hd = hd
  listen_block-OfCache db (topic ∷ payload ∷ rest) r d a h hd =
      elim (Bool-cases (text_eq topic zmq_topic_raw_block)) [
        | inl t ↦ elim (Bool-cases (ltb (length payload) 80)) [
          | inl short ↦ rw (t, short) hd
          | inr long ↦ rw (t, long) (refresh-OfCache P db r d a h hd)
        ]
        | inr f ↦ rw f hd
      ]
