-- ===== src/Watcher/Service/Paid.antt =====
-- From the address of an invoice to the job of its payment, over the parts of the watcher.
use crypto_pay_system.Prelude.{
  ℕ, ◌≡◌, ap, ◌∙◌, true, List, [], ◌∷◌, ◌++◌, reverse, append_assoc, length, some,
}
use mathlib.Core.List.{reverse-append}
use crypto_pay_system.Prelude.Exec.{ok}
use crypto_pay_system.Prelude.Text.{text_eq_refl}
use crypto_pay_system.Models.{Db}
use crypto_pay_system.Providers.Bitcoin.Address.{derive_address, pay_to, script_to_address-pay_to}
use crypto_pay_system.Watcher.Decoder.{Bytes, TxOutput, RawTx, decode_raw_tx}
use crypto_pay_system.Watcher.Address.{address}
use crypto_pay_system.Watcher.Matching.{CachedInvoice, Cache, refresh, tx_match}
use crypto_pay_system.Watcher.Matching.Lookup.{watched_invoice, cached-refresh}
use crypto_pay_system.Watcher.Matching.Matches.{matches, matches-middle, handle_raw_tx_lem}
use crypto_pay_system.Watcher.Service.{zmq_topic_raw_tx, listen_tx}
use crypto_pay_system.Ledger.Queue.{Queues}

-- the messages for outputs of which one is known
reverse-middle {ℓ} :
    {A : Type ℓ} (xs : List A) (m : A) (ys : List A)
    → reverse (xs ++ m ∷ ys) ≡ reverse ys ++ m ∷ reverse xs
reverse-middle xs m ys =
    reverse-append xs (m ∷ ys)
    ∙ ap (λ l. l ++ reverse xs) (reverse-append (m ∷ []) ys)
    ∙ append_assoc (reverse ys) (m ∷ []) (reverse xs)

module _ (hash256 hash160 : Bytes → Bytes) (public_key : ℕ → ℕ → Bytes) where
  address-pay_to :
      (change index : ℕ) (o : TxOutput)
      → length (hash160 (public_key change index)) ≡ 20
      → o.script_pubkey ≡ pay_to hash256 hash160 public_key change index
      → o.testnet ≡ true
      → address hash256 o ≡ some (derive_address hash256 hash160 public_key change index)
  unfolding address
  address-pay_to change index o twenty script net =
      rw (script, net) (script_to_address-pay_to hash256 hash160 public_key change index twenty)

  -- On the test network, for a key whose hash has 20 bytes: the cache has just been refreshed from a
  -- database in which an active invoice (the last with its address) has the address that the
  -- provider derives for the key. A message of the node brings a transaction that decodes and in
  -- which one output pays to that key. Then the watcher puts on the hot list the message for this
  -- invoice, with the amount of that output, between those for the later and those for the earlier
  -- outputs; the queue keeps all that it held.
  pub paid_invoice_queued :
      (db : Db) (old : Cache) (change index : ℕ) (c : CachedInvoice) (payload : Bytes)
      (rest : List Bytes) (tx : RawTx) (before after : List TxOutput) (o : TxOutput) (q : Queues)
      → let a = derive_address hash256 hash160 public_key change index in
        let cache = refresh (ok db) old in
        let messages = matches (address hash256) cache tx in
        length (hash160 (public_key change index)) ≡ 20
        → watched_invoice db a db.invoices ≡ some c
        → decode_raw_tx hash256 payload true ≡ ok tx
        → tx.outputs ≡ before ++ o ∷ after
        → o.script_pubkey ≡ pay_to hash256 hash160 public_key change index
        → o.testnet ≡ true
        → listen_tx hash256 true cache (zmq_topic_raw_tx ∷ payload ∷ rest) q ≡ record q {
          hot =
              (reverse (messages after) ++ tx_match tx o a c ∷ reverse (messages before)) ++ q.hot;
        }
  unfolding listen_tx
  paid_invoice_queued db old change index c payload rest tx before after o q twenty active decoded
        outs script net =
      let a = derive_address hash256 hash160 public_key change index in
      let cache = refresh (ok db) old in
      let messages = matches (address hash256) cache tx in
      let found = cached-refresh db old a ∙ active in
      let pays = address-pay_to change index o twenty script net in
      let all : messages tx.outputs ≡ messages before ++ tx_match tx o a c ∷ messages after =
        ap messages outs
        ∙ matches-middle (address hash256) cache tx before o after a c pays found in
      rw (text_eq_refl zmq_topic_raw_tx) (
        handle_raw_tx_lem (address hash256) hash256 true cache payload q tx decoded
        ∙ ap (λ ms. record q { hot = reverse ms ++ q.hot }) all
        ∙ ap (λ ms. record q { hot = ms ++ q.hot })
            (reverse-middle (messages before) (tx_match tx o a c) (messages after)))
