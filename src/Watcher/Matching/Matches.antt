-- ===== src/Watcher/Matching/Matches.antt =====
-- What the handler of raw transactions puts on the queue, and what the cache answers.
use crypto_pay_system.Prelude.{
  ◌≡◌, refl, sym, ap, ◌∙◌, Bool, List, [], ◌∷◌, ◌++◌, reverse, Option, some, arith, if◌then◌else◌,
  append_assoc,
}
use mathlib.Core.List.{reverse-append}
use crypto_pay_system.Prelude.Exec.{ok}
use crypto_pay_system.Prelude.Text.{Text, text_eq, text_eq_iff}
use crypto_pay_system.Watcher.Decoder.{Bytes, TxOutput, RawTx, decode_raw_tx}
use crypto_pay_system.Ledger.Queue.{Payload, Queues}
use crypto_pay_system.Watcher.Matching.{
  CachedInvoice, Cache, cached, store, add, output_match, addressed, matched, tx_match, push_all,
  match_outputs, handled, handle_raw_tx,
}

pub cached-store :
    (a b : Text) (v : CachedInvoice) (d : Cache)
    → cached a (store b v d) ≡ (if text_eq b a then some v else cached a d)
unfolding cached store
cached-store a b v [] = refl
cached-store a b v ((k, w) ∷ d) =
    ground (arith, text_eq_iff k a, text_eq_iff b a, text_eq_iff k b, cached-store a b v d)

-- After `add` the address of the invoice answers with that invoice, and every other address as
-- before.
pub cached-add :
    (a : Text) (v : CachedInvoice) (d : Cache)
    → cached a (add v d) ≡ (if text_eq v.address a then some v else cached a d)
unfolding add
cached-add a v d = cached-store a v.address v d

module _ (address_of : TxOutput → Option Text) (cache : Cache) (tx : RawTx) where
  -- all messages for some outputs, in their order
  unfoldable pub matches : List TxOutput → List Payload
  matches [] = []
  matches (o ∷ os) = output_match address_of cache tx o ++ matches os

  matches-append :
      (before after : List TxOutput) → matches (before ++ after) ≡ matches before ++ matches after
  unfolding matches
  matches-append [] after = refl
  matches-append (o ∷ before) after =
      ap (λ ms. output_match address_of cache tx o ++ ms) (matches-append before after)
      ∙ sym (append_assoc (output_match address_of cache tx o) (matches before) (matches after))

  output_match-some :
      (o : TxOutput) (a : Text) (c : CachedInvoice)
      → address_of o ≡ some a
      → cached a cache ≡ some c
      → output_match address_of cache tx o ≡ tx_match tx o a c ∷ []
  unfolding output_match addressed matched
  output_match-some o a c e f = ap (addressed cache tx o) e ∙ ap (matched tx o a) f

  -- an output that pays a watched address, among the others
  pub matches-middle :
      (before : List TxOutput) (o : TxOutput) (after : List TxOutput) (a : Text) (c : CachedInvoice)
      → address_of o ≡ some a
      → cached a cache ≡ some c
      → matches (before ++ o ∷ after) ≡ matches before ++ tx_match tx o a c ∷ matches after
  unfolding matches
  matches-middle before o after a c e f =
      matches-append before (o ∷ after)
      ∙ ap (λ ms. matches before ++ (ms ++ matches after)) (output_match-some o a c e f)

  push_all-hot :
      (ps : List Payload) (q : Queues)
      → push_all address_of ps q ≡ record q { hot = reverse ps ++ q.hot }
  unfolding push_all
  push_all-hot [] q = refl
  push_all-hot (p ∷ ps) q =
      push_all-hot ps (record q { hot = p ∷ q.hot })
      ∙ ap (λ h. record q { hot = h })
          (sym (append_assoc (reverse ps) (p ∷ []) q.hot)
            ∙ ap (λ r. r ++ q.hot) (sym (reverse-append (p ∷ []) ps)))

  match_outputs-hot :
      (os : List TxOutput) (q : Queues)
      → match_outputs address_of cache tx os q ≡ record q { hot = reverse (matches os) ++ q.hot }
  unfolding match_outputs matches
  match_outputs-hot [] q = refl
  match_outputs-hot (o ∷ os) q =
      let first = output_match address_of cache tx o in
      ap (λ r. match_outputs address_of cache tx os r) (push_all-hot first q)
      ∙ match_outputs-hot os (record q { hot = reverse first ++ q.hot })
      ∙ ap (λ h. record q { hot = h })
          (sym (append_assoc (reverse (matches os)) (reverse first) q.hot)
            ∙ ap (λ r. r ++ q.hot) (sym (reverse-append first (matches os))))

  handled-matches :
      (q : Queues)
      → handled address_of cache (ok tx) q
        ≡ record q { hot = reverse (matches tx.outputs) ++ q.hot }
  unfolding handled
  handled-matches q = match_outputs-hot tx.outputs q

module _ (address_of : TxOutput → Option Text) (hash256 : Bytes → Bytes) (testnet : Bool) where
  -- A transaction that decodes puts on the hot list one message for each of its outputs that pays a
  -- watched address, the messages of later outputs in front, and leaves the retries alone.
  pub handle_raw_tx_lem :
      (cache : Cache) (payload : Bytes) (q : Queues) (tx : RawTx)
      → decode_raw_tx hash256 payload testnet ≡ ok tx
      → handle_raw_tx address_of hash256 testnet cache payload q
        ≡ record q { hot = reverse (matches address_of cache tx tx.outputs) ++ q.hot }
  unfolding handle_raw_tx
  handle_raw_tx_lem cache payload q tx e =
      ap (λ r. handled address_of cache r q) e ∙ handled-matches address_of cache tx q
