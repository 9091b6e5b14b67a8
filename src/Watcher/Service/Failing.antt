-- ===== src/Watcher/Service/Failing.antt =====
-- services/watcher/tx_queue.py and the listener of transactions, where Redis may refuse a command.
use crypto_pay_system.Prelude.{
  ℕ, zero, suc, ◌-◌, ◌≡◌, ◌≤◌, refl, sym, ap, ◌∙◌, fun_ext, Bool, true, false, List, [], ◌∷◌, ◌++◌,
  reverse, length, take, leb, arith, if◌then◌else◌, append_assoc, Option,
}
use mathlib.Core.List.{reverse-append}
use crypto_pay_system.Prelude.Exec.{Exec, Result, ok, err, runtime_error, redis_error, pure, ◌>>◌}
use crypto_pay_system.Prelude.Text.{Text, text_eq, text_eq_refl}
use crypto_pay_system.Watcher.Decoder.{Bytes, TxOutput, RawTx, decode_raw_tx}
use crypto_pay_system.Watcher.Address.{address}
use crypto_pay_system.Watcher.Matching.{Cache, output_match}
use crypto_pay_system.Watcher.Matching.Matches.{matches, handle_raw_tx_lem}
use crypto_pay_system.Watcher.Service.{zmq_topic_raw_tx, listen_tx}
use crypto_pay_system.Ledger.Queue.{Payload, Queues, lpush}

-- the connection of a TxQueue: whether `connect` has run, the commands that Redis will still
-- accept, and what it holds
pub record Redis : Type 0 where
  pub connected : Bool
  pub accepts : ℕ
  pub queues : Queues

accepted : Payload → ℕ → Redis → Result (Unit {0}) × Redis
accepted p zero r = (err redis_error, r)
accepted p (suc n) r = (ok tt, record r { accepts = n; queues = lpush p r.queues })

-- `TxQueue.push`
pub push : Payload → Exec Redis (Unit {0})
unfolding accepted
push p r = if r.connected then accepted p r.accepts r else (err runtime_error, r)

push_each : List Payload → Exec Redis (Unit {0})
push_each [] = pure tt
push_each (p ∷ ps) = push p >> push_each ps

-- the loop of `_handle_raw_tx`
push_outputs : (TxOutput → Option Text) → Cache → RawTx → List TxOutput → Exec Redis (Unit {0})
push_outputs address_of cache tx [] = pure tt
push_outputs address_of cache tx (o ∷ os) =
    push_each (output_match address_of cache tx o) >> push_outputs address_of cache tx os

-- `_handle_raw_tx` once the decoder has answered
handle_decoded : (TxOutput → Option Text) → Cache → Result RawTx → Exec Redis (Unit {0})
unfolding push_outputs
handle_decoded address_of cache (ok tx) = push_outputs address_of cache tx tx.outputs
handle_decoded address_of cache (err e) = pure tt

-- The `except` clauses of `_listen_tx`: the exception is logged, and the socket is made anew; the
-- answer says whether the inner loop goes on with the old one.
abbrev goes_on : Result (Unit {0}) × Redis → Bool × Redis
goes_on (ok u, r) = (true, r)
goes_on (err e, r) = (false, r)

-- a round of the inner loop of `_listen_tx`, or the exception of `recv_multipart`
pub listen_round : (Bytes → Bytes) → Bool → Cache → Result (List Bytes) → Redis → Bool × Redis
unfolding handle_decoded
listen_round hash256 testnet cache (err e) r = (false, r)
listen_round hash256 testnet cache (ok []) r = (true, r)
listen_round hash256 testnet cache (ok (topic ∷ [])) r = (true, r)
listen_round hash256 testnet cache (ok (topic ∷ payload ∷ rest)) r =
    if text_eq topic zmq_topic_raw_tx
    then goes_on (handle_decoded (address hash256) cache (decode_raw_tx hash256 payload testnet) r)
    else (true, r)

seq_assoc :
    (x : Result (Unit {0})) (r : Redis) (m k : Exec Redis (Unit {0}))
    → ((λ (_ : Redis). (x, r)) >> (m >> k)) r ≡ (((λ (_ : Redis). (x, r)) >> m) >> k) r
seq_assoc (ok u) r m k = refl
seq_assoc (err e) r m k = refl

push_each-append :
    (ps qs : List Payload) (r : Redis) → push_each (ps ++ qs) r ≡ (push_each ps >> push_each qs) r
unfolding push_each
push_each-append [] qs r = refl
push_each-append (p ∷ ps) qs r =
    ap (λ (m : Exec Redis (Unit {0})). (push p >> m) r) (fun_ext (push_each-append ps qs))
    ∙ seq_assoc (push p r).0 (push p r).1 (push_each ps) (push_each qs)

-- What is on the list after some pushes, and how they end.
abbrev pushed : List Payload → ℕ → Queues → Result (Unit {0}) × Redis
pushed ps n q = (
  if leb (length ps) n then ok tt else err redis_error,
  record {
    connected = true;
    accepts = n - length ps;
    queues = record q { hot = reverse (take n ps) ++ q.hot };
  },
)

push_each-pushed :
    (ps : List Payload) (n : ℕ) (q : Queues)
    → push_each ps (record { connected = true; accepts = n; queues = q }) ≡ pushed ps n q
unfolding push_each push accepted
push_each-pushed [] zero q = refl
push_each-pushed [] (suc n) q =
    let none_left : leb 0 (suc n) ≡ true = ground arith in
    let kept : suc n - 0 ≡ suc n = omega arith in rw (none_left, kept) refl
push_each-pushed (p ∷ ps) zero q = ground arith
push_each-pushed (p ∷ ps) (suc n) q =
    let order : reverse (take n ps) ++ p ∷ q.hot ≡ reverse (p ∷ take n ps) ++ q.hot =
      sym (append_assoc (reverse (take n ps)) (p ∷ []) q.hot)
      ∙ ap (λ r. r ++ q.hot) (sym (reverse-append (p ∷ []) (take n ps))) in
    let count : leb (suc (length ps)) (suc n) ≡ leb (length ps) n = ground arith in
    let left : suc n - suc (length ps) ≡ n - length ps = omega arith in
    push_each-pushed ps n (lpush p q) ∙ rw (order, count, left) refl

module _ (address_of : TxOutput → Option Text) (cache : Cache) (tx : RawTx) where
  push_outputs-matches :
      (os : List TxOutput) (r : Redis)
      → push_outputs address_of cache tx os r ≡ push_each (matches address_of cache tx os) r
  unfolding push_outputs matches push_each
  push_outputs-matches [] r = refl
  push_outputs-matches (o ∷ os) r =
      let first = output_match address_of cache tx o in
      ap (λ (m : Exec Redis (Unit {0})). (push_each first >> m) r)
        (fun_ext (push_outputs-matches os))
      ∙ sym (push_each-append first (matches address_of cache tx os) r)

goes_on-if : (b : Bool) (r : Redis) → goes_on (if b then ok tt else err redis_error, r) ≡ (b, r)
goes_on-if true r = refl
goes_on-if false r = refl

take_all : (n : ℕ) (ps : List Payload) → length ps ≤ n → take n ps ≡ ps
take_all zero [] h = refl
take_all (suc n) [] h = refl
take_all zero (p ∷ ps) h = absurd (omega arith)
take_all (suc n) (p ∷ ps) h = ap (λ xs. p ∷ xs) (take_all n ps (omega arith))

-- A round of the listener with a transaction that decodes, where Redis accepts only `n` more
-- commands: the messages for the first `n` of the outputs that pay a watched address are on the hot
-- list, the later ones in front; those for the other outputs are lost, since nothing keeps the
-- transaction; and the round ends with a new socket exactly if there were others. Where Redis
-- accepts them all, the queues are those of `listen_tx`.
pub listen_round_lem :
    (hash256 : Bytes → Bytes) (testnet : Bool) (cache : Cache) (payload : Bytes) (rest : List Bytes)
    (tx : RawTx) (n : ℕ) (q : Queues)
    → let messages = matches (address hash256) cache tx tx.outputs in
      let parts = zmq_topic_raw_tx ∷ payload ∷ rest in
      let end =
        listen_round hash256 testnet cache
          (ok parts)
          (record { connected = true; accepts = n; queues = q }) in
      decode_raw_tx hash256 payload testnet ≡ ok tx
      → (end.0 ≡ leb (length messages) n)
        × (end.1.queues ≡ record q { hot = reverse (take n messages) ++ q.hot })
        × (length messages ≤ n → end.1.queues ≡ listen_tx hash256 testnet cache parts q)
unfolding listen_round handle_decoded listen_tx
listen_round_lem hash256 testnet cache payload rest tx n q decoded =
    let messages = matches (address hash256) cache tx tx.outputs in
    let start : Redis = record { connected = true; accepts = n; queues = q } in
    let same : handle_decoded (address hash256) cache (decode_raw_tx hash256 payload testnet) start
        ≡ pushed messages n q =
      ap (λ d. handle_decoded (address hash256) cache d start) decoded
      ∙ push_outputs-matches (address hash256) cache tx tx.outputs start
      ∙ push_each-pushed messages n q in
    let named = text_eq_refl zmq_topic_raw_tx in
    let ends : listen_round hash256 testnet cache (ok (zmq_topic_raw_tx ∷ payload ∷ rest)) start
        ≡ (leb (length messages) n, (pushed messages n q).1) =
      rw named (ap goes_on same ∙ goes_on-if (leb (length messages) n) (pushed messages n q).1) in
    let after = ap (λ (e : Bool × Redis). e.1.queues) ends in
    (
      ap (λ (e : Bool × Redis). e.0) ends,
      after,
      λ all_accepted.
          after
          ∙ ap (λ ms. record q { hot = reverse ms ++ q.hot }) (take_all n messages all_accepted)
          ∙ sym (
              rw named
                (handle_raw_tx_lem (address hash256) hash256 testnet cache payload q tx decoded)),
    )
