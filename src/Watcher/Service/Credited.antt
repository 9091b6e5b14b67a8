-- ===== src/Watcher/Service/Credited.antt =====
-- A payment on its whole way: the node's message, the watcher, the queue, the ledger, the account.
use crypto_pay_system.Prelude.{
  ℕ, ◌≤◌, ◌≡◌, refl, ap, sym, ◌∙◌, reverse, arith, ◌==◌, true, false, List, [], ◌∷◌, ◌++◌, length,
  some,
}
use crypto_pay_system.Prelude.Exec.{ok}
use crypto_pay_system.Prelude.Int.{◌+ℤ◌}
use crypto_pay_system.Prelude.Rows.{select}
use crypto_pay_system.Models.{InvoiceStatus, Coin, Merchant, Invoice, Db, status_eq}
use crypto_pay_system.Funds.{held}
use crypto_pay_system.Providers.Bitcoin.Address.{derive_address, pay_to}
use crypto_pay_system.Watcher.Decoder.{Bytes, TxOutput, RawTx, decode_raw_tx}
use crypto_pay_system.Watcher.Address.{address}
use crypto_pay_system.Watcher.Matching.{CachedInvoice, Cache, refresh, tx_match}
use crypto_pay_system.Watcher.Matching.Lookup.{watched_invoice}
use crypto_pay_system.Watcher.Matching.Matches.{matches}
use crypto_pay_system.Watcher.Service.{zmq_topic_raw_tx, listen_tx}
use crypto_pay_system.Watcher.Service.Paid.{paid_invoice_queued}
use crypto_pay_system.Ledger.Queue.{Queues, Payload, from_json, pop}
use crypto_pay_system.Ledger.Fee.{calculate_fee}
use crypto_pay_system.Ledger.Accounting.{constraints, set_paid}
use crypto_pay_system.Ledger.Accounting.Solvency.{share}
use crypto_pay_system.Ledger.Processor.{Env, process, get_confirmations}
use crypto_pay_system.Ledger.Processor.Once.{Finds}
use crypto_pay_system.Ledger.Processor.Credits.{IsUncredited, process_credits}
use crypto_pay_system.Ledger.Accounting.Succeeds.{has_output}

-- The one message on the list is the job that is popped.
pop_one :
    (p : Payload) (front behind : List Payload) (q q' : Queues)
    → q' ≡ record q { hot = (reverse behind ++ p ∷ reverse front) ++ q.hot }
    → front ≡ []
    → behind ≡ []
    → q.hot ≡ []
    → pop q' ≡ (some (from_json p), q)
unfolding pop
pop_one p front behind q q' e f b quiet =
    let one : q' ≡ record q { hot = p ∷ [] } =
      e ∙ ap (λ h. record q { hot = h }) (rw (f, b, quiet) refl) in
    ap pop one ∙ ap (λ h. (some (from_json p), record q { hot = h })) (sym quiet)

module _ (hash256 hash160 : Bytes → Bytes) (public_key : ℕ → ℕ → Bytes) where
  -- A payment that the node announces ends on the merchant's account. On the test network: an
  -- active invoice has the address of a key of the wallet, the cache has just been refreshed, and
  -- the hot list is empty. The node sends a transaction of which one output pays to the key and no
  -- other output to an invoice. Then the watcher's message gives the ledger one job; and where the
  -- provider reports enough confirmations for it, the invoice is open with its merchant and coin,
  -- the transaction is new, and the constraints hold, processing the job marks the invoice paid and
  -- adds to the account of the merchant and the coin the value of the output less the fee, and
  -- nothing to any other account.
  pub paid_invoice_credited :
      (db : Db) (old : Cache) (change index : ℕ) (c : CachedInvoice) (payload : Bytes)
      (rest : List Bytes) (tx : RawTx) (before after : List TxOutput) (o : TxOutput) (q : Queues)
      (env : Env) (n : ℕ) (invoice : Invoice) (merchant : Merchant) (coin : Coin) (m k : ℕ)
      → let a = derive_address hash256 hash160 public_key change index in
        let cache = refresh (ok db) old in
        let messages = matches (address hash256) cache tx in
        let job = from_json (tx_match tx o a c) in
        length (hash160 (public_key change index)) ≡ 20
        → watched_invoice db a db.invoices ≡ some c
        → decode_raw_tx hash256 payload true ≡ ok tx
        → tx.outputs ≡ before ++ o ∷ after
        → o.script_pubkey ≡ pay_to hash256 hash160 public_key change index
        → o.testnet ≡ true
        → messages before ≡ []
        → messages after ≡ []
        → q.hot ≡ []
        → get_confirmations env job ≡ ok n
        → env.settings.ledger_required_confirmations ≤ n
        → Finds job db invoice
        → status_eq invoice.status InvoiceStatus.paid ≡ false
        → select (λ x. x.id == invoice.merchant_id) db.merchants ≡ merchant ∷ []
        → select (λ x. x.id == invoice.coin_id) db.coins ≡ coin ∷ []
        → IsUncredited job invoice db
        → has_output tx.txid db ≡ false
        → constraints db ≡ true
        → let q' = listen_tx hash256 true cache (zmq_topic_raw_tx ∷ payload ∷ rest) q in
          let (r, w') = process env job (record { db = db; queues = (pop q').1 }) in
          (pop q' ≡ (some job, q))
          × (r ≡ ok tt)
          × (w'.queues ≡ q)
          × Finds job w'.db (set_paid env.fresh.now invoice)
          × (held m k w'.db
              ≡ held m k db
                +ℤ share m k merchant.id coin.id
                    (calculate_fee o.value_sat merchant.commission_pcent).net)
  paid_invoice_credited db old change index c payload rest tx before after o q env n invoice
        merchant coin m k twenty active decoded outs script net none_before none_after quiet asked
        enough finds unpaid m_row c_row fresh new_tx fine =
      let a = derive_address hash256 hash160 public_key change index in
      let job = from_json (tx_match tx o a c) in
      let queued =
        paid_invoice_queued hash256 hash160 public_key db old change index c payload rest tx before
          after o q twenty active decoded outs script net in
      let q' = listen_tx hash256 true (refresh (ok db) old) (zmq_topic_raw_tx ∷ payload ∷ rest) q in
      let messages = matches (address hash256) (refresh (ok db) old) tx in
      let popped =
        pop_one (tx_match tx o a c) (messages before) (messages after) q q' queued none_before
          none_after quiet in
      let (done, same, paid, adds) =
        process_credits m k env job n (record { db = db; queues = (pop q').1 }) invoice merchant
          coin (omega arith) asked enough finds unpaid m_row c_row fresh new_tx fine in
      (popped, done, same ∙ ap (λ r. r.1) popped, paid, adds)
