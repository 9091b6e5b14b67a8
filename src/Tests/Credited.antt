-- ===== src/Tests/Credited.antt =====
-- A payment from the node's message to the account, at the data of Tests.Paid.
use crypto_pay_system.Prelude.{
  ◌≡◌, ◌≤◌, refl, true, inl, some, [], ◌∷◌, ◌++◌, reverse, take, length, leb, arith,
}
use crypto_pay_system.Prelude.Exec.{ok}
use crypto_pay_system.Prelude.Int.{pos, ◌+ℤ◌}
use crypto_pay_system.Prelude.Rows.{select, unique, any}
use crypto_pay_system.Prelude.Text.{text_eq, upper}
use crypto_pay_system.Models.{Invoice}
use crypto_pay_system.Funds.{held}
use crypto_pay_system.Providers.Registry.{register, contains, get}
use crypto_pay_system.Watcher.Decoder.RoundTrip.{decode-legacy}
use crypto_pay_system.Watcher.Address.{address}
use crypto_pay_system.Watcher.Matching.{refresh, tx_match}
use crypto_pay_system.Watcher.Matching.Matches.{matches}
use crypto_pay_system.Watcher.Service.{zmq_topic_raw_tx, listen_tx}
use crypto_pay_system.Watcher.Service.Failing.{listen_round, listen_round_lem}
use crypto_pay_system.Watcher.Service.Credited.{paid_invoice_credited}
use crypto_pay_system.Ledger.Fee.{calculate_fee}
use crypto_pay_system.Ledger.Queue.{LedgerJob, Queues, from_json, pop}
use crypto_pay_system.Ledger.Accounting.{constraints, set_paid}
use crypto_pay_system.Ledger.Accounting.Solvency.{share}
use crypto_pay_system.Ledger.Processor.{process, get_confirmations}
use crypto_pay_system.Ledger.Processor.Once.{Finds}
use crypto_pay_system.Tests.Data.{invoice, merchant, coin}
use crypto_pay_system.Tests.Ledger.{env}
use crypto_pay_system.Tests.Watcher.{hash, input}
use crypto_pay_system.Tests.Paid.{
  hash160, public_key, own_address, open_shop, watched, test_watched_invoice, output, payment-IsTx,
  raw, payment, empty,
}

abbrev opened : Invoice
opened = record invoice { address = own_address }

abbrev queued : Queues
queued = listen_tx hash true (refresh (ok open_shop) []) (zmq_topic_raw_tx ∷ raw ∷ []) empty

abbrev announced : LedgerJob
announced = from_json (tx_match payment output own_address watched)

paid_invoice_credited_example :
    let (r, w') = process env announced (record { db = open_shop; queues = (pop queued).1 }) in
    (pop queued ≡ (some announced, empty))
    × (r ≡ ok tt)
    × (w'.queues ≡ empty)
    × Finds announced w'.db (set_paid 30 opened)
    × (held 7 1 w'.db ≡ held 7 1 open_shop +ℤ share 7 1 7 1 (calculate_fee 100_001 150).net)
unfolding matches get_confirmations contains get register text_eq upper select constraints unique
    any
paid_invoice_credited_example =
    paid_invoice_credited hash hash160 public_key open_shop [] 0 4 watched raw [] payment [] []
      output empty env 3 opened merchant coin 7 1 refl test_watched_invoice
      (decode-legacy hash true (pos 2) (input ∷ []) (output ∷ []) 0 payment-IsTx) refl refl refl
      refl refl refl refl (omega arith) refl refl refl refl (inl refl) refl refl

-- Redis refuses the one message.
listen_round_lem_example :
    let messages = matches (address hash) (refresh (ok open_shop) []) payment (output ∷ []) in
    let end =
      listen_round hash true
        (refresh (ok open_shop) [])
        (ok (zmq_topic_raw_tx ∷ raw ∷ []))
        (record { connected = true; accepts = 0; queues = empty }) in
    (end.0 ≡ leb (length messages) 0)
    × (end.1.queues ≡ record empty { hot = reverse (take 0 messages) ++ empty.hot })
    × (length messages ≤ 0
        → end.1.queues
          ≡ listen_tx hash true (refresh (ok open_shop) []) (zmq_topic_raw_tx ∷ raw ∷ []) empty)
listen_round_lem_example =
    listen_round_lem hash true (refresh (ok open_shop) []) raw [] payment 0 empty
      (decode-legacy hash true (pos 2) (input ∷ []) (output ∷ []) 0 payment-IsTx)
