-- ===== src/Watcher/Service.antt =====
-- services/watcher/zmq_watcher.py: what the listeners do with a message, and the start of the
-- watcher. The double hash is a parameter. Sockets, and waiting to reconnect, are left out: an
-- error of a socket drops no message that was received.
pub mod Paid
pub mod Credited
pub mod Names
pub mod Failing
pub mod Starts
use crypto_pay_system.Prelude.{
  ℕ, ◌&&◌, ◌||◌, not, ltb, Bool, true, false, List, [], ◌∷◌, map, if◌then◌else◌,
}
use crypto_pay_system.Prelude.Exec.{Result, ok, bind}
use crypto_pay_system.Prelude.Rows.{select}
use crypto_pay_system.Prelude.Text.{Text, codes, text_eq}
use crypto_pay_system.Models.{InvoiceStatus, Invoice, Db}
use crypto_pay_system.Providers.Registry.{Registry, contains}
use crypto_pay_system.Watcher.Decoder.{Bytes}
use crypto_pay_system.Watcher.Address.{address}
use crypto_pay_system.Watcher.Matching.{Cache, handle_raw_tx, handle_raw_block, refresh}
use crypto_pay_system.Ledger.Queue.{Queues}

abbrev pub zmq_topic_raw_tx : Text
zmq_topic_raw_tx = codes "rawtx"

abbrev pub zmq_topic_raw_block : Text
zmq_topic_raw_block = codes "rawblock"

-- a round of the inner loop of `_listen_tx`: the parts are the topic, the payload and a number
pub listen_tx : (Bytes → Bytes) → Bool → Cache → List Bytes → Queues → Queues
unfolding handle_raw_tx address
listen_tx hash256 testnet cache (topic ∷ payload ∷ rest) q =
    if text_eq topic zmq_topic_raw_tx
    then handle_raw_tx (address hash256) hash256 testnet cache payload q
    else q
listen_tx hash256 testnet cache parts q = q

-- a round of the inner loop of `_listen_block`
unfoldable pub listen_block : List Bytes → Result Db → Cache → Cache
unfolding handle_raw_block
listen_block (topic ∷ payload ∷ rest) db cache =
    if text_eq topic zmq_topic_raw_block then handle_raw_block payload db cache else cache
listen_block parts db cache = cache

abbrev pub is_imported_status : InvoiceStatus → Bool
is_imported_status InvoiceStatus.new = true
is_imported_status InvoiceStatus.partial = true
is_imported_status _ = false

-- `_import_existing_addresses`: the calls of `import_address`, each with its address and the invoice
-- of its label. A call that fails is logged and changes nothing for the others.
unfoldable pub import_existing_addresses : Registry → Bool → Db → List (Text × ℕ)
unfolding contains select
import_existing_addresses registry reachable db =
    if not (contains (codes "BTC") registry)
    then []
    else if not reachable
    then []
    else map (λ inv. (inv.address, inv.id)) (select (λ i. is_imported_status i.status) db.invoices)

-- the same, with the answer of the database; the query is made only if the node is reachable
unfoldable pub imports : Registry → Bool → Result Db → Result (List (Text × ℕ))
unfolding contains
imports registry reachable answer =
    if contains (codes "BTC") registry && reachable
    then bind answer (λ db. ok (import_existing_addresses registry reachable db))
    else ok []

-- `AddressCache.start`
unfoldable pub start_cache : Result Db → Cache
start_cache answer = refresh answer []

-- `run` until its listeners start: what `connect` answers, and the answers of the database to the
-- refresh of the cache and to the query of the import
unfoldable pub start_watcher :
    Registry → Bool → Result (Unit {0}) → Result Db → Result Db → Result (Cache × List (Text × ℕ))
unfolding imports start_cache
start_watcher registry reachable connected cached_rows import_rows = bind connected (λ _.
    bind (imports registry reachable import_rows) (λ calls. ok (start_cache cached_rows, calls)))
