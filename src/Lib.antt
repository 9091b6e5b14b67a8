-- ===== src/Lib.antt =====
-- CryptoPaySystem: a custodial payment gateway. Merchants open invoices, the watcher sees payments
-- to their addresses, the ledger credits them after enough confirmations and keeps a commission,
-- and payouts send a merchant's balance to an outside address.
--
-- How the parts interact. The endpoints of `Api` authenticate a merchant and open invoices and
-- payouts. `Invoicing` creates an invoice with an address that a provider derives
-- (`Providers.Bitcoin`). `Watcher.Service` takes the node's messages; `Watcher.Decoder` turns raw
-- transactions into values and `Watcher.Address` scripts into addresses; `Watcher.Matching` looks
-- up the outputs in the address cache and pushes a message for each match on the hot list of
-- `Ledger.Queue`. `Ledger.Service` pops the jobs, runs a limited number of them at a time, and
-- moves the retries that are due back. `Ledger.Processor` takes a job, asks a provider of
-- `Providers.Registry` for its confirmations, and then discards it, puts it into the retry set, or
-- calls `Ledger.Accounting`, which credits the net amount of `Ledger.Fee`, writes the fee log,
-- registers the coin and marks the invoice paid. `Payout.Processor` freezes the requested amount,
-- takes coins by `Payout.Selector`, plans the amounts by `Payout.Signing`, and ends in SENT or
-- FAILED.
--
-- Files and sources:
--   Models               core/models.py, core/config.py: the tables and the settings
--   Funds                what an account holds, has earned and has paid out
--   Providers.Registry   providers/registry.py, and the interface of providers/base.py
--   Providers.Node       providers/bitcoin_rpc.py: get_confirmations, ping, estimate_smart_fee
--   Providers.Client     providers/bitcoin_rpc.py: the proxy and the calls of BitcoinRPCClient
--   Providers.Bootstrap  providers/registry.py: bootstrap_providers
--   Providers.Bitcoin    providers/bitcoin.py: BitcoinProvider, less the payout transaction; its
--                        keys are in Wallet, its requests to Esplora in Esplora, its calls in Calls
--   Invoicing            services/api/invoice_service.py: InvoiceService.create_invoice
--   Ledger.Fee           services/ledger/accounting.py: calculate_fee
--   Ledger.Accounting    services/ledger/accounting.py: AccountingEngine.credit
--   Ledger.Queue         services/ledger/queue.py: LedgerJob and LedgerQueue
--   Ledger.Processor     services/ledger/processor.py: TxProcessor.process
--                        beside other jobs, and with a COMMIT that fails, in Late
--   Ledger.Service       services/ledger/service.py: the loops of LedgerService as a step relation
--   Payout.Selector      services/payout/selector.py: UTXOSelector.select
--   Payout.Signing       providers/bitcoin.py: create_payout_transaction, _build_and_sign; the
--                        amounts, then in Transaction the inputs, scripts, signatures and bytes
--   Payout.Processor     services/payout/processor.py: PayoutProcessor.execute
--   Payout.Service       services/payout/router.py: the tasks that run execute, step by step
--   Watcher.Decoder      services/watcher/tx_decoder.py: decode_raw_tx, _legacy_serialise
--   Watcher.Address      services/watcher/tx_decoder.py: _script_to_address, Base58Check, Bech32
--   Watcher.Matching     services/watcher/address_cache.py, tx_queue.py, zmq_watcher.py: handlers
--   Watcher.Service      services/watcher/zmq_watcher.py: listeners, start and import; tx_queue.py
--                        with a Redis that refuses commands, in Failing
--   Api.Auth             services/api/auth.py, services/api/admin_auth.py
--   Api.Admin            services/api/routers/admin_merchants.py
--   Api.Profile          services/api/routers/merchant.py
--   Api.Invoices         services/api/routers/invoices.py
--   Api.Payouts          services/payout/router.py
--   Api.Amount           the amounts of requests and the columns Numeric(28, 8)
--   Api.Paging           ORDER BY … DESC LIMIT … OFFSET … of the listings
--   Api.Forms            core/schemas.py and services/payout/router.py: the forms of the answers
--   System               all services on one database and one Redis, as one step relation
--   Migrations           migrations/versions/001_initial_schema.py, 002_merchant_is_active.py
--   Scripts              scripts/seed.py
--   Prelude              results, database methods, rows, integers, text and lists
--   Tests                concrete data, and each result below applied to it
--
-- How the code is modelled. The database is a record with one list of rows for each table. A method
-- is a function from the database to a result and a database; what was written before an exception
-- stays, and `atomically` is the block `session.begin()` that undoes it. A loaded row is read by
-- value, and an assignment to it is an update of the rows with its key. The rows of balances and
-- payouts are locked when they are read, so a transaction on them is one step; the tasks of the
-- ledger service and those of the payouts interleave in such steps. The invoice and the Transaction
-- of a job are read without a lock: `process` is the job that no other comes between, and
-- `late_process` of Ledger.Processor.Late has read any rows at all, of which nothing is asked, and
-- gets any answer from COMMIT. Both end a job in `Ledger.Service.Work`, beside the payouts in
-- `Payout.Service.Step`, and so in `System.Step`. What is stated of `process` alone, or of
-- `process_in_session`, is stated of a job that no other comes between, and whose COMMIT succeeds.
-- `flush` checks the unique constraints that the modelled code can violate; it does not check the
-- lengths of text columns. Money of type Numeric(28, 8) is a whole number of satoshis, and balances
-- are integers; the amount of a request is a decimal fraction (`Api.Amount`), which is floored for
-- the minimum, compared as it is, and rounded for the column; percentages are hundredths of a
-- percent. Keys and times are numbers, given by `Fresh`, `Env` and the records of keys where the
-- code asks uuid4, `secrets`, the database or the clock. Texts are lists of code points, and bytes
-- are numbers below 256. The texts of exceptions are not kept; an HTTPException keeps its status
-- code. A handler runs in one session that commits when it returns (core/database.py: get_db). The
-- hash functions, the libraries for keys, scripts and signatures, HTTP requests, Python's `str` and
-- `strip`, and what the node answers are parameters; the node's counts of confirmations are not
-- negative. A JSON payload is a record; two payloads are one member of a sorted set when all their
-- fields agree.
--
-- The schema of the migrations is a list of tables, each with its columns, constraints and indexes,
-- and a list of enum types; a statement is refused where PostgreSQL refuses it, for a name that is
-- taken or missing, or a table or type that others need. Tables, indexes and unique constraints
-- have their names in one namespace; the names that PostgreSQL makes up give way and are left out.
--
-- Bounds. Each loop is structural, over a list or over a count that the code reads first, except
-- two loops on numbers: the digits of Base58 have as many rounds as the number, which each round
-- makes smaller, and the groups of Bech32 as many as there are bits, which each round takes away.
-- Lengths and integers of the wire format have the widths of the code; the accumulator of Bech32
-- keeps 32 bits.
--
-- The system. A state of `System` has the tables, the queues and jobs of the ledger service, the
-- cache of the watcher and the tasks of the payouts; a step is one round of a loop, one message of
-- the node, one committed request or one step of a payout, and the steps come in any order. A query
-- may fail in every step of the watcher. A process that stops loses what it has in memory. The
-- administration of merchants is no step of it.
--
-- Not modelled: the making of sockets and connections, signals, the loop that logs queue sizes, the
-- routing of FastAPI, the health page, the database engine, and the scripts init_db.py and
-- gen_keys.py, which only call libraries.
pub mod Prelude
pub mod Models
pub mod Funds
pub mod Providers
pub mod Invoicing
pub mod Ledger
pub mod Payout
pub mod Watcher
pub mod Api
pub mod Migrations
pub mod System
pub mod Scripts
pub mod Tests
