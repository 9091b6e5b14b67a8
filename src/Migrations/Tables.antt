-- ===== src/Migrations/Tables.antt =====
-- The tables that `upgrade` of migrations/versions/001_initial_schema.py creates.
use crypto_pay_system.Prelude.{true, false, [], ◌∷◌, none, some}
use Prim.Native.String.{String}
use crypto_pay_system.Prelude.Text.{codes}
use crypto_pay_system.Migrations.{
  ColumnType, integer, big_integer, boolean, text, uuid, date_time, string, numeric, OnDelete,
  restrict, cascade, Column, Table,
}

-- the forms of `sa.Column` that occur
abbrev pub plain : String → ColumnType → Column
plain name type = record {
  name = codes name;
  type = type;
  nullable = false;
  primary_key = false;
  server_default = none;
  foreign_key = none;
}

abbrev pub key : String → ColumnType → Column
key name type = record (plain name type) { primary_key = true }

abbrev pub optional : String → ColumnType → Column
optional name type = record (plain name type) { nullable = true }

abbrev pub defaulted : String → ColumnType → String → Column
defaulted name type default = record (plain name type) { server_default = some (codes default) }

abbrev pub foreign : String → ColumnType → String → OnDelete → Column
foreign name type table on_delete = record (plain name type) {
  foreign_key = some (codes table, on_delete);
}

abbrev pub coins_table : Table
coins_table = record {
  name = codes "coins";
  columns =
      key "id" integer
      ∷ plain "symbol" (string 16)
      ∷ plain "name" (string 64)
      ∷ defaulted "is_active" boolean "true"
      ∷ [];
  uniques = [];
  indexes = [];
}

abbrev pub merchants_table : Table
merchants_table = record {
  name = codes "merchants";
  columns =
      key "id" uuid
      ∷ plain "api_key" (string 64)
      ∷ defaulted "commission_pcent" (numeric 5 2) "1.00"
      ∷ optional "webhook_url" text
      ∷ defaulted "created_at" date_time "now()"
      ∷ [];
  uniques = [];
  indexes = [];
}

abbrev pub invoices_table : Table
invoices_table = record {
  name = codes "invoices";
  columns =
      key "id" uuid
      ∷ foreign "coin_id" integer "coins" restrict
      ∷ foreign "merchant_id" uuid "merchants" restrict
      ∷ plain "address" (string 128)
      ∷ plain "amount_expected" (numeric 28 8)
      ∷ plain "status" (string 32)
      ∷ plain "derivation_index" big_integer
      ∷ defaulted "created_at" date_time "now()"
      ∷ optional "expires_at" date_time
      ∷ optional "paid_at" date_time
      ∷ [];
  uniques = [];
  indexes = [];
}

abbrev pub balances_table : Table
balances_table = record {
  name = codes "balances";
  columns =
      key "id" integer
      ∷ foreign "merchant_id" uuid "merchants" cascade
      ∷ foreign "coin_id" integer "coins" cascade
      ∷ defaulted "amount_available" (numeric 28 8) "0"
      ∷ defaulted "amount_locked" (numeric 28 8) "0"
      ∷ [];
  uniques = (codes "uq_balance_merchant_coin", codes "merchant_id" ∷ codes "coin_id" ∷ []) ∷ [];
  indexes = [];
}

abbrev pub transactions_table : Table
transactions_table = record {
  name = codes "transactions";
  columns =
      key "id" uuid
      ∷ foreign "invoice_id" uuid "invoices" cascade
      ∷ plain "txid" (string 128)
      ∷ plain "amount_received" (numeric 28 8)
      ∷ defaulted "confirmations" integer "0"
      ∷ defaulted "credited" boolean "false"
      ∷ defaulted "retry_count" integer "0"
      ∷ defaulted "detected_at" date_time "now()"
      ∷ optional "confirmed_at" date_time
      ∷ [];
  uniques = [];
  indexes = [];
}

abbrev pub system_fee_log_table : Table
system_fee_log_table = record {
  name = codes "system_fee_log";
  columns =
      key "id" uuid
      ∷ foreign "transaction_id" uuid "transactions" restrict
      ∷ foreign "merchant_id" uuid "merchants" restrict
      ∷ foreign "coin_id" integer "coins" restrict
      ∷ plain "gross_amount" (numeric 28 8)
      ∷ plain "commission_pcent" (numeric 5 2)
      ∷ plain "fee_amount" (numeric 28 8)
      ∷ plain "net_amount" (numeric 28 8)
      ∷ defaulted "created_at" date_time "now()"
      ∷ [];
  uniques = [];
  indexes = [];
}

abbrev pub utxos_table : Table
utxos_table = record {
  name = codes "utxos";
  columns =
      key "id" uuid
      ∷ foreign "invoice_id" uuid "invoices" restrict
      ∷ plain "txid" (string 128)
      ∷ plain "vout" integer
      ∷ plain "amount" (numeric 28 8)
      ∷ optional "script_pubkey" (string 256)
      ∷ defaulted "is_spent" boolean "false"
      ∷ optional "spent_by_payout_id" uuid
      ∷ defaulted "created_at" date_time "now()"
      ∷ [];
  uniques = (codes "uq_utxo_txid_vout", codes "txid" ∷ codes "vout" ∷ []) ∷ [];
  indexes = [];
}

abbrev pub payouts_table : Table
payouts_table = record {
  name = codes "payouts";
  columns =
      key "id" uuid
      ∷ foreign "merchant_id" uuid "merchants" restrict
      ∷ foreign "coin_id" integer "coins" restrict
      ∷ plain "destination_address" (string 128)
      ∷ plain "amount_requested" (numeric 28 8)
      ∷ optional "miner_fee" (numeric 28 8)
      ∷ optional "amount_net" (numeric 28 8)
      ∷ plain "status" (string 32)
      ∷ optional "txid" (string 128)
      ∷ optional "raw_tx_hex" text
      ∷ optional "error_message" text
      ∷ defaulted "created_at" date_time "now()"
      ∷ optional "sent_at" date_time
      ∷ [];
  uniques = [];
  indexes = [];
}
