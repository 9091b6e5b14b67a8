-- ===== src/Models.antt =====
-- The tables of core/models.py and the settings of core/config.py that the modelled code reads.
-- Amounts of type Numeric(28, 8) are whole numbers of satoshis, a percentage of type Numeric(5, 2)
-- is a whole number of hundredths of a percent, and keys and times are numbers. Balances are signed.
use crypto_pay_system.Prelude.{ℕ, Bool, true, false, Option, List, []}
use crypto_pay_system.Prelude.Int.{ℤ}
use crypto_pay_system.Prelude.Text.{Text}

pub data InvoiceStatus : Type 0 where
  new pending partial paid expired : InvoiceStatus

pub record Coin : Type 0 where
  pub id : ℕ
  pub symbol : Text
  pub name : Text
  pub is_active : Bool

pub record Merchant : Type 0 where
  pub id : ℕ
  pub api_key : Text
  pub commission_pcent : ℕ
  pub webhook_url : Option Text
  pub is_active : Bool
  pub created_at : ℕ

pub record Invoice : Type 0 where
  pub id : ℕ
  pub coin_id : ℕ
  pub merchant_id : ℕ
  pub address : Text
  pub amount_expected : ℕ
  pub status : InvoiceStatus
  pub derivation_index : ℕ
  pub created_at : ℕ
  pub expires_at : Option ℕ
  pub paid_at : Option ℕ

pub record Balance : Type 0 where
  pub id : ℕ
  pub merchant_id : ℕ
  pub coin_id : ℕ
  pub amount_available : ℤ
  pub amount_locked : ℤ

pub record Transaction : Type 0 where
  pub id : ℕ
  pub invoice_id : ℕ
  pub txid : Text
  pub amount_received : ℕ
  pub confirmations : ℕ
  pub credited : Bool
  pub retry_count : ℕ
  pub detected_at : ℕ
  pub confirmed_at : Option ℕ

pub record SystemFeeLog : Type 0 where
  pub id : ℕ
  pub transaction_id : ℕ
  pub merchant_id : ℕ
  pub coin_id : ℕ
  pub gross_amount : ℕ
  pub commission_pcent : ℕ
  pub fee_amount : ℕ
  pub net_amount : ℤ
  pub created_at : ℕ

pub record Utxo : Type 0 where
  pub id : ℕ
  pub invoice_id : ℕ
  pub txid : Text
  pub vout : ℕ
  pub amount : ℕ
  pub script_pubkey : Option Text
  pub is_spent : Bool
  pub spent_by_payout_id : Option ℕ
  pub created_at : ℕ

pub data PayoutStatus : Type 0 where
  pending processing sent confirmed failed : PayoutStatus

pub record Payout : Type 0 where
  pub id : ℕ
  pub merchant_id : ℕ
  pub coin_id : ℕ
  pub destination_address : Text
  pub amount_requested : ℕ
  pub miner_fee : Option ℕ
  pub amount_net : Option ℕ
  pub status : PayoutStatus
  pub txid : Option Text
  pub raw_tx_hex : Option Text
  pub error_message : Option Text
  pub created_at : ℕ
  pub sent_at : Option ℕ

-- The database: each table is the list of its rows.
pub record Db : Type 0 where
  pub coins : List Coin
  pub merchants : List Merchant
  pub invoices : List Invoice
  pub balances : List Balance
  pub transactions : List Transaction
  pub fee_logs : List SystemFeeLog
  pub utxos : List Utxo
  pub payouts : List Payout

abbrev pub empty_db : Db
empty_db = record {
  coins = [];
  merchants = [];
  invoices = [];
  balances = [];
  transactions = [];
  fee_logs = [];
  utxos = [];
  payouts = [];
}

pub record Settings : Type 0 where
  pub ledger_required_confirmations : ℕ
  pub ledger_retry_delay : ℕ
  pub ledger_max_retries : ℕ
  pub ledger_concurrency : ℕ
  pub payout_change_index : ℕ
  pub payout_fee_rate_sat_vbyte : ℕ
  pub payout_min_amount_sat : ℕ
  pub payout_dust_threshold_sat : ℕ

abbrev pub default_settings : Settings
default_settings = record {
  ledger_required_confirmations = 3;
  ledger_retry_delay = 60;
  ledger_max_retries = 144;
  ledger_concurrency = 4;
  payout_change_index = 1_000_000;
  payout_fee_rate_sat_vbyte = 10;
  payout_min_amount_sat = 10_000;
  payout_dust_threshold_sat = 546;
}

abbrev pub status_eq : InvoiceStatus → InvoiceStatus → Bool
status_eq InvoiceStatus.new InvoiceStatus.new = true
status_eq InvoiceStatus.pending InvoiceStatus.pending = true
status_eq InvoiceStatus.partial InvoiceStatus.partial = true
status_eq InvoiceStatus.paid InvoiceStatus.paid = true
status_eq InvoiceStatus.expired InvoiceStatus.expired = true
status_eq _ _ = false
