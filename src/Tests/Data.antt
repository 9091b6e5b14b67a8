-- ===== src/Tests/Data.antt =====
-- A small shop: one merchant with a commission of 1.50 percent, one coin, one open invoice.
use crypto_pay_system.Prelude.{true, false, none, [], ◌∷◌}
use crypto_pay_system.Prelude.Exec.{ok}
use crypto_pay_system.Prelude.Int.{pos}
use crypto_pay_system.Prelude.Text.{Text, codes}
use crypto_pay_system.Models.{
  InvoiceStatus, PayoutStatus, Coin, Merchant, Invoice, Balance, Utxo, Payout, Db, empty_db,
}
use crypto_pay_system.Providers.Registry.{Provider}
use crypto_pay_system.Ledger.Queue.{LedgerJob}

abbrev pub btc : Text
btc = codes "BTC"

abbrev pub coin : Coin
coin = record { id = 1; symbol = btc; name = codes "Bitcoin"; is_active = true }

abbrev pub merchant : Merchant
merchant = record {
  id = 7;
  api_key = codes "key";
  commission_pcent = 150;
  webhook_url = none;
  is_active = true;
  created_at = 0;
}

abbrev pub invoice : Invoice
invoice = record {
  id = 3;
  coin_id = 1;
  merchant_id = 7;
  address = codes "tb1a";
  amount_expected = 100_001;
  status = InvoiceStatus.new;
  derivation_index = 4;
  created_at = 10;
  expires_at = none;
  paid_at = none;
}

abbrev pub shop : Db
shop = record empty_db { coins = coin ∷ []; merchants = merchant ∷ []; invoices = invoice ∷ [] }

abbrev pub job : LedgerJob
job = record {
  txid = codes "aa";
  invoice_id = 3;
  address = codes "tb1a";
  amount_sat = 100_001;
  coin_symbol = btc;
  merchant_id = 7;
  confirmations = 0;
  retry_count = 0;
}

abbrev pub provider : Provider
provider = record {
  symbol = btc;
  generate_address = λ index change. ok (codes "tb1a");
  check_confirmations = λ txid. ok 3;
  validate_address = λ address. true;
}

-- a payout of 60000 satoshis, and the account that pays it
abbrev pub payout : Payout
payout = record {
  id = 9;
  merchant_id = 7;
  coin_id = 1;
  destination_address = codes "tb1d";
  amount_requested = 60_000;
  miner_fee = none;
  amount_net = none;
  status = PayoutStatus.pending;
  txid = none;
  raw_tx_hex = none;
  error_message = none;
  created_at = 20;
  sent_at = none;
}

abbrev pub balance : Balance
balance = record {
  id = 5;
  merchant_id = 7;
  coin_id = 1;
  amount_available = pos 98_501;
  amount_locked = pos 40_000;
}

abbrev pub utxo : Utxo
utxo = record {
  id = 2;
  invoice_id = 3;
  txid = codes "aa";
  vout = 0;
  amount = 100_001;
  script_pubkey = none;
  is_spent = false;
  spent_by_payout_id = none;
  created_at = 12;
}

abbrev pub paying : Db
paying = record shop { balances = balance ∷ []; utxos = utxo ∷ []; payouts = payout ∷ [] }
