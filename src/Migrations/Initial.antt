-- ===== src/Migrations/Initial.antt =====
-- The statements of migrations/versions/001_initial_schema.py and 002_merchant_is_active.py.
use crypto_pay_system.Prelude.{true, false, List, [], ◌∷◌}
use crypto_pay_system.Prelude.Text.{codes}
use crypto_pay_system.Migrations.{
  boolean, Statement, create_type, create_table, create_index, set_enum, add_column, drop_index,
  drop_column, drop_table, drop_type,
}
use crypto_pay_system.Migrations.Tables.{
  defaulted, coins_table, merchants_table, invoices_table, balances_table, transactions_table,
  system_fee_log_table, utxos_table, payouts_table,
}

-- `upgrade` of the revision 001
unfoldable pub upgrade_001 : List Statement
upgrade_001 =
    create_type (codes "invoice_status")
      (codes "NEW" ∷ codes "PENDING" ∷ codes "PARTIAL" ∷ codes "PAID" ∷ codes "EXPIRED" ∷ [])
    ∷ create_type (codes "payout_status") (
        codes "PENDING"
        ∷ codes "PROCESSING"
        ∷ codes "SENT"
        ∷ codes "CONFIRMED"
        ∷ codes "FAILED"
        ∷ [])
    ∷ create_table coins_table
    ∷ create_index (codes "ix_coins_symbol") (codes "coins") (codes "symbol" ∷ []) true
    ∷ create_table merchants_table
    ∷ create_index (codes "ix_merchants_api_key") (codes "merchants") (codes "api_key" ∷ []) true
    ∷ create_table invoices_table
    ∷ set_enum (codes "invoices") (codes "status") (codes "invoice_status") (codes "NEW")
    ∷ create_index (codes "ix_invoices_coin_id") (codes "invoices") (codes "coin_id" ∷ []) false
    ∷ create_index (codes "ix_invoices_merchant_id") (codes "invoices") (codes "merchant_id" ∷ [])
        false
    ∷ create_index (codes "ix_invoices_address") (codes "invoices") (codes "address" ∷ []) false
    ∷ create_index (codes "ix_invoices_status") (codes "invoices") (codes "status" ∷ []) false
    ∷ create_table balances_table
    ∷ create_index (codes "ix_balances_merchant_id") (codes "balances") (codes "merchant_id" ∷ [])
        false
    ∷ create_table transactions_table
    ∷ create_index (codes "ix_transactions_invoice_id") (codes "transactions")
        (codes "invoice_id" ∷ []) false
    ∷ create_index (codes "ix_transactions_txid") (codes "transactions") (codes "txid" ∷ []) false
    ∷ create_table system_fee_log_table
    ∷ create_index (codes "ix_system_fee_log_transaction_id") (codes "system_fee_log")
        (codes "transaction_id" ∷ []) false
    ∷ create_index (codes "ix_system_fee_log_merchant_id") (codes "system_fee_log")
        (codes "merchant_id" ∷ []) false
    ∷ create_table utxos_table
    ∷ create_index (codes "ix_utxos_invoice_id") (codes "utxos") (codes "invoice_id" ∷ []) false
    ∷ create_index (codes "ix_utxos_txid") (codes "utxos") (codes "txid" ∷ []) false
    ∷ create_index (codes "ix_utxos_is_spent") (codes "utxos") (codes "is_spent" ∷ []) false
    ∷ create_index (codes "ix_utxos_spent_by_payout_id") (codes "utxos")
        (codes "spent_by_payout_id" ∷ []) false
    ∷ create_table payouts_table
    ∷ set_enum (codes "payouts") (codes "status") (codes "payout_status") (codes "PENDING")
    ∷ create_index (codes "ix_payouts_merchant_id") (codes "payouts") (codes "merchant_id" ∷ [])
        false
    ∷ create_index (codes "ix_payouts_status") (codes "payouts") (codes "status" ∷ []) false
    ∷ create_index (codes "ix_payouts_txid") (codes "payouts") (codes "txid" ∷ []) false
    ∷ []

-- `downgrade` of the revision 001
unfoldable pub downgrade_001 : List Statement
downgrade_001 =
    drop_table (codes "payouts")
    ∷ drop_table (codes "utxos")
    ∷ drop_table (codes "system_fee_log")
    ∷ drop_table (codes "transactions")
    ∷ drop_table (codes "balances")
    ∷ drop_table (codes "invoices")
    ∷ drop_table (codes "merchants")
    ∷ drop_table (codes "coins")
    ∷ drop_type (codes "payout_status")
    ∷ drop_type (codes "invoice_status")
    ∷ []

-- the revision 002
unfoldable pub upgrade_002 : List Statement
upgrade_002 =
    add_column (codes "merchants") (defaulted "is_active" boolean "true")
    ∷ create_index (codes "ix_merchants_is_active") (codes "merchants") (codes "is_active" ∷ [])
        false
    ∷ []

unfoldable pub downgrade_002 : List Statement
downgrade_002 =
    drop_index (codes "ix_merchants_is_active") (codes "merchants")
    ∷ drop_column (codes "merchants") (codes "is_active")
    ∷ []
