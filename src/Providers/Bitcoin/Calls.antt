-- ===== src/Providers/Bitcoin/Calls.antt =====
-- The methods of BitcoinProvider in providers/bitcoin.py that hand a call on to the node client.
use crypto_pay_system.Prelude.{ℕ, Bool, List, Option}
use crypto_pay_system.Prelude.Text.{Text}
use crypto_pay_system.Prelude.Int.{ℤ}
use crypto_pay_system.Models.{Settings}
use crypto_pay_system.Providers.Node.{Reply, ping, estimate_smart_fee}
use crypto_pay_system.Providers.Client
use crypto_pay_system.Providers.Client.{RpcAccess, Arg, get_block_count, send_raw_transaction}

module _ {Json : Type 0} (node : Text → Text → List Arg → Reply Json) (rpc : RpcAccess) where
  -- with the default of the client for `p2sh`
  pub import_address : Text → Text → Bool → Reply Json
  import_address address label rescan =
      Client.import_address node rpc address label rescan Bool.false

  pub decode_raw_transaction : Text → Reply Json
  decode_raw_transaction raw_hex = Client.decode_raw_transaction node rpc raw_hex

  pub node_reachable : Bool
  node_reachable = ping (get_block_count node rpc)

  pub broadcast_transaction : Text → Reply Json
  broadcast_transaction raw_hex = send_raw_transaction node rpc raw_hex

-- `get_fee_rate`, from the answer to estimatesmartfee
abbrev pub get_fee_rate : Settings → Reply (Option ℤ) → ℕ
get_fee_rate = estimate_smart_fee
