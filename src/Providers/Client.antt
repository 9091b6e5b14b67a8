-- ===== src/Providers/Client.antt =====
-- BitcoinRPCClient of providers/bitcoin_rpc.py: the calls that it sends to the node, and to which
-- address. What a call gives is the node's; AuthServiceProxy is the function `node`.
use crypto_pay_system.Prelude.{
  ℕ, ◌≡◌, ◌≢◌, refl, ◌&&◌, not, Bool, true, false, List, [], ◌∷◌, ◌++◌, drop, Option, if◌then◌else◌,
  arith, All,
}
use crypto_pay_system.Prelude.Text.{Text, codes, starts_with}
use crypto_pay_system.Providers.Node.{Reply, contains_text}
use crypto_pay_system.Providers.Bitcoin.Wallet.{or_default}

-- The fields `bitcoin_rpc_url`, `bitcoin_rpc_user` and `bitcoin_rpc_password` of the settings, and
-- those of a client.
pub record RpcAccess : Type 0 where
  pub url : Text
  pub user : Text
  pub password : Text

-- `__init__`
unfoldable pub new_client : RpcAccess → Option Text → Option Text → Option Text → RpcAccess
new_client settings url user password = record {
  url = or_default url settings.url;
  user = or_default user settings.user;
  password = or_default password settings.password;
}

abbrev pub mark : Text
mark = codes "://"

-- `text.split("://", 1)` of a text that has the separator
unfoldable pub split_once : Text → Text × Text
split_once [] = ([], [])
split_once (c ∷ text) =
    let (front, rest) = split_once text in
    if starts_with (c ∷ text) mark then ([], drop 3 (c ∷ text)) else (c ∷ front, rest)

-- the address with the credentials in it
abbrev injected : Text × Text → RpcAccess → Text
injected (scheme, rest) client =
    scheme ++ mark ++ client.user ++ codes ":" ++ client.password ++ codes "@" ++ rest

-- `_make_proxy`: the credentials go into the address, unless it has some
unfoldable pub proxy_url : RpcAccess → Text
unfolding split_once
proxy_url client =
    if contains_text mark client.url && not (contains_text (codes "@") client.url)
    then injected (split_once client.url) client
    else client.url

-- an argument of a call
pub data Arg : Type 0 where
  text : Text → Arg
  number : ℕ → Arg
  flag : Bool → Arg

module _ {Json : Type 0} (node : Text → Text → List Arg → Reply Json) where
  -- `_call`: what the node raises is logged and raised again.
  pub call : RpcAccess → Text → List Arg → Reply Json
  unfolding proxy_url
  call client method args = node (proxy_url client) method args

  pub import_address : RpcAccess → Text → Text → Bool → Bool → Reply Json
  unfolding call
  import_address client address label rescan p2sh =
      call client (codes "importaddress") (text address ∷ text label ∷ flag rescan ∷ flag p2sh ∷ [])

  pub get_raw_transaction : RpcAccess → Text → Bool → Reply Json
  unfolding call
  get_raw_transaction client txid verbose =
      call client (codes "getrawtransaction") (text txid ∷ flag verbose ∷ [])

  pub decode_raw_transaction : RpcAccess → Text → Reply Json
  unfolding call
  decode_raw_transaction client raw_hex =
      call client (codes "decoderawtransaction") (text raw_hex ∷ [])

  pub get_block_count : RpcAccess → Reply Json
  unfolding call
  get_block_count client = call client (codes "getblockcount") []

  pub get_block_hash : RpcAccess → ℕ → Reply Json
  unfolding call
  get_block_hash client height = call client (codes "getblockhash") (number height ∷ [])

  pub get_transaction : RpcAccess → Text → Reply Json
  unfolding call
  get_transaction client txid = call client (codes "gettransaction") (text txid ∷ [])

  pub send_raw_transaction : RpcAccess → Text → Reply Json
  unfolding call
  send_raw_transaction client raw_hex = call client (codes "sendrawtransaction") (text raw_hex ∷ [])

starts_with_self : (front rest : Text) → starts_with (front ++ rest) front ≡ true
unfolding starts_with
starts_with_self [] rest = refl
starts_with_self (c ∷ front) rest = ground (arith, starts_with_self front rest)

contains_mark : (scheme rest : Text) → contains_text mark (scheme ++ mark ++ rest) ≡ true
unfolding contains_text
contains_mark [] rest = rw (starts_with_self mark rest) refl
contains_mark (c ∷ scheme) rest = ground (arith, contains_mark scheme rest)

split_once-mark :
    (scheme rest : Text)
    → All (λ c. c ≢ b':') scheme
    → split_once (scheme ++ mark ++ rest) ≡ (scheme, rest)
unfolding split_once starts_with
split_once-mark [] rest h = refl
split_once-mark (c ∷ scheme) rest h = ground (arith, split_once-mark scheme rest h.1, h.0)

-- The proxy of an address without credentials has them between the separator and the host; an
-- address that has credentials is used as it is, so that they go in once only.
pub proxy_url_lem :
    (client : RpcAccess) (scheme host : Text)
    → All (λ c. c ≢ b':') scheme
    → client.url ≡ scheme ++ mark ++ host
    → (contains_text (codes "@") client.url ≡ false
        → proxy_url client
          ≡ scheme ++ mark ++ client.user ++ codes ":" ++ client.password ++ codes "@" ++ host)
      × (contains_text (codes "@") client.url ≡ true → proxy_url client ≡ client.url)
unfolding proxy_url
proxy_url_lem client scheme host plain e = (
  λ bare.
      let marked : contains_text mark client.url ≡ true = rw e (contains_mark scheme host) in
      let parts : split_once client.url ≡ (scheme, host) =
        rw e (split_once-mark scheme host plain) in
      rw (marked, bare, parts) refl,
  λ found. rw found (ground arith),
)
