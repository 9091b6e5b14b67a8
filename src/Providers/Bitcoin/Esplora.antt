-- ===== src/Providers/Bitcoin/Esplora.antt =====
-- The HTTP requests of providers/bitcoin.py to Esplora, and what becomes of their failures. The
-- requests library is the function `get`, which gives a response or raises.
use crypto_pay_system.Prelude.{
  ℕ, ◌≡◌, ◌≢◌, refl, ◌⊎◌, inl, inr, ◌==◌, ◌&&◌, leb, ltb, ◌++◌, Option, if◌then◌else◌, arith,
}
use crypto_pay_system.Prelude.Exec.{Result, ok, err, bind, tx_not_found, provider_error, http_error}
use crypto_pay_system.Prelude.Int.{ℤ}
use crypto_pay_system.Prelude.Text.{Text, codes}
use crypto_pay_system.Providers.Bitcoin.{EsploraTx, TxInfo, get_tx_info, get_balance, parse_tx}
use crypto_pay_system.Providers.Bitcoin.Wallet.{BitcoinProvider}

pub record Response (A : Type 0) : Type 0 where
  pub status_code : ℕ
  pub json : Result A

module _ {A : Type 0} where
  -- `resp.raise_for_status()`, then `resp.json()`
  pub body : Response A → Result A
  body resp =
      if leb 400 resp.status_code && ltb resp.status_code 600 then err http_error else resp.json

  tx_body : Response A → Result A
  unfolding body
  tx_body resp = if resp.status_code == 404 then err tx_not_found else body resp

module _ (get : Text → Result (Response EsploraTx)) (provider : BitcoinProvider) where
  abbrev pub tx_url : Text → Text
  tx_url txid = provider.esplora_base ++ codes "/tx/" ++ txid

  -- `_fetch_tx`
  pub fetch_tx : Text → Result EsploraTx
  unfolding tx_body
  fetch_tx txid = bind (get (tx_url txid)) tx_body

  -- `get_tx_info`
  pub tx_info : Text → Result TxInfo
  unfolding fetch_tx
  tx_info txid = get_tx_info (fetch_tx txid)

-- `chain_stats` of an address: `funded_txo_sum` and `spent_txo_sum`
pub record ChainStats : Type 0 where
  pub funded_txo_sum : Option ℕ
  pub spent_txo_sum : Option ℕ

module _ (get : Text → Result (Response ChainStats)) (provider : BitcoinProvider) where
  -- `_fetch_address`
  pub fetch_address : Text → Result ChainStats
  unfolding body
  fetch_address address = bind (get (provider.esplora_base ++ codes "/address/" ++ address)) body

  -- `get_balance`: nothing is caught here.
  unfoldable pub address_balance : Text → Result ℤ
  unfolding fetch_address
  address_balance address =
      bind (fetch_address address)
        (λ stats. ok (get_balance stats.funded_txo_sum stats.spent_txo_sum))

classified :
    (r : Result EsploraTx)
    → ((raw : EsploraTx) × (r ≡ ok raw) × (get_tx_info r ≡ ok (parse_tx raw)))
      ⊎ ((r ≡ err tx_not_found) × (get_tx_info r ≡ err tx_not_found))
      ⊎ ((get_tx_info r ≡ err provider_error) × (r ≢ err tx_not_found))
unfolding get_tx_info
classified (ok raw) = inl (raw, refl, refl)
classified (err tx_not_found) = inr (inl (refl, refl))
classified (err _) = inr (inr (refl, λ e. cc))

-- `get_tx_info` answers with the parsed transaction, or raises TxNotFoundError or ProviderError and
-- nothing else. Where the request itself goes through and the body of the response is no other
-- TxNotFoundError, it is TxNotFoundError exactly for the status 404.
pub tx_info_lem :
    (get : Text → Result (Response EsploraTx)) (provider : BitcoinProvider) (txid : Text)
    (resp : Response EsploraTx)
    → get (tx_url get provider txid) ≡ ok resp
    → resp.json ≢ err tx_not_found
    → ((resp.status_code ≡ 404) × (tx_info get provider txid ≡ err tx_not_found))
      ⊎ (resp.status_code ≢ 404)
        × (((raw : EsploraTx) × (tx_info get provider txid ≡ ok (parse_tx raw)))
            ⊎ (tx_info get provider txid ≡ err provider_error))
unfolding tx_info fetch_tx tx_body body
tx_info_lem get provider txid resp e other = elim (classified (fetch_tx get provider txid)) [
  | inl (raw, r, h) ↦ inr (ground arith, inl (raw, h))
  | inr (inl (r, h)) ↦ inl (ground arith, h)
  | inr (inr (h, r)) ↦ inr (ground arith, inr h)
]
