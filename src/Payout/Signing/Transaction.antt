-- ===== src/Payout/Signing/Transaction.antt =====
-- The second half of `_build_and_sign` in providers/bitcoin.py: the inputs, the scripts of the
-- outputs, the signatures, and the bytes. What python-bitcoinlib does is the record `Bitcoinlib`.
use crypto_pay_system.Prelude.{
  ℕ, suc, ◌+◌, ◌*◌, ◌-◌, ◌==◌, ◌&&◌, ◌||◌, leb, List, [], ◌∷◌, ◌++◌, reverse, Option, none, some,
  if◌then◌else◌,
}
use crypto_pay_system.Prelude.Exec.{Result, ok, err, bind, value_error}
use crypto_pay_system.Prelude.Int.{ℤ}
use crypto_pay_system.Prelude.Text.{Text}
use crypto_pay_system.Watcher.Decoder.{Bytes, hex}
use crypto_pay_system.Payout.Selector.{SelectedUtxo}
use crypto_pay_system.Payout.Signing.{TxOut}

-- COutPoint, CTxIn, CTxOut and CTransaction of python-bitcoinlib
pub record OutPoint : Type 0 where
  pub hash : Bytes
  pub n : ℕ

pub record TxIn : Type 0 where
  pub prevout : OutPoint
  pub script_sig : Bytes

pub record ScriptOut : Type 0 where
  pub value : ℤ
  pub script : Bytes

pub record CTransaction : Type 0 where
  pub vin : List TxIn
  pub vout : List ScriptOut
  pub version : ℕ

pub record Bitcoinlib : Type 0 where
  -- what the constructor of COutPoint accepts
  pub check_outpoint : Bytes → ℕ → Result (Unit {0})
  -- `CBitcoinAddress(address).to_scriptPubKey()`
  pub script_of : Text → Result Bytes
  -- `CBitcoinSecret.from_secret_bytes(_, compressed=True)`: its public key, and its signatures
  pub public_of : Bytes → Bytes
  pub sign : Bytes → Bytes → Bytes
  -- `SignatureHash(script, tx, i, SIGHASH_ALL)`
  pub signature_hash : Bytes → CTransaction → ℕ → Result Bytes
  -- `CScript([sig, pub_key])`
  pub script_sig : Bytes → Bytes → Bytes
  pub serialize : CTransaction → Bytes

-- what `bytes.fromhex` makes of one character
pub data HexChar : Type 0 where
  blank bad : HexChar
  digit : ℕ → HexChar

pub classify : ℕ → HexChar
classify c =
    if leb 48 c && leb c 57
    then digit (c - 48)
    else if leb 97 c && leb c 102
    then digit (c - 87)
    else if leb 65 c && leb c 70
    then digit (c - 55)
    else if leb 9 c && leb c 13 || c == 32
    then blank
    else bad

-- `bytes.fromhex`, with the first digit of a byte that is not complete yet; blanks may stand between
-- the bytes
unfoldable pub fromhex_from : Option ℕ → Text → Result Bytes
unfolding classify
fromhex_from none [] = ok []
fromhex_from (some high) [] = err value_error
fromhex_from none (c ∷ text) = elim (classify c) [
  | blank ↦ fromhex_from none text
  | bad ↦ err value_error
  | digit high ↦ fromhex_from (some high) text
]
fromhex_from (some high) (c ∷ text) = elim (classify c) [
  | blank ↦ err value_error
  | bad ↦ err value_error
  | digit low ↦ bind (fromhex_from none text) (λ bytes. ok ((high * 16 + low) ∷ bytes))
]

abbrev pub fromhex : Text → Result Bytes
fromhex = fromhex_from none

-- the key of a coin, and the address that it was paid to
pub record Keys : Type 0 where
  pub private_key : ℕ → ℕ → Result Bytes
  pub address : ℕ → ℕ → Result Text

abbrev pub unsigned_input : OutPoint → TxIn
unsigned_input prevout = record { prevout = prevout; script_sig = [] }

module _ (lib : Bitcoinlib) where
  unfoldable pub outpoint : SelectedUtxo → Result OutPoint
  outpoint u = bind (fromhex u.txid) (λ bytes.
      bind (lib.check_outpoint (reverse bytes) u.vout)
        (λ _. ok (record { hash = reverse bytes; n = u.vout })))

  -- `vin`
  unfoldable pub build_inputs : List SelectedUtxo → Result (List TxIn)
  unfolding outpoint
  build_inputs [] = ok []
  build_inputs (u ∷ utxos) =
      bind (outpoint u)
        (λ prevout. bind (build_inputs utxos) (λ vin. ok (unsigned_input prevout ∷ vin)))

  -- `vout`, with `p2pkh_script` of each address
  unfoldable pub build_outputs : List TxOut → Result (List ScriptOut)
  build_outputs [] = ok []
  build_outputs (o ∷ outs) = bind (lib.script_of o.address) (λ script.
      bind (build_outputs outs) (λ vout. ok (record { value = o.value; script = script } ∷ vout)))

  -- the body of the loop `Sign each input`
  unfoldable pub sign_input : Keys → CTransaction → ℕ → SelectedUtxo → TxIn → Result TxIn
  sign_input keys tx i u input = bind (keys.private_key u.change u.derivation_index) (λ priv_key.
      bind (bind (keys.address u.change u.derivation_index) lib.script_of) (λ script_pubkey.
        bind (lib.signature_hash script_pubkey tx i) (λ sig_hash. ok (record {
          prevout = input.prevout;
          script_sig =
              lib.script_sig (lib.sign priv_key sig_hash ++ 1 ∷ []) (lib.public_of priv_key);
        }))))

  -- the loop, from the input `i` on
  unfoldable pub sign_inputs :
      Keys → CTransaction → ℕ → List SelectedUtxo → List TxIn → Result (List TxIn)
  unfolding sign_input
  sign_inputs keys tx i (u ∷ utxos) (input ∷ vin) =
      bind (sign_input keys tx i u input)
        (λ signed. bind (sign_inputs keys tx (suc i) utxos vin) (λ rest. ok (signed ∷ rest)))
  sign_inputs keys tx i _ _ = ok []

  module _ (hash256 : Bytes → Bytes) where
    -- `raw_hex` and `txid`
    abbrev pub encoded : CTransaction → Text × Text
    encoded tx = (hex (lib.serialize tx), hex (reverse (hash256 (lib.serialize tx))))

    -- `_build_and_sign` after the amounts are verified
    unfoldable pub sign_transaction : Keys → List SelectedUtxo → List TxOut → Result (Text × Text)
    unfolding build_inputs build_outputs sign_inputs
    sign_transaction keys utxos outs = bind (build_inputs utxos) (λ vin.
        bind (build_outputs outs) (λ vout.
          let tx : CTransaction = record { vin = vin; vout = vout; version = 1 } in
          bind (sign_inputs keys tx 0 utxos vin)
            (λ signed. ok (encoded (record { vin = signed; vout = vout; version = 1 })))))
