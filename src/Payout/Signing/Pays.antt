-- ===== src/Payout/Signing/Pays.antt =====
-- The signed transaction as a whole: it spends the selected coins and pays the destination.
use crypto_pay_system.Prelude.{
  ℕ, ◌≡◌, refl, subst, inl, inr, List, [], ◌∷◌, reverse, arith, Bool-cases, if◌then◌else◌,
}
use crypto_pay_system.Prelude.Exec.{Result, ok, err, bind-eq-ok}
use crypto_pay_system.Prelude.Int.{ℤ, pos, ◌+ℤ◌, ltb_ℤ, int_laws}
use crypto_pay_system.Prelude.Rows.{sum}
use crypto_pay_system.Prelude.Text.{Text}
use crypto_pay_system.Models.{Settings}
use crypto_pay_system.Watcher.Decoder.{Bytes, hex}
use crypto_pay_system.Payout.Selector.{SelectedUtxo}
use crypto_pay_system.Payout.Signing.{
  Amounts, TxOut, Signed, outputs, total_input, plan_amounts, rate_or_default, finished,
  signed_with, create_payout_transaction,
}
use crypto_pay_system.Payout.Signing.Balance.{IsBalanced, plan_amounts_lem}
use crypto_pay_system.Payout.Signing.Transaction.{
  ScriptOut, CTransaction, Bitcoinlib, Keys, build_inputs, build_outputs, sign_inputs,
  sign_transaction,
}
use crypto_pay_system.Payout.Signing.Spends.{Spends, unsigned, sign_inputs_inv}

-- what the outputs of a transaction carry
abbrev pub total_value : List ScriptOut → ℤ
total_value = sum (λ o. o.value)

created_inv :
    (sign : List SelectedUtxo → List TxOut → Result (Text × Text)) (settings : Settings)
    (utxos : List SelectedUtxo) (destination : Text) (amount : ℕ) (change : Text) (rate : ℕ)
    (s : Signed)
    → create_payout_transaction sign settings utxos destination amount change rate ≡ ok s
    → (a : Amounts) × (plan_amounts settings utxos amount (rate_or_default settings rate) ≡ ok a)
      × (sign utxos (outputs destination change a) ≡ ok (s.raw_hex, s.txid))
      × (s.fee_sat ≡ a.fee_sat)
unfolding create_payout_transaction signed_with finished
created_inv sign settings utxos destination amount change rate s e =
    planned (plan_amounts settings utxos amount (rate_or_default settings rate)) refl e
  where
    signed :
        (a : Amounts) (r : Result (Text × Text))
        → finished sign a r ≡ ok s
        → (r ≡ ok (s.raw_hex, s.txid)) × (s.fee_sat ≡ a.fee_sat)
    signed a (ok p) e = (ground arith, ground arith)
    signed a (err x) e = cc

    planned :
        (r : Result Amounts)
        → plan_amounts settings utxos amount (rate_or_default settings rate) ≡ r
        → signed_with sign utxos destination change r ≡ ok s
        → (a : Amounts) × (plan_amounts settings utxos amount (rate_or_default settings rate)
            ≡ ok a)
          × (sign utxos (outputs destination change a) ≡ ok (s.raw_hex, s.txid))
          × (s.fee_sat ≡ a.fee_sat)
    planned (ok a) p e =
        let (q, f) = signed a (sign utxos (outputs destination change a)) e in (a, p, q, f)
    planned (err x) p e = cc

planned-IsBalanced :
    (settings : Settings) (utxos : List SelectedUtxo) (amount rate : ℕ) (a : Amounts)
    → plan_amounts settings utxos amount rate ≡ ok a
    → IsBalanced settings utxos amount rate a
planned-IsBalanced settings utxos amount rate a e =
    elim (plan_amounts_lem settings utxos amount rate) [
      | inl (covered, b, p, k) ↦
          let same : b ≡ a = cc in subst (IsBalanced settings utxos amount rate) same k
      | inr (short, p) ↦ cc
    ]

-- The planned outputs, with the fee, carry what the inputs bring.
outputs-balance :
    (settings : Settings) (utxos : List SelectedUtxo) (amount rate : ℕ) (d c : Text) (a : Amounts)
    → IsBalanced settings utxos amount rate a
    → sum (λ (o : TxOut). o.value) (outputs d c a) +ℤ a.fee_sat ≡ pos (total_input utxos)
unfolding outputs sum
outputs-balance settings utxos amount rate d c a k =
    elim (Bool-cases (ltb_ℤ (pos 0) a.change_sat)) [
      | inl t ↦ grind (int_laws, t, k.spent)
      | inr f ↦ grind (int_laws, f, k.spent, k.nonneg)
    ]

module _ (lib : Bitcoinlib) where
  build_outputs-total :
      (outs : List TxOut) (vout : List ScriptOut)
      → build_outputs lib outs ≡ ok vout
      → total_value vout ≡ sum (λ (o : TxOut). o.value) outs
  unfolding build_outputs sum
  build_outputs-total [] vout e = let nothing : vout ≡ [] = ground arith in rw nothing refl
  build_outputs-total (o ∷ outs) vout e =
      let (script, e1, k1) = bind-eq-ok (lib.script_of o.address) _ e in
      let (rest, e2, k2) = bind-eq-ok (build_outputs lib outs) _ k1 in
      let all : vout ≡ record { value = o.value; script = script } ∷ rest = ground arith in
      rw (all, build_outputs-total outs rest e2) refl

  build_outputs-first :
      (destination change : Text) (a : Amounts) (vout : List ScriptOut)
      → build_outputs lib (outputs destination change a) ≡ ok vout
      → (script : Bytes) × (rest : List ScriptOut) × (lib.script_of destination ≡ ok script)
        × (vout ≡ record { value = pos a.amount_out_sat; script = script } ∷ rest)
  unfolding build_outputs outputs
  build_outputs-first destination change a vout e =
      let (script, e1, k1) = bind-eq-ok (lib.script_of destination) _ e in
      let (rest, e2, k2) =
        bind-eq-ok
          (build_outputs lib (
            if ltb_ℤ (pos 0) a.change_sat
            then record { value = a.change_sat; address = change } ∷ []
            else []))
          _ k1 in
      (script, rest, e1, ground arith)

module _ (lib : Bitcoinlib) (keys : Keys) (hash256 : Bytes → Bytes) where
  -- What is promised of a signed payout.
  pub record IsPayoutTx (utxos : List SelectedUtxo) (destination : Text) (amount : ℕ) (s : Signed)
      (tx : CTransaction) : Type 0 where
    pub hex_form : s.raw_hex ≡ hex (lib.serialize tx)
    pub id : s.txid ≡ hex (reverse (hash256 (lib.serialize tx)))
    pub inputs :
        Spends lib keys
          (record { vin = unsigned lib keys tx.vin; vout = tx.vout; version = 1 })
          0
          utxos
          tx.vin
    pub script : Bytes
    pub destined : lib.script_of destination ≡ ok script
    pub rest : List ScriptOut
    pub paid : tx.vout ≡ record { value = pos amount; script = script } ∷ rest
    pub balance : total_value tx.vout +ℤ s.fee_sat ≡ pos (total_input utxos)

  -- A payout transaction that is signed spends exactly the selected coins, each once and in their
  -- order, each with a signature of the unsigned transaction by the key of the coin; its first
  -- output pays the requested amount to the destination; its outputs and the fee are what the
  -- inputs bring; and the hex text and the txid are those of this transaction.
  pub create_payout_transaction_lem :
      (settings : Settings) (utxos : List SelectedUtxo) (destination : Text) (amount : ℕ)
      (change : Text) (rate : ℕ) (s : Signed)
      → create_payout_transaction
          (sign_transaction lib hash256 keys)
          settings
          utxos
          destination
          amount
          change
          rate
        ≡ ok s
      → (tx : CTransaction) × IsPayoutTx utxos destination amount s tx
  unfolding sign_transaction
  create_payout_transaction_lem settings utxos destination amount change rate s e =
      let (a, p, q, f) =
        created_inv (sign_transaction lib hash256 keys) settings utxos destination amount change
          rate s e in
      let k = planned-IsBalanced settings utxos amount (rate_or_default settings rate) a p in
      let outs = outputs destination change a in
      let (vin, e1, k1) = bind-eq-ok (build_inputs lib utxos) _ q in
      let (vout, e2, k2) = bind-eq-ok (build_outputs lib outs) _ k1 in
      let plain : CTransaction = record { vin = vin; vout = vout; version = 1 } in
      let (ys, e3, k3) = bind-eq-ok (sign_inputs lib keys plain 0 utxos vin) _ k2 in
      let (spends, same) = sign_inputs_inv lib keys plain 0 utxos vin ys e1 e3 in
      let (script, rest, e4, k4) = build_outputs-first lib destination change a vout e2 in
      (
        record { vin = ys; vout = vout; version = 1 },
        record {
          hex_form = ground arith;
          id = ground arith;
          inputs = rw same spends;
          script = script;
          destined = e4;
          rest = rest;
          paid = rw k.out at k4;
          balance =
              rw (build_outputs-total lib outs vout e2, f)
                (outputs-balance settings utxos amount (rate_or_default settings rate) destination
                  change a k);
        },
      )
