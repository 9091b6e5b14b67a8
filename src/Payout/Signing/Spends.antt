-- ===== src/Payout/Signing/Spends.antt =====
-- What a signed payout transaction spends and pays.
use crypto_pay_system.Prelude.{ℕ, suc, ◌≡◌, refl, List, [], ◌∷◌, ◌++◌, map, reverse, arith}
use crypto_pay_system.Prelude.Exec.{ok, bind, bind-eq-ok}
use crypto_pay_system.Prelude.Text.{Text}
use crypto_pay_system.Watcher.Decoder.{Bytes}
use crypto_pay_system.Payout.Selector.{SelectedUtxo}
use crypto_pay_system.Payout.Signing.Transaction.{
  OutPoint, TxIn, CTransaction, Bitcoinlib, Keys, fromhex, unsigned_input, outpoint, build_inputs,
  sign_input, sign_inputs,
}

module _ (lib : Bitcoinlib) (keys : Keys) where
  -- An input spends the output that a coin names: it has the coin's outpoint, and a signature, by
  -- the key of the coin's address, of the unsigned transaction under the script of that address.
  pub record IsSpent (tx : CTransaction) (i : ℕ) (u : SelectedUtxo) (input : TxIn) : Type 0 where
    pub txid_bytes : Bytes
    pub txid : fromhex u.txid ≡ ok txid_bytes
    pub prevout : input.prevout ≡ record { hash = reverse txid_bytes; n = u.vout }
    pub priv_key : Bytes
    pub key : keys.private_key u.change u.derivation_index ≡ ok priv_key
    pub address : Text
    pub own : keys.address u.change u.derivation_index ≡ ok address
    pub script : Bytes
    pub locked : lib.script_of address ≡ ok script
    pub sig_hash : Bytes
    pub hashed : lib.signature_hash script tx i ≡ ok sig_hash
    pub signed :
        input.script_sig
        ≡ lib.script_sig (lib.sign priv_key sig_hash ++ 1 ∷ []) (lib.public_of priv_key)

  -- the inputs from the `i`-th on spend the coins, in their order
  pub data Spends (tx : CTransaction) : ℕ → List SelectedUtxo → List TxIn → Type 0 where
    no_more : (i : ℕ) → Spends tx i [] []
    spend :
        (i : ℕ) (u : SelectedUtxo) (us : List SelectedUtxo) (x : TxIn) (xs : List TxIn)
        → IsSpent tx i u x
        → Spends tx (suc i) us xs
        → Spends tx i (u ∷ us) (x ∷ xs)

  -- the inputs before they are signed
  abbrev pub unsigned : List TxIn → List TxIn
  unsigned = map (λ x. unsigned_input x.prevout)

  record IsInput (u : SelectedUtxo) (x : TxIn) : Type 0 where
    pub txid_bytes : Bytes
    pub txid : fromhex u.txid ≡ ok txid_bytes
    pub prevout : x.prevout ≡ record { hash = reverse txid_bytes; n = u.vout }

  outpoint_inv :
      (u : SelectedUtxo) (o : OutPoint) → outpoint lib u ≡ ok o → IsInput u (unsigned_input o)
  unfolding outpoint
  outpoint_inv u o e =
      let (bytes, e1, k1) = bind-eq-ok (fromhex u.txid) _ e in
      let (v, e2, k2) = bind-eq-ok (lib.check_outpoint (reverse bytes) u.vout) _ k1 in
      record { txid_bytes = bytes; txid = e1; prevout = ground arith }

  sign_input_inv :
      (tx : CTransaction) (i : ℕ) (u : SelectedUtxo) (x y : TxIn)
      → IsInput u x
      → sign_input lib keys tx i u x ≡ ok y
      → IsSpent tx i u y × (unsigned_input y.prevout ≡ unsigned_input x.prevout)
  unfolding sign_input
  sign_input_inv tx i u x y n e =
      let (priv, e1, k1) = bind-eq-ok (keys.private_key u.change u.derivation_index) _ e in
      let (script, e2, k2) =
        bind-eq-ok (bind (keys.address u.change u.derivation_index) lib.script_of) _ k1 in
      let (sig_hash, e3, k3) = bind-eq-ok (lib.signature_hash script tx i) _ k2 in
      let (a, e4, k4) = bind-eq-ok (keys.address u.change u.derivation_index) lib.script_of e2 in
      let same : y.prevout ≡ x.prevout = ground arith in
      (
        record {
          txid_bytes = n.txid_bytes;
          txid = n.txid;
          prevout = cc (same, n.prevout);
          priv_key = priv;
          key = e1;
          address = a;
          own = e4;
          script = script;
          locked = k4;
          sig_hash = sig_hash;
          hashed = e3;
          signed = ground arith;
        },
        rw same refl,
      )

  -- What the two loops do to the coins.
  pub sign_inputs_inv :
      (tx : CTransaction) (i : ℕ) (us : List SelectedUtxo) (xs ys : List TxIn)
      → build_inputs lib us ≡ ok xs
      → sign_inputs lib keys tx i us xs ≡ ok ys
      → Spends tx i us ys × (unsigned ys ≡ xs)
  unfolding build_inputs sign_inputs
  sign_inputs_inv tx i [] xs ys b e =
      let none_in : xs ≡ [] = ground arith in
      let none_out : ys ≡ [] = ground arith in rw (none_in, none_out) (no_more i, refl)
  sign_inputs_inv tx i (u ∷ us) [] ys b e =
      let (o, e1, k1) = bind-eq-ok (outpoint lib u) _ b in
      let (r, e2, k2) = bind-eq-ok (build_inputs lib us) _ k1 in cc
  sign_inputs_inv tx i (u ∷ us) (x ∷ xs) ys b e =
      let (o, e1, k1) = bind-eq-ok (outpoint lib u) _ b in
      let (r, e2, k2) = bind-eq-ok (build_inputs lib us) _ k1 in
      let first : x ≡ unsigned_input o = ground arith in
      let rest : r ≡ xs = ground arith in
      let (y, e3, k3) = bind-eq-ok (sign_input lib keys tx i u x) _ e in
      let (zs, e4, k4) = bind-eq-ok (sign_inputs lib keys tx (suc i) us xs) _ k3 in
      let (spent, same) = sign_input_inv tx i u x y (rw first (outpoint_inv u o e1)) e3 in
      let (more, sames) = sign_inputs_inv tx (suc i) us xs zs (rw rest at e2) e4 in
      let out : ys ≡ y ∷ zs = ground arith in rw out (spend i u us y zs spent more, ground arith)
