-- ===== src/Watcher/Decoder/RoundTrip.antt =====
-- Decoding a transaction that was serialised.
use crypto_pay_system.Prelude.{
  ℕ, ◌≡◌, ap, ◌∙◌, List, [], ◌∷◌, ◌++◌, append-nil, length, Bool, true, false, if◌then◌else◌, All,
}
use crypto_pay_system.Prelude.Exec.{Result, ok, pure, ◌>>=◌}
use crypto_pay_system.Prelude.Int.{ℤ}
use crypto_pay_system.Watcher.Decoder.{
  Bytes, RawTx, TxInput, TxOutput, le_bytes, of_i32, read_u32, read_i32, read_varint, encode_varint,
  repeat, concat_map, read_input, read_output, serialise_input, serialise_output, legacy_serialise,
  read_marker, skip_witness, txid_of, decode_body, decode_from, decode_raw_tx,
}
use crypto_pay_system.Watcher.Decoder.Reads.{
  Reads, next, Reads-pure, Reads-bind, Reads-map, Reads-read_i32, Reads-read_varint,
}
use crypto_pay_system.Watcher.Decoder.Parts.{u32, Reads-inputs, Reads-outputs}
use crypto_pay_system.Watcher.Decoder.Layout.{
  witness_serialise, IsTx, IsStack, serialise_stack, Reads-witness, not_marker, marker,
}

module _ (hash256 : Bytes → Bytes) (testnet : Bool) (version : ℤ) (inputs : List TxInput)
    (outputs : List TxOutput) (locktime : ℕ)
    (t : IsTx testnet version inputs outputs locktime) where
  decoded : Bytes → Bool → RawTx
  decoded raw is_segwit = record {
    txid =
        txid_of hash256
          (if is_segwit then legacy_serialise version inputs outputs locktime else raw);
    version = version;
    locktime = locktime;
    inputs = inputs;
    outputs = outputs;
    is_segwit = is_segwit;
    testnet = testnet;
  }

  Reads-body :
      (raw : Bytes) (is_segwit : Bool) (witness : Bytes)
      → Reads (skip_witness is_segwit (length inputs)) witness tt
      → Reads
          (decode_body hash256 raw testnet version is_segwit)
          (encode_varint (length inputs)
            ++ (concat_map serialise_input inputs
                ++ (encode_varint (length outputs)
                    ++ (concat_map serialise_output outputs ++ (witness ++ le_bytes 4 locktime)))))
          (decoded raw is_segwit)
  unfolding decode_body decoded
  Reads-body raw is_segwit witness w =
      let made =
        λ (is : List TxInput) (os : List TxOutput). λ (l : ℕ). RawTx_of raw is_segwit is os l in
      let k4 = λ (n : ℕ) (is : List TxInput) (os : List TxOutput).
        λ (u : Unit {0}). read_u32 >>= λ l. pure (made is os l) in
      let k3 = λ (n : ℕ) (is : List TxInput).
        λ (os : List TxOutput). skip_witness is_segwit n >>= k4 n is os in
      let k2 =
        λ (n : ℕ) (is : List TxInput). λ (m : ℕ). repeat m (read_output testnet) >>= k3 n is in
      let k1 = λ (n : ℕ). λ (is : List TxInput). read_varint >>= k2 n is in
      let k0 = λ (n : ℕ). repeat n read_input >>= k1 n in
      let n = length inputs in
      let m = length outputs in
      Reads-bind read_varint k0 (encode_varint n) _ n (Reads-read_varint n t.input_count.1) (
        Reads-bind (repeat n read_input) (k1 n) (concat_map serialise_input inputs) _ inputs
          (Reads-inputs inputs t.inputs_fit)
          (Reads-bind read_varint (k2 n inputs) (encode_varint m) _ m
            (Reads-read_varint m t.output_count)
            (Reads-bind (repeat m (read_output testnet)) (k3 n inputs)
              (concat_map serialise_output outputs) _ outputs
              (Reads-outputs testnet outputs t.outputs_fit)
              (Reads-bind (skip_witness is_segwit n) (k4 n inputs outputs) witness _ tt w (
                Reads-map read_u32 (made inputs outputs) (le_bytes 4 locktime) locktime
                  (u32 locktime t.locktime_fits))))))
    where
      RawTx_of : Bytes → Bool → List TxInput → List TxOutput → ℕ → RawTx
      RawTx_of raw s is os l = record {
        txid = txid_of hash256 (if s then legacy_serialise version is os l else raw);
        version = version;
        locktime = l;
        inputs = is;
        outputs = os;
        is_segwit = s;
        testnet = testnet;
      }

  -- what follows the version and the marker
  tail_bytes : Bytes → Bytes
  tail_bytes witness =
      encode_varint (length inputs)
      ++ (concat_map serialise_input inputs
          ++ (encode_varint (length outputs)
              ++ (concat_map serialise_output outputs ++ (witness ++ le_bytes 4 locktime))))

  body_run :
      (raw : Bytes) (is_segwit : Bool) (witness : Bytes)
      → Reads (skip_witness is_segwit (length inputs)) witness tt
      → decode_body hash256 raw testnet version is_segwit (tail_bytes witness)
        ≡ (ok (decoded raw is_segwit), [])
  unfolding tail_bytes
  body_run raw is_segwit witness w = rw append-nil at ((Reads-body raw is_segwit witness w).at [])

  legacy_run :
      (raw : Bytes)
      → decode_from hash256 raw testnet (le_bytes 4 (of_i32 version) ++ tail_bytes [])
        ≡ (ok (decoded raw false), [])
  unfolding decode_from
  legacy_run raw =
      let k1 = λ (v : ℤ). λ (s : Bool). decode_body hash256 raw testnet v s in
      let k0 = λ (v : ℤ). read_marker >>= k1 v in
      let tail = tail_bytes [] in
      next read_i32 k0 (le_bytes 4 (of_i32 version) ++ tail) tail version
        ((Reads-read_i32 version t.version_fits).at tail)
      ∙ next read_marker (k1 version) tail tail false
          (unfold tail_bytes in not_marker (length inputs) _ t.input_count.0)
      ∙ body_run raw false [] (unfold skip_witness in Reads-pure tt)

  segwit_run :
      (raw witness : Bytes)
      → Reads (skip_witness true (length inputs)) witness tt
      → decode_from hash256 raw testnet
          (le_bytes 4 (of_i32 version) ++ (0 ∷ 1 ∷ [] ++ tail_bytes witness))
        ≡ (ok (decoded raw true), [])
  unfolding decode_from
  segwit_run raw witness w =
      let k1 = λ (v : ℤ). λ (s : Bool). decode_body hash256 raw testnet v s in
      let k0 = λ (v : ℤ). read_marker >>= k1 v in
      let tail = tail_bytes witness in
      next read_i32 k0 (le_bytes 4 (of_i32 version) ++ (0 ∷ 1 ∷ [] ++ tail)) (0 ∷ 1 ∷ [] ++ tail)
        version ((Reads-read_i32 version t.version_fits).at (0 ∷ 1 ∷ [] ++ tail))
      ∙ next read_marker (k1 version) (0 ∷ 1 ∷ [] ++ tail) tail true (marker.at tail)
      ∙ body_run raw true witness w

  -- A transaction with at least one input that was serialised without witness is decoded to its
  -- version, inputs, outputs and locktime, and its txid is the reversed double hash of those bytes.
  pub decode-legacy :
      let raw = legacy_serialise version inputs outputs locktime in
      decode_raw_tx hash256 raw testnet
      ≡ ok (record {
        txid = txid_of hash256 raw;
        version = version;
        locktime = locktime;
        inputs = inputs;
        outputs = outputs;
        is_segwit = false;
        testnet = testnet;
      })
  unfolding decode_raw_tx decoded tail_bytes legacy_serialise
  decode-legacy =
      ap (λ (p : Result RawTx × Bytes). p.0)
        (legacy_run (legacy_serialise version inputs outputs locktime))

  -- With the witness stacks of the inputs, the same parts are decoded, and the txid is that of the
  -- transaction without its witness: a witness does not change the txid.
  pub decode-witness :
      (stacks : List (List Bytes))
      → length stacks ≡ length inputs
      → All IsStack stacks
      → let witness = concat_map serialise_stack stacks in
        decode_raw_tx hash256 (witness_serialise version inputs outputs witness locktime) testnet
        ≡ ok (record {
          txid = txid_of hash256 (legacy_serialise version inputs outputs locktime);
          version = version;
          locktime = locktime;
          inputs = inputs;
          outputs = outputs;
          is_segwit = true;
          testnet = testnet;
        })
  unfolding decode_raw_tx decoded tail_bytes witness_serialise
  decode-witness stacks n fits =
      let witness = concat_map serialise_stack stacks in
      ap (λ (p : Result RawTx × Bytes). p.0)
        (segwit_run (witness_serialise version inputs outputs witness locktime) witness
          (Reads-witness (length inputs) stacks n fits))
