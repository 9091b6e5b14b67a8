-- ===== src/Watcher/Decoder/Parts.antt =====
-- The inputs and outputs of a transaction, and reading them.
use crypto_pay_system.Prelude.{
  ℕ, ◌^◌, ◌<◌, ◌≡◌, refl, ap, ◌∙◌, List, [], ◌∷◌, ◌++◌, length, reverse, arith, Bool, All,
}
use mathlib.Core.List.{reverse-reverse}
use crypto_pay_system.Prelude.Exec.{pure, ◌>>=◌}
use crypto_pay_system.Watcher.Decoder.{
  Bytes, TxInput, TxOutput, read, le_bytes, hex, from_hex, read_u32, read_u64, read_varint,
  encode_varint, repeat, concat_map, read_input, read_output, serialise_input, serialise_output,
}
use crypto_pay_system.Watcher.Decoder.Bytes.{IsByte, from_hex-hex}
use crypto_pay_system.Watcher.Decoder.Reads.{
  Reads, Reads-bind, Reads-map, Reads-read, Reads-read_n, Reads-read_le, Reads-read_varint,
  Reads-repeat,
}

-- An input that the wire format can hold: the previous txid is the hexadecimal text of 32 bytes.
pub record IsInput (i : TxInput) : Type 0 where
  pub prev : Bytes
  pub prev_bytes : All IsByte prev
  pub prev_length : length (reverse prev) ≡ 32
  pub prev_hex : i.prev_txid ≡ hex prev
  pub vout : i.prev_vout < 2 ^ 32
  pub script : length i.script_sig < 2 ^ 64
  pub sequence : i.sequence < 2 ^ 32

pub record IsOutput (testnet : Bool) (o : TxOutput) : Type 0 where
  pub value : o.value_sat < 2 ^ 64
  pub script : length o.script_pubkey < 2 ^ 64
  pub network : o.testnet ≡ testnet

pub as_input : Bytes → ℕ → Bytes → ℕ → TxInput
as_input le vout script sequence = record {
  prev_txid = hex (reverse le);
  prev_vout = vout;
  script_sig = script;
  sequence = sequence;
}

pub u32 : (n : ℕ) → n < 2 ^ 32 → Reads read_u32 (le_bytes 4 n) n
unfolding read_u32
u32 n h = Reads-read_le 4 n (omega arith)

pub Reads-fields :
    (le : Bytes) (vout : ℕ) (script : Bytes) (sequence : ℕ)
    → length le ≡ 32
    → vout < 2 ^ 32
    → length script < 2 ^ 64
    → sequence < 2 ^ 32
    → Reads read_input
        (le
          ++ (le_bytes 4 vout
              ++ (encode_varint (length script) ++ (script ++ le_bytes 4 sequence))))
        (as_input le vout script sequence)
unfolding read_input as_input
Reads-fields le vout script sequence hl hv hs hq =
    let k3 = λ (le : Bytes) (vout : ℕ) (script : Bytes).
      read_u32 >>= λ q. pure (as_input le vout script q) in
    let k2 = λ (le : Bytes) (vout n : ℕ). read n >>= k3 le vout in
    let k1 = λ (le : Bytes) (vout : ℕ). read_varint >>= k2 le vout in
    let k0 = λ (le : Bytes). read_u32 >>= k1 le in
    Reads-bind (read 32) k0 le _ le (Reads-read_n 32 le hl) (
      Reads-bind read_u32 (k1 le) (le_bytes 4 vout) _ vout (u32 vout hv) (
        Reads-bind read_varint (k2 le vout) (encode_varint (length script)) _ (length script)
          (Reads-read_varint (length script) hs)
          (Reads-bind (read (length script)) (k3 le vout) script _ script (Reads-read script) (
            Reads-map read_u32 (as_input le vout script) (le_bytes 4 sequence) sequence
              (u32 sequence hq)))))

pub as_input-eq :
    (i : TxInput) (h : IsInput i)
    → as_input (reverse h.prev) i.prev_vout i.script_sig i.sequence ≡ i
unfolding as_input
as_input-eq i h = rw (reverse-reverse h.prev, ← h.prev_hex) refl

pub Reads-input : (i : TxInput) → IsInput i → Reads read_input (serialise_input i) i
unfolding serialise_input
Reads-input i h =
    let written : reverse (from_hex i.prev_txid) ≡ reverse h.prev =
      ap reverse (ap from_hex h.prev_hex ∙ from_hex-hex h.prev h.prev_bytes) in
    rw written (
      rw (as_input-eq i h) at (
        Reads-fields (reverse h.prev) i.prev_vout i.script_sig i.sequence h.prev_length h.vout
          h.script h.sequence))

pub output : ℕ → Bytes → Bool → TxOutput
output v script testnet = record { value_sat = v; script_pubkey = script; testnet = testnet }

pub output-eq :
    (testnet : Bool) (o : TxOutput)
    → IsOutput testnet o
    → output o.value_sat o.script_pubkey testnet ≡ o
unfolding output
output-eq testnet o h = rw (← h.network) refl

pub Reads-output :
    (testnet : Bool) (o : TxOutput)
    → IsOutput testnet o
    → Reads (read_output testnet) (serialise_output o) o
unfolding serialise_output read_output read_u64 output
Reads-output testnet o h =
    let made = λ (v : ℕ) (script : Bytes). output v script testnet in
    let k1 = λ (v n : ℕ). read n >>= λ script. pure (made v script) in
    let k0 = λ (v : ℕ). read_varint >>= k1 v in
    let n = length o.script_pubkey in
    rw (output-eq testnet o h) at (
      Reads-bind read_u64 k0 (le_bytes 8 o.value_sat) _ o.value_sat
        (Reads-read_le 8 o.value_sat (omega (arith, h.value)))
        (Reads-bind read_varint (k1 o.value_sat) (encode_varint n) _ n
          (Reads-read_varint n h.script)
          (Reads-map (read n) (made o.value_sat) o.script_pubkey o.script_pubkey
            (Reads-read o.script_pubkey))))

pub Reads-inputs :
    (is : List TxInput)
    → All IsInput is
    → Reads (repeat (length is) read_input) (concat_map serialise_input is) is
Reads-inputs is h = Reads-repeat read_input serialise_input is (each is h)
  where
    each :
        (is : List TxInput)
        → All IsInput is
        → All (λ (i : TxInput). Reads read_input (serialise_input i) i) is
    each [] h = tt
    each (i ∷ is) h = (Reads-input i h.0, each is h.1)

pub Reads-outputs :
    (testnet : Bool) (os : List TxOutput)
    → All (IsOutput testnet) os
    → Reads (repeat (length os) (read_output testnet)) (concat_map serialise_output os) os
Reads-outputs testnet os h = Reads-repeat (read_output testnet) serialise_output os (each os h)
  where
    each :
        (os : List TxOutput)
        → All (IsOutput testnet) os
        → All (λ (o : TxOutput). Reads (read_output testnet) (serialise_output o) o) os
    each [] h = tt
    each (o ∷ os) h = (Reads-output testnet o h.0, each os h.1)
