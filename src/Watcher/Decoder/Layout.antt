-- ===== src/Watcher/Decoder/Layout.antt =====
-- The layout of a serialised transaction: its parts, the witness stacks, and the marker.
use crypto_pay_system.Prelude.{
  ℕ, ◌^◌, ◌<◌, ◌≡◌, List, [], ◌∷◌, ◌++◌, length, arith, Bool, true, false, All,
}
use crypto_pay_system.Prelude.Exec.{ok}
use crypto_pay_system.Prelude.Int.{ℤ}
use crypto_pay_system.Prelude.Text.{text_eq}
use crypto_pay_system.Watcher.Decoder.{
  Bytes, TxInput, TxOutput, read, le_bytes, of_i32, read_varint, encode_varint, repeat, concat_map,
  serialise_input, serialise_output, read_marker, skip_witness, skip_item, skip_stack,
}
use crypto_pay_system.Watcher.Decoder.Bytes.{IsI32}
use crypto_pay_system.Watcher.Decoder.Reads.{
  Reads, Reads-bind, Reads-map, Reads-read, Reads-read_varint, Reads-repeat,
}
use crypto_pay_system.Watcher.Decoder.Parts.{IsInput, IsOutput}

-- The serialisation with a witness (BIP 141): the marker and flag, and the stacks before the locktime.
unfoldable pub witness_serialise : ℤ → List TxInput → List TxOutput → Bytes → ℕ → Bytes
witness_serialise version inputs outputs witness locktime =
    le_bytes 4 (of_i32 version)
    ++ (0 ∷ 1 ∷ []
        ++ (encode_varint (length inputs)
            ++ (concat_map serialise_input inputs
                ++ (encode_varint (length outputs)
                    ++ (concat_map serialise_output outputs ++ (witness ++ le_bytes 4 locktime))))))

-- The parts of a transaction that the wire format can hold.
pub record IsTx (testnet : Bool) (version : ℤ) (inputs : List TxInput) (outputs : List TxOutput)
    (locktime : ℕ) : Type 0 where
  pub version_fits : IsI32 version
  pub input_count : (0 < length inputs) × (length inputs < 2 ^ 64)
  pub inputs_fit : All IsInput inputs
  pub output_count : length outputs < 2 ^ 64
  pub outputs_fit : All (IsOutput testnet) outputs
  pub locktime_fits : locktime < 2 ^ 32

-- The witness stack of one input: items and a count that the wire format can hold.
abbrev pub IsStack : List Bytes → Type 0
IsStack items = (length items < 2 ^ 64) × All (λ (item : Bytes). length item < 2 ^ 64) items

pub serialise_item : Bytes → Bytes
serialise_item item = encode_varint (length item) ++ item

pub serialise_stack : List Bytes → Bytes
serialise_stack items = encode_varint (length items) ++ concat_map serialise_item items

pub Reads-item : (item : Bytes) → length item < 2 ^ 64 → Reads skip_item (serialise_item item) item
unfolding skip_item serialise_item
Reads-item item h =
    Reads-bind read_varint read (encode_varint (length item)) item (length item)
      (Reads-read_varint (length item) h) (Reads-read item)

pub Reads-stack :
    (items : List Bytes) → IsStack items → Reads skip_stack (serialise_stack items) items
unfolding skip_stack serialise_stack
Reads-stack items h =
    Reads-bind read_varint (λ n. repeat n skip_item) (encode_varint (length items))
      (concat_map serialise_item items) (length items) (Reads-read_varint (length items) h.0)
      (Reads-repeat skip_item serialise_item items (each items h.1))
  where
    each :
        (items : List Bytes)
        → All (λ (item : Bytes). length item < 2 ^ 64) items
        → All (λ (item : Bytes). Reads skip_item (serialise_item item) item) items
    each [] h = tt
    each (x ∷ xs) h = (Reads-item x h.0, each xs h.1)

pub Reads-witness :
    (n : ℕ) (stacks : List (List Bytes))
    → length stacks ≡ n
    → All IsStack stacks
    → Reads (skip_witness true n) (concat_map serialise_stack stacks) tt
unfolding skip_witness
Reads-witness n stacks e h = rw (← e) (
    Reads-map (repeat (length stacks) skip_stack) (λ s. tt) (concat_map serialise_stack stacks)
      stacks (Reads-repeat skip_stack serialise_stack stacks (each stacks h)))
  where
    each :
        (stacks : List (List Bytes))
        → All IsStack stacks
        → All (λ (s : List Bytes). Reads skip_stack (serialise_stack s) s) stacks
    each [] h = tt
    each (x ∷ xs) h = (Reads-stack x h.0, each xs h.1)

-- The first byte of a positive length is not the marker.
pub not_marker :
    (n : ℕ) (rest : Bytes)
    → 0 < n
    → read_marker (encode_varint n ++ rest) ≡ (ok false, encode_varint n ++ rest)
unfolding read_marker encode_varint text_eq
not_marker n rest h = ground arith

pub marker : Reads read_marker (0 ∷ 1 ∷ []) true
unfolding read_marker text_eq
marker = record { at = λ rest. ground arith }
