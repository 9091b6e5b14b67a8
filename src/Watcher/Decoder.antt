-- ===== src/Watcher/Decoder.antt =====
-- services/watcher/tx_decoder.py: decoding raw Bitcoin transactions. Bytes are numbers below 256; a
-- reader's state is what it has not read yet. SHA-256 comes from a library: `hash256`, the double
-- hash, is a parameter of the decoder.
pub mod Bytes
pub mod Reads
pub mod Parts
pub mod Layout
pub mod RoundTrip
use crypto_pay_system.Prelude.{
  ℕ, zero, suc, ◌+◌, ◌-◌, ◌*◌, ◌/◌, ◌%◌, ◌^◌, ◌==◌, ◌&&◌, ltb, leb, Bool, true, false, List, [],
  ◌∷◌, ◌++◌, reverse, take, drop, length, Option, none, some, if◌then◌else◌,
}
use crypto_pay_system.Prelude.Exec.{Exec, Result, ok, err, value_error, pure, raise, ◌>>=◌, ◌>>◌}
use crypto_pay_system.Prelude.Int.{ℤ, pos, negsuc}
use crypto_pay_system.Prelude.Text.{Text, text_eq}

abbrev pub Bytes : Type 0
Bytes = List ℕ

abbrev pub Reader : Type 0 → Type 0
Reader A = Exec Bytes A

pub record TxOutput : Type 0 where
  pub value_sat : ℕ
  pub script_pubkey : Bytes
  pub testnet : Bool

pub record TxInput : Type 0 where
  pub prev_txid : Text
  pub prev_vout : ℕ
  pub script_sig : Bytes
  pub sequence : ℕ

pub record RawTx : Type 0 where
  pub txid : Text
  pub version : ℤ
  pub locktime : ℕ
  pub inputs : List TxInput
  pub outputs : List TxOutput
  pub is_segwit : Bool
  pub testnet : Bool

-- `_Reader.read`
pub read : ℕ → Reader Bytes
read n rest =
    if ltb (length (take n rest)) n
    then (err value_error, rest)
    else (ok (take n rest), drop n rest)

-- `struct.unpack_from` of an unsigned little-endian number, and `struct.pack`
pub le_value : Bytes → ℕ
le_value [] = 0
le_value (b ∷ bs) = b + 256 * le_value bs

pub le_bytes : ℕ → ℕ → Bytes
le_bytes zero n = []
le_bytes (suc k) n = (n % 256) ∷ le_bytes k (n / 256)

-- "<i": two's complement
pub as_i32 : ℕ → ℤ
as_i32 n = if ltb n (2 ^ 31) then pos n else negsuc (2 ^ 32 - 1 - n)

pub of_i32 : ℤ → ℕ
of_i32 (pos n) = n
of_i32 (negsuc n) = 2 ^ 32 - 1 - n

pub read_le : ℕ → Reader ℕ
unfolding read le_value
read_le k = do bytes ← read k; pure (le_value bytes)

pub read_u32 : Reader ℕ
unfolding read_le
read_u32 = read_le 4

pub read_u64 : Reader ℕ
unfolding read_le
read_u64 = read_le 8

pub read_i32 : Reader ℤ
unfolding read_le as_i32
read_i32 = do n ← read_le 4; pure (as_i32 n)

pub varint_rest : ℕ → Reader ℕ
unfolding read_le
varint_rest first rest =
    (if ltb first 0xfd
        then pure first
        else if first == 0xfd
        then read_le 2
        else if first == 0xfe
        then read_le 4
        else read_le 8)
      rest

pub read_varint : Reader ℕ
unfolding read_le varint_rest
read_varint = do first ← read_le 1; varint_rest first

pub encode_varint : ℕ → Bytes
unfolding le_bytes
encode_varint n =
    if ltb n 0xfd
    then n ∷ []
    else if leb n 0xffff
    then 0xfd ∷ le_bytes 2 n
    else if leb n 0xffffffff
    then 0xfe ∷ le_bytes 4 n
    else 0xff ∷ le_bytes 8 n

-- `bytes.hex` and `bytes.fromhex`
abbrev hex_digit : ℕ → ℕ
hex_digit d = if ltb d 10 then 48 + d else 87 + d

abbrev hex_value : ℕ → ℕ
hex_value c = if leb c 57 then c - 48 else c - 87

unfoldable pub hex : Bytes → Text
hex [] = []
hex (b ∷ bs) = hex_digit (b / 16) ∷ hex_digit (b % 16) ∷ hex bs

pub from_hex : Text → Bytes
from_hex [] = []
from_hex (c ∷ []) = []
from_hex (c ∷ d ∷ cs) = (hex_value c * 16 + hex_value d) ∷ from_hex cs

pub read_input : Reader TxInput
unfolding read read_u32 read_varint hex
read_input = do
  prev_txid_le ← read 32
  prev_vout ← read_u32
  script_len ← read_varint
  script_sig ← read script_len
  sequence ← read_u32
  pure (record {
    prev_txid = hex (reverse prev_txid_le);
    prev_vout = prev_vout;
    script_sig = script_sig;
    sequence = sequence;
  })

pub read_output : Bool → Reader TxOutput
unfolding read read_u64 read_varint
read_output testnet = do
  value_sat ← read_u64
  script_len ← read_varint
  script_pubkey ← read script_len
  pure (record { value_sat = value_sat; script_pubkey = script_pubkey; testnet = testnet })

-- `for _ in range(n)`, with what each round appends
pub repeat : {A : Type 0} → ℕ → Reader A → Reader (List A)
repeat zero m = pure []
repeat (suc n) m = do a ← m; as' ← repeat n m; pure (a ∷ as')

-- one item of a witness stack, and the stack of one input
pub skip_item : Reader Bytes
unfolding read read_varint
skip_item = do item_len ← read_varint; read item_len

pub skip_stack : Reader (List Bytes)
unfolding skip_item read_varint repeat
skip_stack = do stack_items ← read_varint; repeat stack_items skip_item

pub serialise_input : TxInput → Bytes
unfolding from_hex le_bytes encode_varint
serialise_input i =
    reverse (from_hex i.prev_txid)
    ++ (le_bytes 4 i.prev_vout
        ++ (encode_varint (length i.script_sig) ++ (i.script_sig ++ le_bytes 4 i.sequence)))

pub serialise_output : TxOutput → Bytes
unfolding le_bytes encode_varint
serialise_output o =
    le_bytes 8 o.value_sat ++ (encode_varint (length o.script_pubkey) ++ o.script_pubkey)

pub concat_map : {A : Type 0} → (A → Bytes) → List A → Bytes
concat_map f [] = []
concat_map f (x ∷ xs) = f x ++ concat_map f xs

-- `_legacy_serialise`
pub legacy_serialise : ℤ → List TxInput → List TxOutput → ℕ → Bytes
unfolding le_bytes of_i32 encode_varint serialise_input serialise_output concat_map
legacy_serialise version inputs outputs locktime =
    le_bytes 4 (of_i32 version)
    ++ (encode_varint (length inputs)
        ++ (concat_map serialise_input inputs
            ++ (encode_varint (length outputs)
                ++ (concat_map serialise_output outputs ++ le_bytes 4 locktime))))

-- `marker == b"\x00\x01"`, with the two bytes consumed if so
pub read_marker : Reader Bool
unfolding read
read_marker rest =
    (if text_eq (take 2 rest) (0 ∷ 1 ∷ []) then (read 2 >> pure true) else pure false) rest

-- the witness data, if there is any
pub skip_witness : Bool → ℕ → Reader (Unit {0})
unfolding repeat skip_stack
skip_witness true in_count = repeat in_count skip_stack >> pure tt
skip_witness false in_count = pure tt

module _ (hash256 : Bytes → Bytes) where
  pub txid_of : Bytes → Text
  unfolding hex
  txid_of bytes = hex (reverse (hash256 bytes))

  -- `raw` is the whole buffer, which the decoder hashes again if there is no witness.
  pub decode_body : Bytes → Bool → ℤ → Bool → Reader RawTx
  unfolding read_varint repeat read_input read_output skip_witness legacy_serialise txid_of
  decode_body raw testnet version is_segwit = do
    in_count ← read_varint
    inputs ← repeat in_count read_input
    out_count ← read_varint
    outputs ← repeat out_count (read_output testnet)
    skip_witness is_segwit in_count
    locktime ← read_u32
    pure (record {
      txid = txid_of (if is_segwit then legacy_serialise version inputs outputs locktime else raw);
      version = version;
      locktime = locktime;
      inputs = inputs;
      outputs = outputs;
      is_segwit = is_segwit;
      testnet = testnet;
    })

  pub decode_from : Bytes → Bool → Reader RawTx
  unfolding read_i32 read_marker decode_body
  decode_from raw testnet = do
    version ← read_i32
    is_segwit ← read_marker
    decode_body raw testnet version is_segwit

  -- bytes after the locktime are ignored
  pub decode_raw_tx : Bytes → Bool → Result RawTx
  unfolding decode_from
  decode_raw_tx raw testnet = (decode_from raw testnet raw).0
