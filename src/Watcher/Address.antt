-- ===== src/Watcher/Address.antt =====
-- The addresses of services/watcher/tx_decoder.py: Base58Check, Bech32, and the standard scripts. The
-- double hash is a parameter. The bits of a byte that are shifted in do not overlap with those that
-- are there, so `|` is a sum; a mask of k ones is a remainder.
pub mod Base58
use crypto_pay_system.Prelude.{
  ℕ, zero, suc, ◌+◌, ◌-◌, ◌*◌, ◌/◌, ◌%◌, ◌^◌, ◌==◌, ◌&&◌, leb, bit_xor, Bool, true, false, List, [],
  ◌∷◌, ◌++◌, map, reverse, take, drop, length, Option, none, some, if◌then◌else◌,
}
use crypto_pay_system.Prelude.Text.{Text, codes, text_eq}
use crypto_pay_system.Watcher.Decoder.{Bytes, TxOutput}

-- an element of a table; the code never looks past its end
pub nth : ℕ → Text → ℕ
nth i [] = 0
nth zero (c ∷ cs) = c
nth (suc i) (c ∷ cs) = nth i cs

abbrev pub replicate : ℕ → ℕ → Text
replicate zero c = []
replicate (suc n) c = c ∷ replicate n c

-- `int.from_bytes(data, "big")`, from the value of what stands before
unfoldable pub from_bytes : ℕ → Bytes → ℕ
from_bytes acc [] = acc
from_bytes acc (b ∷ bs) = from_bytes (acc * 256 + b) bs

abbrev pub b58_alphabet : Text
b58_alphabet = codes "123456789ABCDEFGHJKLMNPQRSTUVWXYZabcdefghijkmnopqrstuvwxyz"

-- the number of zero bytes in front
unfoldable pub leading_zeros : Bytes → ℕ
leading_zeros [] = 0
leading_zeros (b ∷ bs) = let rest = leading_zeros bs in if b == 0 then suc rest else 0

-- `while n`: the digits from the last on. Each round makes n smaller, so n rounds are enough.
unfoldable pub b58_chars : ℕ → ℕ → Text
unfolding nth
b58_chars zero n = []
b58_chars (suc fuel) n = elim (n == 0) [
  | true ↦ []
  | false ↦ nth (n % 58) b58_alphabet ∷ b58_chars fuel (n / 58)
]

unfoldable pub b58_text : Bytes → Text
unfolding leading_zeros from_bytes b58_chars
b58_text bytes =
    let n = from_bytes 0 bytes in replicate (leading_zeros bytes) b'1' ++ reverse (b58_chars n n)

abbrev pub bech32_charset : Text
bech32_charset = codes "qpzry9x8gf2tvdw0s3jn54khce6mua7l"

abbrev pub bech32_generator : List ℕ
bech32_generator = 0x3B6A57B2 ∷ 0x26508E6D ∷ 0x1EA119FA ∷ 0x3D4233DD ∷ 0x2A1462B3 ∷ []

-- the inner loop of `_bech32_polymod`: the generators for the bits of `b`
mixed : List ℕ → ℕ → ℕ → ℕ
mixed [] b chk = chk
mixed (g ∷ gs) b chk = mixed gs (b / 2) (if b % 2 == 1 then bit_xor chk g else chk)

pub polymod : ℕ → List ℕ → ℕ
unfolding mixed
polymod chk [] = chk
polymod chk (v ∷ vs) =
    polymod (mixed bech32_generator (chk / 2 ^ 25) (bit_xor (chk % 2 ^ 25 * 32) v)) vs

-- `_bech32_hrp_expand`
pub hrp_expand : Text → List ℕ
hrp_expand hrp = map (λ c. c / 32) hrp ++ 0 ∷ map (λ c. c % 32) hrp

-- `_bech32_create_checksum`
pub create_checksum : Text → List ℕ → List ℕ
unfolding polymod hrp_expand
create_checksum hrp values =
    let p = bit_xor (polymod 1 ((hrp_expand hrp ++ values) ++ 0 ∷ 0 ∷ 0 ∷ 0 ∷ 0 ∷ 0 ∷ [])) 1 in
    p / 2 ^ 25 % 32
    ∷ p / 2 ^ 20 % 32
    ∷ p / 2 ^ 15 % 32
    ∷ p / 2 ^ 10 % 32
    ∷ p / 2 ^ 5 % 32
    ∷ p % 32
    ∷ []

-- `while bits >= tobits`: the groups that are full, and the bits that are left. Each round takes
-- bits away, so as many rounds as there are bits are enough.
pub emit : ℕ → ℕ → ℕ → ℕ → List ℕ × ℕ
emit zero tobits acc bits = ([], bits)
emit (suc fuel) tobits acc bits =
    let (groups, left) = emit fuel tobits acc (bits - tobits) in
    if leb tobits bits then (acc / 2 ^ (bits - tobits) % 2 ^ tobits ∷ groups, left) else ([], bits)

padded : ℕ → ℕ → ℕ → List ℕ
padded tobits acc bits = if bits == 0 then [] else acc * 2 ^ (tobits - bits) % 2 ^ tobits ∷ []

-- `_convertbits` with padding, from a state of its loop
pub convertbits : ℕ → ℕ → ℕ → ℕ → Bytes → List ℕ
unfolding emit padded
convertbits frombits tobits acc bits [] = padded tobits acc bits
convertbits frombits tobits acc bits (v ∷ vs) =
    let acc' = (acc * 2 ^ frombits + v) % 2 ^ 32 in
    let (groups, left) = emit (bits + frombits) tobits acc' (bits + frombits) in
    groups ++ convertbits frombits tobits acc' left vs

-- `_bech32_encode`
unfoldable pub bech32_encode : Text → ℕ → Bytes → Text
unfolding nth create_checksum convertbits
bech32_encode hrp witver witprog =
    let values = witver ∷ convertbits 8 5 0 0 witprog in
    hrp ++ b'1' ∷ map (λ d. nth d bech32_charset) (values ++ create_checksum hrp values)

-- `script[i:j]`
abbrev pub slice : ℕ → ℕ → Bytes → Bytes
slice i j script = take (j - i) (drop i script)

-- the four forms of a script
unfoldable pub is_p2pkh : Bytes → Bool
is_p2pkh script =
    length script == 25
    && text_eq (take 3 script) (0x76 ∷ 0xa9 ∷ 0x14 ∷ [])
    && text_eq (drop 23 script) (0x88 ∷ 0xac ∷ [])

pub is_p2sh : Bytes → Bool
is_p2sh script =
    length script == 23
    && text_eq (take 2 script) (0xa9 ∷ 0x14 ∷ [])
    && text_eq (drop 22 script) (0x87 ∷ [])

pub is_p2wpkh : Bytes → Bool
is_p2wpkh script = length script == 22 && text_eq (take 2 script) (0x00 ∷ 0x14 ∷ [])

pub is_p2wsh : Bytes → Bool
is_p2wsh script = length script == 34 && text_eq (take 2 script) (0x00 ∷ 0x20 ∷ [])

module _ (hash256 : Bytes → Bytes) where
  -- `_base58check`
  unfoldable pub base58check : Bytes → Text
  unfolding b58_text
  base58check payload = b58_text (payload ++ take 4 (hash256 payload))

  -- `_script_to_address`
  unfoldable pub script_to_address : Bytes → Bool → Option Text
  unfolding is_p2pkh is_p2sh is_p2wpkh is_p2wsh bech32_encode base58check
  script_to_address script testnet =
      let hrp = if testnet then codes "tb" else codes "bc" in
      if is_p2pkh script
      then some (base58check ((if testnet then 0x6f else 0x00) ∷ slice 3 23 script))
      else if is_p2sh script
      then some (base58check ((if testnet then 0xc4 else 0x05) ∷ slice 2 22 script))
      else if is_p2wpkh script
      then some (bech32_encode hrp 0 (drop 2 script))
      else if is_p2wsh script
      then some (bech32_encode hrp 0 (drop 2 script))
      else none

  -- `TxOutput.address`
  unfoldable pub address : TxOutput → Option Text
  unfolding script_to_address
  address output = script_to_address output.script_pubkey output.testnet
