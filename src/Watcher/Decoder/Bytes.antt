-- ===== src/Watcher/Decoder/Bytes.antt =====
-- Round trips of numbers, hexadecimal text and two's complement.
use crypto_pay_system.Prelude.{
  ℕ, zero, suc, ◌+◌, ◌*◌, ◌/◌, ◌%◌, ◌^◌, ◌<◌, ◌≡◌, refl, ap, [], ◌∷◌, length, arith, All,
}
use crypto_pay_system.Prelude.Int.{ℤ, pos, negsuc}
use crypto_pay_system.Watcher.Decoder.{
  Bytes, le_value, le_bytes, as_i32, of_i32, hex, from_hex, hex_digit, hex_value,
}

pub length-le_bytes : (k n : ℕ) → length (le_bytes k n) ≡ k
unfolding le_bytes
length-le_bytes zero n = refl
length-le_bytes (suc k) n = ap suc (length-le_bytes k (n / 256))

-- Packing a number that fits and unpacking it gives the number.
pub le_value-le_bytes : (k n : ℕ) → n < 256 ^ k → le_value (le_bytes k n) ≡ n
unfolding le_value le_bytes
le_value-le_bytes zero n h = omega arith
le_value-le_bytes (suc k) n h = omega (arith, le_value-le_bytes k (n / 256) (omega arith))

abbrev pub IsI32 : ℤ → Type 0
IsI32 (pos n) = n < 2 ^ 31
IsI32 (negsuc n) = n < 2 ^ 31

pub as_i32-of_i32 : (v : ℤ) → IsI32 v → as_i32 (of_i32 v) ≡ v
unfolding as_i32 of_i32
as_i32-of_i32 (pos n) h = ground arith
as_i32-of_i32 (negsuc n) h = ground arith

pub of_i32-lt : (v : ℤ) → IsI32 v → of_i32 v < 256 ^ 4
unfolding of_i32
of_i32-lt (pos n) h = omega arith
of_i32-lt (negsuc n) h = omega arith

abbrev pub IsByte : ℕ → Type 0
IsByte b = b < 256

byte-hex :
    (b : ℕ) → b < 256 → hex_value (hex_digit (b / 16)) * 16 + hex_value (hex_digit (b % 16)) ≡ b
byte-hex b h = ground arith

-- The text of bytes reads back as the bytes.
pub from_hex-hex : (bs : Bytes) → All IsByte bs → from_hex (hex bs) ≡ bs
unfolding hex from_hex
from_hex-hex [] h = refl
from_hex-hex (b ∷ bs) h = ground (arith, byte-hex b h.0, from_hex-hex bs h.1)
