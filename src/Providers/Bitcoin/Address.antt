-- ===== src/Providers/Bitcoin/Address.antt =====
-- `_b58encode` and `_derive_address` of providers/bitcoin.py. The keys of the HD wallet and the hash
-- functions are parameters: `public_key change index` is the key, `hash160` is RIPEMD-160 of SHA-256.
use crypto_pay_system.Prelude.{
  ℕ, ◌≡◌, sym, ap, ◌∙◌, true, [], ◌∷◌, ◌++◌, reverse, take, drop, length, length-append,
  take-append_self, drop-append_self, some,
}
use mathlib.Core.List.{reverse-append}
use crypto_pay_system.Prelude.Text.{Text, text_eq}
use crypto_pay_system.Watcher.Decoder.{Bytes}
use crypto_pay_system.Watcher.Address.{
  replicate, from_bytes, leading_zeros, b58_chars, b58_text, is_p2pkh, base58check,
  script_to_address,
}
use crypto_pay_system.Watcher.Address.Base58.{reverse-replicate}

-- `_b58encode`: the digits from the last on, then a "1" for each zero byte in front, reversed
pub b58encode : Bytes → Text
unfolding b58_chars from_bytes leading_zeros
b58encode bytes =
    let n = from_bytes 0 bytes in reverse (b58_chars n n ++ replicate (leading_zeros bytes) b'1')

-- The encoder of the provider and that of the decoder give the same text for all bytes.
pub b58encode-b58_text : (bytes : Bytes) → b58encode bytes ≡ b58_text bytes
unfolding b58encode b58_text
b58encode-b58_text bytes =
    let n = from_bytes 0 bytes in
    let ones = replicate (leading_zeros bytes) b'1' in
    reverse-append (b58_chars n n) ones
    ∙ ap (λ (r : Text). r ++ reverse (b58_chars n n)) (reverse-replicate (leading_zeros bytes) b'1')

module _ (hash256 hash160 : Bytes → Bytes) (public_key : ℕ → ℕ → Bytes) where
  -- `_derive_address` on the test network; on the main network the address is the library's.
  unfoldable pub derive_address : ℕ → ℕ → Text
  unfolding b58encode
  derive_address change index =
      let versioned = 0x6f ∷ hash160 (public_key change index) in
      b58encode (versioned ++ take 4 (hash256 versioned))

  -- the script that pays to a key
  abbrev pub pay_to : ℕ → ℕ → Bytes
  pay_to change index = 0x76 ∷ 0xa9 ∷ 0x14 ∷ (hash160 (public_key change index) ++ 0x88 ∷ 0xac ∷ [])

p2pkh_tail :
    (h : Bytes)
    → length h ≡ 20
    → (take 20 (h ++ 0x88 ∷ 0xac ∷ []) ≡ h) × (drop 20 (h ++ 0x88 ∷ 0xac ∷ []) ≡ 0x88 ∷ 0xac ∷ [])
p2pkh_tail h l = (
  ap (λ (n : ℕ). take n (h ++ 0x88 ∷ 0xac ∷ [])) (sym l) ∙ take-append_self h (0x88 ∷ 0xac ∷ []),
  ap (λ (n : ℕ). drop n (h ++ 0x88 ∷ 0xac ∷ [])) (sym l) ∙ drop-append_self h (0x88 ∷ 0xac ∷ []),
)

p2pkh_form :
    (h : Bytes) → length h ≡ 20 → is_p2pkh (0x76 ∷ 0xa9 ∷ 0x14 ∷ (h ++ 0x88 ∷ 0xac ∷ [])) ≡ true
unfolding is_p2pkh text_eq
p2pkh_form h l = let long = length-append h (0x88 ∷ 0xac ∷ []) in rw (long, l, (p2pkh_tail h l).1)

module _ (hash256 hash160 : Bytes → Bytes) (public_key : ℕ → ℕ → Bytes) where
  -- The watcher reads the address of an invoice off a script that pays to the invoice's key.
  pub script_to_address-pay_to :
      (change index : ℕ)
      → length (hash160 (public_key change index)) ≡ 20
      → script_to_address hash256 (pay_to hash256 hash160 public_key change index) true
        ≡ some (derive_address hash256 hash160 public_key change index)
  unfolding script_to_address derive_address base58check
  script_to_address-pay_to change index l =
      let h = hash160 (public_key change index) in
      rw (
        p2pkh_form h l,
        (p2pkh_tail h l).0,
        b58encode-b58_text (0x6f ∷ (h ++ take 4 (hash256 (0x6f ∷ h)))),
      )
