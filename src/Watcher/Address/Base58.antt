-- ===== src/Watcher/Address/Base58.antt =====
-- Reading Base58 back: the digits, the number, and the bytes. The provider's own encoder is here too.
use crypto_pay_system.Prelude.{
  false, Bool-cases, inl, inr, if◌then◌else◌, ℕ, zero, suc, ◌+◌, ◌*◌, ◌/◌, ◌%◌, ◌≤◌, ◌<◌, ◌==◌,
  ==_iff, ◌≡◌, refl, sym, ap, ◌∙◌, Bool, true, [], ◌∷◌, ◌++◌, reverse, append-nil, length, All,
  arith,
}
use mathlib.Core.List.{reverse-append, reverse-reverse}
use crypto_pay_system.Prelude.Text.{Text}
use crypto_pay_system.Watcher.Decoder.{Bytes}
use crypto_pay_system.Watcher.Decoder.Bytes.{IsByte}
use crypto_pay_system.Watcher.Address.{
  nth, replicate, from_bytes, b58_alphabet, leading_zeros, b58_chars, b58_text,
}

-- the place of a character in a table
pub place : ℕ → Text → ℕ
place c [] = 0
place c (d ∷ ds) = let rest = place c ds in if c == d then 0 else suc rest

-- whether each digit below `n` stands in its own place of the alphabet
own_places : Text → ℕ → Bool
unfolding place nth
own_places alphabet zero = true
own_places alphabet (suc n) =
    let rest = own_places alphabet n in if place (nth n alphabet) alphabet == n then rest else false

place_below :
    (alphabet : Text) (n d : ℕ)
    → own_places alphabet n ≡ true
    → d < n
    → place (nth d alphabet) alphabet ≡ d
unfolding own_places
place_below alphabet zero d own lt = absurd (omega arith)
place_below alphabet (suc n) d own lt = elim (Bool-cases (place (nth n alphabet) alphabet == n)) [
  | inl t ↦ elim (Bool-cases (d == n)) [
    | inl here ↦ rw ((==_iff d n).0 here) ((==_iff _ n).0 t)
    | inr further ↦ place_below alphabet n d (ground arith) (ground arith)
  ]
  | inr f ↦ absurd (ground arith)
]

place-nth : (d : ℕ) → d < 58 → place (nth d b58_alphabet) b58_alphabet ≡ d
unfolding own_places
place-nth d h = place_below b58_alphabet 58 d refl h

-- the number whose digits are given from the last on
value58 : Text → ℕ
value58 [] = 0
value58 (c ∷ cs) = place c b58_alphabet + 58 * value58 cs

value58-chars : (fuel n : ℕ) → n ≤ fuel → value58 (b58_chars fuel n) ≡ n
unfolding value58 b58_chars
value58-chars zero n h = omega arith
value58-chars (suc fuel) n h = ground (arith, place-nth (n % 58), value58-chars fuel (n / 58))

value58-ones : (cs : Text) (k : ℕ) → value58 (cs ++ replicate k b'1') ≡ value58 cs
unfolding value58 place
value58-ones [] zero = refl
value58-ones [] (suc k) = omega (arith, value58-ones [] k)
value58-ones (c ∷ cs) k = ap (λ v. place c b58_alphabet + 58 * v) (value58-ones cs k)

pub replicate-snoc : (k c : ℕ) (t : Text) → replicate k c ++ c ∷ t ≡ c ∷ replicate k c ++ t
replicate-snoc zero c t = refl
replicate-snoc (suc k) c t = ap (λ (r : Text). c ∷ r) (replicate-snoc k c t)

pub reverse-replicate : (k c : ℕ) → reverse (replicate k c) ≡ replicate k c
reverse-replicate zero c = refl
reverse-replicate (suc k) c =
    reverse-append (c ∷ []) (replicate k c)
    ∙ ap (λ (r : Text). r ++ c ∷ []) (reverse-replicate k c)
    ∙ replicate-snoc k c []
    ∙ ap (λ (r : Text). c ∷ r) (append-nil (replicate k c))

-- The text, read from its end.
reverse-b58_text :
    (bytes : Bytes)
    → reverse (b58_text bytes)
      ≡ b58_chars (from_bytes 0 bytes) (from_bytes 0 bytes) ++ replicate (leading_zeros bytes) b'1'
unfolding b58_text
reverse-b58_text bytes =
    let n = from_bytes 0 bytes in
    let ones = replicate (leading_zeros bytes) b'1' in
    reverse-append ones (reverse (b58_chars n n))
    ∙ ap (λ (r : Text). r ++ reverse ones) (reverse-reverse (b58_chars n n))
    ∙ ap (λ (r : Text). b58_chars n n ++ r) (reverse-replicate (leading_zeros bytes) b'1')

from_bytes_inj :
    (acc acc' : ℕ) (xs ys : Bytes)
    → All IsByte xs
    → All IsByte ys
    → length xs ≡ length ys
    → from_bytes acc xs ≡ from_bytes acc' ys
    → (acc ≡ acc') × (xs ≡ ys)
unfolding from_bytes
from_bytes_inj acc acc' [] [] hx hy l e = (e, refl)
from_bytes_inj acc acc' [] (y ∷ ys) hx hy l e = absurd (omega arith)
from_bytes_inj acc acc' (x ∷ xs) [] hx hy l e = absurd (omega arith)
from_bytes_inj acc acc' (x ∷ xs) (y ∷ ys) hx hy l e =
    let (heads, tails) =
      from_bytes_inj (acc * 256 + x) (acc' * 256 + y) xs ys hx.1 hy.1 (omega arith) e in
    let same : x ≡ y = omega (arith, heads, hx.0, hy.0) in
    (omega (arith, heads, hx.0, hy.0), cc (same, tails))

-- Texts of as many bytes are equal only for equal bytes.
pub b58_text_inj :
    (xs ys : Bytes)
    → All IsByte xs
    → All IsByte ys
    → length xs ≡ length ys
    → b58_text xs ≡ b58_text ys
    → xs ≡ ys
b58_text_inj xs ys hx hy l e =
    let read = λ (bytes : Bytes).
      ap value58 (reverse-b58_text bytes)
      ∙ value58-ones (b58_chars (from_bytes 0 bytes) (from_bytes 0 bytes)) (leading_zeros bytes)
      ∙ value58-chars (from_bytes 0 bytes) (from_bytes 0 bytes) (omega arith) in
    let same : from_bytes 0 xs ≡ from_bytes 0 ys =
      sym (read xs) ∙ ap (λ t. value58 (reverse t)) e ∙ read ys in
    (from_bytes_inj 0 0 xs ys hx hy l same).1
