-- ===== src/Watcher/Decoder/Reads.antt =====
-- Readers on the bytes that a value is written as.
use crypto_pay_system.Prelude.{
  ℕ, ◌^◌, ◌<◌, ◌≡◌, refl, ◌∙◌, List, [], ◌∷◌, ◌++◌, append_assoc, length, take-append_self,
  drop-append_self, arith, ltb, leb, true, Bool-cases, inl, inr, All,
}
use crypto_pay_system.Prelude.Exec.{ok, pure, ◌>>=◌}
use crypto_pay_system.Prelude.Int.{ℤ}
use crypto_pay_system.Watcher.Decoder.{
  Bytes, Reader, read, le_value, le_bytes, as_i32, of_i32, read_le, read_i32, read_varint,
  varint_rest, encode_varint, repeat, concat_map,
}
use crypto_pay_system.Watcher.Decoder.Bytes.{
  length-le_bytes, le_value-le_bytes, IsI32, as_i32-of_i32, of_i32-lt,
}

pub record Reads {A : Type 0} (m : Reader A) (bs : Bytes) (a : A) : Type 0 where
  pub at : (rest : Bytes) → m (bs ++ rest) ≡ (ok a, rest)

pub Reads-pure : {A : Type 0} (a : A) → Reads (pure a) [] a
Reads-pure a = record { at = λ rest. refl }

pub next :
    {A B : Type 0} (m : Reader A) (f : A → Reader B) (s t : Bytes) (a : A)
    → m s ≡ (ok a, t)
    → (m >>= f) s ≡ f a t
next m f s t a e = ground (arith, e)

pub Reads-bind :
    {A B : Type 0} (m : Reader A) (f : A → Reader B) (bs cs : Bytes) (a : A) {b : B}
    → Reads m bs a
    → Reads (f a) cs b
    → Reads (m >>= f) (bs ++ cs) b
Reads-bind m f bs cs a hm hf = record {
  at = λ rest.
      rw (append_assoc bs cs rest)
        (next m f (bs ++ (cs ++ rest)) (cs ++ rest) a (hm.at (cs ++ rest)) ∙ hf.at rest);
}

-- the last step of a reader, which only computes
pub Reads-map :
    {A B : Type 0} (m : Reader A) (f : A → B) (bs : Bytes) (a : A)
    → Reads m bs a
    → Reads (m >>= λ a. pure (f a)) bs (f a)
Reads-map m f bs a hm = record {
  at = λ rest. next m (λ a. pure (f a)) (bs ++ rest) rest a (hm.at rest);
}

pub Reads-read : (bs : Bytes) → Reads (read (length bs)) bs bs
unfolding read
Reads-read bs = record {
  at = λ rest. ground (arith, take-append_self bs rest, drop-append_self bs rest);
}

pub Reads-read_n : (n : ℕ) (bs : Bytes) → length bs ≡ n → Reads (read n) bs bs
Reads-read_n n bs h = rw (← h) (Reads-read bs)

pub Reads-read_le : (k n : ℕ) → n < 256 ^ k → Reads (read_le k) (le_bytes k n) n
unfolding read_le
Reads-read_le k n h = rw (le_value-le_bytes k n h) at (
    Reads-map (read k) le_value (le_bytes k n) (le_bytes k n)
      (Reads-read_n k (le_bytes k n) (length-le_bytes k n)))

pub Reads-read_i32 : (v : ℤ) → IsI32 v → Reads read_i32 (le_bytes 4 (of_i32 v)) v
unfolding read_i32
Reads-read_i32 v h = rw (as_i32-of_i32 v h) at (
    Reads-map (read_le 4) as_i32 (le_bytes 4 (of_i32 v)) (of_i32 v)
      (Reads-read_le 4 (of_i32 v) (of_i32-lt v h)))

one_byte : (b : ℕ) → b < 256 → Reads (read_le 1) (b ∷ []) b
unfolding read_le read le_value
one_byte b h = record { at = λ rest. ground arith }

varint_of :
    (first : ℕ) (bs : Bytes) (n : ℕ)
    → first < 256
    → Reads (varint_rest first) bs n
    → Reads read_varint (first ∷ bs) n
unfolding read_varint
varint_of first bs n h k =
    Reads-bind (read_le 1) varint_rest (first ∷ []) bs first (one_byte first h) k

small_rest : (n : ℕ) → ltb n 0xfd ≡ true → Reads (varint_rest n) [] n
unfolding varint_rest
small_rest n h = record { at = λ rest. ground arith }

wide_rest :
    (n : ℕ)
    → (n < 256 ^ 2 → Reads (varint_rest 0xfd) (le_bytes 2 n) n)
      × (n < 256 ^ 4 → Reads (varint_rest 0xfe) (le_bytes 4 n) n)
      × (n < 256 ^ 8 → Reads (varint_rest 0xff) (le_bytes 8 n) n)
unfolding varint_rest
wide_rest n = (Reads-read_le 2 n, Reads-read_le 4 n, Reads-read_le 8 n)

-- A length below 2 ^ 64 is read back from its encoding.
pub Reads-read_varint : (n : ℕ) → n < 2 ^ 64 → Reads read_varint (encode_varint n) n
unfolding encode_varint
Reads-read_varint n h =
    let (two, four, eight) = wide_rest n in
    elim (Bool-cases (ltb n 0xfd)) [
      | inl a ↦ rw a (varint_of n [] n (ground arith) (small_rest n a))
      | inr a ↦ elim (Bool-cases (leb n 0xffff)) [
        | inl b ↦ rw (a, b) (varint_of 0xfd (le_bytes 2 n) n (omega arith) (two (ground arith)))
        | inr b ↦ elim (Bool-cases (leb n 0xffffffff)) [
          | inl c ↦
              rw (a, b, c) (varint_of 0xfe (le_bytes 4 n) n (omega arith) (four (ground arith)))
          | inr c ↦
              rw (a, b, c) (varint_of 0xff (le_bytes 8 n) n (omega arith) (eight (omega arith)))
        ]
      ]
    ]

-- A list of items, each written as it is read, is read back by that many rounds.
pub Reads-repeat :
    {A : Type 0} (m : Reader A) (write : A → Bytes) (xs : List A)
    → All (λ (x : A). Reads m (write x) x) xs
    → Reads (repeat (length xs) m) (concat_map write xs) xs
unfolding repeat concat_map
Reads-repeat m write [] h = Reads-pure []
Reads-repeat m write (x ∷ xs) h =
    Reads-bind m (λ a. repeat (length xs) m >>= λ as'. pure (a ∷ as')) (write x)
      (concat_map write xs) x h.0
      (Reads-map (repeat (length xs) m) (λ as'. x ∷ as') (concat_map write xs) xs
        (Reads-repeat m write xs h.1))
