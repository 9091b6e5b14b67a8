-- ===== src/Prelude/Exec.antt =====
-- Methods that change a state and may raise. What was written before a raise stays written, so the
-- state comes back beside the exception too; `atomically` is what undoes it.
use Prim.Native.Nat.{ℕ}
use mathlib.Core.Path.{◌≡◌, refl}
use mathlib.Core.Bool.{Bool}
use mathlib.Core.Logic.{◌⊎◌, inl, inr}
use native.Mathlib.Omega.{arith}
use crypto_pay_system.Prelude.Tests.{if◌then◌else◌}

-- The exceptions that the program raises or lets through, without their texts.
pub data Exn : Type 0 where
  already_credited provider_error tx_not_found address_generation_error : Exn
  insufficient_funds insufficient_utxo : Exn
  value_error key_error runtime_error rpc_error : Exn
  -- an HTTPException, with its status code
  http_exception : ℕ → Exn
  -- of the database: more than one row, no row, a violated constraint
  multiple_results no_result integrity_error : Exn
  -- requests.HTTPError
  http_error : Exn
  -- redis.RedisError
  redis_error : Exn
  -- a statement that does not fit the schema
  programming_error : Exn

pub data Result {ℓ} (A : Type ℓ) : Type ℓ where
  ok : A → Result A
  err : Exn → Result A

abbrev pub Exec {ℓ} : Type ℓ → Type ℓ → Type ℓ
Exec S A = S → Result A × S

module _ {ℓ} {S A : Type ℓ} where
  abbrev pub pure : A → Exec S A
  pure a s = (ok a, s)

  abbrev pub raise : Exn → Exec S A
  raise e s = (err e, s)

  abbrev pub lift : Result A → Exec S A
  lift r s = (r, s)

  abbrev pub gets : (S → A) → Exec S A
  gets f s = (ok (f s), s)

  -- `async with session.begin()`: the block is committed, or rolled back when it raises.
  unfoldable pub atomically : Exec S A → Exec S A
  atomically m s = let (r, s') = m s in elim r [ ok a ↦ (ok a, s') | err e ↦ (err e, s) ]

abbrev pub modify : {S : Type 0} → (S → S) → Exec S (Unit {0})
modify f s = (ok tt, f s)

abbrev pub raise_if : {S : Type 0} → Bool → Exn → Exec S (Unit {0})
raise_if c e s = (if c then err e else ok tt, s)

module _ {ℓ} {S A B : Type ℓ} where
  infixl 5 ◌>>=◌ ◌>>◌
  abbrev pub ◌>>=◌ : Exec S A → (A → Exec S B) → Exec S B
  ◌>>=◌ m f s = let (r, s') = m s in elim r [ ok a ↦ f a s' | err e ↦ (err e, s') ]

  abbrev pub ◌>>◌ : Exec S A → Exec S B → Exec S B
  m >> k = m >>= λ _. k

module _ {ℓ} {A B : Type ℓ} where
  -- The same sequencing for code that has no state.
  abbrev pub bind : Result A → (A → Result B) → Result B
  bind (ok a) f = f a
  bind (err e) f = err e

pub Result-cases {ℓ} :
    {A : Type ℓ} (r : Result A) → ((a : A) × (r ≡ ok a)) ⊎ ((e : Exn) × (r ≡ err e))
Result-cases (ok a) = inl (a, refl)
Result-cases (err e) = inr (e, refl)

module _ {ℓ} {A B : Type ℓ} where
  -- Inversion of such a sequence that succeeds.
  pub bind-eq-ok :
      (r : Result A) (f : A → Result B) {b : B}
      → bind r f ≡ ok b
      → (a : A) × (r ≡ ok a) × (f a ≡ ok b)
  bind-eq-ok (ok a) f h = (a, refl, h)
  bind-eq-ok (err e) f h = cc

module _ {ℓ} {S A B : Type ℓ} where
  continue_inv :
      (r : Result A) (s : S) (f : A → Exec S B) {b : B} {t : S}
      → ((λ (s : S). (r, s)) >>= f) s ≡ (ok b, t)
      → (a : A) × (r ≡ ok a) × (f a s ≡ (ok b, t))
  continue_inv (ok a) s f h = (a, refl, h)
  continue_inv (err e) s f h = cc

  -- The same for a first part that leaves the state alone.
  pub lift->>=-eq-ok :
      (r : Result A) (f : A → Exec S B) (s : S) {b : B} {t : S}
      → (lift r >>= f) s ≡ (ok b, t)
      → (a : A) × (r ≡ ok a) × (f a s ≡ (ok b, t))
  lift->>=-eq-ok r f s h = continue_inv r s f h

  -- Inversion of a sequence that succeeds: so did its first part, and the rest from there.
  pub >>=-eq-ok :
      (m : Exec S A) (f : A → Exec S B) (s : S) {b : B} {t : S}
      → (m >>= f) s ≡ (ok b, t)
      → (a : A) × (u : S) × (m s ≡ (ok a, u)) × (f a u ≡ (ok b, t))
  >>=-eq-ok m f s h = let (a, e, k) = continue_inv (m s).0 (m s).1 f h in (a, (m s).1, cc e, k)

module _ {ℓ} {S A : Type ℓ} where
  committed :
      (r : Result A) (s s' : S) {a : A} {t : S}
      → (atomically (λ (_ : S). (r, s')) s) ≡ (ok a, t)
      → (r ≡ ok a) × (s' ≡ t)
  unfolding atomically
  committed (ok a) s s' h = (ground arith, ground arith)
  committed (err e) s s' h = cc

  -- A committed block is the block, run to its end.
  pub atomically-eq-ok :
      (m : Exec S A) (s : S) {a : A} {t : S} → atomically m s ≡ (ok a, t) → m s ≡ (ok a, t)
  unfolding atomically
  atomically-eq-ok m s h = let (p, q) = committed (m s).0 s (m s).1 h in cc (p, q)

  undone :
      (r : Result A) (s s' : S) {e : Exn} {t : S}
      → (atomically (λ (_ : S). (r, s')) s) ≡ (err e, t)
      → t ≡ s
  unfolding atomically
  undone (ok a) s s' h = cc
  undone (err e) s s' h = ground arith

  -- A block that raises leaves the state as it was.
  pub atomically-err :
      (m : Exec S A) (s : S) {e : Exn} {t : S} → atomically m s ≡ (err e, t) → t ≡ s
  unfolding atomically
  atomically-err m s h = undone (m s).0 s (m s).1 h

module _ {S A : Type 0} (P : S → Type 0) where
  kept : (r : Result A) (s s' : S) → P s → P s' → P (atomically (λ (_ : S). (r, s')) s).1
  unfolding atomically
  kept (ok a) s s' h k = k
  kept (err e) s s' h k = h

  -- What holds of the state before and after a block holds after its commit or rollback.
  pub atomically-keeps : (m : Exec S A) (s : S) → P s → P (m s).1 → P (atomically m s).1
  unfolding atomically
  atomically-keeps m s h k = kept (m s).0 s (m s).1 h k
