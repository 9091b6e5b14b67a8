-- ===== src/Prelude/Rows.antt =====
-- Tables as lists of rows: what the program's queries and row updates do, and sums over a table.
use mathlib.Core.Path.{◌≡◌, refl}
use mathlib.Core.Bool.{Bool, true, false, ◌||◌, ◌&&◌, not}
use mathlib.Core.Option.{Option, none, some}
use mathlib.Core.Logic.{inl, inr}
use mathlib.Core.List.{List, [], ◌∷◌, ◌++◌}
use native.Mathlib.Omega.{arith}
use crypto_pay_system.Prelude.Tests.{if◌then◌else◌, Bool-cases}
use crypto_pay_system.Prelude.Int.{ℤ, pos, ◌+ℤ◌, int_laws}
use crypto_pay_system.Prelude.Exec.{Exn, Result, ok, err, multiple_results, no_result}

module _ {ℓ} {A : Type ℓ} where
  -- SELECT … WHERE p
  unfoldable pub select : (A → Bool) → List A → List A
  select p [] = []
  select p (r ∷ rs) = if p r then r ∷ select p rs else select p rs

  -- an assignment to the fields of the rows that `p` selects
  unfoldable pub modify_where : (A → Bool) → (A → A) → List A → List A
  modify_where p f [] = []
  modify_where p f (r ∷ rs) = (if p r then f r else r) ∷ modify_where p f rs

  -- `result.scalar_one_or_none()`
  unfoldable pub scalar_one_or_none : List A → Result (Option A)
  scalar_one_or_none [] = ok none
  scalar_one_or_none (r ∷ []) = ok (some r)
  scalar_one_or_none (r ∷ s ∷ rs) = err multiple_results

  -- `result.scalar_one()`
  unfoldable pub scalar_one : List A → Result A
  scalar_one [] = err no_result
  scalar_one (r ∷ []) = ok r
  scalar_one (r ∷ s ∷ rs) = err multiple_results

  unfoldable pub any : (A → Bool) → List A → Bool
  any p [] = false
  any p (r ∷ rs) = p r || any p rs

  -- no two rows collide under `same`
  unfoldable pub unique : (A → A → Bool) → List A → Bool
  unique same [] = true
  unique same (r ∷ rs) = not (any (same r) rs) && unique same rs

  -- the sum of the weights of the rows
  unfoldable pub sum : (A → ℤ) → List A → ℤ
  sum w [] = pos 0
  sum w (r ∷ rs) = w r +ℤ sum w rs

module _ {ℓ} {A : Type ℓ} where
  pub scalar_one_or_none-some :
      (rows : List A) {r : A} → scalar_one_or_none rows ≡ ok (some r) → rows ≡ r ∷ []
  unfolding scalar_one_or_none
  scalar_one_or_none-some [] h = cc
  scalar_one_or_none-some (r ∷ []) h = cc
  scalar_one_or_none-some (r ∷ s ∷ rs) h = cc

  pub scalar_one_or_none-none : (rows : List A) → scalar_one_or_none rows ≡ ok none → rows ≡ []
  unfolding scalar_one_or_none
  scalar_one_or_none-none [] h = refl
  scalar_one_or_none-none (r ∷ []) h = cc
  scalar_one_or_none-none (r ∷ s ∷ rs) h = cc

  pub scalar_one_lem : (rows : List A) {r : A} → scalar_one rows ≡ ok r → rows ≡ r ∷ []
  unfolding scalar_one
  scalar_one_lem [] h = cc
  scalar_one_lem (r ∷ []) h = cc
  scalar_one_lem (r ∷ s ∷ rs) h = cc

  pub sum-append : (w : A → ℤ) (xs ys : List A) → sum w (xs ++ ys) ≡ sum w xs +ℤ sum w ys
  unfolding sum
  sum-append w [] ys = omega int_laws
  sum-append w (x ∷ xs) ys = rw (sum-append w xs ys) (omega int_laws)

  -- An update of rows that are not there changes nothing.
  pub modify_where-none :
      (p : A → Bool) (f : A → A) (rows : List A) → select p rows ≡ [] → modify_where p f rows ≡ rows
  unfolding select modify_where
  modify_where-none p f [] h = refl
  modify_where-none p f (r ∷ rs) h = ground (arith, modify_where-none p f rs)

  -- An update of the one row that a query returned moves the sum by that row's change.
  pub sum-modify_where :
      (w : A → ℤ) (p : A → Bool) (f : A → A) (rows : List A) (r : A)
      → select p rows ≡ r ∷ []
      → sum w (modify_where p f rows) +ℤ w r ≡ sum w rows +ℤ w (f r)
  unfolding select modify_where sum
  sum-modify_where w p f [] r h = cc
  sum-modify_where w p f (s ∷ rs) r h = elim (Bool-cases (p s)) [
    | inl e ↦ grind (int_laws, e, modify_where-none p f rs)
    | inr e ↦ grind (int_laws, e, sum-modify_where w p f rs r)
  ]

  -- What a query returns satisfies its condition.
  pub select-holds :
      (p : A → Bool) (rows : List A) (r : A) (rs : List A) → select p rows ≡ r ∷ rs → p r ≡ true
  unfolding select
  select-holds p [] r rs h = cc
  select-holds p (s ∷ rows) r rs h = ground (arith, select-holds p rows r rs)

  pub sum-one : (w : A → ℤ) (r : A) → sum w (r ∷ []) ≡ w r
  unfolding sum
  sum-one w r = omega int_laws

  -- `scalar_one_or_none` raises in one way only.
  pub scalar_one_or_none-err :
      (rows : List A) {e : Exn} → scalar_one_or_none rows ≡ err e → e ≡ multiple_results
  unfolding scalar_one_or_none
  scalar_one_or_none-err [] h = cc
  scalar_one_or_none-err (r ∷ []) h = cc
  scalar_one_or_none-err (r ∷ s ∷ rs) h = cc

  -- An update that keeps a condition changes the rows that the condition selects.
  pub select-modify_where :
      (p : A → Bool) (f : A → A) (rows : List A) (r : A)
      → ((a : A) → p (f a) ≡ p a)
      → select p rows ≡ r ∷ []
      → select p (modify_where p f rows) ≡ f r ∷ []
  unfolding select modify_where
  select-modify_where p f [] r k h = cc
  select-modify_where p f (s ∷ rs) r k h = elim (Bool-cases (p s)) [
    | inl e ↦ ground (arith, e, k s, modify_where-none p f rs)
    | inr e ↦ ground (arith, e, select-modify_where p f rs r k)
  ]

module _ {ℓ} {A : Type ℓ} (same : A → A → Bool) (p : A → Bool) (f : A → A) where
  any-modify_where :
      ((a b : A) → same a (f b) ≡ same a b)
      → (a : A) (rows : List A) → any (same a) (modify_where p f rows) ≡ any (same a) rows
  unfolding any modify_where
  any-modify_where r a [] = refl
  any-modify_where r a (s ∷ rows) = ground (arith, r a s, any-modify_where r a rows)

  any-same :
      ((a b : A) → same (f a) b ≡ same a b)
      → (a : A) (rows : List A) → any (same (f a)) rows ≡ any (same a) rows
  unfolding any
  any-same l a [] = refl
  any-same l a (s ∷ rows) = ground (arith, l a s, any-same l a rows)

  -- An update that keeps the key keeps the keys unique.
  pub unique-modify_where :
      ((a b : A) → same (f a) b ≡ same a b)
      → ((a b : A) → same a (f b) ≡ same a b)
      → (rows : List A) → unique same (modify_where p f rows) ≡ unique same rows
  unfolding unique modify_where
  unique-modify_where l r [] = refl
  unique-modify_where l r (s ∷ rows) = ground (
    arith,
    any-modify_where r s rows,
    any-modify_where r (f s) rows,
    any-same l s rows,
    unique-modify_where l r rows,
  )
