-- ===== src/Api/Paging.antt =====
-- The listings of the routers: ORDER BY created_at DESC, LIMIT and OFFSET. Where two rows were
-- created at the same time, the database may choose their order; here the later row of the table
-- goes last.
use crypto_pay_system.Prelude.{
  ℕ, zero, suc, ◌≤◌, ◌≡◌, Bool, true, leb, List, [], ◌∷◌, take, drop, length, All, if◌then◌else◌,
  arith, Bool-cases, inl, inr,
}
use mathlib.Core.List.{Perm}
use mathlib.Core.List.Perm
use crypto_pay_system.Prelude.Rows.{select}

module _ {A : Type 0} (created_at : A → ℕ) where
  pub insert_desc : A → List A → List A
  insert_desc x [] = x ∷ []
  insert_desc x (y ∷ ys) =
      let rest = insert_desc x ys in
      if leb (created_at y) (created_at x) then x ∷ y ∷ ys else y ∷ rest

  pub order_desc : List A → List A
  unfolding insert_desc
  order_desc [] = []
  order_desc (x ∷ xs) = insert_desc x (order_desc xs)

  unfoldable pub page : ℕ → ℕ → List A → List A
  unfolding order_desc
  page limit offset rows = take limit (drop offset (order_desc rows))

  -- newest first
  abbrev pub IsDescending : List A → Type 0
  IsDescending [] = Unit
  IsDescending (x ∷ xs) = All (λ y. created_at y ≤ created_at x) xs × IsDescending xs

  module _ {ℓ} (P : A → Type ℓ) where
    All-insert_desc : (x : A) (ys : List A) → P x → All P ys → All P (insert_desc x ys)
    unfolding insert_desc
    All-insert_desc x [] h k = (h, tt)
    All-insert_desc x (y ∷ ys) h k = elim (Bool-cases (leb (created_at y) (created_at x))) [
      | inl e ↦ rw e (h, k)
      | inr e ↦ rw e (k.0, All-insert_desc x ys h k.1)
    ]

    All-order_desc : (xs : List A) → All P xs → All P (order_desc xs)
    unfolding order_desc
    All-order_desc [] h = tt
    All-order_desc (x ∷ xs) h = All-insert_desc x (order_desc xs) h.0 (All-order_desc xs h.1)

    All-take : (n : ℕ) (xs : List A) → All P xs → All P (take n xs)
    All-take zero xs h = tt
    All-take (suc n) [] h = tt
    All-take (suc n) (x ∷ xs) h = (h.0, All-take n xs h.1)

    All-drop : (n : ℕ) (xs : List A) → All P xs → All P (drop n xs)
    All-drop zero xs h = h
    All-drop (suc n) [] h = tt
    All-drop (suc n) (x ∷ xs) h = All-drop n xs h.1

    -- A page holds rows of the table only.
    pub All-page : (limit offset : ℕ) (rows : List A) → All P rows → All P (page limit offset rows)
    unfolding page
    All-page limit offset rows h =
        All-take limit (drop offset (order_desc rows))
          (All-drop offset (order_desc rows) (All-order_desc rows h))

  weaken_desc :
      (x y : A) (ys : List A)
      → created_at y ≤ created_at x
      → All (λ z. created_at z ≤ created_at y) ys
      → All (λ z. created_at z ≤ created_at x) ys
  weaken_desc x y [] h k = tt
  weaken_desc x y (z ∷ ys) h k = (omega (arith, k.0), weaken_desc x y ys h k.1)

  insert-IsDescending : (x : A) (ys : List A) → IsDescending ys → IsDescending (insert_desc x ys)
  unfolding insert_desc
  insert-IsDescending x [] h = (tt, tt)
  insert-IsDescending x (y ∷ ys) h = elim (Bool-cases (leb (created_at y) (created_at x))) [
    | inl e ↦ rw e ((ground arith, weaken_desc x y ys (ground arith) h.0), h)
    | inr e ↦ rw e (
      All-insert_desc (λ z. created_at z ≤ created_at y) x ys (ground arith) h.0,
      insert-IsDescending x ys h.1,
    )
  ]

  order-IsDescending : (xs : List A) → IsDescending (order_desc xs)
  unfolding order_desc
  order-IsDescending [] = tt
  order-IsDescending (x ∷ xs) = insert-IsDescending x (order_desc xs) (order-IsDescending xs)

  take-IsDescending : (n : ℕ) (xs : List A) → IsDescending xs → IsDescending (take n xs)
  take-IsDescending zero xs h = tt
  take-IsDescending (suc n) [] h = tt
  take-IsDescending (suc n) (x ∷ xs) h =
      (All-take (λ z. created_at z ≤ created_at x) n xs h.0, take-IsDescending n xs h.1)

  drop-IsDescending : (n : ℕ) (xs : List A) → IsDescending xs → IsDescending (drop n xs)
  drop-IsDescending zero xs h = h
  drop-IsDescending (suc n) [] h = tt
  drop-IsDescending (suc n) (x ∷ xs) h = drop-IsDescending n xs h.1

  -- A page is newest first.
  pub page-IsDescending : (limit offset : ℕ) (rows : List A) → IsDescending (page limit offset rows)
  unfolding page
  page-IsDescending limit offset rows =
      take-IsDescending limit (drop offset (order_desc rows))
        (drop-IsDescending offset (order_desc rows) (order-IsDescending rows))

  length-take_le : (n : ℕ) (xs : List A) → length (take n xs) ≤ n
  length-take_le zero xs = omega arith
  length-take_le (suc n) [] = omega arith
  length-take_le (suc n) (x ∷ xs) = omega (arith, length-take_le n xs)

  -- A page has at most `limit` rows.
  pub length-page : (limit offset : ℕ) (rows : List A) → length (page limit offset rows) ≤ limit
  unfolding page
  length-page limit offset rows = length-take_le limit (drop offset (order_desc rows))

  insert-perm : (x : A) (ys : List A) → Perm (insert_desc x ys) (x ∷ ys)
  unfolding insert_desc
  insert-perm x [] = Perm.refl (x ∷ [])
  insert-perm x (y ∷ ys) = elim (Bool-cases (leb (created_at y) (created_at x))) [
    | inl e ↦ rw e (Perm.refl (x ∷ y ∷ ys))
    | inr e ↦ rw e (Perm.trans (Perm.cons y (insert-perm x ys)) (Perm.swap x y ys))
  ]

  -- The order of a listing keeps the rows, each as often.
  pub order_desc-perm : (xs : List A) → Perm (order_desc xs) xs
  unfolding order_desc
  order_desc-perm [] = Perm.refl []
  order_desc-perm (x ∷ xs) =
      Perm.trans (insert-perm x (order_desc xs)) (Perm.cons x (order_desc-perm xs))

-- Every row that a query selects meets its condition.
pub All-select : {A : Type 0} (p : A → Bool) (rows : List A) → All (λ r. p r ≡ true) (select p rows)
unfolding select
All-select p [] = tt
All-select p (r ∷ rows) = elim (Bool-cases (p r)) [
  | inl e ↦ rw e (e, All-select p rows)
  | inr e ↦ rw e (All-select p rows)
]
