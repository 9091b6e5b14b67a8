-- ===== src/Migrations/Frame.antt =====
-- A statement that fits a schema fits the schema beside other tables and types, and does the same.
use crypto_pay_system.Prelude.{
  ◌≡◌, refl, ◌&&◌, ◌||◌, not, Bool, true, false, List, [], ◌∷◌, ◌++◌, All, arith, if◌then◌else◌,
  Bool-cases, inl, inr,
}
use crypto_pay_system.Prelude.Exec.{Result, ok, err, bind-eq-ok, programming_error}
use crypto_pay_system.Prelude.Rows.{any}
use crypto_pay_system.Prelude.Text.{Text}
use crypto_pay_system.Migrations.{
  Table, Schema, Statement, create_type, create_table, create_index, set_enum, add_column,
  drop_index, drop_column, drop_table, drop_type, is_named, is_type, takes, relation_names,
  names_free, depends_on, uses_type, referred, all_named, kept, replaced, with_table, without_table,
  without, in_tables, apply, apply_all,
}

-- a schema beside another
abbrev pub beside : Schema → Schema → Schema
beside s r = record { tables = s.tables ++ r.tables; types = s.types ++ r.types }

-- What a statement makes or drops has nothing to do with the schema `r`: its tables, indexes,
-- constraints and types do not have the name, and its tables do not depend on it.
abbrev pub IsFree : Schema → Statement → Type 0
IsFree r (create_type n values) =
    (any (is_type n) r.types ≡ false) × (any (is_named n) r.tables ≡ false)
IsFree r (create_table t) =
    (any (is_type t.name) r.types ≡ false) × (names_free (relation_names t) r.tables ≡ true)
IsFree r (create_index n table columns is_unique) = any (takes n) r.tables ≡ false
IsFree r (drop_table n) = any (depends_on n) r.tables ≡ false
IsFree r (drop_type n) = (any (uses_type n) r.tables ≡ false) × (any (is_type n) r.types ≡ false)
IsFree r _ = Unit

-- the same as a test
unfoldable pub is_free : Schema → List Statement → Bool
is_free r [] = true
is_free r (create_type n values ∷ xs) =
    not (any (is_type n) r.types) && not (any (is_named n) r.tables) && is_free r xs
is_free r (create_table t ∷ xs) =
    not (any (is_type t.name) r.types) && names_free (relation_names t) r.tables && is_free r xs
is_free r (create_index n table columns is_unique ∷ xs) =
    not (any (takes n) r.tables) && is_free r xs
is_free r (drop_table n ∷ xs) = not (any (depends_on n) r.tables) && is_free r xs
is_free r (drop_type n ∷ xs) =
    not (any (uses_type n) r.tables) && not (any (is_type n) r.types) && is_free r xs
is_free r (_ ∷ xs) = is_free r xs

pub is_free-IsFree : (r : Schema) (xs : List Statement) → is_free r xs ≡ true → All (IsFree r) xs
unfolding is_free
is_free-IsFree r [] h = tt
is_free-IsFree r (create_type n values ∷ xs) h =
    ((ground arith, ground arith), is_free-IsFree r xs (ground arith))
is_free-IsFree r (create_table t ∷ xs) h =
    ((ground arith, ground arith), is_free-IsFree r xs (ground arith))
is_free-IsFree r (create_index n table columns is_unique ∷ xs) h =
    (ground arith, is_free-IsFree r xs (ground arith))
is_free-IsFree r (drop_table n ∷ xs) h = (ground arith, is_free-IsFree r xs (ground arith))
is_free-IsFree r (drop_type n ∷ xs) h =
    ((ground arith, ground arith), is_free-IsFree r xs (ground arith))
is_free-IsFree r (set_enum table column type default ∷ xs) h = (tt, is_free-IsFree r xs h)
is_free-IsFree r (add_column table c ∷ xs) h = (tt, is_free-IsFree r xs h)
is_free-IsFree r (drop_index n table ∷ xs) h = (tt, is_free-IsFree r xs h)
is_free-IsFree r (drop_column table n ∷ xs) h = (tt, is_free-IsFree r xs h)

module _ {A : Type 0} where
  any-append : (p : A → Bool) (xs ys : List A) → any p (xs ++ ys) ≡ (any p xs || any p ys)
  unfolding any
  any-append p [] ys = refl
  any-append p (x ∷ xs) ys = ground (arith, any-append p xs ys)

  without-none : (p : A → Bool) (xs : List A) → any p xs ≡ false → without p xs ≡ xs
  unfolding any without
  without-none p [] h = refl
  without-none p (x ∷ xs) h = ground (arith, without-none p xs)

  without-append :
      (p : A → Bool) (xs ys : List A) → any p ys ≡ false → without p (xs ++ ys) ≡ without p xs ++ ys
  unfolding without
  without-append p [] ys h = without-none p ys h
  without-append p (x ∷ xs) ys h = ground (arith, without-append p xs ys h)

all_named-append :
    (ns : List Text) (ts rs : List Table) → all_named ns ts ≡ true → all_named ns (ts ++ rs) ≡ true
unfolding all_named
all_named-append [] ts rs h = refl
all_named-append (n ∷ ns) ts rs h =
    ground (arith, any-append (is_named n) ts rs, all_named-append ns ts rs)

names_free-append :
    (ns : List Text) (ts rs : List Table)
    → names_free ns rs ≡ true
    → names_free ns (ts ++ rs) ≡ names_free ns ts
unfolding names_free
names_free-append [] ts rs h = refl
names_free-append (n ∷ ns) ts rs h =
    ground (arith, any-append (takes n) ts rs, names_free-append ns ts rs)

kept-frame :
    (t : Table) (rest rest' : Result (List Table)) (ts rs : List Table)
    → ((us : List Table) → rest ≡ ok us → rest' ≡ ok (us ++ rs))
    → kept t rest ≡ ok ts
    → kept t rest' ≡ ok (ts ++ rs)
unfolding kept
kept-frame t (ok us) rest' ts rs k h =
    let same : ts ≡ t ∷ us = ground arith in rw (k us refl, same) refl
kept-frame t (err e) rest' ts rs k h = cc

replaced-frame :
    (us rs ts : List Table) (r : Result Table)
    → replaced us r ≡ ok ts
    → replaced (us ++ rs) r ≡ ok (ts ++ rs)
unfolding replaced
replaced-frame us rs ts (ok t) h = let same : ts ≡ t ∷ us = ground arith in rw same refl
replaced-frame us rs ts (err e) h = cc

with_table-frame :
    (n : Text) (f : Table → Result Table) (ts us rs : List Table)
    → with_table n f ts ≡ ok us
    → with_table n f (ts ++ rs) ≡ ok (us ++ rs)
unfolding with_table
with_table-frame n f [] us rs h = cc
with_table-frame n f (t ∷ ts) us rs h = elim (Bool-cases (is_named n t)) [
  | inl e ↦ rw e (replaced-frame ts rs us (f t) (rw e at h))
  | inr e ↦ rw e (
      kept-frame t (with_table n f ts) (with_table n f (ts ++ rs)) us rs
        (λ vs k. with_table-frame n f ts vs rs k) (rw e at h))
]

without_table-frame :
    (n : Text) (ts us rs : List Table)
    → without_table n ts ≡ ok us
    → without_table n (ts ++ rs) ≡ ok (us ++ rs)
unfolding without_table
without_table-frame n [] us rs h = cc
without_table-frame n (t ∷ ts) us rs h = elim (Bool-cases (is_named n t)) [
  | inl e ↦ let same : us ≡ ts = ground arith in rw (e, same) refl
  | inr e ↦ rw e (
      kept-frame t (without_table n ts) (without_table n (ts ++ rs)) us rs
        (λ vs k. without_table-frame n ts vs rs k) (rw e at h))
]

in_tables-frame :
    (s s' r : Schema) (x y : Result (List Table))
    → ((us : List Table) → x ≡ ok us → y ≡ ok (us ++ r.tables))
    → in_tables s x ≡ ok s'
    → in_tables (beside s r) y ≡ ok (beside s' r)
unfolding in_tables
in_tables-frame s s' r (ok us) y k h =
    let same : s' ≡ record s { tables = us } = ground arith in rw (k us refl, same) refl
in_tables-frame s s' r (err e) y k h = cc

-- the same for a statement behind a guard
guarded-frame :
    (c c' : Bool) (s' t' : Schema) (x y : Result Schema)
    → (c ≡ true → c' ≡ true)
    → (x ≡ ok s' → y ≡ ok t')
    → (if c then x else err programming_error) ≡ ok s'
    → (if c' then y else err programming_error) ≡ ok t'
guarded-frame true c' s' t' x y k l h = rw (k refl) (l h)
guarded-frame false c' s' t' x y k l h = cc

-- and for a statement that a condition refuses
refused-frame :
    (c c' : Bool) (s' t' : Schema) (x y : Result Schema)
    → (c ≡ false → c' ≡ false)
    → (x ≡ ok s' → y ≡ ok t')
    → (if c then err programming_error else x) ≡ ok s'
    → (if c' then err programming_error else y) ≡ ok t'
refused-frame true c' s' t' x y k l h = cc
refused-frame false c' s' t' x y k l h = rw (k refl) (l h)

pub apply-frame :
    (x : Statement) (s s' r : Schema)
    → IsFree r x
    → apply x s ≡ ok s'
    → apply x (beside s r) ≡ ok (beside s' r)
unfolding apply
apply-frame (create_type n values) s s' r free h =
    let both = any-append (is_type n) s.types r.types in
    let tables = any-append (is_named n) s.tables r.tables in
    let free_type = free.0 in let free_table = free.1 in ground arith
apply-frame (create_table t) s s' r free h =
    let both = any-append (is_type t.name) s.types r.types in
    let free_type = free.0 in
    let names = names_free-append (relation_names t) s.tables r.tables free.1 in
    let refs = all_named-append (referred t.columns) s.tables r.tables in ground arith
apply-frame (create_index n table columns is_unique) s s' r free h =
    let both = any-append (takes n) s.tables r.tables in
    refused-frame (any (takes n) s.tables) (any (takes n) (s.tables ++ r.tables)) s' (beside s' r) _
      _ (λ e. ground arith)
      (in_tables-frame s s' r _ _ (λ us k. with_table-frame table _ s.tables us r.tables k)) h
apply-frame (set_enum table column type default) s s' r free h =
    let both = any-append (is_type type) s.types r.types in
    guarded-frame (any (is_type type) s.types) (any (is_type type) (s.types ++ r.types)) s'
      (beside s' r) _ _ (λ e. ground arith)
      (in_tables-frame s s' r _ _ (λ us k. with_table-frame table _ s.tables us r.tables k)) h
apply-frame (add_column table c) s s' r free h =
    in_tables-frame s s' r _ _ (λ us k. with_table-frame table _ s.tables us r.tables k) h
apply-frame (drop_index n table) s s' r free h =
    in_tables-frame s s' r _ _ (λ us k. with_table-frame table _ s.tables us r.tables k) h
apply-frame (drop_column table n) s s' r free h =
    in_tables-frame s s' r _ _ (λ us k. with_table-frame table _ s.tables us r.tables k) h
apply-frame (drop_table n) s s' r free h =
    let both = any-append (depends_on n) s.tables r.tables in
    refused-frame (any (depends_on n) s.tables) (any (depends_on n) (s.tables ++ r.tables)) s'
      (beside s' r) _ _ (λ e. ground arith)
      (in_tables-frame s s' r _ _ (λ us k. without_table-frame n s.tables us r.tables k)) h
apply-frame (drop_type n) s s' r free h =
    let both = any-append (uses_type n) s.tables r.tables in
    let types = without-append (is_type n) s.types r.types free.1 in
    refused-frame (any (uses_type n) s.tables) (any (uses_type n) (s.tables ++ r.tables)) s'
      (beside s' r) _ _ (λ e. ground arith) (λ k. ground arith) h

pub apply_all-frame :
    (xs : List Statement) (s s' r : Schema)
    → All (IsFree r) xs
    → apply_all xs s ≡ ok s'
    → apply_all xs (beside s r) ≡ ok (beside s' r)
unfolding apply_all
apply_all-frame [] s s' r free h = let same : s ≡ s' = ground arith in rw same refl
apply_all-frame (x ∷ xs) s s' r free h =
    let (t, e, k) = bind-eq-ok (apply x s) (apply_all xs) h in
    rw (apply-frame x s t r free.0 e) (apply_all-frame xs t s' r free.1 k)
