-- ===== src/Api/Admin/Keys.antt =====
-- What the rotation of an API key does to the keys that authentication accepts.
use crypto_pay_system.Prelude.{
  ℕ, ◌≡◌, refl, ap, ◌∙◌, true, false, ◌==◌, List, [], ◌∷◌, none, some, arith, Bool-cases, inl, inr,
}
use crypto_pay_system.Prelude.Exec.{ok, err, http_exception}
use crypto_pay_system.Prelude.Rows.{
  select, modify_where, modify_where-none, any, unique, scalar_one_or_none, select-modify_where,
}
use crypto_pay_system.Prelude.Text.{Text, text_eq, text_eq_iff, text_eq_refl}
use crypto_pay_system.Models.{Merchant, Db}
use crypto_pay_system.Api.Auth.{unauthorized, has_key, get_current_merchant}
use crypto_pay_system.Api.Admin.{same_key, has_id, set_key, flush_merchants, rotate_api_key}

key_absent :
    (m : Merchant) (rows : List Merchant)
    → any (same_key m) rows ≡ false
    → select (has_key m.api_key) rows ≡ []
unfolding any select
key_absent m [] h = refl
key_absent m (s ∷ rows) h =
    ground
      (arith, text_eq_iff m.api_key s.api_key, text_eq_iff s.api_key m.api_key, key_absent m rows)

other_key :
    (s r : Merchant) (id : ℕ) (rows : List Merchant)
    → any (same_key s) rows ≡ false
    → select (has_id id) rows ≡ r ∷ []
    → text_eq s.api_key r.api_key ≡ false
unfolding any select
other_key s r id [] h k = cc
other_key s r id (t ∷ rows) h k = elim (Bool-cases (t.id == id)) [
  | inl e ↦ ground (arith, e)
  | inr e ↦ ground (arith, e, other_key s r id rows)
]

-- With unique keys the row that an id finds is the row that its key finds.
by_key :
    (id : ℕ) (r : Merchant) (rows : List Merchant)
    → unique same_key rows ≡ true
    → select (has_id id) rows ≡ r ∷ []
    → select (has_key r.api_key) rows ≡ r ∷ []
unfolding unique select
by_key id r [] u h = cc
by_key id r (s ∷ rows) u h = elim (Bool-cases (s.id == id)) [
  | inl e ↦
      let same : s ≡ r = ground (arith, e) in
      ground (arith, same, text_eq_refl s.api_key, key_absent s rows)
  | inr e ↦ ground (arith, e, other_key s r id rows, by_key id r rows)
]

-- The replaced key finds nobody.
old_key :
    (id : ℕ) (new_key : Text) (r : Merchant) (rows : List Merchant)
    → unique same_key rows ≡ true
    → select (has_id id) rows ≡ r ∷ []
    → text_eq new_key r.api_key ≡ false
    → select (has_key r.api_key) (modify_where (has_id id) (set_key new_key) rows) ≡ []
unfolding unique select modify_where
old_key id new_key r [] u h n = cc
old_key id new_key r (s ∷ rows) u h n = elim (Bool-cases (s.id == id)) [
  | inl e ↦
      let same : s ≡ r = ground (arith, e) in
      ground
        (arith, e, same, key_absent s rows, modify_where-none (has_id id) (set_key new_key) rows)
  | inr e ↦ ground (arith, e, other_key s r id rows, old_key id new_key r rows)
]

pub auth_none :
    (key : Text) (db : Db)
    → select (has_key key) db.merchants ≡ []
    → get_current_merchant (some key) none db ≡ err unauthorized
unfolding get_current_merchant scalar_one_or_none
auth_none [] db h = refl
auth_none (c ∷ key) db h = rw h refl

pub auth_some :
    (key : Text) (m : Merchant) (db : Db)
    → text_eq key [] ≡ false
    → m.api_key ≡ key
    → select (has_key key) db.merchants ≡ m ∷ []
    → get_current_merchant (some key) none db ≡ ok m
unfolding get_current_merchant scalar_one_or_none text_eq
auth_some [] m db n k h = cc n
auth_some (c ∷ key) m db n k h = rw h (ground (arith, text_eq_iff m.api_key (c ∷ key)))

rotated :
    (new_key : Text) (id : ℕ) (db : Db) {r : ℕ × Text} {db' : Db}
    → rotate_api_key new_key id db ≡ (ok r, db')
    → (db' ≡ record db { merchants = modify_where (has_id id) (set_key new_key) db.merchants })
      × (unique same_key db'.merchants ≡ true)
unfolding rotate_api_key flush_merchants
rotated new_key id db e = (ground arith, ground arith)

-- After a key is rotated the new key authenticates as the merchant, otherwise unchanged, and the key
-- that it replaces is answered with 401. So it is for every new key that is not empty and differs
-- from the old one, where no two merchants shared a key before.
pub rotate_api_key_lem :
    (new_key : Text) (id : ℕ) (db : Db) (m : Merchant) {r : ℕ × Text} {db' : Db}
    → unique same_key db.merchants ≡ true
    → select (has_id id) db.merchants ≡ m ∷ []
    → text_eq new_key [] ≡ false
    → text_eq new_key m.api_key ≡ false
    → rotate_api_key new_key id db ≡ (ok r, db')
    → (get_current_merchant (some new_key) none db' ≡ ok (set_key new_key m))
      × (get_current_merchant (some m.api_key) none db' ≡ err (http_exception 401))
rotate_api_key_lem new_key id db m {r} {db'} u found some_key differ e =
    let (effect, u') = rotated new_key id db e in
    let rows = ap (λ (d : Db). d.merchants) effect in
    let now : select (has_id id) db'.merchants ≡ set_key new_key m ∷ [] =
      ap (select (has_id id)) rows
      ∙ select-modify_where (has_id id) (set_key new_key) db.merchants m (λ a. refl) found in
    let old =
      ap (select (has_key m.api_key)) rows ∙ old_key id new_key m db.merchants u found differ in
    (
      auth_some new_key (set_key new_key m) db' some_key refl
          (by_key id (set_key new_key m) db'.merchants u' now),
      auth_none m.api_key db' old,
    )
