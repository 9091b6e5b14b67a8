-- ===== src/Scripts/Again.antt =====
-- A second run of the seed.
use crypto_pay_system.Prelude.{
  ◌≡◌, refl, ap, ◌∙◌, Bool, true, false, ◌&&◌, List, [], ◌∷◌, ◌++◌, arith,
}
use crypto_pay_system.Prelude.Exec.{ok, err, integrity_error, atomically}
use crypto_pay_system.Prelude.Rows.{any, unique}
use crypto_pay_system.Prelude.Text.{text_eq}
use crypto_pay_system.Models.{Db}
use crypto_pay_system.Ledger.Accounting.{constraints}
use crypto_pay_system.Api.Admin.{same_key}
use crypto_pay_system.Scripts.{
  SeedKeys, btc, eth, trx, demo_merchant, same_symbol, consistent, commit, seed,
}

module _ {A : Type 0} (same : A → A → Bool) where
  -- three rows, and behind them a row that collides with the first
  unique-again :
      (xs : List A) (a e t b : A) (zs : List A)
      → same a b ≡ true
      → unique same ((xs ++ a ∷ e ∷ t ∷ []) ++ b ∷ zs) ≡ false
  unfolding unique any
  unique-again [] a e t b zs h = ground arith
  unique-again (x ∷ xs) a e t b zs h = ground (arith, unique-again xs a e t b zs h)

-- the rows that a seed adds
abbrev pub seeded : SeedKeys → Db → Db
seeded keys db = record db {
  coins = db.coins ++ btc keys ∷ eth keys ∷ trx keys ∷ [];
  merchants = db.merchants ++ demo_merchant keys ∷ [];
}

pub seed_refused :
    (keys : SeedKeys) (db : Db)
    → consistent (seeded keys db) ≡ false
    → seed keys db ≡ (err integrity_error, db)
unfolding seed commit atomically
seed_refused keys db h = ground arith

pub seed_ok :
    (keys : SeedKeys) (db : Db) {db' : Db}
    → seed keys db ≡ (ok tt, db')
    → (db' ≡ seeded keys db) × (consistent db' ≡ true)
unfolding seed commit atomically
seed_ok keys db e = (ground arith, ground arith)

all_fail : (a b c : Bool) → c ≡ false → (a && b && c) ≡ false
all_fail true true c h = h
all_fail true false c h = refl
all_fail false b c h = refl

same_bitcoin : (keys keys' : SeedKeys) → same_symbol (btc keys) (btc keys') ≡ true
unfolding same_symbol text_eq
same_bitcoin keys keys' = refl

again_inconsistent :
    (keys keys' : SeedKeys) (db : Db) → consistent (seeded keys' (seeded keys db)) ≡ false
again_inconsistent keys keys' db =
    all_fail (constraints (seeded keys' (seeded keys db)))
      (unique same_key (seeded keys' (seeded keys db)).merchants) _
      (unique-again same_symbol db.coins (btc keys) (eth keys) (trx keys) (btc keys')
        (eth keys' ∷ trx keys' ∷ []) (same_bitcoin keys keys'))

-- A seed that succeeds has added the three coins and the merchant and nothing else, and is the only
-- one: whatever ids, key and time the script draws when it is run again, the database refuses the
-- symbol of the first coin, and the run leaves the tables as they were.
pub seed_once :
    (keys keys' : SeedKeys) (db : Db) {db' : Db}
    → seed keys db ≡ (ok tt, db')
    → (db' ≡ seeded keys db) × (seed keys' db' ≡ (err integrity_error, db'))
seed_once keys keys' db {db'} e =
    let (added, fine) = seed_ok keys db e in
    (
      added,
      seed_refused keys' db'
          (ap (λ d. consistent (seeded keys' d)) added ∙ again_inconsistent keys keys' db),
    )
