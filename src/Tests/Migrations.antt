-- ===== src/Tests/Migrations.antt =====
-- The migrations on a database that holds the version table of Alembic.
use crypto_pay_system.Prelude.{◌≡◌, refl, [], ◌∷◌}
use crypto_pay_system.Prelude.Exec.{ok, bind}
use crypto_pay_system.Prelude.Rows.{any, unique}
use crypto_pay_system.Prelude.Text.{codes, text_eq}
use crypto_pay_system.Migrations.{
  Table, Schema, string, depends_on, uses_type, takes, names_free, apply_all,
}
use crypto_pay_system.Migrations.Tables.{plain}
use crypto_pay_system.Migrations.Initial.{upgrade_001, downgrade_001, upgrade_002, downgrade_002}
use crypto_pay_system.Migrations.Frame.{is_free, is_free-IsFree}
use crypto_pay_system.Migrations.Undone.{upgrades, downgrades, downgrades-upgrades}

abbrev versions : Table
versions = record {
  name = codes "alembic_version";
  columns = plain "version_num" (string 32) ∷ [];
  uniques = [];
  indexes = [];
}

abbrev versioned : Schema
versioned = record { tables = versions ∷ []; types = [] }

downgrades-upgrades_example :
    bind (apply_all upgrades versioned) (apply_all downgrades) ≡ ok versioned
unfolding is_free upgrade_001 upgrade_002 downgrade_001 downgrade_002 any text_eq depends_on
    uses_type takes names_free unique
downgrades-upgrades_example =
    downgrades-upgrades versioned (is_free-IsFree versioned upgrades refl)
      (is_free-IsFree versioned downgrades refl)
