-- ===== src/Migrations/Undone.antt =====
-- The two revisions, forwards and backwards, on a database that may hold other tables.
use crypto_pay_system.Prelude.{◌≡◌, refl, List, [], ◌++◌, All}
use crypto_pay_system.Prelude.Exec.{Result, ok, err, bind}
use crypto_pay_system.Prelude.Rows.{any, modify_where, unique}
use crypto_pay_system.Prelude.Text.{text_eq}
use crypto_pay_system.Migrations.{Schema, Statement, with_table, without_table, apply, apply_all}
use crypto_pay_system.Migrations.Initial.{upgrade_001, downgrade_001, upgrade_002, downgrade_002}
use crypto_pay_system.Migrations.Frame.{IsFree, apply_all-frame}

abbrev pub nothing : Schema
nothing = record { tables = []; types = [] }

-- all revisions in their order, and back
abbrev pub upgrades : List Statement
upgrades = upgrade_001 ++ upgrade_002

abbrev pub downgrades : List Statement
downgrades = downgrade_002 ++ downgrade_001

schema_of : Result Schema → Schema
schema_of (ok s) = s
schema_of (err e) = nothing

-- the schema of an empty database after the upgrade
initial : Schema
unfolding schema_of
initial = schema_of (apply_all upgrades nothing)

initial-upgrades : apply_all upgrades nothing ≡ ok initial
unfolding initial apply_all apply upgrade_001 upgrade_002 text_eq any unique modify_where with_table
    without_table
initial-upgrades = refl

initial-downgrades : apply_all downgrades initial ≡ ok nothing
unfolding initial apply_all apply upgrade_001 upgrade_002 downgrade_001 downgrade_002 text_eq any
    unique modify_where with_table without_table
initial-downgrades = refl

-- On a database whose tables, indexes, unique constraints and types do not have the names that the
-- revisions give, and whose tables do not depend on the tables and types that they drop: the upgrade
-- through both revisions goes through, and the downgrade after it goes through and leaves the schema
-- as it was. So each table is there when an index or a foreign key names it, and goes before those
-- it needs.
pub downgrades-upgrades :
    (s : Schema)
    → All (IsFree s) upgrades
    → All (IsFree s) downgrades
    → bind (apply_all upgrades s) (apply_all downgrades) ≡ ok s
downgrades-upgrades s free_up free_down =
    let forth = apply_all-frame upgrades nothing initial s free_up initial-upgrades in
    let back = apply_all-frame downgrades initial nothing s free_down initial-downgrades in
    rw forth back
