-- ===== src/Migrations.antt =====
-- migrations/versions: the schema of the database, the statements that the two revisions run, and
-- their undoing. A table is created without rows, so the UPDATE statements and the casts of the
-- revision 001 meet none, and they are left out.
pub mod Tables
pub mod Initial
pub mod Frame
pub mod Undone
use crypto_pay_system.Prelude.{
  ℕ, ◌&&◌, ◌||◌, not, Bool, true, false, List, [], ◌∷◌, ◌++◌, map, Option, none, some,
  if◌then◌else◌,
}
use crypto_pay_system.Prelude.Exec.{Result, ok, err, bind, programming_error}
use crypto_pay_system.Prelude.Rows.{any, modify_where, unique}
use crypto_pay_system.Prelude.Text.{Text, codes, text_eq}

pub data ColumnType : Type 0 where
  integer big_integer boolean text uuid date_time : ColumnType
  string : ℕ → ColumnType
  numeric : ℕ → ℕ → ColumnType
  enum : Text → ColumnType

pub data OnDelete : Type 0 where
  restrict cascade : OnDelete

-- a column; a server default is its text, and a foreign key names the column `id` of a table
pub record Column : Type 0 where
  pub name : Text
  pub type : ColumnType
  pub nullable : Bool
  pub primary_key : Bool
  pub server_default : Option Text
  pub foreign_key : Option (Text × OnDelete)

pub record Index : Type 0 where
  pub name : Text
  pub columns : List Text
  pub is_unique : Bool

pub record Table : Type 0 where
  pub name : Text
  pub columns : List Column
  pub uniques : List (Text × List Text)
  pub indexes : List Index

pub record Schema : Type 0 where
  pub tables : List Table
  pub types : List (Text × List Text)

-- the statements of `op`
pub data Statement : Type 0 where
  -- CREATE TYPE … AS ENUM, where duplicate_object is ignored; a table is a type of its name too
  create_type : Text → List Text → Statement
  create_table : Table → Statement
  create_index : Text → Text → List Text → Bool → Statement
  -- `_create_enum_column_table`: table, column, type and default
  set_enum : Text → Text → Text → Text → Statement
  add_column : Text → Column → Statement
  drop_index : Text → Text → Statement
  drop_column : Text → Text → Statement
  drop_table : Text → Statement
  -- DROP TYPE IF EXISTS
  drop_type : Text → Statement

abbrev pub is_named : Text → Table → Bool
is_named n t = text_eq t.name n

abbrev pub is_type : Text → Text × List Text → Bool
is_type n t = text_eq t.0 n

abbrev pub is_column : Text → Column → Bool
is_column n c = text_eq c.name n

abbrev pub has_index : Text → Table → Bool
has_index n t = any (λ (i : Index). text_eq i.name n) t.indexes

-- In PostgreSQL tables, indexes and unique constraints have their names in one namespace. The names
-- that it makes up itself, for keys without one, give way to others.
unfoldable pub takes : Text → Table → Bool
takes n t = is_named n t || has_index n t || any (λ (u : Text × List Text). text_eq u.0 n) t.uniques

-- the names that a new table takes
abbrev pub relation_names : Table → List Text
relation_names t = t.name ∷ map (λ (u : Text × List Text). u.0) t.uniques

unfoldable pub names_free : List Text → List Table → Bool
names_free [] tables = true
names_free (n ∷ ns) tables = not (any (takes n) tables) && names_free ns tables

refers_to : Text → Column → Bool
refers_to n c = elim c.foreign_key [ none ↦ false | some k ↦ text_eq k.0 n ]

-- a foreign key of another table into the table `n`
unfoldable pub depends_on : Text → Table → Bool
unfolding refers_to
depends_on n t = not (text_eq t.name n) && any (refers_to n) t.columns

has_type : Text → Column → Bool
has_type n c = elim c.type [ enum m ↦ text_eq m n | _ ↦ false ]

unfoldable pub uses_type : Text → Table → Bool
unfolding has_type
uses_type n t = any (has_type n) t.columns

-- the tables that the foreign keys name
referred : List Column → List Text
referred [] = []
referred (c ∷ columns) =
    let rest = referred columns in elim c.foreign_key [ none ↦ rest | some k ↦ k.0 ∷ rest ]

pub all_named : List Text → List Table → Bool
all_named [] tables = true
all_named (n ∷ ns) tables = any (is_named n) tables && all_named ns tables

pub all_columns : List Text → List Column → Bool
all_columns [] columns = true
all_columns (n ∷ ns) columns = any (is_column n) columns && all_columns ns columns

-- the rest of a list in front of which an element is put
pub kept : Table → Result (List Table) → Result (List Table)
kept t (ok ts) = ok (t ∷ ts)
kept t (err e) = err e

pub replaced : List Table → Result Table → Result (List Table)
replaced ts (ok t) = ok (t ∷ ts)
replaced ts (err e) = err e

-- a change of the table `n`
pub with_table : Text → (Table → Result Table) → List Table → Result (List Table)
unfolding kept replaced
with_table n f [] = err programming_error
with_table n f (t ∷ ts) =
    let rest = with_table n f ts in if is_named n t then replaced ts (f t) else kept t rest

pub without_table : Text → List Table → Result (List Table)
unfolding kept
without_table n [] = err programming_error
without_table n (t ∷ ts) =
    let rest = without_table n ts in if is_named n t then ok ts else kept t rest

pub without : {A : Type 0} → (A → Bool) → List A → List A
without p [] = []
without p (a ∷ xs) = let rest = without p xs in if p a then rest else a ∷ rest

pub indexed : Text → List Text → Bool → Table → Result Table
unfolding all_columns
indexed name columns is_unique t =
    if all_columns columns t.columns
    then ok (record t {
      indexes = record { name = name; columns = columns; is_unique = is_unique } ∷ t.indexes;
    })
    else err programming_error

pub enumerated : Text → Text → Text → Table → Result Table
enumerated column type default t =
    if any (is_column column) t.columns
    then ok (record t {
      columns =
          modify_where (is_column column)
            (λ c. record c { type = enum type; server_default = some default }) t.columns;
    })
    else err programming_error

pub widened : Column → Table → Result Table
widened c t =
    if any (is_column c.name) t.columns
    then err programming_error
    else ok (record t { columns = t.columns ++ c ∷ [] })

pub unindexed : Text → Table → Result Table
unfolding without
unindexed n t =
    if has_index n t
    then ok (record t { indexes = without (λ (i : Index). text_eq i.name n) t.indexes })
    else err programming_error

-- a column goes with the constraints and the indexes that it is in
pub narrowed : Text → Table → Result Table
unfolding without
narrowed n t =
    if any (is_column n) t.columns
    then ok (record t {
      columns = without (is_column n) t.columns;
      uniques = without (λ (u : Text × List Text). any (λ (c : Text). text_eq c n) u.1) t.uniques;
      indexes = without (λ (i : Index). any (λ (c : Text). text_eq c n) i.columns) t.indexes;
    })
    else err programming_error

pub in_tables : Schema → Result (List Table) → Result Schema
in_tables s (ok ts) = ok (record s { tables = ts })
in_tables s (err e) = err e

pub apply : Statement → Schema → Result Schema
unfolding all_named takes names_free depends_on uses_type with_table without_table without indexed
    enumerated widened unindexed narrowed in_tables referred
apply (create_type n values) s =
    if any (is_type n) s.types || any (is_named n) s.tables
    then ok s
    else ok (record s { types = (n, values) ∷ s.types })
apply (create_table t) s =
    if not (any (is_type t.name) s.types)
      && unique text_eq (relation_names t)
      && names_free (relation_names t) s.tables
      && all_named (referred t.columns) s.tables
    then ok (record s { tables = t ∷ s.tables })
    else err programming_error
apply (create_index n table columns is_unique) s =
    if any (takes n) s.tables
    then err programming_error
    else in_tables s (with_table table (indexed n columns is_unique) s.tables)
apply (set_enum table column type default) s =
    if any (is_type type) s.types
    then in_tables s (with_table table (enumerated column type default) s.tables)
    else err programming_error
apply (add_column table c) s = in_tables s (with_table table (widened c) s.tables)
apply (drop_index n table) s = in_tables s (with_table table (unindexed n) s.tables)
apply (drop_column table n) s = in_tables s (with_table table (narrowed n) s.tables)
apply (drop_table n) s =
    if any (depends_on n) s.tables
    then err programming_error
    else in_tables s (without_table n s.tables)
apply (drop_type n) s =
    if any (uses_type n) s.tables
    then err programming_error
    else ok (record s { types = without (is_type n) s.types })

-- the body of a revision
pub apply_all : List Statement → Schema → Result Schema
unfolding apply
apply_all [] s = ok s
apply_all (x ∷ xs) s = bind (apply x s) (apply_all xs)
