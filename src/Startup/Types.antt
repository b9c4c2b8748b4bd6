-- ===== src/Startup/Types.antt =====
-- The settings of the three stores of lore-pg/src/store, and the tables and indexes of each one.
use Prim.Native.String.{◌++◌}
use lore_stack.Common.{ℕ, String, ◌≡◌, Bool, true, false, Option, none, some, List, [], ◌∷◌}

pub data Kind : Type 0 where
  bytea bigint text : Kind

-- A column, NOT NULL as all of them are; `BIGINT DEFAULT 0` or without a default.
pub record Column : Type 0 where
  pub name : String
  pub kind : Kind
  pub default_zero : Bool

pub data Relation : Type 0 where
  table : (columns : List Column) (primary_key : List String) → Relation
  index : (on : String) (columns : List String) → Relation

-- The relations of the database by name. `CREATE TABLE IF NOT EXISTS` and `CREATE INDEX IF NOT
-- EXISTS` leave alone what has the name already.
pub record Catalog : Type 1 where
  pub T : Type 0
  pub relation : T → String → Option Relation
  pub create_if_not_exists : String → Relation → T → T
  pub create-absent :
      (n : String) (r : Relation) (t : T)
      → relation t n ≡ none
      → relation (create_if_not_exists n r t) n ≡ some r
  pub create-other :
      (n m : String) (r : Relation) (t : T)
      → (n ≡ m → ⊥)
      → relation (create_if_not_exists n r t) m ≡ relation t m
  pub create-present :
      (n : String) (r q : Relation) (t : T) → relation t n ≡ some q → create_if_not_exists n r t ≡ t

abbrev column : String → Kind → Column
column n k = record { name = n; kind = k; default_zero = false }

abbrev counter : String → Column
counter n = record { name = n; kind = Kind.bigint; default_zero = true }

abbrev pub mutable_schema : String → List (String × Relation)
mutable_schema t =
    (
      t,
      Relation.table
          (column "repository_id" Kind.bytea
            ∷ column "key" Kind.bytea
            ∷ column "value" Kind.bytea
            ∷ [])
          ("repository_id" ∷ "key" ∷ []),
    )
    ∷ []

abbrev pub lock_schema : String → List (String × Relation)
lock_schema t =
    (
      t,
      Relation.table
          (column "repository" Kind.bytea
            ∷ column "branch" Kind.bytea
            ∷ column "hash" Kind.bytea
            ∷ column "owner_id" Kind.text
            ∷ column "description" Kind.text
            ∷ column "locked_at" Kind.bigint
            ∷ [])
          ("repository" ∷ "branch" ∷ "hash" ∷ []),
    )
    ∷ (t ++ "_hash_idx", Relation.index t ("hash" ∷ []))
    ∷ (t ++ "_owner_idx", Relation.index t ("owner_id" ∷ []))
    ∷ (t ++ "_repo_idx", Relation.index t ("repository" ∷ []))
    ∷ []

abbrev pub fragments_schema : String → List (String × Relation)
fragments_schema t =
    (
      t,
      Relation.table
          (column "hash" Kind.bytea
            ∷ column "repository" Kind.bytea
            ∷ column "context" Kind.bytea
            ∷ [])
          ("hash" ∷ "repository" ∷ "context" ∷ []),
    )
    ∷ (t ++ "_hash_repository", Relation.index t ("hash" ∷ "repository" ∷ []))
    ∷ (t ++ "_hash_idx", Relation.index t ("hash" ∷ []))
    ∷ []

abbrev pub metadata_schema : String → List (String × Relation)
metadata_schema t =
    (
      t,
      Relation.table
          (column "hash" Kind.bytea
            ∷ counter "flags"
            ∷ counter "size_payload"
            ∷ counter "size_content"
            ∷ [])
          ("hash" ∷ []),
    )
    ∷ []

pub record PgImmutableStoreSettings : Type 0 where
  pub fragments_table : String
  pub metadata_table : String
  pub bucket : String
  pub endpoint_url : Option String
  pub region : Option String
  pub force_write : Bool

-- The settings of PgMutableStore, and those of PgLockStore.
pub record TableSettings : Type 0 where
  pub table_name : String

-- What the S3 client is configured with.
pub record S3Config : Type 0 where
  pub region : String
  pub endpoint_url : Option String
  pub force_path_style : Bool

-- The configuration that `from_config` of the immutable store is called with.
pub record ImmutableArguments : Type 0 where
  pub dsn : String
  pub bucket : String
  pub endpoint : Option String
  pub region : Option String
  pub force_path_style : Bool
  pub fragments_table : String
  pub metadata_table : String
  pub force_write : Bool

abbrev pub unwrap_or : String → Option String → String
unwrap_or d none = d
unwrap_or d (some s) = s

pub record PgImmutableStore (Pool S3 : Type 0) : Type 0 where
  pub pool : Pool
  pub s3 : S3
  pub slow_operation_duration : ℕ
  pub bucket : String
  pub fragments_table : String
  pub metadata_table : String
  pub force_write : Bool

pub record TableStore (Pool : Type 0) : Type 0 where
  pub pool : Pool
  pub table_name : String
