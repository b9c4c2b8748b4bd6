-- ===== src/Startup/Build.antt =====
-- from_config and ensure_schema of the three stores of lore-pg/src/store: the pool, the settings,
-- and the tables and indexes that a store creates before it is used.
use lore_stack.Common.{ℕ, String, Option, List, [], ◌∷◌, Bytes}
use lore_stack.Sql.World.{M, pure, from_result, ◌>>=◌, ◌>>◌, checkout, auto}
use lore_stack.Tls.{Tls, StartError, make_pool}
use lore_stack.Startup.Types.{
  Relation, Catalog, mutable_schema, lock_schema, fragments_schema, metadata_schema,
  PgImmutableStoreSettings, TableSettings, S3Config, ImmutableArguments, unwrap_or,
  PgImmutableStore, TableStore,
}

module _ (tls : Tls) (catalog : Catalog) where
  open catalog use {T, create_if_not_exists}

  abbrev pub create_all : List (String × Relation) → T → T
  create_all [] t = t
  create_all ((n, r) ∷ rs) t = create_all rs (create_if_not_exists n r t)

  -- The statements of one batch run in one implicit transaction.
  abbrev pub batch_execute : List (String × Relation) → M StartError T (Unit {0})
  batch_execute rs = auto StartError.schema (λ t. (tt, create_all rs t))

  abbrev mutable_ensure_schema : TableStore tls.Pool → M StartError T (Unit {0})
  mutable_ensure_schema store = do
    checkout StartError.pool_checkout
    batch_execute (mutable_schema store.table_name)

  abbrev mutable_new : tls.Pool → TableSettings → TableStore tls.Pool
  mutable_new pool settings = record { pool = pool; table_name = settings.table_name }

  unfoldable pub mutable_from_config :
      Option Bytes → String → String → M StartError T (TableStore tls.Pool)
  mutable_from_config env dsn table_name = do
    pool ← from_result (make_pool tls env dsn)
    let store = mutable_new pool (record { table_name = table_name })
    mutable_ensure_schema store
    pure store

  abbrev lock_ensure_schema : TableStore tls.Pool → M StartError T (Unit {0})
  lock_ensure_schema store = do
    checkout StartError.pool_checkout
    batch_execute (lock_schema store.table_name)

  abbrev lock_new : tls.Pool → TableSettings → TableStore tls.Pool
  lock_new pool settings = record { pool = pool; table_name = settings.table_name }

  unfoldable pub lock_from_config :
      Option Bytes → String → String → M StartError T (TableStore tls.Pool)
  lock_from_config env dsn table_name = do
    pool ← from_result (make_pool tls env dsn)
    let store = lock_new pool (record { table_name = table_name })
    lock_ensure_schema store
    pure store

  module _ {S3 : Type 0} (from_conf : S3Config → S3) where
    abbrev pub immutable_new :
        tls.Pool → S3 → ℕ → PgImmutableStoreSettings → PgImmutableStore tls.Pool S3
    immutable_new pool s3 slow settings = record {
      pool = pool;
      s3 = s3;
      slow_operation_duration = slow;
      bucket = settings.bucket;
      fragments_table = settings.fragments_table;
      metadata_table = settings.metadata_table;
      force_write = settings.force_write;
    }

    abbrev pub immutable_ensure_schema : PgImmutableStore tls.Pool S3 → M StartError T (Unit {0})
    immutable_ensure_schema store = do
      checkout StartError.pool_checkout
      batch_execute (fragments_schema store.fragments_table)
      batch_execute (metadata_schema store.metadata_table)

    abbrev pub s3_config : ImmutableArguments → S3Config
    s3_config a = record {
      region = unwrap_or "auto" a.region;
      endpoint_url = a.endpoint;
      force_path_style = a.force_path_style;
    }

    abbrev pub settings_of : ImmutableArguments → PgImmutableStoreSettings
    settings_of a = record {
      fragments_table = a.fragments_table;
      metadata_table = a.metadata_table;
      bucket = a.bucket;
      endpoint_url = a.endpoint;
      region = a.region;
      force_write = a.force_write;
    }

    unfoldable pub immutable_from_config :
        Option Bytes → ImmutableArguments → M StartError T (PgImmutableStore tls.Pool S3)
    immutable_from_config env a = do
      pool ← from_result (make_pool tls env a.dsn)
      let store = immutable_new pool (from_conf (s3_config a)) 30000000000 (settings_of a)
      immutable_ensure_schema store
      pure store
