-- ===== src/Plugin/Defaults.antt =====
-- The three stores that overlay/pg.rs creates from a table with the required fields only.
use lore_stack.Common.{
  String, ◌≡◌, refl, true, false, Option, none, some, List, [], ◌∷◌, ◌++◌, Bytes, All,
}
use lore_stack.Sql.World.{ok, checkout, auto}
use lore_stack.Sql.Triple.{world}
use lore_stack.Tls.{Tls, make_pool}
use lore_stack.Startup.Types.{
  Relation, Catalog, S3Config, mutable_schema, lock_schema, fragments_schema, metadata_schema,
}
use lore_stack.Startup.Build.{
  create_all, mutable_from_config, lock_from_config, immutable_from_config,
}
use lore_stack.Startup.Relations.{Holds, create_all-Holds}
use lore_stack.Plugin.{
  Toml, PgImmutableStorePluginConfig, immutable_config, mutable_config, lock_config,
  immutable_create, mutable_create, lock_create,
}

abbrev optional_fields : List String
optional_fields =
    "s3_endpoint_url" ∷ "s3_region" ∷ "s3_force_path_style" ∷ "fragments_table" ∷ "metadata_table"
    ∷ "force_write" ∷ "mutable_table" ∷ "locks_table" ∷ []

abbrev pub default_schema : List (String × Relation)
default_schema =
    fragments_schema "fragments"
    ++ metadata_schema "fragments_meta"
    ++ mutable_schema "mutable_store"
    ++ lock_schema "locks"

module _ (toml : Toml) (tls : Tls) (catalog : Catalog) where
  open catalog use {T, relation}

  -- A field with a text.
  abbrev Says : toml.Value → String → String → Type 0
  Says config name s = (v : toml.Value) × (toml.get config name ≡ some v) × (toml.as_str v ≡ some s)

  abbrev Minimal : toml.Value → String → String → Type 0
  Minimal config dsn bucket =
      Says config "dsn" dsn
      × Says config "s3_bucket" bucket
      × All (λ n. toml.get config n ≡ none) optional_fields

  abbrev pub defaults : String → String → PgImmutableStorePluginConfig
  defaults dsn bucket = record {
    dsn = dsn;
    s3_bucket = bucket;
    s3_endpoint_url = none;
    s3_region = none;
    s3_force_path_style = true;
    fragments_table = "fragments";
    metadata_table = "fragments_meta";
    force_write = false;
  }

  immutable_config_lem :
      (config : toml.Value) (dsn bucket : String)
      → Minimal config dsn bucket
      → immutable_config toml config ≡ ok (defaults dsn bucket)
  immutable_config_lem config dsn bucket (d, b, o) =
      rw (d.1, d.2, b.1, b.2, o.0, o.1.0, o.1.1.0, o.1.1.1.0, o.1.1.1.1.0, o.1.1.1.1.1.0) refl

  mutable_config_lem :
      (config : toml.Value) (dsn bucket : String)
      → Minimal config dsn bucket
      → mutable_config toml config ≡ ok (record { dsn = dsn; mutable_table = "mutable_store" })
  mutable_config_lem config dsn bucket (d, b, o) = rw (d.1, d.2, o.1.1.1.1.1.1.0) refl

  lock_config_lem :
      (config : toml.Value) (dsn bucket : String)
      → Minimal config dsn bucket
      → lock_config toml config ≡ ok (record { dsn = dsn; locks_table = "locks" })
  lock_config_lem config dsn bucket (d, b, o) = rw (d.1, d.2, o.1.1.1.1.1.1.1.0) refl

  module _ {S3 : Type 0} (from_conf : S3Config → S3) (env : Option Bytes) (config : toml.Value)
      (dsn bucket : String) (minimal : Minimal config dsn bucket) (pool : tls.Pool)
      (made : make_pool tls env dsn ≡ ok pool) where
    immutable_creates :
        (t u : T)
        → (immutable_create toml tls catalog from_conf env config (world t u [])).1
          ≡ world
              (create_all tls catalog
                (fragments_schema "fragments" ++ metadata_schema "fragments_meta")
                t)
              u
              []
    unfolding immutable_create immutable_from_config auto checkout
    immutable_creates t u = rw (immutable_config_lem config dsn bucket minimal, made) refl

    mutable_creates :
        (t u : T)
        → (mutable_create toml tls catalog env config (world t u [])).1
          ≡ world (create_all tls catalog (mutable_schema "mutable_store") t) u []
    unfolding mutable_create mutable_from_config auto checkout
    mutable_creates t u = rw (mutable_config_lem config dsn bucket minimal, made) refl

    lock_creates :
        (t u : T)
        → (lock_create toml tls catalog env config (world t u [])).1
          ≡ world (create_all tls catalog (lock_schema "locks") t) u []
    unfolding lock_create lock_from_config auto checkout
    lock_creates t u = rw (lock_config_lem config dsn bucket minimal, made) refl

  -- While all requests are answered and the pool can be made: from a table with no more than the
  -- DSN and the bucket, the three factories create, one after the other in a database where none
  -- of the names is taken, every table and index of the three stores as its own store describes
  -- it.
  pub create-default_schema :
      {S3 : Type 0} (from_conf : S3Config → S3) (env : Option Bytes) (config : toml.Value)
      (dsn bucket : String) (pool : tls.Pool) (t u : T)
      → Minimal config dsn bucket
      → make_pool tls env dsn ≡ ok pool
      → All (λ x. relation t x.0 ≡ none) default_schema
      → All
          (Holds tls catalog
            (lock_create toml tls catalog env config
              (mutable_create toml tls catalog env config
                (immutable_create toml tls catalog from_conf env config
                  (world t u [])).1).1).1.committed)
          default_schema
  create-default_schema from_conf env config dsn bucket pool t u minimal made absent =
      rw
        (
          immutable_creates from_conf env config dsn bucket minimal pool made t u,
          mutable_creates from_conf env config dsn bucket minimal pool made _ u,
          lock_creates from_conf env config dsn bucket minimal pool made _ u,
        )
        (create_all-Holds tls catalog default_schema t refl absent)
