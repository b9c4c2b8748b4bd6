-- ===== src/Plugin.antt =====
-- overlay/pg.rs: the plugin factories that read `[plugins.pg]` and create the three stores.
pub mod Configs
pub mod Defaults
use lore_stack.Common.{ℕ, String, Bool, true, false, Option, none, some, List, [], ◌∷◌, Bytes}
use lore_stack.Sql.World.{M, Result, ok, err, World, from_result, ◌>>=◌}
use lore_stack.Tls.{Tls, StartError}
use lore_stack.Startup.Types.{Catalog, S3Config, ImmutableArguments, PgImmutableStore, TableStore}
use lore_stack.Startup.Build.{immutable_from_config, mutable_from_config, lock_from_config}

-- A value of TOML: a field of a table, and the text or the flag that a value is.
pub record Toml : Type 1 where
  pub Value : Type 0
  pub get : Value → String → Option Value
  pub as_str : Value → Option String
  pub as_bool : Value → Option Bool

pub data ConfigError : Type 0 where
  missing_field : String → ConfigError
  invalid_type : String → ConfigError

pub data PluginError : Type 0 where
  config_error : (plugin_name : String) → ConfigError → PluginError
  init_error : (plugin_name : String) → StartError → PluginError

abbrev pub plugin_name : String
plugin_name = "pg"

pub record PgImmutableStorePluginConfig : Type 0 where
  pub dsn : String
  pub s3_bucket : String
  pub s3_endpoint_url : Option String
  pub s3_region : Option String
  pub s3_force_path_style : Bool
  pub fragments_table : String
  pub metadata_table : String
  pub force_write : Bool

pub record PgMutableStorePluginConfig : Type 0 where
  pub dsn : String
  pub mutable_table : String

pub record PgLockStorePluginConfig : Type 0 where
  pub dsn : String
  pub locks_table : String

module _ (toml : Toml) where
  abbrev typed : {A : Type 0} → String → Option A → Result ConfigError A
  typed name none = err (ConfigError.invalid_type name)
  typed name (some a) = ok a

  -- A field that is absent has its default, if there is one.
  abbrev field_or :
      {A : Type 0}
      → String
      → (toml.Value → Option A)
      → Result ConfigError A
      → Option toml.Value
      → Result ConfigError A
  field_or name read default none = default
  field_or name read default (some v) = typed name (read v)

  abbrev pub required :
      {A : Type 0} → String → (toml.Value → Option A) → toml.Value → Result ConfigError A
  required name read config =
      field_or name read (err (ConfigError.missing_field name)) (toml.get config name)

  abbrev pub defaulted :
      {A : Type 0} → String → (toml.Value → Option A) → A → toml.Value → Result ConfigError A
  defaulted name read default config = field_or name read (ok default) (toml.get config name)

  abbrev present : {A : Type 0} → Option A → Option (Option A)
  present none = none
  present (some a) = some (some a)

  abbrev pub optional : String → toml.Value → Result ConfigError (Option String)
  optional name = defaulted name (λ v. present (toml.as_str v)) none

  abbrev pub bind : {E A B : Type 0} → Result E A → (A → Result E B) → Result E B
  bind (ok a) f = f a
  bind (err e) f = err e

  -- The fields that a struct does not name are ignored.
  abbrev pub immutable_config : toml.Value → Result ConfigError PgImmutableStorePluginConfig
  immutable_config config = bind (required "dsn" toml.as_str config) λ dsn.
      bind (required "s3_bucket" toml.as_str config) λ s3_bucket.
        bind (optional "s3_endpoint_url" config) λ s3_endpoint_url.
          bind (optional "s3_region" config) λ s3_region.
            bind (defaulted "s3_force_path_style" toml.as_bool true config) λ s3_force_path_style.
              bind (defaulted "fragments_table" toml.as_str "fragments" config) λ fragments_table.
                bind (defaulted "metadata_table" toml.as_str "fragments_meta" config)
                  λ metadata_table.
                    bind (defaulted "force_write" toml.as_bool false config) λ force_write.
                      ok (record {
                        dsn = dsn;
                        s3_bucket = s3_bucket;
                        s3_endpoint_url = s3_endpoint_url;
                        s3_region = s3_region;
                        s3_force_path_style = s3_force_path_style;
                        fragments_table = fragments_table;
                        metadata_table = metadata_table;
                        force_write = force_write;
                      })

  abbrev pub mutable_config : toml.Value → Result ConfigError PgMutableStorePluginConfig
  mutable_config config = bind (required "dsn" toml.as_str config) λ dsn.
      bind (defaulted "mutable_table" toml.as_str "mutable_store" config)
        λ mutable_table. ok (record { dsn = dsn; mutable_table = mutable_table })

  abbrev pub lock_config : toml.Value → Result ConfigError PgLockStorePluginConfig
  lock_config config = bind (required "dsn" toml.as_str config) λ dsn.
      bind (defaulted "locks_table" toml.as_str "locks" config)
        λ locks_table. ok (record { dsn = dsn; locks_table = locks_table })

module _ (toml : Toml) (tls : Tls) (catalog : Catalog) where
  open catalog use {T}

  abbrev pub deserialize : {A : Type 0} → Result ConfigError A → Result PluginError A
  deserialize (ok cfg) = ok cfg
  deserialize (err e) = err (PluginError.config_error plugin_name e)

  abbrev pub valid : {A : Type 0} → Result PluginError A → Result PluginError (Unit {0})
  valid (ok cfg) = ok tt
  valid (err e) = err e

  abbrev pub initialized :
      {A : Type 0} → Result StartError A × World T → Result PluginError A × World T
  initialized (ok store, w) = (ok store, w)
  initialized (err e, w) = (err (PluginError.init_error plugin_name e), w)

  unfoldable pub immutable_validate_config : toml.Value → Result PluginError (Unit {0})
  immutable_validate_config config = valid (deserialize (immutable_config toml config))

  abbrev pub immutable_arguments : PgImmutableStorePluginConfig → ImmutableArguments
  immutable_arguments cfg = record {
    dsn = cfg.dsn;
    bucket = cfg.s3_bucket;
    endpoint = cfg.s3_endpoint_url;
    region = cfg.s3_region;
    force_path_style = cfg.s3_force_path_style;
    fragments_table = cfg.fragments_table;
    metadata_table = cfg.metadata_table;
    force_write = cfg.force_write;
  }

  unfoldable pub immutable_create :
      {S3 : Type 0}
      → (S3Config → S3)
      → Option Bytes
      → toml.Value
      → M PluginError T (PgImmutableStore tls.Pool S3)
  immutable_create from_conf env config = do
    cfg ← from_result (deserialize (immutable_config toml config))
    λ w. initialized (immutable_from_config tls catalog from_conf env (immutable_arguments cfg) w)

  unfoldable pub mutable_validate_config : toml.Value → Result PluginError (Unit {0})
  mutable_validate_config config = valid (deserialize (mutable_config toml config))

  unfoldable pub mutable_create : Option Bytes → toml.Value → M PluginError T (TableStore tls.Pool)
  mutable_create env config = do
    cfg ← from_result (deserialize (mutable_config toml config))
    λ w. initialized (mutable_from_config tls catalog env cfg.dsn cfg.mutable_table w)

  unfoldable pub lock_validate_config : toml.Value → Result PluginError (Unit {0})
  lock_validate_config config = valid (deserialize (lock_config toml config))

  unfoldable pub lock_create : Option Bytes → toml.Value → M PluginError T (TableStore tls.Pool)
  lock_create env config = do
    cfg ← from_result (deserialize (lock_config toml config))
    λ w. initialized (lock_from_config tls catalog env cfg.dsn cfg.locks_table w)

pub data Factory : Type 0 where
  immutable_factory mutable_factory lock_factory : Factory

-- The registry is the server's.
abbrev pub register : {Registry : Type 0} → (Factory → Registry → Registry) → Registry → Registry
register register_plugin registry =
    register_plugin lock_factory
      (register_plugin mutable_factory (register_plugin immutable_factory registry))
