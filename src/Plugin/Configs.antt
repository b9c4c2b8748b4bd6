-- ===== src/Plugin/Configs.antt =====
-- Which configurations the factories of overlay/pg.rs refuse.
use lore_stack.Common.{◌≡◌, refl, Bool, true, false, Option, Bytes, if◌then◌else◌}
use lore_stack.Sql.World.{M, Result, ok, err, World, from_result, ◌>>=◌}
use lore_stack.Tls.{Tls, StartError}
use lore_stack.Startup.Types.{Catalog, S3Config}
use lore_stack.Plugin.{
  Toml, ConfigError, PluginError, immutable_config, mutable_config, lock_config, deserialize, valid,
  initialized, immutable_validate_config, immutable_create, mutable_validate_config, mutable_create,
  lock_validate_config, lock_create,
}

module _ {A : Type 0} where
  abbrev is_err : Result PluginError A → Bool
  is_err (ok a) = false
  is_err (err e) = true

  abbrev is_config_error : Result PluginError A → Bool
  is_config_error (err (PluginError.config_error n e)) = true
  is_config_error _ = false

module _ (toml : Toml) (tls : Tls) (catalog : Catalog) where
  open catalog use {T}

  -- Validation refuses what creation refuses for its configuration, before it does anything.
  abbrev pub Refuses :
      {A : Type 0}
      → Result PluginError (Unit {0})
      → World T
      → Result PluginError A × World T
      → Type 0
  Refuses checked w made =
      (is_err checked ≡ is_config_error made.0) × (made.1 ≡ (if is_err checked then w else made.1))

  initialized-Refuses :
      {A : Type 0} (w : World T) (o : Result StartError A × World T)
      → Refuses (ok tt) w (initialized toml tls catalog o)
  initialized-Refuses w (ok store, v) = (refl, refl)
  initialized-Refuses w (err e, v) = (refl, refl)

  deserialize-Refuses :
      {A B : Type 0} (r : Result ConfigError A) (build : A → M StartError T B) (w : World T)
      → Refuses (valid toml tls catalog (deserialize toml tls catalog r)) w (
          (from_result (deserialize toml tls catalog r) >>= λ cfg v.
          initialized toml tls catalog (build cfg v))
            w)
  deserialize-Refuses (ok cfg) build w = initialized-Refuses w (build cfg w)
  deserialize-Refuses (err e) build w = (refl, refl)

  -- For each of the three factories, whatever becomes of the requests: `validate_config` fails
  -- exactly if `create` fails for the configuration, and then `create` sends nothing.
  pub validate_config-create :
      {S3 : Type 0} (from_conf : S3Config → S3) (env : Option Bytes) (config : toml.Value)
      (w : World T)
      → Refuses
          (immutable_validate_config toml tls catalog config)
          w
          (immutable_create toml tls catalog from_conf env config w)
        × Refuses
            (mutable_validate_config toml tls catalog config)
            w
            (mutable_create toml tls catalog env config w)
        × Refuses
            (lock_validate_config toml tls catalog config)
            w
            (lock_create toml tls catalog env config w)
  unfolding immutable_validate_config immutable_create mutable_validate_config mutable_create
      lock_validate_config lock_create
  validate_config-create from_conf env config w = (
    deserialize-Refuses (immutable_config toml config) _ w,
    deserialize-Refuses (mutable_config toml config) _ w,
    deserialize-Refuses (lock_config toml config) _ w,
  )
