-- ===== src/Startup/Schema.antt =====
-- What from_config of lore-pg/src/store/pg_immutable_store.rs leaves in the database.
use Prim.Native.String as Text
use lore_stack.Common.{[], true, false, ◌∷◌, String, ◌≡◌, refl, ap, ◌∙◌, Option, List, ◌++◌, Bytes}
use lore_stack.Common.Eq.{string_eq}
use lore_stack.Sql.World.{M, Result, ok, err, World, pure, from_result, ◌>>=◌, ◌>>◌}
use lore_stack.Sql.Triple.{
  Triple, Post, Triple-bind, Triple-pure, Triple-auto, Triple-checkout, Triple-raise, Post-map,
}
use lore_stack.Tls.{Tls, StartError, make_pool}
use lore_stack.Startup.Types.{
  Kind, Column, Relation, Catalog, PgImmutableStore, ImmutableArguments, S3Config, unwrap_or,
  fragments_schema, metadata_schema,
}
use lore_stack.Startup.Build.{
  create_all, batch_execute, immutable_new, s3_config, settings_of, immutable_ensure_schema,
  immutable_from_config,
}
use lore_stack.Startup.Relations.{
  Kept, Kept-compose, Kept-same, create_all-Kept, create_all-relation, declared, or_else,
}

abbrev pub bytes_column : String → Column
bytes_column n = record { name = n; kind = Kind.bytea; default_zero = false }

abbrev pub number_column : String → Column
number_column n = record { name = n; kind = Kind.bigint; default_zero = true }

-- What the statements declare: the associations with their two indexes, and the metadata.
abbrev pub asked_schema : ImmutableArguments → List (String × Relation)
asked_schema a =
    (
      a.fragments_table,
      Relation.table (bytes_column "hash" ∷ bytes_column "repository" ∷ bytes_column "context" ∷ [])
          ("hash" ∷ "repository" ∷ "context" ∷ []),
    )
    ∷ (
      Text.◌++◌ a.fragments_table "_hash_repository",
      Relation.index a.fragments_table ("hash" ∷ "repository" ∷ []),
    )
    ∷ (Text.◌++◌ a.fragments_table "_hash_idx", Relation.index a.fragments_table ("hash" ∷ []))
    ∷ (
      a.metadata_table,
      Relation.table
          (bytes_column "hash"
            ∷ number_column "flags"
            ∷ number_column "size_payload"
            ∷ number_column "size_content"
            ∷ [])
          ("hash" ∷ []),
    )
    ∷ []

module _ (tls : Tls) (catalog : Catalog) where
  open catalog use {T, relation, create_if_not_exists}

  abbrev pub immutable_schema : ImmutableArguments → List (String × Relation)
  immutable_schema a = fragments_schema a.fragments_table ++ metadata_schema a.metadata_table

  -- A statement that fails may have taken effect.
  batch_execute-Triple :
      (start t : T) (rs : List (String × Relation))
      → Kept tls catalog start t
      → Triple
          (λ w. w.committed ≡ t)
          (batch_execute tls catalog rs)
          (λ u w. w.committed ≡ create_all tls catalog rs t)
          (λ e w. Kept tls catalog start w.committed)
  batch_execute-Triple start t rs kept =
      Triple-auto StartError.schema _ (λ c t' fs h. ap (create_all tls catalog rs) h)
        (λ c t' fs h f. (
          Kept-compose tls catalog start t c kept (Kept-same tls catalog t c h),
          Kept-compose tls catalog start c (create_all tls catalog rs c)
              (Kept-compose tls catalog start t c kept (Kept-same tls catalog t c h))
              (create_all-Kept tls catalog rs c),
        ))

  module _ {S3 : Type 0} (from_conf : S3Config → S3) where
    ensure_schema-Triple :
        (store : PgImmutableStore tls.Pool S3) (t : T)
        → Triple
            (λ w. w.committed ≡ t)
            (immutable_ensure_schema tls catalog from_conf store)
            (λ u w.
              w.committed
              ≡ create_all tls catalog
                  (fragments_schema store.fragments_table ++ metadata_schema store.metadata_table)
                  t)
            (λ e w. Kept tls catalog t w.committed)
    ensure_schema-Triple store t =
        Triple-bind
          (Triple-checkout {Q = λ u w. w.committed ≡ t} StartError.pool_checkout (λ c t' fs h. h)
            (λ c t' fs h f. Kept-same tls catalog t c h))
          (λ u.
            Triple-bind
              (batch_execute-Triple t t (fragments_schema store.fragments_table) (λ n q at. at))
              (λ u'.
                batch_execute-Triple t _ (metadata_schema store.metadata_table)
                  (create_all-Kept tls catalog (fragments_schema store.fragments_table) t)))

    abbrev store_of : ImmutableArguments → tls.Pool → PgImmutableStore tls.Pool S3
    store_of a pool =
        immutable_new tls catalog from_conf pool (from_conf (s3_config tls catalog from_conf a))
          30000000000 (settings_of tls catalog from_conf a)

    -- The store that the arguments ask for, over a database with its schema.
    abbrev Built :
        Option Bytes → ImmutableArguments → T → PgImmutableStore tls.Pool S3 → World T → Type 0
    Built env a t store w =
        (pool : tls.Pool) × (make_pool tls env a.dsn ≡ ok pool)
        × (store ≡ store_of a pool)
        × (w.committed ≡ create_all tls catalog (immutable_schema a) t)

    abbrev build : ImmutableArguments → tls.Pool → M StartError T (PgImmutableStore tls.Pool S3)
    build a pool = do
      immutable_ensure_schema tls catalog from_conf (store_of a pool)
      pure (store_of a pool)

    build-Triple :
        (env : Option Bytes) (a : ImmutableArguments) (r : Result StartError tls.Pool) (t : T)
        → make_pool tls env a.dsn ≡ r
        → Triple
            (λ w. w.committed ≡ t)
            (from_result r >>= build a)
            (Built env a t)
            (λ e w. Kept tls catalog t w.committed)
    build-Triple env a (ok pool) t e =
        Triple-bind (ensure_schema-Triple (store_of a pool) t)
          (λ u. Triple-pure (store_of a pool) (λ w h. (pool, e, refl, h)))
    build-Triple env a (err x) t e = Triple-raise x (λ w h. Kept-same tls catalog t w.committed h)

    from_config-Triple :
        (env : Option Bytes) (a : ImmutableArguments) (t : T)
        → Triple
            (λ w. w.committed ≡ t)
            (immutable_from_config tls catalog from_conf env a)
            (Built env a t)
            (λ e w. Kept tls catalog t w.committed)
    unfolding immutable_from_config
    from_config-Triple env a t = build-Triple env a (make_pool tls env a.dsn) t refl

    -- The store that the arguments ask for, field by field.
    abbrev pub asked_store : ImmutableArguments → tls.Pool → PgImmutableStore tls.Pool S3
    asked_store a pool = record {
      pool = pool;
      s3 = from_conf (record {
        region = unwrap_or "auto" a.region;
        endpoint_url = a.endpoint;
        force_path_style = a.force_path_style;
      });
      slow_operation_duration = 30000000000;
      bucket = a.bucket;
      fragments_table = a.fragments_table;
      metadata_table = a.metadata_table;
      force_write = a.force_write;
    }

    -- That store, over a database where every name has the relation that it had, or else the one
    -- that the schema declares for it, if any.
    abbrev pub Started :
        Option Bytes → ImmutableArguments → T → PgImmutableStore tls.Pool S3 → World T → Type 0
    Started env a t store w =
        (pool : tls.Pool) × (make_pool tls env a.dsn ≡ ok pool)
        × (store ≡ asked_store a pool)
        × ((n : String)
            → relation w.committed n ≡ or_else (relation t n) (declared n (asked_schema a)))

    Built-Started :
        (env : Option Bytes) (a : ImmutableArguments) (t : T) (store : PgImmutableStore tls.Pool S3)
        (w : World T)
        → Built env a t store w
        → Started env a t store w
    Built-Started env a t store w (pool, made, same, schema) = (
      pool,
      made,
      same,
      λ n. ap (λ u. relation u n) schema ∙ create_all-relation tls catalog (immutable_schema a) t n,
    )

    -- Whatever becomes of the requests: a success of `from_config` of the immutable store returns
    -- the store whose every field is as the arguments say, with its S3 client configured by their
    -- region, endpoint and path style; in its database every name has the relation that it had,
    -- or else the first that the four statements for its two tables and two indexes declare for
    -- it, column by column. An error leaves every relation that was there as it was.
    pub immutable_from_config_outcome :
        (env : Option Bytes) (a : ImmutableArguments) (w : World T)
        → Post
            (Started env a w.committed)
            (λ e w'. Kept tls catalog w.committed w'.committed)
            (immutable_from_config tls catalog from_conf env a w)
    immutable_from_config_outcome env a w =
        Post-map {R = λ e w'. Kept tls catalog w.committed w'.committed}
          (Built-Started env a w.committed) (λ e w' h. h)
          (immutable_from_config tls catalog from_conf env a w)
          ((from_config-Triple env a w.committed).at w refl)
