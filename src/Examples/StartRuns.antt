-- ===== src/Examples/StartRuns.antt =====
-- A database without relations, one root certificate and a table of TOML: runs of the start.
use lore_stack.Common.{
  ℕ, String, ◌≡◌, ◌≢◌, ◌<◌, ◌^◌, refl, Bool, true, false, ◌||◌, Option, none, some, List, [], ◌∷◌,
  All, arith, if◌then◌else◌, Bool-cases, Option-cases, inl, inr,
}
use lore_stack.Common.Eq.{◌==◌, nat_eq, string_eq}
use lore_stack.Common.Decimal.{decimal}
use lore_stack.Sql.World.{World, answered, lost}
use lore_stack.Sql.Triple.{Post, world}
use lore_stack.Tls.{Tls, PoolConfig}
use lore_stack.Tls.Pool.{make_pool-trusts}
use lore_stack.Startup.Types.{Relation, Catalog, ImmutableArguments}
use lore_stack.Startup.Build.{immutable_from_config}
use lore_stack.Startup.Relations.{Kept, Holds}
use lore_stack.Startup.Schema.{Started, immutable_from_config_outcome}
use lore_stack.Plugin.{
  Toml, immutable_validate_config, mutable_validate_config, lock_validate_config, immutable_create,
  mutable_create, lock_create,
}
use lore_stack.Plugin.Configs.{Refuses, validate_config-create}
use lore_stack.Plugin.Defaults.{default_schema, create-default_schema}

abbrev trusts : List ℕ → ℕ → Bool
trusts [] c = false
trusts (d ∷ ds) c = d == c || trusts ds c

add-trusts : (c : ℕ) (from to : List ℕ) → some (c ∷ from) ≡ some to → trusts to c ≡ true
add-trusts c from to h = let e : to ≡ c ∷ from = cc in rw (e, (nat_eq.beq_iff c c).1 refl) refl

add-keeps :
    (c d : ℕ) (from to : List ℕ)
    → some (c ∷ from) ≡ some to
    → trusts from d ≡ true
    → trusts to d ≡ true
add-keeps c d from to h t = let e : to ≡ c ∷ from = cc in rw (e, t) (or_true (c == d))
  where
    or_true : (b : Bool) → b || true ≡ true
    or_true b = ground arith

abbrev tls : Tls
tls = record {
  Cert = ℕ;
  RootCertStore = List ℕ;
  Connector = List ℕ;
  Pool = PoolConfig;
  native_certs = 1 ∷ 2 ∷ [];
  empty = [];
  add = λ c roots. some (c ∷ roots);
  trusts = trusts;
  add-trusts = add-trusts;
  add-keeps = add-keeps;
  client_config = λ roots. some roots;
  pool = λ config connector. some config;
}

abbrev sized : ℕ → PoolConfig
sized n = record { url = "dsn"; max_size = n }

make_pool-trusts_example :
    (tls.native_certs ≢ [])
    × ((roots : List ℕ) × (c : List ℕ) × (n : ℕ) × All (λ d. trusts roots d ≡ true) (1 ∷ 2 ∷ [])
        × (some roots ≡ some c)
        × (some (sized n) ≡ some (sized 12))
        × (0 < n)
        × (n < 2 ^ 64))
make_pool-trusts_example = make_pool-trusts tls (some (decimal 12)) "dsn" (sized 12) refl

abbrev Relations : Type 0
Relations = List (String × Relation)

abbrev relation : Relations → String → Option Relation
relation [] n = none
relation ((m, r) ∷ t) n = if m == n then some r else relation t n

abbrev created : String → Relation → Relations → Option Relation → Relations
created n r t none = (n, r) ∷ t
created n r t (some q) = t

abbrev create : String → Relation → Relations → Relations
create n r t = created n r t (relation t n)

create-absent :
    (n : String) (r : Relation) (t : Relations)
    → relation t n ≡ none
    → relation (create n r t) n ≡ some r
create-absent n r t h = rw (h, (string_eq.beq_iff n n).1 refl) refl

create-other :
    (n m : String) (r : Relation) (t : Relations)
    → (n ≡ m → ⊥)
    → relation (create n r t) m ≡ relation t m
create-other n m r t apart = elim (Option-cases (relation t n)) [
  | inr (q, e) ↦ rw e refl
  | inl e ↦ elim (Bool-cases (n == m)) [
    | inl y ↦ absurd (apart ((string_eq.beq_iff n m).0 y))
    | inr z ↦ rw (e, z) refl
  ]
]

create-present :
    (n : String) (r q : Relation) (t : Relations) → relation t n ≡ some q → create n r t ≡ t
create-present n r q t h = rw h refl

abbrev catalog : Catalog
catalog = record {
  T = Relations;
  relation = relation;
  create_if_not_exists = create;
  create-absent = create-absent;
  create-other = create-other;
  create-present = create-present;
}

abbrev arguments : ImmutableArguments
arguments = record {
  dsn = "dsn";
  bucket = "bucket";
  endpoint = some "http://s3";
  region = none;
  force_path_style = true;
  fragments_table = "f";
  metadata_table = "m";
  force_write = true;
}

-- The answer to the last statement is lost.
abbrev unlucky : World Relations
unlucky = world [] [] (answered ∷ answered ∷ lost ∷ [])

immutable_from_config_outcome_example :
    Post
      (Started tls catalog (λ c. c) none arguments [])
      (λ e w'. Kept tls catalog [] w'.committed)
      (immutable_from_config tls catalog (λ c. c) none arguments unlucky)
immutable_from_config_outcome_example =
    immutable_from_config_outcome tls catalog (λ c. c) none arguments unlucky

abbrev pool : PoolConfig
pool = record { url = "dsn"; max_size = 5 }

data Value : Type 0 where
  text : String → Value
  table : List (String × String) → Value

abbrev lookup : String → List (String × String) → Option Value
lookup n [] = none
lookup n ((m, v) ∷ rest) = if m == n then some (text v) else lookup n rest

abbrev get : Value → String → Option Value
get (text s) n = none
get (table fields) n = lookup n fields

abbrev as_str : Value → Option String
as_str (text s) = some s
as_str (table fields) = none

abbrev toml : Toml
toml = record { Value = Value; get = get; as_str = as_str; as_bool = λ v. none }

abbrev minimal : Value
minimal = table (("dsn", "dsn") ∷ ("s3_bucket", "bucket") ∷ [])

validate_config-create_example :
    let w = world [] [] [] in
    let config = table (("dsn", "dsn") ∷ []) in
    Refuses toml tls catalog
      (immutable_validate_config toml tls catalog config)
      w
      (immutable_create toml tls catalog (λ c. c) none config w)
    × Refuses toml tls catalog
        (mutable_validate_config toml tls catalog config)
        w
        (mutable_create toml tls catalog none config w)
    × Refuses toml tls catalog
        (lock_validate_config toml tls catalog config)
        w
        (lock_create toml tls catalog none config w)
validate_config-create_example =
    validate_config-create toml tls catalog (λ c. c) none (table (("dsn", "dsn") ∷ []))
      (world [] [] [])

create-default_schema_example :
    All
      (Holds tls catalog
        (lock_create toml tls catalog none minimal
          (mutable_create toml tls catalog none minimal
            (immutable_create toml tls catalog
              (λ c. c)
              none
              minimal
              (world [] [] [])).1).1).1.committed)
      default_schema
create-default_schema_example =
    create-default_schema toml tls catalog (λ c. c) none minimal "dsn" "bucket" pool [] []
      (
        (text "dsn", refl, refl),
        (text "bucket", refl, refl),
        (refl, (refl, (refl, (refl, (refl, (refl, (refl, (refl, tt)))))))),
      )
      refl ((refl, (refl, (refl, (refl, (refl, (refl, (refl, (refl, (refl, tt))))))))))
