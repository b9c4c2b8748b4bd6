-- ===== src/Tls.antt =====
-- lore-pg/src/tls.rs: the TLS connector and the size-capped pool of every store.
pub mod Pool
use lore_stack.Common.{
  ℕ, String, ◌≡◌, ◌≢◌, ◌<◌, ◌≤◌, ◌^◌, refl, Bool, true, false, Option, none, some, List, [], ◌∷◌,
  Bytes, arith, ltb, if◌then◌else◌, Option-cases, Bool-cases,
}
use lore_stack.Common.Decimal.{decimal, parse_usize, parse_usize_bound, parse_usize-decimal}
use lore_stack.Sql.World.{Result, ok, err}

pub data StartError : Type 0 where
  no_native_roots bad_certificate protocol_versions create_pool pool_checkout schema : StartError

pub record PoolConfig : Type 0 where
  pub url : String
  pub max_size : ℕ

-- What rustls and deadpool_postgres provide: the platform's certificates, the store of roots,
-- the client configuration over it, and the pool.
pub record Tls : Type 1 where
  pub Cert : Type 0
  pub RootCertStore : Type 0
  pub Connector : Type 0
  pub Pool : Type 0
  pub native_certs : List Cert
  pub empty : RootCertStore
  pub add : Cert → RootCertStore → Option RootCertStore
  -- a certificate that the store's holder trusts
  pub trusts : RootCertStore → Cert → Bool
  pub add-trusts : (c : Cert) (from to : RootCertStore) → add c from ≡ some to → trusts to c ≡ true
  pub add-keeps :
      (c d : Cert) (from to : RootCertStore)
      → add c from ≡ some to
      → trusts from d ≡ true
      → trusts to d ≡ true
  pub client_config : RootCertStore → Option Connector
  pub pool : PoolConfig → Connector → Option Pool

abbrev pub default_pool_max_size : ℕ
default_pool_max_size = 5

abbrev pub positive : ℕ → Option ℕ
positive n = if ltb 0 n then some n else none

abbrev pub unwrap_or : ℕ → Option ℕ → ℕ
unwrap_or d none = d
unwrap_or d (some n) = n

abbrev pub and_then : {A B : Type 0} → (A → Option B) → Option A → Option B
and_then f none = none
and_then f (some a) = f a

-- The environment's LORE_PG_POOL_MAX_SIZE, when it is a positive number.
abbrev pub max_size_of : Option Bytes → ℕ
max_size_of env = unwrap_or default_pool_max_size (and_then positive (and_then parse_usize env))

module _ (tls : Tls) where
  abbrev pub require : {A : Type 0} → StartError → Option A → Result StartError A
  require e none = err e
  require e (some a) = ok a

  abbrev pub chain :
      {A B : Type 0} → Result StartError A → (A → Result StartError B) → Result StartError B
  chain (ok a) f = f a
  chain (err e) f = err e

  abbrev pub add_all : List tls.Cert → tls.RootCertStore → Result StartError tls.RootCertStore
  add_all [] roots = ok roots
  add_all (c ∷ cs) roots = chain (require StartError.bad_certificate (tls.add c roots)) (add_all cs)

  abbrev pub connector_over : List tls.Cert → Result StartError tls.Connector
  connector_over [] = err StartError.no_native_roots
  connector_over (c ∷ cs) =
      chain (add_all (c ∷ cs) tls.empty)
        (λ roots. require StartError.protocol_versions (tls.client_config roots))

  abbrev pub make_connector : Result StartError tls.Connector
  make_connector = connector_over tls.native_certs

  abbrev pub make_pool : Option Bytes → String → Result StartError tls.Pool
  make_pool env dsn = chain make_connector (λ connector.
      require StartError.create_pool
        (tls.pool (record { url = dsn; max_size = max_size_of env }) connector))
