-- ===== src/Tls/Pool.antt =====
-- What make_pool of lore-pg/src/tls.rs builds.
use lore_stack.Common.{
  ℕ, String, ◌≡◌, ◌≢◌, ◌<◌, ◌^◌, refl, true, Option, none, some, List, [], ◌∷◌, Bytes, All, arith,
  ltb, if◌then◌else◌, Bool-cases, inl, inr, subst,
}
use lore_stack.Common.Decimal.{decimal, parse_usize, parse_usize_bound, parse_usize-decimal}
use lore_stack.Sql.World.{Result, ok, err}
use lore_stack.Tls.{
  Tls, StartError, default_pool_max_size, positive, unwrap_or, and_then, max_size_of, require,
  chain, add_all, connector_over, make_connector, make_pool,
}

positive-bounds :
    (o : Option ℕ)
    → ((n : ℕ) → o ≡ some n → n < 2 ^ 64)
    → (0 < unwrap_or default_pool_max_size (and_then positive o))
      × (unwrap_or default_pool_max_size (and_then positive o) < 2 ^ 64)
positive-bounds none h = (omega arith, omega arith)
positive-bounds (some n) h = elim (Bool-cases (ltb 0 n)) [
  | inl y ↦ rw y (ground arith, h n refl)
  | inr z ↦ rw z (omega arith, omega arith)
]

max_size_of_bounds : (env : Option Bytes) → (0 < max_size_of env) × (max_size_of env < 2 ^ 64)
max_size_of_bounds none = (omega arith, omega arith)
max_size_of_bounds (some v) = positive-bounds (parse_usize v) (parse_usize_bound v)

-- A number below 2^64 in decimal in LORE_PG_POOL_MAX_SIZE is the size of the pool, unless it is
-- zero, for which the default is.
pub max_size_of-decimal :
    (n : ℕ)
    → n < 2 ^ 64
    → max_size_of (some (decimal n)) ≡ (if ltb 0 n then n else default_pool_max_size)
max_size_of-decimal n fits = rw (parse_usize-decimal n fits) (ground arith)

module _ (tls : Tls) where
  require-some :
      {A : Type 0} (e : StartError) (o : Option A) (a : A) → require tls e o ≡ ok a → o ≡ some a
  require-some e none a h = absurd cc
  require-some e (some b) a h = cc

  chain-ok :
      {A B : Type 0} (r : Result StartError A) (f : A → Result StartError B) (b : B)
      → chain tls r f ≡ ok b
      → (a : A) × (r ≡ ok a) × (f a ≡ ok b)
  chain-ok (ok a) f b h = (a, refl, h)
  chain-ok (err e) f b h = absurd cc

  -- The store that is left trusts what it did and what was added.
  add_all-trusts :
      (cs : List tls.Cert) (from to : tls.RootCertStore)
      → add_all tls cs from ≡ ok to
      → ((d : tls.Cert) → tls.trusts from d ≡ true → tls.trusts to d ≡ true)
        × All (λ c. tls.trusts to c ≡ true) cs
  add_all-trusts [] from to h =
      let same : from ≡ to = cc in (λ d t. subst (λ r. tls.trusts r d ≡ true) same t, tt)
  add_all-trusts (c ∷ cs) from to h =
      let (next, added, rest) =
        chain-ok (require tls StartError.bad_certificate (tls.add c from)) (add_all tls cs) to h in
      let a = require-some StartError.bad_certificate (tls.add c from) next added in
      let (kept, all) = add_all-trusts cs next to rest in
      (
        λ d t. kept d (tls.add-keeps c d from next a t),
        (kept c (tls.add-trusts c from next a), all),
      )

  connector_over-trusts :
      (cs : List tls.Cert) (c : tls.Connector)
      → connector_over tls cs ≡ ok c
      → (cs ≢ [])
        × ((roots : tls.RootCertStore) × (tls.client_config roots ≡ some c)
            × All (λ d. tls.trusts roots d ≡ true) cs)
  connector_over-trusts [] c h = absurd cc
  connector_over-trusts (d ∷ ds) c h =
      let (roots, added, made) = chain-ok (add_all tls (d ∷ ds) tls.empty) _ c h in
      (
        λ e. cc,
        (
          roots,
          require-some StartError.protocol_versions (tls.client_config roots) c made,
          (add_all-trusts (d ∷ ds) tls.empty roots added).1,
        ),
      )

  -- A success of `make_pool` has found a native root certificate, and its pool connects to the
  -- DSN, with a size between 1 and 2^64 - 1, by a connector that trusts every native root.
  pub make_pool-trusts :
      (env : Option Bytes) (dsn : String) (pool : tls.Pool)
      → make_pool tls env dsn ≡ ok pool
      → (tls.native_certs ≢ [])
        × ((roots : tls.RootCertStore) × (c : tls.Connector) × (n : ℕ) × All
              (λ d. tls.trusts roots d ≡ true)
              tls.native_certs
            × (tls.client_config roots ≡ some c)
            × (tls.pool (record { url = dsn; max_size = n }) c ≡ some pool)
            × (0 < n)
            × (n < 2 ^ 64))
  make_pool-trusts env dsn pool h =
      let (c, made, pooled) = chain-ok (make_connector tls) _ pool h in
      let (some_cert, (roots, config, trusted)) = connector_over-trusts tls.native_certs c made in
      (
        some_cert,
        (
          roots,
          c,
          max_size_of env,
          trusted,
          config,
          require-some StartError.create_pool _ pool pooled,
          (max_size_of_bounds env).0,
          (max_size_of_bounds env).1,
        ),
      )
