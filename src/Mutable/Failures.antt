-- ===== src/Mutable/Failures.antt =====
-- The errors of the writing methods of the mutable store, whatever becomes of the requests.
use lore_stack.Common.{◌≡◌, refl, inl, inr, Option, Bytes, Bool-cases}
use lore_stack.Common.Eq.{◌==◌, nat_eq, list_eq}
use lore_stack.Sql.Table.{Table}
use lore_stack.Sql.World.{
  World, M, ok, err, pure, from_result, checkout, auto, exec, begin, commit, ◌>>◌,
}
use lore_stack.Sql.Triple.{
  Triple, Post, Triple-bind, Triple-pure, Triple-checkout, Triple-auto, Triple-exec, Triple-begin,
  Triple-commit,
}
use lore_stack.Mutable.Types.{
  Cause, pool, delete, upsert, cas_lock, cas_select, cas_write, hash_length, StoreError, internal,
  value_key_eq, Upstream,
}
use lore_stack.Mutable.Store.{decoded, or_zero, store_typed, compare_and_swap_typed}
use lore_stack.Mutable.Swap.{decoded_err}

abbrev pub IsInternal : StoreError → Type 0
IsInternal e = (cause : Cause) × (e ≡ internal cause)

module _ (T : Type 0) where
  abbrev Always : {A : Type 0} → A → World T → Type 0
  Always a w = Unit {0}

  -- Every error of the method is an internal one.
  abbrev Guarded : {A : Type 0} → M StoreError T A → Type 0
  Guarded m = Triple (λ w. Unit {0}) m Always (λ e w. IsInternal e)

  exec-Guarded : {A : Type 0} (c : Cause) (f : T → A × T) → Guarded (exec (internal c) f)
  exec-Guarded c f = Triple-exec (internal c) f (λ d t gs h. tt) (λ d t u gs h bad. (c, refl))

  auto-Guarded : {A : Type 0} (c : Cause) (f : T → A × T) → Guarded (auto (internal c) f)
  auto-Guarded c f =
      Triple-auto (internal c) f (λ d t gs h. tt) (λ d t gs h bad. ((c, refl), (c, refl)))

  checkout-Guarded : Guarded (checkout (internal pool))
  checkout-Guarded = Triple-checkout (internal pool) (λ d t gs h. tt) (λ d t gs h bad. (pool, refl))

  begin-Guarded : Guarded (begin (internal Cause.begin))
  begin-Guarded =
      Triple-begin (internal Cause.begin) (λ d t gs h. tt) (λ d t u gs h bad. (Cause.begin, refl))

  commit-Guarded : {A : Type 0} (a : A) → Guarded (do commit (internal Cause.commit); pure a)
  commit-Guarded a =
      Triple-bind {Q = Always}
        (Triple-commit (internal Cause.commit) (λ d t gs h. tt)
          (λ d t gs h bad. ((Cause.commit, refl), (Cause.commit, refl))))
        λ _. Triple-pure a (λ w h. tt)

  decoded-Guarded : (o : Option Bytes) → Guarded (from_result (decoded o))
  decoded-Guarded o = record { at = λ w h. go (decoded o) w refl }
    where
      go : (r : _) (w : World T) → decoded o ≡ r → Post Always (λ e v. IsInternal e) (r, w)
      go (ok x) w q = tt
      go (err e) w q = let (n, p) = decoded_err o e q in (hash_length n, p)

module _ (up : Upstream) (values : Table value_key_eq Bytes) (repository key : Bytes) where
  open up use {is_zero}
  open values use {T, find}

  pub store-Guarded : (v : Bytes) → Guarded T (store_typed up values repository key v)
  unfolding store_typed
  store-Guarded v = Triple-bind {Q = Always T} (checkout-Guarded T) λ _.
      elim (Bool-cases (is_zero v)) [
        | inl e ↦ rw e (Triple-bind (auto-Guarded T delete _) λ _. Triple-pure tt (λ w h. tt))
        | inr e ↦ rw e (Triple-bind (auto-Guarded T upsert _) λ _. Triple-pure tt (λ w h. tt))
      ]

  pub swap-Guarded :
      (expected v : Bytes) → Guarded T (compare_and_swap_typed up values repository key expected v)
  unfolding compare_and_swap_typed
  swap-Guarded expected v = Triple-bind {Q = Always T} (checkout-Guarded T) λ _.
      Triple-bind {Q = Always T} (begin-Guarded T) λ _.
        Triple-bind {Q = Always T} (exec-Guarded T cas_lock _) λ _.
          Triple-bind {Q = Always T} (exec-Guarded T cas_select _) λ row.
            Triple-bind {Q = Always T} (decoded-Guarded T row) λ found.
              elim (Bool-cases (or_zero up found == expected)) [
                | inl e ↦ rw e (
                    Triple-bind {Q = Always T} (exec-Guarded T cas_write _)
                      λ _. commit-Guarded T (or_zero up found))
                | inr e ↦ rw e (commit-Guarded T (or_zero up found))
              ]
