-- ===== src/Mutable/Register.antt =====
-- The mutable store as a register for each key, which reads zero where there is no row.
use lore_stack.Common.{
  ◌≡◌, ◌≢◌, refl, ap, sym, subst, ℕ, ◌∙◌, ◌⊎◌, inl, inr, true, Option, none, some, [], Bytes, arith,
  length, Bool-cases, Option-cases, if◌then◌else◌,
}
use lore_stack.Common.Eq.{nat_eq}
use lore_stack.Sql.Laws.{
  key-cases, find-upsert_self, find-upsert_ne, find-delete_if_self, find-delete_if_ne,
  find-delete_if_some,
}
use lore_stack.Sql.Table.{Table}
use lore_stack.Sql.World.{World, ok, first_fate, rest_fates, checkout, auto, pure, ◌>>◌}
use lore_stack.Sql.Triple.{
  Triple, Post, world, Triple-bind, Triple-auto, Triple-pure, Triple-checkout,
}
use lore_stack.Mutable.Types.{
  Cause, pool, delete, upsert, StoreError, internal, ValueKey, value_key_eq, Upstream,
}
use lore_stack.Mutable.Store.{decoded, found_or_missing, or_zero, at, load_typed, store_typed}

module _ (up : Upstream) (values : Table value_key_eq Bytes) where
  open up use {KeyType, zero_hash, is_zero}
  open values use {T, find}

  abbrev pub register : T → ValueKey → Bytes
  register t k = or_zero up (find t k)

  -- Every stored value has the length of a hash.
  abbrev pub IsWellFormed : T → Type 0
  IsWellFormed t = (k : ValueKey) (v : Bytes) → find t k ≡ some v → length v ≡ 32

  -- `u` is `t` with the key's row set to `row`.
  pub record Sets (k : ValueKey) (row : Option Bytes) (t u : T) : Type 0 where
    pub self : find u k ≡ row
    pub others : (j : ValueKey) → k ≢ j → find u j ≡ find t j

  pub upsert-Sets : (k : ValueKey) (v : Bytes) (t : T) → Sets k (some v) t (values.upsert k v t).1
  upsert-Sets k v t = record {
    self = find-upsert_self values k v t;
    others = λ j n. find-upsert_ne values k j v t n;
  }

  pub delete-Sets : (k : ValueKey) (t : T) → Sets k none t (values.delete_if k (λ row. true) t).1
  delete-Sets k t = record {
    self = elim (Option-cases (find t k)) [
      | inl e ↦ gone e
      | inr (v, e) ↦ find-delete_if_self values k (λ row. true) t (rw e)
    ];
    others = λ j n. find-delete_if_ne values k j (λ row. true) t n;
  }
    where
      gone : find t k ≡ none → find (values.delete_if k (λ row. true) t).1 k ≡ none
      gone e = elim (Option-cases (find (values.delete_if k (λ row. true) t).1 k)) [
        | inl e' ↦ e'
        | inr (v, e') ↦ cc (find-delete_if_some values k k (λ row. true) v t e', e)
      ]

  pub Sets-IsWellFormed :
      (k : ValueKey) (row : Option Bytes) (t u : T)
      → Sets k row t u
      → ((v : Bytes) → row ≡ some v → length v ≡ 32)
      → IsWellFormed t
      → IsWellFormed u
  Sets-IsWellFormed k row t u s good wf j v h = elim (key-cases value_key_eq k j) [
    | inl e ↦ good v (sym s.self ∙ ap (find u) e ∙ h)
    | inr n ↦ wf j v (sym (s.others j n) ∙ h)
  ]

  abbrev pub slot : Bytes → Option Bytes
  slot v = if is_zero v then none else some v

  module _ (repository key : Bytes) where
    abbrev pub k : ValueKey
    k = at up values repository key

    pub decoded_total : (t : T) → IsWellFormed t → decoded (find t k) ≡ ok (find t k)
    unfolding decoded
    decoded_total t wf = elim (Option-cases (find t k)) [
      | inl e ↦ rw e
      | inr (v, e) ↦ let n = wf k v e in rw e (ground arith)
    ]

    -- While all requests are answered and the rows are well-formed, `load` writes nothing and
    -- returns the row of the key, with not-found for a missing row and for zero.
    pub load_typed-calm :
        (c t : T)
        → IsWellFormed c
        → load_typed up values repository key (world c t [])
          ≡ (found_or_missing up key (find c k), world c t [])
    unfolding load_typed checkout auto
    load_typed-calm c t wf = rw (decoded_total c wf)

    Changed : Bytes → World T → Unit {0} → World T → Type 0
    Changed value before _ w = Sets k (slot value) before.committed w.committed

    Unsure : Bytes → World T → StoreError → World T → Type 0
    Unsure value before e w =
        ((w.committed ≡ before.committed) ⊎ Sets k (slot value) before.committed w.committed)
        × (before.fates ≢ [])

    -- One statement outside a transaction that sets the row.
    written :
        (value : Bytes) (before : World T) (cause : Cause) (f : T → ℕ × T)
        → Sets k (slot value) before.committed (f before.committed).1
        → Triple
            (λ w. (w.committed ≡ before.committed) × (before.fates ≡ [] → w.fates ≡ []))
            (do auto (internal cause) f; pure tt)
            (Changed value before)
            (Unsure value before)
    unfolding Changed Unsure
    written value before cause f s =
        let set = λ (c : T) (e : c ≡ before.committed).
          subst (λ x. Sets k (slot value) before.committed (f x).1) (sym e) s in
        Triple-bind {Q = λ _ w. Sets k (slot value) before.committed w.committed}
          (Triple-auto (internal cause) f (λ c t gs h. set c h.0)
            (λ c t gs h bad.
              let sure = λ (e : before.fates ≡ []). bad (ap first_fate (h.1 e)) in
              ((inl h.0, sure), (inr (set c h.0), sure))))
          λ n. Triple-pure tt (λ w h. h)

    statement :
        (value : Bytes) (before : World T)
        → Triple
            (λ w. (w.committed ≡ before.committed) × (before.fates ≡ [] → w.fates ≡ []))
            (if is_zero value
              then (do auto (internal delete) (values.delete_if k (λ row. true)); pure tt)
              else (do auto (internal upsert) (values.upsert k value); pure tt))
            (Changed value before)
            (Unsure value before)
    statement value before = elim (Bool-cases (is_zero value)) [
      | inl e ↦ rw e (
          written value before delete (values.delete_if k (λ row. true))
            (rw e (delete-Sets k before.committed)))
      | inr e ↦ rw e (
          written value before upsert (values.upsert k value)
            (rw e (upsert-Sets k value before.committed)))
    ]

    outcome :
        (value : Bytes) (before : World T)
        → Post
            (Changed value before)
            (Unsure value before)
            (store_typed up values repository key value before)
    unfolding store_typed Unsure
    outcome value before =
        let proof : Triple (λ w. w ≡ before) (store_typed up values repository key value)
            (Changed value before) (Unsure value before) =
          Triple-bind
            (Triple-checkout (internal pool)
              (λ c t gs h.
                (ap (λ w. w.committed) h, λ e. ap (λ w. rest_fates w.fates) h ∙ ap rest_fates e))
              (λ c t gs h bad. (
                inl (ap (λ w. w.committed) h),
                λ e. bad (ap (λ w. first_fate w.fates) h ∙ ap first_fate e),
              )))
            λ _. statement value before in
        proof.at before refl

    -- Whatever becomes of the requests: a success of `store` has set the register, for zero by
    -- deleting the row; an error did so or changed nothing, and there is none while all requests
    -- are answered.
    pub store_typed_outcome :
        (value : Bytes) (before : World T)
        → Post
            (λ _ w. Sets k (slot value) before.committed w.committed)
            (λ e w.
              ((w.committed ≡ before.committed) ⊎ Sets k (slot value) before.committed w.committed)
              × (before.fates ≢ []))
            (store_typed up values repository key value before)
    unfolding Changed Unsure
    store_typed_outcome value before = outcome value before
