-- ===== src/Mutable/Loads.antt =====
-- What `load` answers, whatever becomes of the requests.
use lore_stack.Common.{
  ◌≡◌, ◌≢◌, refl, ap, sym, ◌∙◌, ◌⊎◌, inl, inr, true, false, Option, none, some, [], Bytes,
  Bool-cases,
}
use lore_stack.Sql.Table.{Table}
use lore_stack.Sql.World.{World, from_result, first_fate, rest_fates}
use lore_stack.Sql.Triple.{
  Triple, Post, world, Triple-bind, Triple-checkout, Triple-auto, Triple-assume,
}
use lore_stack.Mutable.Types.{
  pool, select, StoreError, address_not_found, internal, ValueKey, value_key_eq, Upstream,
}
use lore_stack.Mutable.Store.{decoded, found_or_missing, or_zero, at, fetch_current, load_typed}
use lore_stack.Mutable.Register.{register, IsWellFormed, decoded_total}
use lore_stack.Mutable.Failures.{IsInternal}

module _ (up : Upstream) (values : Table value_key_eq Bytes) (repository key : Bytes) where
  open up use {is_zero, zero_hash, is_zero_iff}
  open values use {T, find}

  abbrev k : ValueKey
  k = at up values repository key

  module _ (before : World T) where
    abbrev held : Bytes
    held = register up values before.committed k

    abbrev Same : World T → Type 0
    Same w = w.committed ≡ before.committed

    abbrev pub Loaded : Bytes → World T → Type 0
    Loaded v w = (v ≡ held) × (is_zero held ≡ false) × (w.committed ≡ before.committed)

    abbrev Broken : StoreError → World T → Type 0
    Broken e w = IsInternal e × (before.fates ≢ []) × (w.committed ≡ before.committed)

    abbrev pub NotLoaded : StoreError → World T → Type 0
    NotLoaded e w =
        (((e ≡ address_not_found key) × (is_zero held ≡ true))
          ⊎ (IsInternal e × (before.fates ≢ [])))
        × (w.committed ≡ before.committed)

    module _ (wf : IsWellFormed up values before.committed) where
      fetched :
          Triple
            (λ w. w ≡ before)
            (fetch_current up values repository key)
            (λ found w. (found ≡ find before.committed k) × Same w)
            NotLoaded
      unfolding fetch_current
      fetched =
          Triple-bind {Q = λ _ w. Same w × (before.fates ≡ [] → w.fates ≡ [])}
            (Triple-checkout (internal pool)
              (λ c t gs h.
                (ap (λ w. w.committed) h, λ e. ap (λ w. rest_fates w.fates) h ∙ ap rest_fates e))
              (λ c t gs h bad. (
                inr ((pool, refl), λ e. bad (ap (λ w. first_fate w.fates) h ∙ ap first_fate e)),
                ap (λ w. w.committed) h,
              )))
            λ _.
              Triple-bind {Q = λ row w. (row ≡ find before.committed k) × Same w}
                (Triple-auto (internal select) _ (λ c t gs h. (ap (λ x. find x k) h.0, h.0))
                  (λ c t gs h bad.
                    let failed : NotLoaded (internal select) (world c t (rest_fates gs)) =
                      (inr ((select, refl), λ e. bad (ap first_fate (h.1 e))), h.0) in
                    (failed, failed)))
                λ row. record {
                  at = λ w h.
                      rw
                        (ap decoded h.0
                          ∙ decoded_total up values repository key before.committed wf)
                        (refl, h.1);
                }

      answered :
          (o : Option Bytes)
          → o ≡ find before.committed k
          → Triple Same (from_result (found_or_missing up key o)) Loaded NotLoaded
      answered none e = record {
        at = λ w h.
            (inl (refl, ap is_zero (ap (or_zero up) (sym e)) ∙ (is_zero_iff zero_hash).1 refl), h);
      }
      answered (some v) e =
          let same : v ≡ held = ap (or_zero up) e in
          elim (Bool-cases (is_zero v)) [
            | inl y ↦ record { at = λ w h. rw y (inl (refl, ap is_zero (sym same) ∙ y), h) }
            | inr n ↦ record { at = λ w h. rw n (same, ap is_zero (sym same) ∙ n, h) }
          ]

      -- Whatever becomes of the requests, where the rows are well-formed: `load` writes nothing;
      -- a success returns what the register holds, which is not zero; an error is not-found for
      -- the key, and the register reads zero, or it is internal, and a request has failed.
      pub load_typed_outcome : Post Loaded NotLoaded (load_typed up values repository key before)
      unfolding load_typed
      load_typed_outcome =
          let proof : Triple (λ w. w ≡ before) (load_typed up values repository key) Loaded
              NotLoaded =
            Triple-bind fetched λ o.
              Triple-assume (o ≡ find before.committed k) (λ w h. h.0)
                λ e. record { at = λ w h. (answered o e).at w h.1 } in
          proof.at before refl
