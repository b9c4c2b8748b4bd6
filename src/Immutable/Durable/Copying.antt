-- ===== src/Immutable/Durable/Copying.antt =====
-- `copy` of lore-pg/src/store/pg_immutable_store.rs: a new association of a hash that has one.
use mathlib.Core.List.{Mem, mem-cons_self}
use lore_stack.Common.{
  ◌≡◌, subst, Bool, true, false, not, ◌&&◌, some, List, [], ◌∷◌, Bytes, arith, if◌then◌else◌,
}
use lore_stack.Common.Eq.{◌==◌, nat_eq, list_eq, list_beq_iff}
use lore_stack.Sql.World.{World, raise, auto, checkout, ◌>>◌}
use lore_stack.Sql.Triple.{Triple, Triple-bind, Triple-raise, Triple-auto, Triple-weaken}
use lore_stack.Immutable.Types.{
  Cause, Address, StoreError, address_not_found, Association, Upstream, Backend, Stored, internal,
}
use lore_stack.Immutable.Index.{
  association, select_one, is_empty, on_associations, check_exact, check_repository,
  associate_fragment, insert_association,
}
use lore_stack.Immutable.Store.{copy}
use lore_stack.Immutable.Keeps.{Keeps, Keeps-checkout, Keeps-auto, Keeps-pure}
use lore_stack.Immutable.Durable.{HasRow, HasObject, IsDurable, associated-IsDurable}

module _ (b : Backend) (up : Upstream) where
  -- A row that the query finds.
  selected :
      (p : Association → Bool) (t : b.fragments.T)
      → select_one b p t ≡ true
      → (j : Association) × (b.fragments.find t j ≡ some tt) × (p j ≡ true)
  selected p t h =
      first (b.fragments.select (λ k u. p k) t) h (λ k u m. (b.fragments.mem-select _ t k u).0 m)
    where
      first :
          (xs : List (Association × Unit {0}))
          → not (is_empty xs) ≡ true
          → ((k : Association) (u : Unit {0})
              → Mem (k, u) xs
              → (b.fragments.find t k ≡ some u) × (p k ≡ true))
          → (j : Association) × (b.fragments.find t j ≡ some tt) × (p j ≡ true)
      first [] e all = cc
      first (x ∷ xs) e all = let (found, y) = all x.0 x.1 mem-cons_self in (x.0, found, y)

  abbrev Backed : Bytes → Stored b → Type 0
  Backed hash s = IsDurable b up s × HasRow b up hash s × HasObject b up hash s

  abbrev Found : Bytes → Bool → World (Stored b) → Type 0
  Found hash x w = IsDurable b up w.committed × (x ≡ true → Backed hash w.committed)

  abbrev Kept : StoreError → World (Stored b) → Type 0
  Kept e w = IsDurable b up w.committed

  found :
      (hash : Bytes) (cause : Cause) (p : Association → Bool)
      → ((j : Association) → p j ≡ true → j.hash ≡ hash)
      → Triple
          (λ w. IsDurable b up w.committed)
          (do
            checkout (internal Cause.pool)
            auto (internal cause) (on_associations b (λ t. (select_one b p t, t))))
          (Found hash)
          Kept
  found hash cause p same =
      Triple-bind (Keeps-checkout b (IsDurable b up) (internal Cause.pool)) (λ u.
        Triple-auto (internal cause) (on_associations b (λ t. (select_one b p t, t)))
          (λ c t fs d. (
            d,
            λ e.
                let (j, here, y) = selected p c.associations e in
                let both =
                  subst (λ h. HasRow b up h c × HasObject b up h c) (same j y) (d j here) in
                (d, both.0, both.1),
          ))
          (λ c t fs d bad. (d, d)))

  associate-Keeps :
      (repository : Bytes) (address : Address)
      → Triple
          (λ w. Backed address.hash w.committed)
          (associate_fragment b repository address)
          (λ u w. IsDurable b up w.committed)
          Kept
  unfolding associate_fragment
  associate-Keeps repository address =
      let k = association repository address in
      Triple-weaken (λ w h. h) (λ a w h. h.0) (λ e w h. h.0)
        (Triple-bind (Keeps-checkout b (Backed address.hash) (internal Cause.pool)) (λ u.
          Triple-bind
            (Keeps-auto b (Backed address.hash) (internal Cause.associate)
              (insert_association b repository address)
              (λ s h. (associated-IsDurable b up k s h.0 h.1 h.2, h.1, h.2)))
            (λ n. Keeps-pure b (Backed address.hash) tt)))

  source :
      (partition : Bytes) (address : Address) (x : Bool)
      → Triple
          (λ w. IsDurable b up w.committed)
          (if x
            then check_repository b address.hash (up.context_of partition)
            else check_exact b address.hash (up.context_of partition) address.context)
          (Found address.hash)
          Kept
  unfolding check_repository check_exact
  source partition address true =
      found address.hash Cause.exists_repository
        (λ k. k.hash == address.hash && k.repository == up.context_of partition)
        (λ j h. ground (arith, list_beq_iff ⦃e = nat_eq⦄ j.hash address.hash))
  source partition address false =
      found address.hash Cause.exists_exact
        (λ k.
          k.hash == address.hash
          && (k.repository == up.context_of partition && k.context == address.context))
        (λ j h. ground (arith, list_beq_iff ⦃e = nat_eq⦄ j.hash address.hash))

  pub copy-Keeps :
      (source_partition : Bytes) (address : Address) (partition context : Bytes)
      → Keeps b (IsDurable b up) (copy b up source_partition address partition context)
  unfolding copy
  copy-Keeps source_partition address partition context =
      Triple-bind (source source_partition address (up.is_zero address.context)) go
    where
      go :
          (x : Bool)
          → Triple
              (Found address.hash x)
              (if x
                then associate_fragment b
                    (up.context_of partition)
                    (record { hash = address.hash; context = context })
                else raise (address_not_found address))
              (λ u w. IsDurable b up w.committed)
              Kept
      go true =
          Triple-weaken (λ w h. h.1 (λ i. true)) (λ a w h. h) (λ e w h. h)
            (associate-Keeps (up.context_of partition)
              (record { hash = address.hash; context = context }))
      go false = Triple-raise (address_not_found address) (λ w h. h.0)
