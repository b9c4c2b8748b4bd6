-- ===== src/Immutable/Durable/Matches.antt =====
-- How `put` of lore-pg/src/store/pg_immutable_store.rs decides what to write.
use lore_stack.Common.{
  ◌≡◌, refl, ◌⊎◌, inl, inr, Bool, true, false, not, ◌&&◌, Option, some, none, Bytes, if◌then◌else◌,
}
use lore_stack.Common.Eq.{◌==◌, nat_eq, list_eq}
use lore_stack.Sql.World.{Result, ok, err, World, pure, raise, ◌>>=◌}
use lore_stack.Sql.Triple.{Triple, Post, Triple-bind, Triple-pure, Triple-raise, Triple-weaken}
use lore_stack.Immutable.Types.{
  Cause, Address, StoreError, Fragment, StoreMatch, StoreMatchResult, match_none, match_full,
  Upstream, Backend, Stored, internal,
}
use lore_stack.Immutable.Index.{
  Store, association, resolve, fetch_metadata, is_obliteration, full_match, on_associations,
}
use lore_stack.Immutable.Store.{attempt, match_for, compared, has_bits, is_none}
use lore_stack.Immutable.Keeps.{Keeps-checkout, Keeps-auto}
use lore_stack.Immutable.Requests.{Keeps-fetch}

module _ (b : Backend) (up : Upstream) where
  -- What a match of `resolve` can be.
  abbrev pub Usual : StoreMatch → Type 0
  Usual m = (m ≡ match_none) ⊎ (m ≡ match_full)

  module _ (P : Stored b → Type 0) where
    abbrev pub Resolved : StoreMatchResult → World (Stored b) → Type 0
    Resolved q w = P w.committed × Usual q.match_made

    abbrev pub Same : StoreError → World (Stored b) → Type 0
    Same e w = P w.committed

    pub resolve-Usual :
        (partition : Bytes) (address : Address)
        → Triple (λ w. P w.committed) (resolve b up partition address) Resolved Same
    unfolding resolve
    resolve-Usual partition address = Triple-bind (Keeps-checkout b P (internal Cause.pool)) (λ u.
        Triple-bind
          (Keeps-auto b P (internal Cause.resolve_association)
            (on_associations b
              (λ t. (b.fragments.find t (association (up.context_of partition) address), t)))
            (λ s h. h))
          go)
      where
        none_made : Triple (λ w. P w.committed) (pure up.no_match) Resolved Same
        none_made = Triple-pure up.no_match (λ w h. (h, inl up.match_made-no_match))

        either :
            (x : Bool)
            → Triple
                (λ w. P w.committed)
                (if x then pure up.no_match else pure (full_match b up partition address))
                Resolved
                Same
        either true = none_made
        either false = Triple-pure (full_match b up partition address) (λ w h. (h, inr refl))

        go :
            (row : Option (Unit {0}))
            → Triple
                (λ w. P w.committed)
                (elim row [
                  | none ↦ pure up.no_match
                  | some u ↦ do
                    fragment ← fetch_metadata b up address.hash
                    if is_obliteration b up fragment
                        then pure up.no_match
                        else pure (full_match b up partition address)
                ])
                Resolved
                Same
        go none = none_made
        go (some u) =
            Triple-bind (Keeps-fetch b up false P address.hash)
              (λ f. either (is_obliteration b up f))

    abbrev pub Matched : StoreMatch → World (Stored b) → Type 0
    Matched m w = P w.committed × Usual m

    -- What the attempt to resolve leaves to `match_for`.
    abbrev pub Attempted : Result StoreError StoreMatchResult → World (Stored b) → Type 0
    Attempted (ok q) w = Resolved q w
    Attempted (err e) w = P w.committed

    attempted :
        (o : Result StoreError StoreMatchResult × World (Stored b))
        → Post Resolved Same o
        → Attempted o.0 o.1
    attempted (ok q, w) h = h
    attempted (err e, w) h = h

    pub attempt-Usual :
        (partition : Bytes) (address : Address)
        → Triple (λ w. P w.committed) (attempt b up (resolve b up partition address)) Attempted Same
    attempt-Usual partition address = record {
      at = λ w h.
          attempted (resolve b up partition address w) ((resolve-Usual partition address).at w h);
    }

    pub match_for-Usual :
        (force_write : Bool) (address : Address) (f : Fragment)
        (r : Result StoreError StoreMatchResult)
        → Triple (Attempted r) (match_for b up force_write address f r) Matched Same
    unfolding match_for compared
    match_for-Usual force_write address f (err e) = Triple-pure match_none (λ w h. (h, inl refl))
    match_for-Usual true address f (ok q) = Triple-pure match_none (λ w h. (h.0, inl refl))
    match_for-Usual false address f (ok q) = go (is_none b up false q.match_made)
      where
        collided :
            (x : Bool)
            → Triple
                (λ w. P w.committed × Usual q.match_made)
                (if x then raise (internal Cause.hash_collision) else pure q.match_made)
                Matched
                Same
        collided true = Triple-raise (internal Cause.hash_collision) (λ w h. h.0)
        collided false = Triple-pure q.match_made (λ w h. h)

        checked :
            (x : Bool) {m : Store b StoreMatch}
            → Triple (λ w. P w.committed × Usual q.match_made) m Matched Same
            → Triple
                (λ w. P w.committed × Usual q.match_made)
                (if x then raise (internal Cause.obliterating) else m)
                Matched
                Same
        checked true t = Triple-raise (internal Cause.obliterating) (λ w h. h.0)
        checked false t = t

        go :
            (x : Bool)
            → Triple
                (Attempted (ok q))
                (if x then pure q.match_made else (do
                  stored ← fetch_metadata b up address.hash
                  compared b up false f q.match_made stored))
                Matched
                Same
        go true = Triple-pure q.match_made (λ w h. h)
        go false =
            Triple-bind
              (Triple-weaken (λ w h. h) (λ a w h. h) (λ e w h. h.0)
                (Keeps-fetch b up false (λ s. P s × Usual q.match_made) address.hash))
              (λ stored. checked (has_bits b up false stored.flags up.payload_obliterating) (
                collided (
                  not (f.size_content == stored.size_content)
                  && not (has_bits b up false stored.flags up.payload_obliterated))))
