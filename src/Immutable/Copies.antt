-- ===== src/Immutable/Copies.antt =====
-- What `copy` makes readable, while every request is answered.
use lore_stack.Common.{◌≡◌, refl, ap, Bool, true, false, none, some, Bytes, length, arith, []}
use lore_stack.Sql.Laws.{beq_self}
use lore_stack.Sql.World.{ok, err, checkout, auto}
use lore_stack.Sql.Triple.{world}
use lore_stack.Immutable.Types.{
  Address, address_not_found, Fragment, Upstream, Backend, Stored, association_eq,
}
use lore_stack.Immutable.Index.{association, is_obliteration, check_exact, associate_fragment}
use lore_stack.Immutable.Store.{copy, get}
use lore_stack.Immutable.Fragments.{InRange}
use lore_stack.Immutable.Writes.{entry}
use lore_stack.Immutable.Reads.{Holds, get-held, whole, selected-some, selected-nil}

module _ (b : Backend) (up : Upstream) where
  abbrev moved : Address → Bytes → Address
  moved source context = record { hash = source.hash; context = context }

  -- One more association, and nothing else.
  abbrev pub associated_with : Bytes → Address → Stored b → Stored b
  associated_with partition address s = record s {
    associations =
        (b.fragments.insert_new (association (up.context_of partition) address) tt
          s.associations).1;
  }

  copy-held :
      (source_partition : Bytes) (source : Address) (partition context : Bytes) (s t : Stored b)
      → up.is_zero source.context ≡ false
      → entry b up source_partition source s ≡ some tt
      → copy b up source_partition source partition context (world s t [])
        ≡ (ok tt, world (associated_with partition (moved source context) s) t [])
  unfolding copy check_exact associate_fragment checkout auto
  copy-held source_partition source partition context s t nonzero h =
      rw (nonzero, selected-some b up source_partition source s h) refl

  -- While all requests are answered: a `copy` of an address with a context that is not zero,
  -- which the source partition does not hold, is address-not-found and writes nothing.
  pub copy-unassociated :
      (source_partition : Bytes) (source : Address) (partition context : Bytes) (s t : Stored b)
      → up.is_zero source.context ≡ false
      → entry b up source_partition source s ≡ none
      → copy b up source_partition source partition context (world s t [])
        ≡ (err (address_not_found source), world s t [])
  unfolding copy check_exact checkout auto
  copy-unassociated source_partition source partition context s t nonzero h =
      rw (nonzero, selected-nil b up source_partition source s h) refl

  entry-associated_with :
      (partition : Bytes) (address : Address) (s : Stored b)
      → entry b up partition address (associated_with partition address s) ≡ some tt
  entry-associated_with partition address s =
      let k = association (up.context_of partition) address in
      ground (arith, b.fragments.find-insert_new k k tt s.associations, beq_self association_eq k)

  -- While all requests are answered: after a `copy` of what the source partition holds under an
  -- address whose context is not zero, valid and not marked as obliterated, `get` in the
  -- destination partition returns the fragment and the payload under the new context.
  pub get-copy :
      (force_write : Bool) (source_partition : Bytes) (source : Address)
      (partition context payload : Bytes) (f : Fragment) (s t : Stored b)
      → up.is_zero source.context ≡ false
      → InRange f
      → up.validate_fragment_size f ≡ true
      → up.validate_fragment_payload f (length payload) ≡ true
      → is_obliteration b up f ≡ false
      → length payload ≡ f.size_payload
      → Holds b up source_partition source f payload s
      → (get b up force_write partition
          (moved source context)
          (copy b up source_partition source partition context (world s t [])).1).0
        ≡ ok (whole b up partition f payload)
  get-copy force_write source_partition source partition context payload f s t nonzero range sized
        valid alive n holds =
      rw (copy-held source_partition source partition context s t nonzero holds.associated) (
        ap (λ o. o.0)
          (get-held b up force_write partition payload (moved source context) f _ t range sized
            valid alive n
            (record {
              associated = entry-associated_with partition (moved source context) s;
              row = holds.row;
              object = holds.object;
            })))
