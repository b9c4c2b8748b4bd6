-- ===== src/Immutable/Shared.antt =====
-- `obliterate` of a fragment that is stored under another association too.
use Prim.Native.Nat.{bit_and, bit_or}
use mathlib.Core.List.{Mem, not-mem-nil}
use lore_stack.Common.{
  ℕ, suc, ◌+◌, ◌≡◌, ◌≢◌, refl, ap, sym, ◌∙◌, Bool, true, false, some, none, List, [], ◌∷◌, Bytes,
  length, ltb, arith,
}
use lore_stack.Common.Eq.{◌==◌, nat_eq, list_eq, list_beq_iff}
use lore_stack.Sql.Laws.{find-delete_if_ne}
use lore_stack.Sql.World.{ok, checkout, auto}
use lore_stack.Sql.Triple.{world}
use lore_stack.Immutable.Types.{
  Address, Fragment, Association, Upstream, Backend, Stored, association_eq,
}
use lore_stack.Immutable.Index.{
  association, metadata_row, is_obliteration, remove_association, has_associations, count,
}
use lore_stack.Immutable.Store.{get}
use lore_stack.Immutable.Fragments.{InRange}
use lore_stack.Immutable.Writes.{entry}
use lore_stack.Immutable.Reads.{Holds, whole, get-held}
use lore_stack.Immutable.Obliterate.{obliterate, sub_fragments, settle, obliterating_row}
use lore_stack.Immutable.Erase.{replaced, swapped, row-replaced, unassociated, gone, validated}

module _ (b : Backend) (up : Upstream) (force_write : Bool) where
  counted-used :
      (hash : Bytes) (j : Association) (t : b.fragments.T)
      → b.fragments.find t j ≡ some tt
      → j.hash ≡ hash
      → ltb 0 (length (b.fragments.select (λ i u. i.hash == hash) t)) ≡ true
  counted-used hash j t found same =
      full (b.fragments.select (λ i u. i.hash == hash) t) (
        (b.fragments.mem-select _ t j tt).1 (found, (list_beq_iff ⦃e = nat_eq⦄ j.hash hash).1 same))
    where
      full : (xs : List (Association × Unit {0})) → Mem (j, tt) xs → ltb 0 (length xs) ≡ true
      full [] m = absurd (not-mem-nil m)
      full (x ∷ xs) m = ground arith

  -- What is stored after one association of several was obliterated.
  abbrev detached : Bytes → Address → Fragment → Stored b → Stored b
  detached partition address f s =
      let marked = obliterating_row b up force_write f in
      record s {
        associations =
            unassociated b up force_write (association (up.context_of partition) address)
              s.associations;
        rows =
            replaced b up force_write address.hash f marked
              (replaced b up force_write address.hash marked f s.rows);
        num_fragments = s.num_fragments + 1;
      }

  module _ (partition : Bytes) (address : Address) (f : Fragment) (s t : Stored b) (j : Association)
      (apart : association (up.context_of partition) address ≢ j) (same : j.hash ≡ address.hash)
      (found : b.fragments.find s.associations j ≡ some tt)
      (row : b.metadata.find s.rows address.hash ≡ some (metadata_row f)) where
    abbrev k : Association
    k = association (up.context_of partition) address

    still : b.fragments.find (unassociated b up force_write k s.associations) j ≡ some tt
    still = find-delete_if_ne b.fragments k j (λ r. true) s.associations apart ∙ found

    settled :
        let marked = obliterating_row b up force_write f in
        settle b up force_write
          (up.context_of partition)
          address
          f
          marked
          (world (record s { rows = replaced b up force_write address.hash marked f s.rows }) t [])
        ≡ (ok tt, world (detached partition address f s) t [])
    unfolding settle remove_association has_associations count checkout auto
    settled =
        rw (counted-used address.hash j (unassociated b up force_write k s.associations) still same)
          (swapped b up force_write address.hash f (obliterating_row b up force_write f) _ t (
            row-replaced b up force_write address.hash (obliterating_row b up force_write f) f
              s.rows row))

    obliterate-detached :
        (fuel : ℕ)
        → InRange f
        → up.validate_fragment_size f ≡ true
        → is_obliteration b up f ≡ false
        → (bit_and (bit_or f.flags up.payload_obliterating) up.payload_fragmented == 0) ≡ true
        → obliterate b up force_write (suc fuel) partition address (world s t [])
          ≡ (ok tt, world (detached partition address f s) t [])
    unfolding obliterate sub_fragments
    obliterate-detached fuel range sized alive plain =
        rw
          (
            validated b up force_write address.hash f s t range sized row,
            alive,
            swapped b up force_write address.hash (obliterating_row b up force_write f) f s t row,
            plain,
          )
          settled

  detached-row :
      (partition : Bytes) (address : Address) (f : Fragment) (s : Stored b)
      → b.metadata.find s.rows address.hash ≡ some (metadata_row f)
      → b.metadata.find (detached partition address f s).rows address.hash ≡ some (metadata_row f)
  detached-row partition address f s row =
      let marked = obliterating_row b up force_write f in
      row-replaced b up force_write address.hash f marked _
        (row-replaced b up force_write address.hash marked f s.rows row)

  -- While all requests are answered: `obliterate` of a fragment without sub-fragments that
  -- another association holds too, valid and without a mark, succeeds and removes its own
  -- association, and `get` of the other one still returns the fragment and the payload.
  pub obliterate-shared :
      (fuel : ℕ) (partition other payload : Bytes) (address a : Address) (f : Fragment)
      (s t : Stored b)
      → InRange f
      → up.validate_fragment_size f ≡ true
      → up.validate_fragment_payload f (length payload) ≡ true
      → is_obliteration b up f ≡ false
      → (bit_and (bit_or f.flags up.payload_obliterating) up.payload_fragmented == 0) ≡ true
      → length payload ≡ f.size_payload
      → a.hash ≡ address.hash
      → association (up.context_of partition) address ≢ association (up.context_of other) a
      → Holds b up other a f payload s
      → let o = obliterate b up force_write (suc fuel) partition address (world s t []) in
        (o.0 ≡ ok tt)
        × (entry b up partition address o.1.committed ≡ none)
        × ((get b up force_write other a o.1).0 ≡ ok (whole b up other f payload))
  obliterate-shared fuel partition other payload address a f s t range sized valid alive plain n
        same apart holds =
      let j = association (up.context_of other) a in
      let row : b.metadata.find s.rows address.hash ≡ some (metadata_row f) =
        ap (b.metadata.find s.rows) (sym same) ∙ holds.row in
      rw
        (obliterate-detached partition address f s t j apart same holds.associated row fuel range
          sized alive plain)
        (
          refl,
          gone b up force_write (association (up.context_of partition) address) s.associations,
          ap (λ o. o.0)
              (get-held b up force_write other payload a f (detached partition address f s) t range
                sized valid alive n
                (record {
                  associated = still partition address f s t j apart same holds.associated row;
                  row =
                      ap (b.metadata.find (detached partition address f s).rows) same
                      ∙ detached-row partition address f s row;
                  object = holds.object;
                })),
        )
