-- ===== src/Immutable/Races.antt =====
-- A put between the requests of an obliteration, in lore-pg/src/store/pg_immutable_store.rs.
use Prim.Native.Nat.{bit_and, bit_or}
use lore_stack.Common.{
  ◌+◌, ◌≡◌, refl, ap, sym, subst, ◌∙◌, Bool, true, false, Option-cases, inl, inr, some, none, [],
  Bytes, length,
}
use lore_stack.Common.Eq.{◌==◌, nat_eq, list_eq}
use lore_stack.Sql.Laws.{find-insert_new_self, find-delete_if_some}
use lore_stack.Sql.World.{ok, checkout, auto}
use lore_stack.Sql.Triple.{world}
use lore_stack.Immutable.Types.{Address, Fragment, Upstream, Backend, Stored, association_eq}
use lore_stack.Immutable.Index.{
  association, metadata_row, is_obliteration, remove_association, has_associations, count,
}
use lore_stack.Immutable.Payload.{hash_to_hex, delete_payload}
use lore_stack.Immutable.Store.{put}
use lore_stack.Immutable.Fragments.{InRange}
use lore_stack.Immutable.Writes.{entry, written, put-unassociated}
use lore_stack.Immutable.Obliterate.{obliterating_row}
use lore_stack.Immutable.Erase.{replaced, swapped, unassociated, IsLast, none_left, validated}
use lore_stack.Immutable.Sessions.{Erasure, Pc, Move, System, Step, Leads, here, later, outside}

module _ (b : Backend) (up : Upstream) (force_write : Bool) where
  -- What is stored after the mark was set and the association removed.
  abbrev pub loosened : Erasure → Fragment → Stored b → Stored b
  loosened a f s = record s {
    associations =
        unassociated b up force_write (association (up.context_of a.partition) a.address)
          s.associations;
    rows = replaced b up force_write a.address.hash (obliterating_row b up force_write f) f s.rows;
    num_fragments = s.num_fragments + 1;
  }

  entry-loosened :
      (a : Erasure) (f : Fragment) (other : Bytes) (address : Address) (s : Stored b)
      → entry b up other address s ≡ none
      → entry b up other address (loosened a f s) ≡ none
  entry-loosened a f other address s free =
      elim (Option-cases (entry b up other address (loosened a f s))) [
        | inl e ↦ e
        | inr (u, e) ↦ cc (
          find-delete_if_some b.fragments (association (up.context_of a.partition) a.address)
              (association (up.context_of other) address) (λ row. true) u s.associations e,
          free,
        )
      ]

  module _ (a : Erasure) (f : Fragment) (s : Stored b) (range : InRange f)
      (sized : up.validate_fragment_size f ≡ true) (alive : is_obliteration b up f ≡ false)
      (plain : (bit_and (bit_or f.flags up.payload_obliterating) up.payload_fragmented == 0) ≡ true)
      (row : b.metadata.find s.rows a.address.hash ≡ some (metadata_row f))
      (last : IsLast b up force_write
        (association (up.context_of a.partition) a.address)
        s.associations) where
    -- Up to the answer that no association is left.
    before_put :
        (u : System b up force_write) × Leads b up force_write (outside b up force_write s) u
        × (u.stored ≡ loosened a f s)
        × (u.pc 0 ≡ Pc.counted a f false)
    unfolding remove_association has_associations count checkout auto
    before_put =
        let read : Move b up force_write s Pc.idle s (Pc.read a f) =
          Move.read a (validated b up force_write a.address.hash f s s range sized row) alive
            plain in
        let mark : Move b up force_write s (Pc.read a f) _ (Pc.marked a f) = Move.mark (
          swapped b up force_write a.address.hash (obliterating_row b up force_write f) f s s
            row) in
        let m = record s {
          rows =
              replaced b up force_write a.address.hash (obliterating_row b up force_write f) f
                s.rows;
        } in
        let n = record (loosened a f s) { num_fragments = s.num_fragments } in
        let remove : Move b up force_write m (Pc.marked a f) n (Pc.removed a f) =
          Move.remove refl in
        let count : Move b up force_write n (Pc.removed a f) (loosened a f s)
            (Pc.counted a f false) =
          Move.count (
            rw
              (none_left b up force_write (association (up.context_of a.partition) a.address)
                s.associations last)
              refl) in
        (
          _,
          later
              (later (later (later here (Step.turn 0 read)) (Step.turn 0 mark))
                (Step.turn 0 remove))
              (Step.turn 0 count),
          refl,
          refl,
        )

    -- For an unmarked fragment that is stored with valid sizes, without sub-fragments, and the
    -- last association of its hash: there is an order of the requests in which a `put` of the
    -- same hash under an address that is not stored, for a payload that validates, runs between
    -- two requests of an obliterate of that fragment and succeeds, and after the next request of
    -- the obliterate the new association is there and its object is not.
    pub put-lost :
        (other payload : Bytes) (address : Address) (fragment g : Fragment)
        → up.sanitise_fragment_behavior_flags fragment ≡ g
        → up.validate_fragment_payload g (length payload) ≡ true
        → length payload ≡ g.size_payload
        → address.hash ≡ a.address.hash
        → entry b up other address s ≡ none
        → (u t : System b up force_write) × (v : Stored b) × Leads b up force_write
            (outside b up force_write s)
            u
          × (put b up force_write other address fragment (some payload) (world u.stored u.stored [])
              ≡ (ok tt, world v v []))
          × Leads b up force_write (record { stored = v; pc = u.pc }) t
          × (entry b up other address t.stored ≡ some tt)
          × (b.bucket.object t.stored.objects (hash_to_hex b up address.hash) ≡ none)
    unfolding delete_payload auto
    put-lost other payload address fragment g sane valid n same free =
        let (u, way, stored, pc) = before_put in
        let free' = entry-loosened a f other address s free in
        let v = written b up other address g payload (loosened a f s) in
        let wrote =
          subst
            (λ x.
              put b up force_write other address fragment (some payload) (world x x [])
              ≡ (ok tt, world v v []))
            (sym stored)
            (put-unassociated b up force_write other address fragment g payload (loosened a f s)
              (loosened a f s) sane valid n free') in
        let hex = hash_to_hex b up a.address.hash in
        let w : Stored b = record v { objects = b.bucket.delete hex v.objects } in
        let empty : Move b up force_write v (u.pc 0) w (Pc.emptied a f) =
          subst (λ p. Move b up force_write v p w (Pc.emptied a f)) (sym pc) (Move.empty refl) in
        (
          u,
          _,
          v,
          way,
          wrote,
          later here (Step.turn 0 empty),
          find-insert_new_self b.fragments _ tt (loosened a f s).associations free',
          ap (λ h. b.bucket.object w.objects (hash_to_hex b up h)) same
              ∙ b.bucket.object-delete_self hex v.objects,
        )
