-- ===== src/Immutable/Replaced.antt =====
-- What `put` of lore-pg/src/store/pg_immutable_store.rs does to the other associations of a hash.
use lore_stack.Common.{◌≡◌, ap, ◌∙◌, Bool, true, false, none, some, Bytes, length, []}
use lore_stack.Common.Eq.{nat_eq, list_eq}
use lore_stack.Sql.Laws.{find-upsert_self, find-insert_new_kept}
use lore_stack.Sql.World.{ok}
use lore_stack.Sql.Triple.{world}
use lore_stack.Immutable.Types.{Address, Fragment, Upstream, Backend, Stored, association_eq}
use lore_stack.Immutable.Index.{association, metadata_row, is_obliteration}
use lore_stack.Immutable.Payload.{hash_to_hex}
use lore_stack.Immutable.Store.{put, get}
use lore_stack.Immutable.Fragments.{InRange}
use lore_stack.Immutable.Writes.{entry, written, put-unassociated}
use lore_stack.Immutable.Reads.{Holds, whole, get-held}

module _ (b : Backend) (up : Upstream) where
  written-keeps :
      (partition first payload : Bytes) (address a : Address) (f : Fragment) (s : Stored b)
      → entry b up first a s ≡ some tt
      → entry b up first a (written b up partition address f payload s) ≡ some tt
  written-keeps partition first payload address a f s h =
      find-insert_new_kept b.fragments (association (up.context_of partition) address)
        (association (up.context_of first) a) tt tt s.associations h

  written-Holds :
      (partition first payload : Bytes) (address a : Address) (f : Fragment) (s : Stored b)
      → a.hash ≡ address.hash
      → entry b up first a s ≡ some tt
      → Holds b up first a f payload (written b up partition address f payload s)
  written-Holds partition first payload address a f s same h =
      let s' = written b up partition address f payload s in
      record {
        associated = written-keeps partition first payload address a f s h;
        row =
            ap (b.metadata.find s'.rows) same
            ∙ find-upsert_self b.metadata address.hash (metadata_row f) s.rows;
        object =
            ap (λ h. b.bucket.object s'.objects (hash_to_hex b up h)) same
            ∙ b.bucket.object-put_self (hash_to_hex b up address.hash) payload s.objects;
      }

  -- While all requests are answered: after a `put` of a valid fragment whose address its
  -- partition did not hold, `get` of every other association of the hash that was there returns
  -- the new fragment and the new payload.
  pub get-put_elsewhere :
      (put_force get_force : Bool) (partition first payload : Bytes) (address a : Address)
      (fragment f : Fragment) (s t : Stored b)
      → up.sanitise_fragment_behavior_flags fragment ≡ f
      → InRange f
      → up.validate_fragment_size f ≡ true
      → up.validate_fragment_payload f (length payload) ≡ true
      → is_obliteration b up f ≡ false
      → length payload ≡ f.size_payload
      → a.hash ≡ address.hash
      → entry b up first a s ≡ some tt
      → entry b up partition address s ≡ none
      → (get b up get_force first a
          (put b up put_force partition address fragment (some payload) (world s t [])).1).0
        ≡ ok (whole b up first f payload)
  get-put_elsewhere put_force get_force partition first payload address a fragment f s t sane range
        sized valid alive n same held free =
      let s' = written b up partition address f payload s in
      rw
        (put-unassociated b up put_force partition address fragment f payload s t sane valid n free)
        (ap (λ o. o.0)
          (get-held b up get_force first payload a f s' s' range sized valid alive n
            (written-Holds partition first payload address a f s same held)))
