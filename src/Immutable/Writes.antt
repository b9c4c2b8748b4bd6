-- ===== src/Immutable/Writes.antt =====
-- What `put` writes, while every request is answered.
use lore_stack.Common.{
  Bool-cases, inl, inr, ◌≡◌, refl, Bool, true, false, Option, none, some, Bytes, length,
  if◌then◌else◌, [],
}
use lore_stack.Common.Eq.{nat_eq, list_eq, ◌==◌}
use lore_stack.Sql.World.{ok, err, checkout, auto, begin, exec, commit}
use lore_stack.Sql.Triple.{world}
use lore_stack.Immutable.Types.{
  Address, internal, hash_collision, Fragment, MetadataRow, Upstream, Backend, Stored,
  association_eq,
}
use lore_stack.Immutable.Index.{
  association, metadata_row, fragment_of_row, resolve, fetch_metadata, is_obliteration,
  put_metadata, associate_fragment_in_txn,
}
use lore_stack.Immutable.Index.{full_match}
use lore_stack.Immutable.Payload.{hash_to_hex, write_payload}
use lore_stack.Immutable.Store.{valid_put, match_for, write_for, put, compared, has_bits}

module _ (b : Backend) (up : Upstream) where
  abbrev pub entry : Bytes → Address → Stored b → Option (Unit {0})
  entry partition address s =
      b.fragments.find s.associations (association (up.context_of partition) address)

  -- What is stored after the payload went to the bucket, and then both rows.
  abbrev pub written : Bytes → Address → Fragment → Bytes → Stored b → Stored b
  written partition address f payload s = record {
    associations =
        (b.fragments.insert_new (association (up.context_of partition) address) tt
          s.associations).1;
    rows = (b.metadata.upsert address.hash (metadata_row f) s.rows).1;
    objects = b.bucket.put (hash_to_hex b up address.hash) payload s.objects;
    num_fragments = s.num_fragments;
    num_payloads = s.num_payloads;
  }

  resolve_absent :
      (partition : Bytes) (address : Address) (s t : Stored b)
      → entry partition address s ≡ none
      → resolve b up partition address (world s t []) ≡ (ok up.no_match, world s t [])
  unfolding resolve checkout auto
  resolve_absent partition address s t h = rw h refl

  write_payload-calm :
      (partition : Bytes) (address : Address) (f : Fragment) (payload : Bytes) (s t : Stored b)
      → length payload ≡ f.size_payload
      → write_payload b up (up.context_of partition) address f payload (world s t []) ≡ (
        ok tt,
        world (written partition address f payload s) (written partition address f payload s) [],
      )
  unfolding write_payload checkout auto begin exec commit put_metadata associate_fragment_in_txn
  write_payload-calm partition address f payload s t h =
      rw ((nat_eq.beq_iff (length payload) f.size_payload).1 h) refl

  -- While all requests are answered: `put` of a fragment that validates with a payload of its
  -- size, and that its partition does not hold, stores the payload in the bucket and writes both
  -- rows, whatever the metadata row of the hash was.
  pub put-unassociated :
      (force_write : Bool) (partition : Bytes) (address : Address) (fragment f : Fragment)
      (payload : Bytes) (s t : Stored b)
      → up.sanitise_fragment_behavior_flags fragment ≡ f
      → up.validate_fragment_payload f (length payload) ≡ true
      → length payload ≡ f.size_payload
      → entry partition address s ≡ none
      → put b up force_write partition address fragment (some payload) (world s t []) ≡ (
        ok tt,
        world (written partition address f payload s) (written partition address f payload s) [],
      )
  unfolding put match_for write_for
  put-unassociated true partition address fragment f payload s t sane valid n h =
      rw (sane, valid, resolve_absent partition address s t h)
        (write_payload-calm partition address f payload s t n)
  put-unassociated false partition address fragment f payload s t sane valid n h =
      rw (sane, valid, resolve_absent partition address s t h, up.match_made-no_match)
        (write_payload-calm partition address f payload s t n)

  resolve_present :
      (partition : Bytes) (address : Address) (r : MetadataRow) (s t : Stored b)
      → entry partition address s ≡ some tt
      → b.metadata.find s.rows address.hash ≡ some r
      → is_obliteration b up (fragment_of_row r) ≡ false
      → resolve b up partition address (world s t [])
        ≡ (ok (full_match b up partition address), world s t [])
  unfolding resolve fetch_metadata checkout auto
  resolve_present partition address r s t h row alive = rw (h, row, alive) refl

  fetched :
      (hash : Bytes) (r : MetadataRow) (s t : Stored b)
      → b.metadata.find s.rows hash ≡ some r
      → fetch_metadata b up hash (world s t []) ≡ (ok (fragment_of_row r), world s t [])
  unfolding fetch_metadata checkout auto
  fetched hash r s t row = rw row refl

  -- While all requests are answered: a valid `put` that is not forced of what its partition
  -- holds, and whose metadata row carries no mark of an obliteration, stores nothing. It succeeds
  -- if the size of the content is the stored one, and is a hash collision otherwise.
  pub put-associated :
      (partition : Bytes) (address : Address) (fragment f : Fragment) (payload : Option Bytes)
      (r : MetadataRow) (s t : Stored b)
      → up.sanitise_fragment_behavior_flags fragment ≡ f
      → valid_put b up false f payload ≡ true
      → entry partition address s ≡ some tt
      → b.metadata.find s.rows address.hash ≡ some r
      → is_obliteration b up (fragment_of_row r) ≡ false
      → has_bits b up false (fragment_of_row r).flags up.payload_obliterating ≡ false
      → has_bits b up false (fragment_of_row r).flags up.payload_obliterated ≡ false
      → put b up false partition address fragment payload (world s t []) ≡ (
        if f.size_content == (fragment_of_row r).size_content
            then ok tt
            else err (internal hash_collision),
        world s t [],
      )
  unfolding put match_for compared write_for
  put-associated partition address fragment f payload r s t sane valid h row alive busy gone =
      rw
        (
          sane,
          valid,
          resolve_present partition address r s t h row alive,
          fetched address.hash r s t row,
          busy,
          gone,
        )
        (elim (Bool-cases (f.size_content == (fragment_of_row r).size_content)) [
          | inl e ↦ rw e refl
          | inr e ↦ rw e refl
        ])
