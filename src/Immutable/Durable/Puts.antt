-- ===== src/Immutable/Durable/Puts.antt =====
-- `put` of lore-pg/src/store/pg_immutable_store.rs: the object first, then both rows at once.
use lore_stack.Common.{inl, inr, Bool, Option, some, none, Bytes, length}
use lore_stack.Common.Eq.{◌==◌, nat_eq, list_eq}
use lore_stack.Sql.Laws.{find-upsert_self}
use lore_stack.Sql.World.{World}
use lore_stack.Sql.Triple.{
  Triple, Triple-bind, Triple-pure, Triple-raise, Triple-auto, Triple-checkout, Triple-exec,
  Triple-begin, Triple-commit, Triple-weaken,
}
use lore_stack.Immutable.Types.{
  Cause, Address, StoreError, Fragment, StoreMatch, match_none, match_hash, match_partition,
  match_full, Upstream, Backend, Stored, internal,
}
use lore_stack.Immutable.Index.{
  association, metadata_row, put_metadata, associate_fragment_in_txn, on_rows, insert_association,
}
use lore_stack.Immutable.Payload.{hash_to_hex, write_payload}
use lore_stack.Immutable.Store.{put, write_for, valid_put}
use lore_stack.Immutable.Keeps.{Keeps, Keeps-raise, Keeps-if}
use lore_stack.Immutable.Durable.Matches.{Usual, Matched, Attempted, attempt-Usual, match_for-Usual}
use lore_stack.Immutable.Durable.{
  HasRow, HasObject, IsDurable, stored_object-IsDurable, described-IsDurable, associated-IsDurable,
}

module _ (b : Backend) (up : Upstream) where
  -- The transaction of a write, after the object is in the bucket.
  abbrev Ready : Bytes → World (Stored b) → Type 0
  Ready hash w = IsDurable b up w.committed × HasObject b up hash w.committed

  abbrev Open : Bytes → World (Stored b) → Type 0
  Open hash w =
      IsDurable b up w.committed × IsDurable b up w.working × HasObject b up hash w.working

  abbrev Kept : StoreError → World (Stored b) → Type 0
  Kept e w = IsDurable b up w.committed

  written-row :
      (hash : Bytes) (f : Fragment)
      → Triple
          (Open hash)
          (put_metadata b hash f)
          (λ u w. Open hash w × HasRow b up hash w.working)
          Kept
  unfolding put_metadata
  written-row hash f =
      Triple-bind {Q = λ n w. Open hash w × HasRow b up hash w.working}
        (Triple-exec (internal Cause.write_metadata)
          (on_rows b (b.metadata.upsert hash (metadata_row f)))
          (λ c t fs h. (
            (h.0, described-IsDurable b up hash f t h.1, h.2),
            (metadata_row f, find-upsert_self b.metadata hash (metadata_row f) t.rows),
          ))
          (λ c t t' fs h bad. h.0))
        (λ n. Triple-pure tt (λ w h. h))

  written-association :
      (repository : Bytes) (address : Address)
      → Triple
          (λ w. Open address.hash w × HasRow b up address.hash w.working)
          (associate_fragment_in_txn b repository address)
          (λ u w. IsDurable b up w.committed × IsDurable b up w.working)
          Kept
  unfolding associate_fragment_in_txn
  written-association repository address =
      Triple-bind {Q = λ n w. IsDurable b up w.committed × IsDurable b up w.working}
        (Triple-exec (internal Cause.associate) (insert_association b repository address)
          (λ c t fs h.
            (h.0.0, associated-IsDurable b up (association repository address) t h.0.1 h.1 h.0.2))
          (λ c t t' fs h bad. h.0.0))
        (λ n. Triple-pure tt (λ w h. h))

  pub Keeps-write_payload :
      (repository payload : Bytes) (address : Address) (f : Fragment)
      → Keeps b (IsDurable b up) (write_payload b up repository address f payload)
  unfolding write_payload
  Keeps-write_payload repository payload address f =
      Keeps-if b (IsDurable b up) (length payload == f.size_payload) _ _
        (Triple-bind {Q = λ u. Ready address.hash}
          (Triple-auto (internal Cause.s3_put) _
            (λ c t fs h. (
              stored_object-IsDurable b up address.hash payload c h,
              (payload, b.bucket.object-put_self (hash_to_hex b up address.hash) payload c.objects),
            ))
            (λ c t fs h bad. (h, stored_object-IsDurable b up address.hash payload c h)))
          (λ u.
            Triple-bind {Q = λ u. Ready address.hash}
              (Triple-checkout (internal Cause.pool) (λ c t fs h. h) (λ c t fs h bad. h.0))
              (λ u.
                Triple-bind {Q = λ u. Open address.hash}
                  (Triple-begin (internal Cause.begin) (λ c t fs h. (h.0, h.0, h.1))
                    (λ c t t' fs h bad. h.0))
                  (λ u. Triple-bind (written-row address.hash f) (λ u.
                    Triple-bind (written-association repository address) (λ u.
                      Triple-commit (internal Cause.commit) (λ c t fs h. h.1)
                        (λ c t fs h bad. (h.0, h.1))))))))
        (Keeps-raise b (IsDurable b up) (internal Cause.payload_size))

  unusual_hash : Usual b up match_hash → ⊥
  unusual_hash (inl e) = cc
  unusual_hash (inr e) = cc

  unusual_partition : Usual b up match_partition → ⊥
  unusual_partition (inl e) = cc
  unusual_partition (inr e) = cc

  -- `resolve` never asks for a write that associates alone.
  write_for-Keeps :
      (force_write : Bool) (repository : Bytes) (address : Address) (f : Fragment) (m : StoreMatch)
      (payload : Option Bytes)
      → Triple
          (Matched b up (IsDurable b up) m)
          (write_for b up force_write repository address f m payload)
          (λ u w. IsDurable b up w.committed)
          Kept
  unfolding write_for
  write_for-Keeps force_write repository address f match_none none =
      Triple-raise (internal Cause.payload_required) (λ w h. h.0)
  write_for-Keeps force_write repository address f match_none (some payload) =
      Triple-weaken (λ w h. h.0) (λ a w h. h) (λ e w h. h)
        (Keeps-write_payload repository payload address f)
  write_for-Keeps force_write repository address f match_full payload = Triple-pure tt (λ w h. h.0)
  write_for-Keeps force_write repository address f match_hash payload = record {
    at = λ w h. absurd (unusual_hash h.1);
  }
  write_for-Keeps force_write repository address f match_partition payload = record {
    at = λ w h. absurd (unusual_partition h.1);
  }

  pub put-Keeps :
      (force_write : Bool) (partition : Bytes) (address : Address) (fragment : Fragment)
      (payload : Option Bytes)
      → Keeps b (IsDurable b up) (put b up force_write partition address fragment payload)
  unfolding put
  put-Keeps force_write partition address fragment payload =
      let f = up.sanitise_fragment_behavior_flags fragment in
      Keeps-if b (IsDurable b up) (valid_put b up force_write f payload) _ _
        (Triple-bind {Q = Attempted b up (IsDurable b up)}
          (attempt-Usual b up (IsDurable b up) partition address)
          (λ q.
            Triple-bind (match_for-Usual b up (IsDurable b up) force_write address f q)
              (λ m. write_for-Keeps force_write (up.context_of partition) address f m payload)))
        (Keeps-raise b (IsDurable b up) (internal Cause.invalid_fragment))
