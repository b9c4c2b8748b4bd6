-- ===== src/Immutable/Requests.antt =====
-- What the requests of obliterate of lore-pg/src/store/pg_immutable_store.rs keep, each by what it
-- does to the tables and the bucket.
use mathlib.Core.List.{Mem, not-mem-nil}
use lore_stack.Common.{◌≡◌, ◌≢◌, false, some, List, [], ◌∷◌, arith, true, Bytes, length, ltb, Bool}
use lore_stack.Common.Eq.{◌==◌, nat_eq, list_eq, list_beq_iff}
use lore_stack.Sql.Triple.{Triple, Triple-bind, Triple-auto, Triple-pure, Triple-weaken}
use lore_stack.Immutable.Types.{
  Cause, Address, Association, Fragment, Upstream, Backend, Stored, internal,
}
use lore_stack.Immutable.Index.{
  association, metadata_row, same_row, metadata_with_size_validation, fetch_metadata,
  row_or_missing, on_rows, update_metadata_cas, remove_association, has_associations, count,
}
use lore_stack.Immutable.Payload.{delete_payload, hash_to_hex}
use lore_stack.Immutable.Obliterate.{tally}
use lore_stack.Immutable.Keeps.{
  Keeps, Keeps-checkout, Keeps-auto, Keeps-pure, Keeps-raise, Keeps-if, Keeps-from_result,
}

module _ (b : Backend) (up : Upstream) (force_write : Bool) where
  -- The store after a conditional update of a metadata row.
  abbrev pub rewritten : Bytes → Fragment → Fragment → Stored b → Stored b
  rewritten hash updated expected s = record s {
    rows =
        (b.metadata.update_if hash (λ r. same_row r (metadata_row expected)) (metadata_row updated)
          s.rows).1;
  }

  abbrev pub dissociated : Association → Stored b → Stored b
  dissociated k s = record s {
    associations = (b.fragments.delete_if k (λ row. true) s.associations).1;
  }

  abbrev pub unstored : Bytes → Stored b → Stored b
  unstored hash s = record s { objects = b.bucket.delete (hash_to_hex b up hash) s.objects }

  -- No association of the hash is left.
  abbrev pub Unused : Bytes → Stored b → Type 0
  Unused hash s = (j : Association) → b.fragments.find s.associations j ≡ some tt → j.hash ≢ hash

  counted-Unused :
      (hash : Bytes) (s : Stored b)
      → ltb 0 (length (b.fragments.select (λ k u. k.hash == hash) s.associations)) ≡ false
      → Unused hash s
  counted-Unused hash s none_left j found same =
      empty (b.fragments.select (λ k u. k.hash == hash) s.associations) none_left (
        (b.fragments.mem-select _ s.associations j tt).1
          (found, (list_beq_iff ⦃e = nat_eq⦄ j.hash hash).1 same))
    where
      empty : (xs : List (Association × Unit {0})) → ltb 0 (length xs) ≡ false → Mem (j, tt) xs → ⊥
      empty [] h m = not-mem-nil m
      empty (x ∷ xs) h m = ground arith

  module _ (P : Stored b → Type 0) where
    -- Where the count is zero, no association is left.
    pub has_associations-Unused :
        (hash : Bytes)
        → Triple
            (λ w. P w.committed)
            (has_associations b hash)
            (λ remain w. P w.committed × (remain ≡ false → Unused hash w.committed))
            (λ e w. P w.committed)
    unfolding has_associations count
    has_associations-Unused hash =
        Triple-bind
          (Triple-bind (Keeps-checkout b P (internal Cause.pool)) (λ u.
            Triple-auto {Q = λ n w. P w.committed × (ltb 0 n ≡ false → Unused hash w.committed)}
              (internal Cause.count_associations) _ (λ c t fs h. (h, counted-Unused hash c))
              (λ c t fs h bad. (h, h))))
          (λ n. Triple-pure (ltb 0 n) (λ w h. h))

    pub Keeps-tally :
        (f : Stored b → Stored b)
        → ((s : Stored b) → P s → P (f s))
        → Keeps b P (tally b up force_write f)
    Keeps-tally f k = record { at = λ w h. k w.committed h }

    pub Keeps-fetch : (hash : Bytes) → Keeps b P (fetch_metadata b up hash)
    unfolding fetch_metadata
    Keeps-fetch hash = Triple-bind (Keeps-checkout b P (internal Cause.pool)) (λ u.
        Triple-bind
          (Keeps-auto b P (internal Cause.load_metadata)
            (on_rows b (λ t. (b.metadata.find t hash, t))) (λ s h. h))
          (λ row. Keeps-from_result b P (row_or_missing b up hash row)))

    pub Keeps-metadata : (hash : Bytes) → Keeps b P (metadata_with_size_validation b up hash)
    unfolding metadata_with_size_validation
    Keeps-metadata hash = Triple-bind (Keeps-fetch hash) (λ f.
        Keeps-if b P (up.validate_fragment_size f) _ _ (Keeps-pure b P f)
          (Keeps-raise b P (internal Cause.invalid_fragment)))

    pub Keeps-update :
        (hash : Bytes) (updated expected : Fragment)
        → ((s : Stored b) → P s → P (rewritten hash updated expected s))
        → Keeps b P (update_metadata_cas b hash updated expected)
    unfolding update_metadata_cas
    Keeps-update hash updated expected k =
        Triple-bind (Keeps-checkout b P (internal Cause.pool)) (λ u.
          Triple-bind (Keeps-auto b P (internal Cause.update_metadata) _ k) (λ n.
            Keeps-if b P (n == 0) _ _ (Keeps-raise b P (internal Cause.metadata_conflict))
              (Keeps-pure b P tt)))

    pub Keeps-remove :
        (repository : Bytes) (address : Address)
        → ((s : Stored b) → P s → P (dissociated (association repository address) s))
        → Keeps b P (remove_association b repository address)
    unfolding remove_association
    Keeps-remove repository address k = Triple-bind (Keeps-checkout b P (internal Cause.pool)) (λ u.
        Triple-bind (Keeps-auto b P (internal Cause.delete_association) _ k)
          (λ n. Keeps-pure b P tt))

    pub Keeps-has_associations : (hash : Bytes) → Keeps b P (has_associations b hash)
    Keeps-has_associations hash =
        Triple-weaken (λ w h. h) (λ n w h. h.0) (λ e w h. h) (has_associations-Unused hash)

    pub Keeps-delete_payload :
        (hash : Bytes)
        → ((s : Stored b) → P s → P (unstored hash s))
        → Keeps b P (delete_payload b up hash)
    unfolding delete_payload
    Keeps-delete_payload hash k = Keeps-auto b P (internal Cause.s3_delete) _ k
