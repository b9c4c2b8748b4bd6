-- ===== src/Immutable/Obliterate.antt =====
-- `obliterate` in lore-pg/src/store/pg_immutable_store.rs. The tasks for the sub-fragments of one
-- fragment run one after the other here.
use Prim.Native.Nat.{bit_and, bit_or}
use lore_stack.Common.{
  ℕ, zero, suc, ◌+◌, ◌≡◌, refl, some, Bool, true, false, ◌||◌, List, [], ◌∷◌, Bytes, if◌then◌else◌,
}
use lore_stack.Common.Eq.{◌==◌, nat_eq}
use lore_stack.Sql.World.{Result, ok, err, pure, raise, from_result, ◌>>=◌, ◌>>◌, checkout, auto}
use lore_stack.Sql.Triple.{world}
use lore_stack.Immutable.Types.{
  out_of_fuel, obliterate_failed, Address, StoreError, internal, Fragment, MetadataRow, Upstream,
  Backend, Stored,
}
use lore_stack.Immutable.Index.{
  Store, fragment_of_row, metadata_with_size_validation, fetch_metadata, is_obliteration,
  update_metadata_cas, remove_association, has_associations,
}
use lore_stack.Immutable.Payload.{get_s3_object_contents, read_payload, delete_payload}
use lore_stack.Immutable.Store.{attempt}

module _ (b : Backend) (up : Upstream) (force_write : Bool) where
  -- The counters of the statistics, which no request touches.
  abbrev pub tally : (Stored b → Stored b) → Store b (Unit {0})
  tally f w = (ok tt, record w { committed = f w.committed })

  abbrev pub failed : Result StoreError (Unit {0}) → Bool
  failed (ok u) = false
  failed (err e) = true

  abbrev pub obliterating_row : Fragment → Fragment
  obliterating_row original = record original {
    flags = bit_or original.flags up.payload_obliterating;
  }

  abbrev pub obliterated_row : Fragment
  obliterated_row = record { flags = up.payload_obliterated; size_payload = 0; size_content = 0 }

  -- Every sub-fragment is tried; says whether one failed.
  unfoldable pub each_failed : (Address → Store b (Unit {0})) → Bytes → List Bytes → Store b Bool
  each_failed body context [] = pure false
  each_failed body context (hash ∷ hashes) = do
    result ← attempt b up (body (record { hash = hash; context = context }))
    rest ← each_failed body context hashes
    pure (failed result || rest)

  unfoldable pub sub_fragments :
      (Address → Store b (Unit {0})) → Address → Fragment → Fragment → Store b (Unit {0})
  unfolding each_failed
  sub_fragments body address original updated =
      if bit_and updated.flags up.payload_fragmented == 0 then pure tt else (do
        contents ← get_s3_object_contents b up address.hash
        payload ← from_result (read_payload b up force_write contents.0 original)
        failures ← each_failed body address.context (up.references payload)
        if failures then raise (internal obliterate_failed) else pure tt)

  -- What follows the sub-fragments: the association goes, and with the last one the payload.
  unfoldable pub settle : Bytes → Address → Fragment → Fragment → Store b (Unit {0})
  settle repository address original updated = do
    remove_association b repository address
    tally (λ s. record s { num_fragments = s.num_fragments + 1 })
    remain_associated ← has_associations b address.hash
    if remain_associated then update_metadata_cas b address.hash original updated else (do
      delete_payload b up address.hash
      tally (λ s. record s { num_payloads = s.num_payloads + 1 })
      update_metadata_cas b address.hash obliterated_row updated)

  -- A fragment that carries a mark is left alone.
  unfoldable pub obliterate_in : ℕ → Bytes → Address → Store b (Unit {0})
  unfolding sub_fragments settle
  obliterate_in zero repository address = raise (internal out_of_fuel)
  obliterate_in (suc fuel) repository address = do
    original ← metadata_with_size_validation b up address.hash
    if is_obliteration b up original then pure tt else (do
      update_metadata_cas b address.hash (obliterating_row original) original
      sub_fragments (obliterate_in fuel repository) address original (obliterating_row original)
      settle repository address original (obliterating_row original))

  unfoldable pub obliterate : ℕ → Bytes → Address → Store b (Unit {0})
  unfolding obliterate_in
  obliterate fuel partition address = obliterate_in fuel (up.context_of partition) address

  -- While all requests are answered: `obliterate` of a valid fragment whose row carries a mark of
  -- an obliteration, running or complete, succeeds and changes nothing.
  pub obliterate-marked :
      (fuel : ℕ) (partition : Bytes) (address : Address) (r : MetadataRow) (s t : Stored b)
      → b.metadata.find s.rows address.hash ≡ some r
      → up.validate_fragment_size (fragment_of_row r) ≡ true
      → is_obliteration b up (fragment_of_row r) ≡ true
      → obliterate (suc fuel) partition address (world s t []) ≡ (ok tt, world s t [])
  unfolding obliterate metadata_with_size_validation fetch_metadata checkout auto
  obliterate-marked fuel partition address r s t row sized marked = rw (row, sized, marked) refl
