-- ===== src/Immutable/Store.antt =====
-- The trait's methods in lore-pg/src/store/pg_immutable_store.rs, but for `obliterate`.
use Prim.Native.Nat.{bit_and}
use lore_stack.Common.{
  ℕ, Bool, true, false, not, ◌&&◌, Option, none, some, List, [], ◌∷◌, Bytes, length, if◌then◌else◌,
}
use lore_stack.Common.Eq.{◌==◌, nat_eq}
use lore_stack.Sql.World.{Result, ok, err, World, pure, raise, ◌>>=◌, ◌>>◌, checkout, auto}
use lore_stack.Immutable.Types.{
  Cause, pool, invalid_fragment, obliterating, hash_collision, payload_required, Address,
  StoreError, address_not_found, internal, Fragment, StoreMatch, match_none, match_hash,
  match_partition, match_full, StoreMatchResult, StoreGetData, Upstream, Backend, Stored,
}
use lore_stack.Immutable.Index.{
  Store, ensure_exists, check_repository, check_exact, associate_fragment, fetch_metadata,
  metadata_with_load_validation, resolve,
}
use lore_stack.Immutable.Payload.{write_payload, load}

module _ (b : Backend) (up : Upstream) where
  unfoldable pub query : Bytes → List Address → Store b (List StoreMatchResult)
  query partition [] = pure []
  query partition (a ∷ addresses) = do
    result ← resolve b up partition a
    results ← query partition addresses
    pure (result ∷ results)

  abbrev pub is_full : StoreMatch → Bool
  is_full match_full = true
  is_full _ = false

  unfoldable pub get_metadata : Bytes → Address → Store b StoreGetData
  get_metadata partition address = do
    resolved ← resolve b up partition address
    if is_full resolved.match_made
        then (do
          fragment ← metadata_with_load_validation b up address.hash
          pure (up.metadata fragment resolved.match_made partition))
        else pure up.no_data

  -- `result` is returned beside the state, whether it is an error or not.
  abbrev pub attempt : {A : Type 0} → Store b A → Store b (Result StoreError A)
  attempt m w = let (r, w') = m w in (ok r, w')

  module _ (force_write : Bool) where
    -- The existence check decides first; the payload is read beside it.
    unfoldable pub get : Bytes → Address → Store b StoreGetData
    get partition address = do
      ensure_exists b (up.context_of partition) address match_full
      loaded ← load b up force_write address.hash
      if up.validate_fragment_payload loaded.0 (length loaded.1)
          then pure (record {
            fragment = loaded.0;
            match_made = match_full;
            partition = partition;
            payload = some loaded.1;
            content = none;
          })
          else raise (internal invalid_fragment)

    abbrev pub valid_put : Fragment → Option Bytes → Bool
    valid_put f none = up.validate_fragment_size f
    valid_put f (some payload) = up.validate_fragment_payload f (length payload)

    abbrev pub has_bits : ℕ → ℕ → Bool
    has_bits flags bits = bit_and flags bits == bits

    -- The checks against what is stored, and the match that the write goes by.
    unfoldable pub compared : Fragment → StoreMatch → Fragment → Store b StoreMatch
    compared fragment match_made stored =
        if has_bits stored.flags up.payload_obliterating
        then raise (internal obliterating)
        else (if not (fragment.size_content == stored.size_content)
              && not (has_bits stored.flags up.payload_obliterated)
            then raise (internal hash_collision)
            else pure match_made)

    abbrev pub is_none : StoreMatch → Bool
    is_none match_none = true
    is_none _ = false

    unfoldable pub match_for :
        Address → Fragment → Result StoreError StoreMatchResult → Store b StoreMatch
    unfolding compared
    match_for address fragment (err e) = pure match_none
    match_for address fragment (ok q) =
        if force_write
        then pure match_none
        else (if is_none q.match_made then pure q.match_made else (do
          stored ← fetch_metadata b up address.hash
          compared fragment q.match_made stored))

    unfoldable pub write_for :
        Bytes → Address → Fragment → StoreMatch → Option Bytes → Store b (Unit {0})
    write_for repository address fragment match_full payload = pure tt
    write_for repository address fragment match_partition payload =
        associate_fragment b repository address
    write_for repository address fragment match_hash (some payload) =
        associate_fragment b repository address
    write_for repository address fragment match_none (some payload) =
        write_payload b up repository address fragment payload
    write_for repository address fragment match_hash none = raise (internal payload_required)
    write_for repository address fragment match_none none = raise (internal payload_required)

    unfoldable pub put : Bytes → Address → Fragment → Option Bytes → Store b (Unit {0})
    unfolding match_for write_for
    put partition address fragment payload =
        let f = up.sanitise_fragment_behavior_flags fragment in
        if valid_put f payload
        then (do
          q ← attempt (resolve b up partition address)
          match_made ← match_for address f q
          write_for (up.context_of partition) address f match_made payload)
        else raise (internal invalid_fragment)

  -- A zero context in the source stands for any context of the partition.
  unfoldable pub copy : Bytes → Address → Bytes → Bytes → Store b (Unit {0})
  copy source_partition source_address destination_partition destination_context = do
    source_exists ←
        (if up.is_zero source_address.context
          then check_repository b source_address.hash (up.context_of source_partition)
          else check_exact b source_address.hash (up.context_of source_partition)
              source_address.context)
    if source_exists
        then associate_fragment b (up.context_of destination_partition)
            (record { hash = source_address.hash; context = destination_context })
        else raise (address_not_found source_address)

  -- The number of metadata rows, or nothing where a request fails.
  unfoldable pub fragment_count : World (Stored b) → Option ℕ × World (Stored b)
  fragment_count w = as_option (
      (do
        checkout (internal pool)
        auto (internal Cause.count_associations)
            (λ s. (length (b.metadata.select (λ k r. true) s.rows), s)))
        w)
    where
      as_option : Result StoreError ℕ × World (Stored b) → Option ℕ × World (Stored b)
      as_option (ok n, w') = (some n, w')
      as_option (err e, w') = (none, w')
