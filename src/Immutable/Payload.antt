-- ===== src/Immutable/Payload.antt =====
-- The S3 half of `PgImmutableStore`: payloads in the bucket, and both halves of a write.
use lore_stack.Common.{
  ℕ, zero, suc, ◌+◌, ◌-◌, ◌++◌, Bool, ◌&&◌, Option, none, some, List, [], ◌∷◌, Bytes, length, ltb,
  if◌then◌else◌,
}
use lore_stack.Common.Eq.{◌==◌, nat_eq}
use lore_stack.Sql.World.{
  Result, ok, err, pure, raise, from_result, ◌>>=◌, ◌>>◌, checkout, begin, commit, auto,
}
use lore_stack.Immutable.Types.{
  Cause, pool, payload_size, s3_put, s3_delete, s3_stream, size_mismatch, Address, StoreError,
  address_not_found, slow_down, internal, Fragment, Upstream, Backend, Stored,
}
use lore_stack.Immutable.Index.{
  Store, put_metadata, associate_fragment_in_txn, zero_context_hash, metadata_with_load_validation,
}

abbrev pub drop : ℕ → Bytes → Bytes
drop zero bs = bs
drop (suc n) [] = []
drop (suc n) (b ∷ bs) = drop n bs

module _ (b : Backend) (up : Upstream) where
  abbrev pub on_objects : {A : Type 0} → (b.bucket.O → A × b.bucket.O) → Stored b → A × Stored b
  on_objects f s = let (a, o) = f s.objects in (a, record s { objects = o })

  abbrev pub hash_to_hex : Bytes → Bytes
  hash_to_hex hash = up.to_hex_str hash

  -- The object goes to the bucket first; then both index rows are committed together.
  unfoldable pub write_payload : Bytes → Address → Fragment → Bytes → Store b (Unit {0})
  write_payload repository address fragment payload =
      if length payload == fragment.size_payload
      then (do
        auto (internal s3_put)
            (on_objects (λ o. (tt, b.bucket.put (hash_to_hex address.hash) payload o)))
        checkout (internal pool)
        begin (internal Cause.begin)
        put_metadata b address.hash fragment
        associate_fragment_in_txn b repository address
        commit (internal Cause.commit))
      else raise (internal payload_size)

  unfoldable pub delete_payload : Bytes → Store b (Unit {0})
  delete_payload hash =
      auto (internal s3_delete) (on_objects (λ o. (tt, b.bucket.delete (hash_to_hex hash) o)))

  -- The body's chunks, each of which may fail to arrive.
  unfoldable pub read_chunks : Bytes → ℕ → List Bytes → Store b (Bytes × ℕ)
  read_chunks buffer read [] = pure (buffer, read)
  read_chunks buffer read (c ∷ cs) = do
    checkout (internal s3_stream)
    read_chunks (buffer ++ c) (read + length c) cs

  abbrev pub get_object : Bytes → Stored b → (Option Bytes × List Bytes) × Stored b
  get_object hash =
      on_objects
        (λ o. ((b.bucket.object o (hash_to_hex hash), b.bucket.chunks o (hash_to_hex hash)), o))

  abbrev pub body : Bytes → Option Bytes × List Bytes → Store b (Bytes × ℕ)
  body hash (none, cs) = raise (address_not_found (zero_context_hash b up hash))
  body hash (some v, cs) = read_chunks [] 0 cs

  -- GetObject: `NoSuchKey` is a missing address, any other error of the service is `SlowDown`.
  unfoldable pub get_s3_object_contents : Bytes → Store b (Bytes × ℕ)
  unfolding read_chunks
  get_s3_object_contents hash = do found ← auto slow_down (get_object hash); body hash found

  module _ (force_write : Bool) where
    -- In migration mode a payload that is too long by a header loses its first bytes.
    abbrev pub stripped : Bytes → ℕ → Bytes
    stripped bytes payload_length =
        if ltb payload_length (length bytes)
          && (length bytes - payload_length == up.header_size && force_write)
        then drop up.header_size bytes
        else bytes

    unfoldable pub read_payload : Bytes → Fragment → Result StoreError Bytes
    read_payload bytes fragment =
        let buffer = stripped bytes fragment.size_payload in
        if length buffer == fragment.size_payload then ok buffer else err (internal size_mismatch)

    -- The metadata decide first; the object is read beside them.
    unfoldable pub load : Bytes → Store b (Fragment × Bytes)
    unfolding get_s3_object_contents read_payload
    load hash = do
      fragment ← metadata_with_load_validation b up hash
      contents ← get_s3_object_contents hash
      payload ← from_result (read_payload contents.0 fragment)
      pure (fragment, payload)
