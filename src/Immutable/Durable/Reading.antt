-- ===== src/Immutable/Durable/Reading.antt =====
-- The methods of lore-pg/src/store/pg_immutable_store.rs that only read keep every property of what
-- is stored.
use lore_stack.Common.{Bool, false, ◌&&◌, Bytes, List, [], ◌∷◌, length}
use lore_stack.Common.Eq.{◌==◌, nat_eq, list_eq}
use lore_stack.Sql.Triple.{Triple-bind, Triple-weaken}
use lore_stack.Immutable.Types.{
  Cause, Address, address_not_found, match_full, Upstream, Backend, Stored, internal,
}
use lore_stack.Immutable.Index.{
  select_one, on_associations, exists, check_exact, ensure_exists, resolve,
  metadata_with_load_validation, zero_context_hash, is_obliteration,
}
use lore_stack.Immutable.Payload.{read_payload, load}
use lore_stack.Immutable.Store.{get, get_metadata, query, is_full}
use lore_stack.Immutable.Keeps.{
  Keeps, Keeps-checkout, Keeps-auto, Keeps-pure, Keeps-raise, Keeps-if, Keeps-from_result,
}
use lore_stack.Immutable.Requests.{Keeps-metadata}
use lore_stack.Immutable.Descend.{Keeps-contents}
use lore_stack.Immutable.Durable.Matches.{resolve-Usual}

module _ (b : Backend) (up : Upstream) (P : Stored b → Type 0) where
  Keeps-exists :
      (repository : Bytes) (address : Address) → Keeps b P (exists b repository address match_full)
  unfolding exists check_exact
  Keeps-exists repository address = Triple-bind (Keeps-checkout b P (internal Cause.pool)) (λ u.
      Keeps-auto b P (internal Cause.exists_exact)
        (on_associations b (λ t. (
          select_one b
              (λ k.
                k.hash == address.hash
                && (k.repository == repository && k.context == address.context))
              t,
          t,
        )))
        (λ s h. h))

  Keeps-ensure_exists :
      (repository : Bytes) (address : Address)
      → Keeps b P (ensure_exists b repository address match_full)
  unfolding ensure_exists
  Keeps-ensure_exists repository address =
      Triple-bind (Keeps-exists repository address)
        (λ x. Keeps-if b P x _ _ (Keeps-pure b P tt) (Keeps-raise b P (address_not_found address)))

  Keeps-resolve :
      (partition : Bytes) (address : Address) → Keeps b P (resolve b up partition address)
  Keeps-resolve partition address =
      Triple-weaken (λ w h. h) (λ q w h. h.0) (λ e w h. h) (resolve-Usual b up P partition address)

  Keeps-validated : (hash : Bytes) → Keeps b P (metadata_with_load_validation b up hash)
  unfolding metadata_with_load_validation
  Keeps-validated hash = Triple-bind (Keeps-metadata b up false P hash) (λ f.
      Keeps-if b P (is_obliteration b up f) _ _
        (Keeps-raise b P (address_not_found (zero_context_hash b up hash))) (Keeps-pure b P f))

  pub get_metadata-Keeps :
      (partition : Bytes) (address : Address) → Keeps b P (get_metadata b up partition address)
  unfolding get_metadata
  get_metadata-Keeps partition address = Triple-bind (Keeps-resolve partition address) (λ q.
      Keeps-if b P (is_full b up q.match_made) _ _
        (Triple-bind (Keeps-validated address.hash)
          (λ f. Keeps-pure b P (up.metadata f q.match_made partition)))
        (Keeps-pure b P up.no_data))

  pub query-Keeps :
      (partition : Bytes) (addresses : List Address) → Keeps b P (query b up partition addresses)
  unfolding query
  query-Keeps partition [] = Keeps-pure b P []
  query-Keeps partition (a ∷ addresses) = Triple-bind (Keeps-resolve partition a) (λ result.
      Triple-bind (query-Keeps partition addresses) (λ results. Keeps-pure b P (result ∷ results)))

  pub get-Keeps :
      (force_write : Bool) (partition : Bytes) (address : Address)
      → Keeps b P (get b up force_write partition address)
  unfolding get load
  get-Keeps force_write partition address =
      Triple-bind (Keeps-ensure_exists (up.context_of partition) address) (λ u.
        Triple-bind
          (Triple-bind (Keeps-validated address.hash) (λ f.
            Triple-bind (Keeps-contents b up force_write P address.hash) (λ contents.
              Triple-bind (Keeps-from_result b P (read_payload b up force_write contents.0 f))
                (λ payload. Keeps-pure b P (f, payload)))))
          (λ loaded.
            Keeps-if b P (up.validate_fragment_payload loaded.0 (length loaded.1)) _ _
              (Keeps-pure b P _) (Keeps-raise b P (internal Cause.invalid_fragment))))
