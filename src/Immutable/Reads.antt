-- ===== src/Immutable/Reads.antt =====
-- What `get` and `copy` answer for what is stored, while every request is answered.
use mathlib.Core.List.{Mem, mem-cons_self, not-mem-nil}
use lore_stack.Common.{
  ◌≡◌, refl, ap, sym, ◌∙◌, Bool, true, false, none, some, Bytes, length, arith, List, [], ◌∷◌, not,
  ◌+◌,
}
use lore_stack.Common.Eq.{nat_eq, list_eq}
use lore_stack.Sql.Laws.{find-insert_new_self, find-upsert_self}
use lore_stack.Sql.World.{ok, err, checkout, auto}
use lore_stack.Sql.Triple.{world}
use lore_stack.Immutable.Types.{
  Address, address_not_found, Fragment, Association, match_full, StoreGetData, Upstream, Backend,
  Stored, association_eq,
}
use lore_stack.Immutable.Index.{
  select_one, is_empty, association, metadata_row, fetch_metadata, is_obliteration, ensure_exists,
  exists, check_exact, metadata_with_load_validation,
}
use lore_stack.Immutable.Payload.{hash_to_hex, get_s3_object_contents, load}
use lore_stack.Immutable.Store.{put, get}
use lore_stack.Immutable.Fragments.{
  InRange, fragment_of_row-metadata_row, read_payload_exact, read_chunks-flatten,
}
use lore_stack.Immutable.Writes.{entry, written, put-unassociated}

module _ (b : Backend) (up : Upstream) where
  abbrev pub exact : Bytes → Address → Association → Bool
  exact partition address k = association_eq.beq k (association (up.context_of partition) address)

  pub selected-nil :
      (partition : Bytes) (address : Address) (s : Stored b)
      → entry b up partition address s ≡ none
      → select_one b (exact partition address) s.associations ≡ false
  selected-nil partition address s h =
      empty (b.fragments.select (λ k u. exact partition address k) s.associations)
        (λ k u m. (b.fragments.mem-select _ s.associations k u).0 m)
    where
      empty :
          (xs : List (Association × Unit {0}))
          → ((k : Association) (u : Unit {0})
              → Mem (k, u) xs
              → (b.fragments.find s.associations k ≡ some u) × (exact partition address k ≡ true))
          → not (is_empty xs) ≡ false
      empty [] all = refl
      empty (x ∷ xs) all =
          let (found, same) = all x.0 x.1 mem-cons_self in
          let e = (association_eq.beq_iff x.0 _).0 same in
          absurd (apart (sym (ap (b.fragments.find s.associations) e ∙ h) ∙ found))
        where
          apart : none ≡ some x.1 → ⊥
          apart p = cc

  pub selected-some :
      (partition : Bytes) (address : Address) (s : Stored b)
      → entry b up partition address s ≡ some tt
      → select_one b (exact partition address) s.associations ≡ true
  selected-some partition address s h =
      full (b.fragments.select (λ k u. exact partition address k) s.associations) (
        (b.fragments.mem-select _ s.associations _ tt).1
          (h, (association_eq.beq_iff (association (up.context_of partition) address) _).1 refl))
    where
      full :
          (xs : List (Association × Unit {0}))
          → Mem (association (up.context_of partition) address, tt) xs
          → not (is_empty xs) ≡ true
      full [] m = absurd (not-mem-nil m)
      full (x ∷ xs) m = refl

  -- While all requests are answered: without an association of its own a partition gets
  -- address-not-found for an address, whatever the store holds for others, and nothing is
  -- written.
  pub get-unassociated :
      (force_write : Bool) (partition : Bytes) (address : Address) (s t : Stored b)
      → entry b up partition address s ≡ none
      → get b up force_write partition address (world s t [])
        ≡ (err (address_not_found address), world s t [])
  unfolding get ensure_exists exists check_exact checkout auto
  get-unassociated force_write partition address s t h =
      rw (selected-nil partition address s h) refl

  abbrev pub whole : Bytes → Fragment → Bytes → StoreGetData
  whole partition f payload = record {
    fragment = f;
    match_made = match_full;
    partition = partition;
    payload = some payload;
    content = none;
  }

  -- The three places hold the fragment.
  pub record Holds (partition : Bytes) (address : Address) (f : Fragment) (payload : Bytes)
      (s : Stored b) : Type 0 where
    pub associated : entry b up partition address s ≡ some tt
    pub row : b.metadata.find s.rows address.hash ≡ some (metadata_row f)
    pub object : b.bucket.object s.objects (hash_to_hex b up address.hash) ≡ some payload

  metadata-held :
      (hash : Bytes) (f : Fragment) (s t : Stored b)
      → InRange f
      → up.validate_fragment_size f ≡ true
      → is_obliteration b up f ≡ false
      → b.metadata.find s.rows hash ≡ some (metadata_row f)
      → metadata_with_load_validation b up hash (world s t []) ≡ (ok f, world s t [])
  unfolding metadata_with_load_validation fetch_metadata checkout auto
  metadata-held hash f s t range sized alive h =
      rw (h, fragment_of_row-metadata_row f range, sized, alive) refl

  contents-held :
      (hash payload : Bytes) (s t : Stored b)
      → b.bucket.object s.objects (hash_to_hex b up hash) ≡ some payload
      → get_s3_object_contents b up hash (world s t [])
        ≡ (ok (payload, length payload), world s t [])
  unfolding get_s3_object_contents checkout auto
  contents-held hash payload s t h = rw h (
      read_chunks-flatten b up [] 0 (b.bucket.chunks s.objects (hash_to_hex b up hash)) s t
      ∙ rw (b.bucket.chunks-object s.objects (hash_to_hex b up hash) payload h) (
          let e : 0 + length payload ≡ length payload = omega arith in
          ap (λ n. (ok (payload, n), world s t [])) e))

  load-held :
      (force_write : Bool) (hash payload : Bytes) (f : Fragment) (s t : Stored b)
      → InRange f
      → up.validate_fragment_size f ≡ true
      → is_obliteration b up f ≡ false
      → length payload ≡ f.size_payload
      → b.metadata.find s.rows hash ≡ some (metadata_row f)
      → b.bucket.object s.objects (hash_to_hex b up hash) ≡ some payload
      → load b up force_write hash (world s t []) ≡ (ok (f, payload), world s t [])
  unfolding load
  load-held force_write hash payload f s t range sized alive n row object =
      rw
        (
          metadata-held hash f s t range sized alive row,
          contents-held hash payload s t object,
          read_payload_exact b up force_write payload f n,
        )
        refl

  pub get-held :
      (force_write : Bool) (partition payload : Bytes) (address : Address) (f : Fragment)
      (s t : Stored b)
      → InRange f
      → up.validate_fragment_size f ≡ true
      → up.validate_fragment_payload f (length payload) ≡ true
      → is_obliteration b up f ≡ false
      → length payload ≡ f.size_payload
      → Holds partition address f payload s
      → get b up force_write partition address (world s t [])
        ≡ (ok (whole partition f payload), world s t [])
  unfolding get ensure_exists exists check_exact checkout auto
  get-held force_write partition payload address f s t range sized valid alive n holds =
      rw
        (
          selected-some partition address s holds.associated,
          load-held force_write address.hash payload f s t range sized alive n holds.row
              holds.object,
          valid,
        )
        refl

  written-Holds :
      (partition payload : Bytes) (address : Address) (f : Fragment) (s : Stored b)
      → entry b up partition address s ≡ none
      → Holds partition address f payload (written b up partition address f payload s)
  written-Holds partition payload address f s h = record {
    associated = find-insert_new_self b.fragments _ tt s.associations h;
    row = find-upsert_self b.metadata address.hash (metadata_row f) s.rows;
    object = b.bucket.object-put_self (hash_to_hex b up address.hash) payload s.objects;
  }

  -- While all requests are answered: after a `put` of a valid fragment that its partition did not
  -- hold, and that is not marked as obliterated, with a payload of its size, `get` in that
  -- partition returns the fragment, as sanitised, and the payload.
  pub get-put :
      (put_force get_force : Bool) (partition : Bytes) (address : Address) (fragment f : Fragment)
      (payload : Bytes) (s t : Stored b)
      → up.sanitise_fragment_behavior_flags fragment ≡ f
      → InRange f
      → up.validate_fragment_size f ≡ true
      → up.validate_fragment_payload f (length payload) ≡ true
      → is_obliteration b up f ≡ false
      → length payload ≡ f.size_payload
      → entry b up partition address s ≡ none
      → (get b up get_force partition address
          (put b up put_force partition address fragment (some payload) (world s t [])).1).0
        ≡ ok (whole partition f payload)
  get-put put_force get_force partition address fragment f payload s t sane range sized valid alive
        n h =
      let s' = written b up partition address f payload s in
      rw (put-unassociated b up put_force partition address fragment f payload s t sane valid n h) (
        ap (λ o. o.0)
          (get-held get_force partition payload address f s' s' range sized valid alive n
            (written-Holds partition payload address f s h)))
