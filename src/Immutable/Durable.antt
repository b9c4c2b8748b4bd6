-- ===== src/Immutable/Durable.antt =====
-- What every association of the immutable store, lore-pg/src/store/pg_immutable_store.rs, rests on:
-- a metadata row and an object for its hash.
pub mod Matches
pub mod Reading
pub mod Puts
pub mod Copying
pub mod Erasing
pub mod Calls
use lore_stack.Common.{
  ◌≡◌, ◌≢◌, ap, sym, subst, ◌∙◌, inl, inr, Bool-cases, Bool, ◌&&◌, Option, some, none, true, Bytes,
  arith, if◌then◌else◌,
}
use lore_stack.Common.Eq.{nat_eq, list_eq}
use lore_stack.Sql.Laws.{
  key-cases, find-delete_if_some, find-insert_new_ne, find-upsert_self, find-upsert_ne,
}
use lore_stack.Sql.Table.{satisfies}
use lore_stack.Immutable.Types.{
  Association, association_eq, Address, Fragment, MetadataRow, Upstream, Backend, Stored, bytes_eq,
}
use lore_stack.Immutable.Index.{metadata_row, same_row, insert_association, association}
use lore_stack.Immutable.Payload.{hash_to_hex}
use lore_stack.Immutable.Requests.{rewritten, dissociated, unstored, Unused}

module _ (b : Backend) (up : Upstream) where
  -- There is a metadata row for the hash, and an object.
  abbrev pub HasRow : Bytes → Stored b → Type 0
  HasRow hash s = (r : MetadataRow) × (b.metadata.find s.rows hash ≡ some r)

  abbrev pub HasObject : Bytes → Stored b → Type 0
  HasObject hash s = (v : Bytes) × (b.bucket.object s.objects (hash_to_hex b up hash) ≡ some v)

  abbrev pub IsDurable : Stored b → Type 0
  IsDurable s =
      (j : Association)
      → b.fragments.find s.associations j ≡ some tt
      → HasRow j.hash s × HasObject j.hash s

  abbrev pub stored_object : Bytes → Bytes → Stored b → Stored b
  stored_object hash payload s = record s {
    objects = b.bucket.put (hash_to_hex b up hash) payload s.objects;
  }

  stored_object-HasObject :
      (hash h payload : Bytes) (s : Stored b)
      → HasObject h s
      → HasObject h (stored_object hash payload s)
  stored_object-HasObject hash h payload s (v, e) =
      elim (key-cases bytes_eq (hash_to_hex b up hash) (hash_to_hex b up h)) [
        | inl same ↦ (
          payload,
          ap (b.bucket.object (stored_object hash payload s).objects) (sym same)
              ∙ b.bucket.object-put_self (hash_to_hex b up hash) payload s.objects,
        )
        | inr apart ↦ (
          v,
          b.bucket.object-put_ne (hash_to_hex b up hash) (hash_to_hex b up h) payload s.objects
                apart
              ∙ e,
        )
      ]

  pub stored_object-IsDurable :
      (hash payload : Bytes) (s : Stored b) → IsDurable s → IsDurable (stored_object hash payload s)
  stored_object-IsDurable hash payload s d j h =
      let (row, object) = d j h in (row, stored_object-HasObject hash j.hash payload s object)

  abbrev pub described : Bytes → Fragment → Stored b → Stored b
  described hash f s = record s { rows = (b.metadata.upsert hash (metadata_row f) s.rows).1 }

  described-HasRow :
      (hash h : Bytes) (f : Fragment) (s : Stored b) → HasRow h s → HasRow h (described hash f s)
  described-HasRow hash h f s (r, e) = elim (key-cases bytes_eq hash h) [
    | inl same ↦ (
      metadata_row f,
      ap (b.metadata.find (described hash f s).rows) (sym same)
          ∙ find-upsert_self b.metadata hash (metadata_row f) s.rows,
    )
    | inr apart ↦ (r, find-upsert_ne b.metadata hash h (metadata_row f) s.rows apart ∙ e)
  ]

  pub described-IsDurable :
      (hash : Bytes) (f : Fragment) (s : Stored b) → IsDurable s → IsDurable (described hash f s)
  described-IsDurable hash f s d j h =
      let (row, object) = d j h in (described-HasRow hash j.hash f s row, object)

  abbrev pub associated : Association → Stored b → Stored b
  associated k s = record s { associations = (b.fragments.insert_new k tt s.associations).1 }

  -- A new association needs both for its hash.
  pub associated-IsDurable :
      (k : Association) (s : Stored b)
      → IsDurable s
      → HasRow k.hash s
      → HasObject k.hash s
      → IsDurable (associated k s)
  associated-IsDurable k s d row object j h = elim (key-cases association_eq k j) [
    | inl same ↦
        (subst (λ i. HasRow i.hash s) same row, subst (λ i. HasObject i.hash s) same object)
    | inr apart ↦ d j (sym (find-insert_new_ne b.fragments k j tt s.associations apart) ∙ h)
  ]

  module _ (force_write : Bool) where
    pub rewritten-IsDurable :
        (hash : Bytes) (new old : Fragment) (s : Stored b)
        → IsDurable s
        → IsDurable (rewritten b up force_write hash new old s)
    rewritten-IsDurable hash new old s d j h =
        let ((r, e), object) = d j h in
        let p = λ (x : MetadataRow). same_row x (metadata_row old) in
        let law = b.metadata.find-update_if hash j.hash p (metadata_row new) s.rows in
        elim (Bool-cases (bytes_eq.beq hash j.hash && satisfies p (b.metadata.find s.rows hash))) [
          | inl hit ↦ ((metadata_row new, law ∙ rw hit), object)
          | inr miss ↦ ((r, law ∙ rw miss e), object)
        ]

    pub dissociated-IsDurable :
        (k : Association) (s : Stored b)
        → IsDurable s
        → IsDurable (dissociated b up force_write k s)
    dissociated-IsDurable k s d j h =
        d j (find-delete_if_some b.fragments k j (λ row. true) tt s.associations h)

    -- An object may go once no association leads to it.
    pub unstored-IsDurable :
        (hash : Bytes) (s : Stored b)
        → IsDurable s
        → Unused b up force_write hash s
        → IsDurable (unstored b up force_write hash s)
    unstored-IsDurable hash s d unused j h =
        let (row, (v, e)) = d j h in
        (
          row,
          (
            v,
            b.bucket.object-delete_ne (hash_to_hex b up hash) (hash_to_hex b up j.hash) s.objects
                  (λ q. unused j h (sym (up.to_hex_str-injective hash j.hash q)))
                ∙ e,
          ),
        )
