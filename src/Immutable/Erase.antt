-- ===== src/Immutable/Erase.antt =====
-- `obliterate` of the last association of a fragment without sub-fragments.
use mathlib.Core.List.{Mem, mem-cons_self}
use lore_stack.Common.{
  ◌+◌, ◌≡◌, refl, ap, sym, ◌∙◌, Bool, true, some, none, List, [], ◌∷◌, Bytes, Option-cases, inl,
  inr,
}
use lore_stack.Common.Eq.{◌==◌, nat_eq, list_eq, list_beq_iff, int_eq}
use lore_stack.Sql.Laws.{find-update_if_self, find-delete_if_self, find-delete_if_some}
use lore_stack.Sql.World.{ok, checkout, auto}
use lore_stack.Sql.Triple.{world}
use lore_stack.Immutable.Types.{
  Address, Fragment, Association, MetadataRow, Upstream, Backend, Stored, association_eq,
}
use lore_stack.Immutable.Index.{
  association, metadata_row, same_row, metadata_with_size_validation, fetch_metadata,
  update_metadata_cas,
}
use lore_stack.Immutable.Payload.{hash_to_hex}
use lore_stack.Immutable.Fragments.{InRange, fragment_of_row-metadata_row}
use lore_stack.Immutable.Obliterate.{obliterating_row, obliterated_row}

pub same_row_self : (r : MetadataRow) → same_row r r ≡ true
unfolding same_row
same_row_self r =
    rw
      (
        (int_eq.beq_iff r.flags r.flags).1 refl,
        (int_eq.beq_iff r.size_payload r.size_payload).1 refl,
        (int_eq.beq_iff r.size_content r.size_content).1 refl,
      )
      refl

module _ (b : Backend) (up : Upstream) (force_write : Bool) where
  abbrev pub replaced : Bytes → Fragment → Fragment → b.metadata.T → b.metadata.T
  replaced hash updated expected t =
      (b.metadata.update_if hash (λ r. same_row r (metadata_row expected)) (metadata_row updated)
        t).1

  pub swapped :
      (hash : Bytes) (updated expected : Fragment) (s t : Stored b)
      → b.metadata.find s.rows hash ≡ some (metadata_row expected)
      → update_metadata_cas b hash updated expected (world s t [])
        ≡ (ok tt, world (record s { rows = replaced hash updated expected s.rows }) t [])
  unfolding update_metadata_cas checkout auto
  swapped hash updated expected s t h =
      rw
        (
          b.metadata.update_if_count hash (λ r. same_row r (metadata_row expected))
              (metadata_row updated) s.rows,
          h,
          same_row_self (metadata_row expected),
        )
        refl

  pub row-replaced :
      (hash : Bytes) (updated expected : Fragment) (t : b.metadata.T)
      → b.metadata.find t hash ≡ some (metadata_row expected)
      → b.metadata.find (replaced hash updated expected t) hash ≡ some (metadata_row updated)
  row-replaced hash updated expected t h =
      find-update_if_self b.metadata hash (λ r. same_row r (metadata_row expected))
        (metadata_row updated) (metadata_row expected) t h (same_row_self (metadata_row expected))

  abbrev pub unassociated : Association → b.fragments.T → b.fragments.T
  unassociated k t = (b.fragments.delete_if k (λ row. true) t).1

  pub gone : (k : Association) (t : b.fragments.T) → b.fragments.find (unassociated k t) k ≡ none
  gone k t = elim (Option-cases (b.fragments.find t k)) [
    | inr (u, e) ↦ find-delete_if_self b.fragments k (λ row. true) t (rw e refl)
    | inl e ↦ elim (Option-cases (b.fragments.find (unassociated k t) k)) [
      | inl e' ↦ e'
      | inr (u, e') ↦ cc (find-delete_if_some b.fragments k k (λ row. true) u t e', e)
    ]
  ]

  -- No association of the hash but this one.
  abbrev pub IsLast : Association → b.fragments.T → Type 0
  IsLast k t = (j : Association) → b.fragments.find t j ≡ some tt → j.hash ≡ k.hash → j ≡ k

  pub none_left :
      (k : Association) (t : b.fragments.T)
      → IsLast k t
      → b.fragments.select (λ j u. j.hash == k.hash) (unassociated k t) ≡ []
  none_left k t last =
      empty (b.fragments.select (λ j u. j.hash == k.hash) (unassociated k t))
        (λ j u m. (b.fragments.mem-select _ (unassociated k t) j u).0 m)
    where
      empty :
          (xs : List (Association × Unit {0}))
          → ((j : Association) (u : Unit {0})
              → Mem (j, u) xs
              → (b.fragments.find (unassociated k t) j ≡ some u) × ((j.hash == k.hash) ≡ true))
          → xs ≡ []
      empty [] all = refl
      empty (x ∷ xs) all =
          let (found, same) = all x.0 x.1 mem-cons_self in
          let e =
            last x.0 (find-delete_if_some b.fragments k x.0 (λ row. true) tt t found)
              ((list_beq_iff ⦃e = nat_eq⦄ x.0.hash k.hash).0 same) in
          absurd (no (sym (gone k t) ∙ ap (b.fragments.find (unassociated k t)) (sym e) ∙ found))
        where
          no : none ≡ some x.1 → ⊥
          no p = cc

  -- What is stored after the last association of an address was obliterated.
  abbrev pub erased : Bytes → Address → Fragment → Stored b → Stored b
  erased partition address f s =
      let marked = obliterating_row b up force_write f in
      record {
        associations = unassociated (association (up.context_of partition) address) s.associations;
        rows =
            replaced address.hash (obliterated_row b up force_write) marked
              (replaced address.hash marked f s.rows);
        objects = b.bucket.delete (hash_to_hex b up address.hash) s.objects;
        num_fragments = s.num_fragments + 1;
        num_payloads = s.num_payloads + 1;
      }

  pub validated :
      (hash : Bytes) (f : Fragment) (s t : Stored b)
      → InRange f
      → up.validate_fragment_size f ≡ true
      → b.metadata.find s.rows hash ≡ some (metadata_row f)
      → metadata_with_size_validation b up hash (world s t []) ≡ (ok f, world s t [])
  unfolding metadata_with_size_validation fetch_metadata checkout auto
  validated hash f s t range sized h = rw (h, fragment_of_row-metadata_row f range, sized) refl
