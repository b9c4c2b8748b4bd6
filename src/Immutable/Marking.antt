-- ===== src/Immutable/Marking.antt =====
-- How obliterate of lore-pg/src/store/pg_immutable_store.rs sets a mark, and that it keeps the
-- others.
use Prim.Native.Nat.{bit_and, bit_or}
use lore_stack.Common.{
  ℕ, zero, suc, ◌<◌, ◌^◌, ◌≡◌, refl, Bool, true, false, Option, some, none, List, Bytes, length,
  arith, if◌then◌else◌,
}
use lore_stack.Common.Eq.{◌==◌, nat_eq, list_eq}
use lore_stack.Sql.World.{pure, raise, from_result, ◌>>◌}
use lore_stack.Sql.Triple.{
  Triple, Triple-bind, Triple-pure, Triple-raise, Triple-auto, Triple-checkout, Triple-weaken,
}
use lore_stack.Immutable.Types.{Cause, Address, Fragment, MetadataRow, Upstream, Backend, internal}
use lore_stack.Immutable.Index.{
  Store, fragment_of_row, metadata_with_size_validation, fetch_metadata, is_obliteration,
  update_metadata_cas, on_rows, row_or_missing,
}
use lore_stack.Immutable.Obliterate.{obliterate_in, sub_fragments, settle, obliterating_row}
use lore_stack.Immutable.Keeps.{Keeps, Keeps-checkout, Keeps-raise}
use lore_stack.Immutable.Marks.{Alive, Fewer, Read, marking}
use lore_stack.Immutable.Settle.{settle-Fewer}
use lore_stack.Immutable.Descend.{Keeps-sub_fragments}

module _ (b : Backend) (up : Upstream) (force_write : Bool)
    (bounded : (n : ℕ) → n < 2 ^ 32 → bit_or n up.payload_obliterating < 2 ^ 32)
    (marks : (n : ℕ)
      → n < 2 ^ 32
      → (bit_and (bit_or n up.payload_obliterating) up.payload_obliteration == 0) ≡ false) where
  pub metadata-Read :
      (n : ℕ) (hash : Bytes)
      → Triple
          (λ w. Alive b up force_write bounded marks n w.committed)
          (metadata_with_size_validation b up hash)
          (λ f w.
            Alive b up force_write bounded marks n w.committed
            × Read b up force_write bounded marks hash f w.committed)
          (λ e w. Alive b up force_write bounded marks n w.committed)
  unfolding metadata_with_size_validation fetch_metadata
  metadata-Read n hash =
      Triple-bind
        (Triple-bind
          (Keeps-checkout b (Alive b up force_write bounded marks n) (internal Cause.pool))
          (λ u.
            Triple-bind
              (Triple-auto
                {Q = λ row w.
                  Alive b up force_write bounded marks n w.committed
                  × (b.metadata.find w.committed.rows hash ≡ row)}
                (internal Cause.load_metadata) (on_rows b (λ t. (b.metadata.find t hash, t)))
                (λ c t fs h. (h, refl)) (λ c t fs h x. (h, h)))
              found))
        (λ f. validated f (up.validate_fragment_size f))
    where
      found :
          (row : Option MetadataRow)
          → Triple
              (λ w.
                Alive b up force_write bounded marks n w.committed
                × (b.metadata.find w.committed.rows hash ≡ row))
              (from_result (row_or_missing b up hash row))
              (λ f w.
                Alive b up force_write bounded marks n w.committed
                × Read b up force_write bounded marks hash f w.committed)
              (λ e w. Alive b up force_write bounded marks n w.committed)
      found none = Triple-raise _ (λ w h. h.0)
      found (some r) = Triple-pure (fragment_of_row r) (λ w h. (h.0, (r, h.1, refl)))

      validated :
          (f : Fragment) (x : Bool)
          → Triple
              (λ w.
                Alive b up force_write bounded marks n w.committed
                × Read b up force_write bounded marks hash f w.committed)
              (if x then pure f else raise (internal Cause.invalid_fragment))
              (λ f w.
                Alive b up force_write bounded marks n w.committed
                × Read b up force_write bounded marks hash f w.committed)
              (λ e w. Alive b up force_write bounded marks n w.committed)
      validated f true = Triple-pure f (λ w h. h)
      validated f false = Triple-raise (internal Cause.invalid_fragment) (λ w h. h.0)

  pub mark-Fewer :
      (n : ℕ) (hash : Bytes) (f : Fragment)
      → is_obliteration b up f ≡ false
      → Triple
          (λ w.
            Alive b up force_write bounded marks n w.committed
            × Read b up force_write bounded marks hash f w.committed)
          (update_metadata_cas b hash (obliterating_row b up force_write f) f)
          (λ u w. Fewer b up force_write bounded marks n w.committed)
          (λ e w. Alive b up force_write bounded marks n w.committed)
  unfolding update_metadata_cas
  mark-Fewer n hash f alive =
      Triple-bind
        (Triple-checkout
          {Q = λ u w.
            Alive b up force_write bounded marks n w.committed
            × Read b up force_write bounded marks hash f w.committed}
          (internal Cause.pool) (λ c t fs h. h) (λ c t fs h x. h.0))
        (λ u.
          Triple-bind
            (Triple-auto
              {Q = λ k w.
                Alive b up force_write bounded marks n w.committed
                × ((k == 0) ≡ false → Fewer b up force_write bounded marks n w.committed)}
              (internal Cause.update_metadata) _
              (λ c t fs h. marking b up force_write bounded marks n hash f c h.0 h.1 alive)
              (λ c t fs h x.
                (h.0, (marking b up force_write bounded marks n hash f c h.0 h.1 alive).0)))
            (λ k. affected_row (k == 0)))
    where
      affected_row :
          (x : Bool)
          → Triple
              (λ w.
                Alive b up force_write bounded marks n w.committed
                × (x ≡ false → Fewer b up force_write bounded marks n w.committed))
              (if x then raise (internal Cause.metadata_conflict) else pure tt)
              (λ u w. Fewer b up force_write bounded marks n w.committed)
              (λ e w. Alive b up force_write bounded marks n w.committed)
      affected_row true = Triple-raise (internal Cause.metadata_conflict) (λ w h. h.0)
      affected_row false = Triple-pure tt (λ w h. h.1 refl)

  -- What keeps the rows covered by any number of hashes keeps them covered by fewer than that.
  Keeps-Fewer :
      (n : ℕ) (m : Store b (Unit {0}))
      → ((k : ℕ) → Keeps b (Alive b up force_write bounded marks k) m)
      → Triple
          (λ w. Fewer b up force_write bounded marks n w.committed)
          m
          (λ u w. Fewer b up force_write bounded marks n w.committed)
          (λ e w. Alive b up force_write bounded marks n w.committed)
  Keeps-Fewer zero m keeps = record { at = λ w h. absurd (none_fewer h.0 h.1) }
    where
      none_fewer : (hashes : List Bytes) → length hashes < 0 → ⊥
      none_fewer hashes short = omega arith
  Keeps-Fewer (suc n) m keeps =
      Triple-weaken (λ w h. (h.0, omega (arith, h.1), h.2))
        (λ u w h. (h.0, omega (arith, h.1), h.2)) (λ e w h. (h.0, omega (arith, h.1), h.2))
        (keeps n)

  -- What follows the check for a mark, with what to do for the sub-fragments.
  abbrev pub proceed :
      (Address → Store b (Unit {0})) → Bytes → Address → Fragment → Store b (Unit {0})
  proceed each repository address f = do
    update_metadata_cas b address.hash (obliterating_row b up force_write f) f
    sub_fragments b up force_write each address f (obliterating_row b up force_write f)
    settle b up force_write repository address f (obliterating_row b up force_write f)

  Keeps-proceed :
      (n : ℕ) (each : Address → Store b (Unit {0})) (repository : Bytes) (address : Address)
      (f : Fragment) (x : Bool)
      → ((k : ℕ) (a : Address) → Keeps b (Alive b up force_write bounded marks k) (each a))
      → is_obliteration b up f ≡ x
      → Triple
          (λ w.
            Alive b up force_write bounded marks n w.committed
            × Read b up force_write bounded marks address.hash f w.committed)
          (if x then pure tt else proceed each repository address f)
          (λ u w. Alive b up force_write bounded marks n w.committed)
          (λ e w. Alive b up force_write bounded marks n w.committed)
  Keeps-proceed n each repository address f true keeps e = Triple-pure tt (λ w h. h.0)
  Keeps-proceed n each repository address f false keeps e =
      Triple-bind (mark-Fewer n address.hash f e) (λ u.
        Triple-bind
          (Keeps-Fewer n
            (sub_fragments b up force_write each address f (obliterating_row b up force_write f))
            (λ k.
              Keeps-sub_fragments b up force_write (Alive b up force_write bounded marks k) each
                (keeps k) address f (obliterating_row b up force_write f)))
          (λ u'.
            settle-Fewer b up force_write bounded marks n repository address f
              (obliterating_row b up force_write f)))

  pub Keeps-obliterate_in :
      (fuel n : ℕ) (repository : Bytes) (address : Address)
      → Keeps b
          (Alive b up force_write bounded marks n)
          (obliterate_in b up force_write fuel repository address)
  unfolding obliterate_in
  Keeps-obliterate_in zero n repository address =
      Keeps-raise b (Alive b up force_write bounded marks n) (internal Cause.out_of_fuel)
  Keeps-obliterate_in (suc fuel) n repository address =
      Triple-bind (metadata-Read n address.hash) (λ f.
        Keeps-proceed n (obliterate_in b up force_write fuel repository) repository address f
          (is_obliteration b up f) (λ k a. Keeps-obliterate_in fuel k repository a) refl)
