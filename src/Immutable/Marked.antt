-- ===== src/Immutable/Marked.antt =====
-- What the metadata row of a hash says of the sessions that obliterate it, in
-- lore-pg/src/store/pg_immutable_store.rs.
use Prim.Native.Nat.{bit_and, bit_or}
use lore_stack.Common.{
  ℕ, ◌<◌, ◌^◌, ◌%◌, ◌≡◌, ◌≢◌, refl, ap, sym, subst, Bool, true, false, Option, some, none, [],
  Bytes, arith, if◌then◌else◌,
}
use lore_stack.Common.Eq.{◌==◌, nat_eq, list_eq, int_eq}
use lore_stack.Common.Int.{pos, i64_as_u64}
use lore_stack.Sql.Table.{satisfies, affected}
use lore_stack.Sql.World.{Result, World, ok, pure, raise, continue, checkout, auto}
use lore_stack.Sql.Triple.{world}
use lore_stack.Immutable.Types.{
  Cause, internal, StoreError, Fragment, MetadataRow, Upstream, Backend, Stored,
}
use lore_stack.Immutable.Index.{
  row_or_missing, metadata_row, fragment_of_row, same_row, is_obliteration,
  metadata_with_size_validation, fetch_metadata, update_metadata_cas,
}
use lore_stack.Immutable.Obliterate.{obliterating_row}
use lore_stack.Immutable.Requests.{rewritten}
use lore_stack.Immutable.Sessions.{Erasure, Pc}

-- What a session that has set the mark, and has not finished, works on.
abbrev pub inside : Pc → Option (Erasure × Fragment)
inside Pc.idle = none
inside (Pc.read a f) = none
inside (Pc.marked a f) = some (a, f)
inside (Pc.removed a f) = some (a, f)
inside (Pc.counted a f x) = some (a, f)
inside (Pc.emptied a f) = some (a, f)

module _ (b : Backend) (up : Upstream) (force_write : Bool)
    (marks : (n : ℕ)
      → n < 2 ^ 32
      → (bit_and (bit_or n up.payload_obliterating) up.payload_obliteration == 0) ≡ false) where
  abbrev pub marked_row : Fragment → MetadataRow
  marked_row f = metadata_row (obliterating_row b up force_write f)

  -- The row of the hash is the marked one of a fragment.
  abbrev pub Carries : Bytes → Fragment → Stored b → Type 0
  Carries hash f s = (f.flags < 2 ^ 32) × (b.metadata.find s.rows hash ≡ some (marked_row f))

  -- What a session has read is no mark.
  abbrev pub Sound : Pc → Type 0
  Sound Pc.idle = Unit {0}
  Sound (Pc.read a f) = (f.flags < 2 ^ 32) × (is_obliteration b up f ≡ false)
  Sound (Pc.marked a f) = f.flags < 2 ^ 32
  Sound (Pc.removed a f) = f.flags < 2 ^ 32
  Sound (Pc.counted a f x) = f.flags < 2 ^ 32
  Sound (Pc.emptied a f) = f.flags < 2 ^ 32

  chosen :
      (x : Bool) (g f : Fragment) (w : World (Stored b))
      → ((if x then pure g else raise (internal Cause.invalid_fragment)) w).0 ≡ ok f
      → f ≡ g
  chosen true g f w h = cc
  chosen false g f w h = absurd cc

  pub read_small :
      (hash : Bytes) (f : Fragment) (s : Stored b)
      → metadata_with_size_validation b up hash (world s s []) ≡ (ok f, world s s [])
      → f.flags < 2 ^ 32
  unfolding metadata_with_size_validation fetch_metadata fragment_of_row checkout auto
  read_small hash f s h = go (b.metadata.find s.rows hash) (ap (λ o. o.0) h)
    where
      go :
          (row : Option MetadataRow)
          → (continue
              (λ g.
                if up.validate_fragment_size g
                then pure g
                else raise (internal Cause.invalid_fragment))
              (row_or_missing b up hash row, world s s [])).0
            ≡ ok f
          → f.flags < 2 ^ 32
      go none q = absurd (cc)
      go (some r) q =
          let e =
            chosen (up.validate_fragment_size (fragment_of_row r)) (fragment_of_row r) f
              (world s s []) q in
          let low : i64_as_u64 r.flags % 2 ^ 32 < 2 ^ 32 = omega arith in
          subst (λ g. g.flags < 2 ^ 32) (sym e) low

  conflict :
      (x : Bool) (w : World (Stored b))
      → ((if affected x == 0 then raise (internal Cause.metadata_conflict) else pure tt) w).0
        ≡ ok tt
      → x ≡ true
  conflict true w h = refl
  conflict false w h = cc

  landed :
      (x : Bool) (w v : World (Stored b)) (r : Result StoreError (Unit {0}))
      → (if x then raise (internal Cause.metadata_conflict) else pure tt) w ≡ (r, v)
      → v ≡ w
  landed true w v r h = sym (ap (λ o. o.1) h)
  landed false w v r h = sym (ap (λ o. o.1) h)

  -- A conditional update that reports success met the row that it expects.
  pub swapped_row :
      (hash : Bytes) (new old : Fragment) (s t : Stored b)
      → update_metadata_cas b hash new old (world s s []) ≡ (ok tt, world t s [])
      → satisfies (λ r. same_row r (metadata_row old)) (b.metadata.find s.rows hash) ≡ true
  unfolding update_metadata_cas checkout auto
  swapped_row hash new old s t h =
      let w = world (rewritten b up force_write hash new old s) s [] in
      conflict _ w (
        subst
          (λ n.
            ((if n == 0 then raise (internal Cause.metadata_conflict) else pure tt) w).0 ≡ ok tt)
          (b.metadata.update_if_count hash (λ r. same_row r (metadata_row old)) (metadata_row new)
            s.rows)
          (ap (λ o. o.0) h))

  pub swapped_to :
      (hash : Bytes) (new old : Fragment) (s t o : Stored b) (r : Result StoreError (Unit {0}))
      → update_metadata_cas b hash new old (world s o []) ≡ (r, world t o [])
      → t.rows ≡ (rewritten b up force_write hash new old s).rows
  unfolding update_metadata_cas checkout auto
  swapped_to hash new old s t o r h =
      ap (λ w. w.committed.rows)
        (landed _ (world (rewritten b up force_write hash new old s) o []) (world t o []) r h)

  -- An unmarked row is not a marked one.
  pub unmarked_row :
      (f g : Fragment) (x : Option MetadataRow)
      → g.flags < 2 ^ 32
      → is_obliteration b up f ≡ false
      → satisfies (λ r. same_row r (metadata_row f)) x ≡ true
      → x ≢ some (marked_row g)
  unfolding same_row metadata_row
  unmarked_row f g none small alive met e = cc
  unmarked_row f g (some r) small alive met e =
      let q : r ≡ marked_row g = cc in
      let flags : pos f.flags ≡ pos (bit_or g.flags up.payload_obliterating) =
        ground (arith, int_eq.beq_iff r.flags (pos f.flags), ap (λ x. x.flags) q) in
      ground (arith, marks g.flags small, flags)
