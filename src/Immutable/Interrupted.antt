-- ===== src/Immutable/Interrupted.antt =====
-- `obliterate` of lore-pg/src/store/pg_immutable_store.rs where a request fails after the mark is
-- set.
use Prim.Native.Nat.{bit_and, bit_or}
use lore_stack.Common.{
  Option-cases, inl, inr, ℕ, suc, sym, ◌+◌, ◌≢◌, List, if◌then◌else◌, subst, ◌≡◌, refl, ap, ◌∙◌,
  Bool, true, false, some, [], ◌∷◌, Bytes,
}
use lore_stack.Common.Eq.{◌==◌, nat_eq, list_eq}
use lore_stack.Sql.World.{Result, ok, err, answered, checkout, auto, World, Fate, ◌>>◌}
use lore_stack.Sql.Triple.{
  Triple-assume, world, Triple, Post, Triple-bind, Triple-weaken, Triple-auto, Triple-pure,
}
use lore_stack.Immutable.Types.{
  Cause, StoreError, Address, Fragment, Upstream, Backend, Stored, internal, address_not_found,
}
use lore_stack.Immutable.Index.{
  metadata_row, same_row, is_obliteration, metadata_with_size_validation, fetch_metadata,
  update_metadata_cas, metadata_with_load_validation, ensure_exists, exists, check_exact,
  zero_context_hash,
}
use lore_stack.Immutable.Payload.{load, delete_payload}
use lore_stack.Immutable.Store.{get}
use lore_stack.Immutable.Fragments.{InRange, fragment_of_row-metadata_row}
use lore_stack.Immutable.Writes.{entry}
use lore_stack.Immutable.Reads.{selected-some, get-unassociated}
use lore_stack.Immutable.Obliterate.{
  obliterate, sub_fragments, settle, obliterating_row, obliterated_row, tally, obliterate-marked,
}
use lore_stack.Immutable.Keeps.{Keeps-checkout}
use lore_stack.Immutable.Requests.{
  Keeps-tally, Keeps-remove, Keeps-has_associations, Keeps-delete_payload,
}
use lore_stack.Immutable.Erase.{replaced, row-replaced, same_row_self}

module _ (b : Backend) (up : Upstream) (force_write : Bool) where
  -- The row of the hash is the marked one of the fragment.
  abbrev pub Stuck : Bytes → Fragment → Stored b → Type 0
  Stuck hash f s =
      b.metadata.find s.rows hash ≡ some (metadata_row (obliterating_row b up force_write f))

  -- With the mark set, no request but the last update takes it away.
  abbrev StillStuck : Bytes → Fragment → StoreError → World (Stored b) → Type 0
  StillStuck hash f e w = e ≢ internal Cause.update_metadata → Stuck hash f w.committed

  last_update :
      (hash : Bytes) (new f : Fragment)
      → Triple
          (λ w. Stuck hash f w.committed)
          (update_metadata_cas b hash new (obliterating_row b up force_write f))
          (λ u w. Unit {0})
          (StillStuck hash f)
  unfolding update_metadata_cas
  last_update hash new f =
      let updated = obliterating_row b up force_write f in
      Triple-bind
        (Triple-weaken (λ w h. h) (λ a w h. h) (λ e w h n. h)
          (Keeps-checkout b (Stuck hash f) (internal Cause.pool)))
        (λ u.
          Triple-bind {Q = λ n w. n ≡ 1}
            (Triple-auto (internal Cause.update_metadata) _
              (λ c t gs h.
                b.metadata.update_if_count hash (λ r. same_row r (metadata_row updated))
                  (metadata_row new) c.rows
                ∙ rw (h, same_row_self (metadata_row updated)) refl)
              (λ c t gs h bad. (λ n. absurd (n refl), λ n. absurd (n refl))))
            (λ n. Triple-assume (n ≡ 1) (λ w h. h) (λ e. rw e (Triple-pure tt (λ w h. tt)))))

  last_part :
      (hash : Bytes) (f : Fragment) (x : Bool)
      → Triple
          (λ w. Stuck hash f w.committed)
          (if x then update_metadata_cas b hash f (obliterating_row b up force_write f) else (do
            delete_payload b up hash
            tally b up force_write (λ s. record s { num_payloads = s.num_payloads + 1 })
            update_metadata_cas b hash
                (obliterated_row b up force_write)
                (obliterating_row b up force_write f)))
          (λ u w. Unit {0})
          (StillStuck hash f)
  last_part hash f true = last_update hash f f
  last_part hash f false =
      Triple-bind
        (Triple-weaken (λ w h. h) (λ a w h. h) (λ e w h n. h)
          (Keeps-delete_payload b up force_write (Stuck hash f) hash (λ s h. h)))
        (λ u.
          Triple-bind
            (Triple-weaken (λ w h. h) (λ a w h. h) (λ e w h n. h)
              (Keeps-tally b up force_write (Stuck hash f) _ (λ s h. h)))
            (λ u'. last_update hash (obliterated_row b up force_write) f))

  settle-StillStuck :
      (repository : Bytes) (address : Address) (f : Fragment)
      → Triple
          (λ w. Stuck address.hash f w.committed)
          (settle b up force_write repository address f (obliterating_row b up force_write f))
          (λ u w. Unit {0})
          (StillStuck address.hash f)
  unfolding settle
  settle-StillStuck repository address f =
      let P = Stuck address.hash f in
      Triple-bind
        (Triple-weaken (λ w h. h) (λ a w h. h) (λ e w h n. h)
          (Keeps-remove b up force_write P repository address (λ s h. h)))
        (λ u.
          Triple-bind
            (Triple-weaken (λ w h. h) (λ a w h. h) (λ e w h n. h)
              (Keeps-tally b up force_write P
                (λ s. record s { num_fragments = s.num_fragments + 1 }) (λ s h. h)))
            (λ u'.
              Triple-bind
                (Triple-weaken (λ w h. h) (λ a w h. h) (λ e w h n. h)
                  (Keeps-has_associations b up force_write P address.hash))
                (λ remain. last_part address.hash f remain)))

  -- After the first four requests the mark is set, and `settle` is left.
  marked_first :
      (fuel : ℕ) (partition : Bytes) (address : Address) (f : Fragment) (s t : Stored b)
      (fs : List Fate)
      → InRange f
      → up.validate_fragment_size f ≡ true
      → is_obliteration b up f ≡ false
      → (bit_and (bit_or f.flags up.payload_obliterating) up.payload_fragmented == 0) ≡ true
      → b.metadata.find s.rows address.hash ≡ some (metadata_row f)
      → obliterate b up force_write
          (suc fuel)
          partition
          address
          (world s t (answered ∷ answered ∷ answered ∷ answered ∷ fs))
        ≡ settle b up force_write
            (up.context_of partition)
            address
            f
            (obliterating_row b up force_write f)
            (world
              (record s {
                rows =
                    replaced b up force_write address.hash
                      (obliterating_row b up force_write f)
                      f
                      s.rows;
              })
              t
              fs)
  unfolding obliterate metadata_with_size_validation fetch_metadata update_metadata_cas
      sub_fragments checkout auto
  marked_first fuel partition address f s t fs range sized alive plain row =
      rw
        (
          row,
          fragment_of_row-metadata_row f range,
          sized,
          alive,
          b.metadata.update_if_count address.hash (λ r. same_row r (metadata_row f))
              (metadata_row (obliterating_row b up force_write f)) s.rows,
          row,
          same_row_self (metadata_row f),
          plain,
        )
        refl

  get-marked :
      (partition : Bytes) (address : Address) (f : Fragment) (s t : Stored b)
      → InRange f
      → up.validate_fragment_size f ≡ true
      → is_obliteration b up f ≡ true
      → entry b up partition address s ≡ some tt
      → b.metadata.find s.rows address.hash ≡ some (metadata_row f)
      → get b up force_write partition address (world s t [])
        ≡ (err (address_not_found (zero_context_hash b up address.hash)), world s t [])
  unfolding get ensure_exists exists check_exact load metadata_with_load_validation fetch_metadata
      checkout auto
  get-marked partition address f s t range sized marked held row =
      rw
        (
          selected-some b up partition address s held,
          row,
          fragment_of_row-metadata_row f range,
          sized,
          marked,
        )
        refl

  -- With the marked row no address of the hash can be read, whether it is associated or not.
  unreadable :
      (other : Bytes) (address a : Address) (f : Fragment) (s t : Stored b)
      → InRange f
      → up.validate_fragment_size f ≡ true
      → is_obliteration b up f ≡ true
      → a.hash ≡ address.hash
      → b.metadata.find s.rows address.hash ≡ some (metadata_row f)
      → (c : Address) × (c.hash ≡ address.hash)
        × ((get b up force_write other a (world s t [])).0 ≡ err (address_not_found c))
  unreadable other address a f s t range sized marked same row =
      elim (Option-cases (entry b up other a s)) [
        | inl absent ↦
            (a, same, ap (λ o. o.0) (get-unassociated b up force_write other a s t absent))
        | inr (u, held) ↦ (
          zero_context_hash b up a.hash,
          same,
          ap (λ o. o.0)
              (get-marked other a f s t range sized marked held
                (ap (b.metadata.find s.rows) same ∙ row)),
        )
      ]

  Stuck-left :
      (hash : Bytes) (f : Fragment) (e : StoreError)
      (o : Result StoreError (Unit {0}) × World (Stored b))
      → Post (λ u w. Unit {0}) (StillStuck hash f) o
      → o.0 ≡ err e
      → e ≢ internal Cause.update_metadata
      → Stuck hash f o.1.committed
  Stuck-left hash f e (ok u, w) h q n = cc
  Stuck-left hash f e (err e', w) h q n = h (λ p. n (cc (p, q)))

  -- For a fragment without sub-fragments, whose row counts as marked with the obliterating bit
  -- and is in range and of a valid size with and without it: where the four requests that set the
  -- mark are answered and `obliterate` then fails at any request, other than the last update of
  -- the row, the mark stays. From then on, while requests are answered, every `obliterate` of the
  -- hash succeeds and changes nothing, and `get` of any address of the hash in any partition is
  -- address-not-found.
  pub obliterate-interrupted :
      (fuel again : ℕ) (partition other : Bytes) (address a : Address) (f : Fragment)
      (s t : Stored b) (fs : List Fate) (e : StoreError)
      → InRange f
      → InRange (obliterating_row b up force_write f)
      → up.validate_fragment_size f ≡ true
      → up.validate_fragment_size (obliterating_row b up force_write f) ≡ true
      → is_obliteration b up f ≡ false
      → is_obliteration b up (obliterating_row b up force_write f) ≡ true
      → (bit_and (bit_or f.flags up.payload_obliterating) up.payload_fragmented == 0) ≡ true
      → b.metadata.find s.rows address.hash ≡ some (metadata_row f)
      → (obliterate b up force_write
          (suc fuel)
          partition
          address
          (world s t (answered ∷ answered ∷ answered ∷ answered ∷ fs))).0
        ≡ err e
      → e ≢ internal Cause.update_metadata
      → a.hash ≡ address.hash
      → let left =
          (obliterate b up force_write
            (suc fuel)
            partition
            address
            (world s t (answered ∷ answered ∷ answered ∷ answered ∷ fs))).1.committed in
        (obliterate b up force_write (suc again) other a (world left t [])
          ≡ (ok tt, world left t []))
        × (c : Address) × (c.hash ≡ address.hash)
        × ((get b up force_write other a (world left t [])).0 ≡ err (address_not_found c))
  obliterate-interrupted fuel again partition other address a f s t fs e range range' sized sized'
        alive dead plain row failed later same =
      let marked = obliterating_row b up force_write f in
      let here = marked_first fuel partition address f s t fs range sized alive plain row in
      let stuck =
        Stuck-left address.hash f e _
          (subst (Post _ (StillStuck address.hash f)) (sym here) (
            (settle-StillStuck (up.context_of partition) address f).at _
              (row-replaced b up force_write address.hash marked f s.rows row)))
          failed later in
      let back = fragment_of_row-metadata_row marked range' in
      let (c, at, missing) = unreadable other address a marked _ t range' sized' dead same stuck in
      (
        obliterate-marked b up force_write again other a (metadata_row marked) _ t
            (ap (b.metadata.find _) same ∙ stuck) (ap up.validate_fragment_size back ∙ sized')
            (ap (is_obliteration b up) back ∙ dead),
        c,
        at,
        missing,
      )
