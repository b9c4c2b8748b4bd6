-- ===== src/Immutable/Fuel.antt =====
-- How much fuel `obliterate` of lore-pg/src/store/pg_immutable_store.rs needs.
use Prim.Native.Nat.{bit_and, bit_or}
use lore_stack.Common.{
  ℕ, zero, suc, ◌<◌, ◌^◌, ◌≡◌, refl, ap, ◌∙◌, Bool, true, false, List, [], ◌∷◌, Bytes, length,
  arith, if◌then◌else◌, ◌||◌,
}
use lore_stack.Common.Eq.{◌==◌, nat_eq, list_eq}
use lore_stack.Sql.World.{Result, World, pure, from_result, continue, ◌>>=◌}
use lore_stack.Immutable.Types.{Address, StoreError, Fragment, Upstream, Backend, Stored}
use lore_stack.Immutable.Index.{
  Store, metadata_with_size_validation, is_obliteration, update_metadata_cas,
}
use lore_stack.Immutable.Payload.{get_s3_object_contents, read_payload}
use lore_stack.Immutable.Store.{attempt}
use lore_stack.Immutable.Obliterate.{
  obliterate, obliterate_in, sub_fragments, each_failed, obliterating_row, failed,
}
use lore_stack.Immutable.Keeps.{Keeps, Keeps-from_result, Keeps-attempt, bind_agree}
use lore_stack.Immutable.Marks.{Covers, Alive, Fewer, Read}
use lore_stack.Immutable.Descend.{Keeps-contents}
use lore_stack.Immutable.Marking.{metadata-Read, mark-Fewer, proceed, Keeps-obliterate_in}

module _ (b : Backend) (up : Upstream) (force_write : Bool)
    (bounded : (n : ℕ) → n < 2 ^ 32 → bit_or n up.payload_obliterating < 2 ^ 32)
    (marks : (n : ℕ)
      → n < 2 ^ 32
      → (bit_and (bit_or n up.payload_obliterating) up.payload_obliteration == 0) ≡ false) where
  pub if_agree :
      (x : Bool) (p m m' : Store b (Unit {0})) (w : World (Stored b))
      → (x ≡ false → m w ≡ m' w)
      → (if x then p else m) w ≡ (if x then p else m') w
  if_agree true p m m' w agree = refl
  if_agree false p m m' w agree = agree refl

  -- On the worlds that `n` hashes cover, the two do the same.
  abbrev pub Alike : ℕ → (Address → Store b (Unit {0})) → (Address → Store b (Unit {0})) → Type 0
  Alike n each each' =
      (a : Address) (w : World (Stored b))
      → Alive b up force_write bounded marks n w.committed
      → each a w ≡ each' a w

  abbrev pub rest_failed :
      (Address → Store b (Unit {0}))
      → Bytes
      → List Bytes
      → Result StoreError (Unit {0})
      → Store b Bool
  rest_failed each context hs r = do
    rest ← each_failed b up force_write each context hs
    pure (failed b up force_write r || rest)

  pub each_failed_agree :
      (n : ℕ) (each each' : Address → Store b (Unit {0})) (context : Bytes) (hashes : List Bytes)
      (w : World (Stored b))
      → ((a : Address) → Keeps b (Alive b up force_write bounded marks n) (each a))
      → Alike n each each'
      → Alive b up force_write bounded marks n w.committed
      → each_failed b up force_write each context hashes w
        ≡ each_failed b up force_write each' context hashes w
  unfolding each_failed
  each_failed_agree n each each' context [] w keeps agree alive = refl
  each_failed_agree n each each' context (h ∷ hs) w keeps agree alive =
      let a : Address = record { hash = h; context = context } in
      bind_agree b {P = λ w. Alive b up force_write bounded marks n w.committed}
        {Q = λ r w. Alive b up force_write bounded marks n w.committed}
        {R = λ e w. Alive b up force_write bounded marks n w.committed} (attempt b up (each a))
        (rest_failed each context hs) (rest_failed each' context hs) w
        (Keeps-attempt b (Alive b up force_write bounded marks n) up (each a) (keeps a)) alive
        (λ r v q.
          ap (continue (λ failures. pure (failed b up force_write r || failures)))
            (each_failed_agree n each each' context hs v keeps agree q))
      ∙ ap (λ o. rest_failed each' context hs o.0 o.1) (agree a w alive)

  pub sub_fragments_agree :
      (n : ℕ) (each each' : Address → Store b (Unit {0})) (address : Address)
      (original updated : Fragment) (w : World (Stored b))
      → ((a : Address) → Keeps b (Alive b up force_write bounded marks n) (each a))
      → Alike n each each'
      → Alive b up force_write bounded marks n w.committed
      → sub_fragments b up force_write each address original updated w
        ≡ sub_fragments b up force_write each' address original updated w
  unfolding sub_fragments
  sub_fragments_agree n each each' address original updated w keeps agree alive =
      if_agree (bit_and updated.flags up.payload_fragmented == 0) _ _ _ w (λ e.
        bind_agree b {P = λ w. Alive b up force_write bounded marks n w.committed}
          {Q = λ r w. Alive b up force_write bounded marks n w.committed}
          {R = λ e w. Alive b up force_write bounded marks n w.committed}
          (get_s3_object_contents b up address.hash) _ _ w
          (Keeps-contents b up force_write (Alive b up force_write bounded marks n) address.hash)
          alive
          (λ contents v q.
            bind_agree b {P = λ w. Alive b up force_write bounded marks n w.committed}
              {Q = λ r w. Alive b up force_write bounded marks n w.committed}
              {R = λ e w. Alive b up force_write bounded marks n w.committed}
              (from_result (read_payload b up force_write contents.0 original)) _ _ v
              (Keeps-from_result b (Alive b up force_write bounded marks n)
                (read_payload b up force_write contents.0 original))
              q
              (λ payload v' q'. ap (continue _) (
                each_failed_agree n each each' address.context (up.references payload) v' keeps
                  agree q'))))

  pub proceed_agree :
      (n : ℕ) (each each' : Address → Store b (Unit {0})) (repository : Bytes) (address : Address)
      (f : Fragment) (w : World (Stored b))
      → ((k : ℕ) (a : Address) → Keeps b (Alive b up force_write bounded marks k) (each a))
      → ((k : ℕ) → k < n → Alike k each each')
      → is_obliteration b up f ≡ false
      → Alive b up force_write bounded marks n w.committed
        × Read b up force_write bounded marks address.hash f w.committed
      → proceed b up force_write bounded marks each repository address f w
        ≡ proceed b up force_write bounded marks each' repository address f w
  proceed_agree zero each each' repository address f w keeps agree e h =
      bind_agree b
        {P = λ w.
          Alive b up force_write bounded marks zero w.committed
          × Read b up force_write bounded marks address.hash f w.committed}
        {Q = λ u w. Fewer b up force_write bounded marks zero w.committed}
        {R = λ e w. Alive b up force_write bounded marks zero w.committed}
        (update_metadata_cas b address.hash (obliterating_row b up force_write f) f) _ _ w
        (mark-Fewer b up force_write bounded marks zero address.hash f e) h
        (λ u v q. absurd (omega (arith, q.1)))
  proceed_agree (suc n) each each' repository address f w keeps agree e h =
      bind_agree b
        {P = λ w.
          Alive b up force_write bounded marks (suc n) w.committed
          × Read b up force_write bounded marks address.hash f w.committed}
        {Q = λ u w. Fewer b up force_write bounded marks (suc n) w.committed}
        {R = λ e w. Alive b up force_write bounded marks (suc n) w.committed}
        (update_metadata_cas b address.hash (obliterating_row b up force_write f) f) _ _ w
        (mark-Fewer b up force_write bounded marks (suc n) address.hash f e) h
        (λ u v q. ap (continue _) (
          sub_fragments_agree n each each' address f (obliterating_row b up force_write f) v
            (keeps n) (agree n (omega arith)) (q.0, omega (arith, q.1), q.2)))

  pub obliterate_in_agree :
      (f g n : ℕ) (repository : Bytes)
      → n < f
      → n < g
      → Alike n
          (obliterate_in b up force_write f repository)
          (obliterate_in b up force_write g repository)
  unfolding obliterate_in
  obliterate_in_agree zero g n repository lf lg a w alive = absurd (omega arith)
  obliterate_in_agree (suc f) zero n repository lf lg a w alive = absurd (omega arith)
  obliterate_in_agree (suc f) (suc g) n repository lf lg a w alive =
      bind_agree b {P = λ w. Alive b up force_write bounded marks n w.committed}
        {Q = λ r w.
          Alive b up force_write bounded marks n w.committed
          × Read b up force_write bounded marks a.hash r w.committed}
        {R = λ e w. Alive b up force_write bounded marks n w.committed}
        (metadata_with_size_validation b up a.hash) _ _ w
        (metadata-Read b up force_write bounded marks n a.hash) alive
        (λ original v q. if_agree (is_obliteration b up original) _ _ _ v (λ e.
          proceed_agree n (obliterate_in b up force_write f repository)
            (obliterate_in b up force_write g repository) repository a original v
            (λ k c. Keeps-obliterate_in b up force_write bounded marks f k repository c)
            (λ k less. obliterate_in_agree f g k repository (omega arith) (omega arith)) e q))

  -- Where setting the obliterating bit of 32-bit flags keeps them in 32 bits and makes them count
  -- as marked: if a list of hashes has the hash of every row without a mark, then `obliterate`
  -- does the same, whatever becomes of the requests, with any two amounts of fuel above the
  -- length of the list.
  pub obliterate-fuel :
      (hashes : List Bytes) (f g : ℕ) (partition : Bytes) (address : Address) (w : World (Stored b))
      → Covers b up force_write bounded marks hashes w.committed
      → length hashes < f
      → length hashes < g
      → obliterate b up force_write f partition address w
        ≡ obliterate b up force_write g partition address w
  unfolding obliterate
  obliterate-fuel hashes f g partition address w cover lf lg =
      obliterate_in_agree f g (length hashes) (up.context_of partition) lf lg address w
        (hashes, omega arith, cover)
