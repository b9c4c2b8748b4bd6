-- ===== src/Immutable/Settle.antt =====
-- What obliterate of lore-pg/src/store/pg_immutable_store.rs does to the marks after the mark is
-- set.
use Prim.Native.Nat.{bit_and, bit_or}
use lore_stack.Common.{ℕ, ◌+◌, ◌<◌, ◌^◌, ◌≡◌, Bool, true, false, ◌∷◌, Bytes, arith, if◌then◌else◌}
use lore_stack.Common.Eq.{◌==◌, nat_eq, list_eq}
use lore_stack.Sql.Triple.{Triple, Triple-bind, Triple-auto, Triple-checkout, Triple-weaken}
use lore_stack.Immutable.Types.{Cause, Address, Fragment, Upstream, Backend, Stored, internal}
use lore_stack.Immutable.Index.{Store, update_metadata_cas, remove_association, has_associations}
use lore_stack.Immutable.Payload.{delete_payload}
use lore_stack.Immutable.Obliterate.{settle, obliterated_row, tally}
use lore_stack.Immutable.Keeps.{Keeps, Keeps-pure, Keeps-raise, Keeps-if}
use lore_stack.Immutable.Requests.{
  rewritten, Keeps-tally, Keeps-remove, Keeps-has_associations, Keeps-delete_payload,
}
use lore_stack.Immutable.Marks.{Alive, Covers-rewritten, Fewer, Fewer-Alive}

module _ (b : Backend) (up : Upstream) (force_write : Bool)
    (bounded : (n : ℕ) → n < 2 ^ 32 → bit_or n up.payload_obliterating < 2 ^ 32)
    (marks : (n : ℕ)
      → n < 2 ^ 32
      → (bit_and (bit_or n up.payload_obliterating) up.payload_obliteration == 0) ≡ false) where
  update-Fewer :
      (n : ℕ) (hash : Bytes) (updated expected : Fragment)
      → Triple
          (λ w. Fewer b up force_write bounded marks n w.committed)
          (update_metadata_cas b hash updated expected)
          (λ u w. Alive b up force_write bounded marks n w.committed)
          (λ e w. Alive b up force_write bounded marks n w.committed)
  unfolding update_metadata_cas
  update-Fewer n hash updated expected =
      Triple-bind
        (Triple-checkout {Q = λ u w. Fewer b up force_write bounded marks n w.committed}
          (internal Cause.pool) (λ c t fs h. h)
          (λ c t fs h x. Fewer-Alive b up force_write bounded marks n c h))
        (λ u.
          Triple-bind
            (Triple-auto {Q = λ k w. Alive b up force_write bounded marks n w.committed}
              (internal Cause.update_metadata) _ (λ c t fs h. again c h)
              (λ c t fs h x. (Fewer-Alive b up force_write bounded marks n c h, again c h)))
            (λ k.
              Keeps-if b (Alive b up force_write bounded marks n) (k == 0) _ _
                (Keeps-raise b (Alive b up force_write bounded marks n)
                  (internal Cause.metadata_conflict))
                (Keeps-pure b (Alive b up force_write bounded marks n) tt)))
    where
      again :
          (s : Stored b)
          → Fewer b up force_write bounded marks n s
          → Alive b up force_write bounded marks n
              (rewritten b up force_write hash updated expected s)
      again s (hashes, short, cover) = (
        hash ∷ hashes,
        omega arith,
        Covers-rewritten b up force_write bounded marks hash updated expected hashes s cover,
      )

  abbrev one_fragment : Stored b → Stored b
  one_fragment s = record s { num_fragments = s.num_fragments + 1 }

  abbrev one_payload : Stored b → Stored b
  one_payload s = record s { num_payloads = s.num_payloads + 1 }

  pub settle-Fewer :
      (n : ℕ) (repository : Bytes) (address : Address) (original updated : Fragment)
      → Triple
          (λ w. Fewer b up force_write bounded marks n w.committed)
          (settle b up force_write repository address original updated)
          (λ u w. Alive b up force_write bounded marks n w.committed)
          (λ e w. Alive b up force_write bounded marks n w.committed)
  unfolding settle
  settle-Fewer n repository address original updated =
      Triple-bind
        (weak (remove_association b repository address) (
          Keeps-remove b up force_write (Fewer b up force_write bounded marks n) repository address
            (λ s h. h)))
        (λ u.
          Triple-bind
            (weak (tally b up force_write one_fragment) (
              Keeps-tally b up force_write (Fewer b up force_write bounded marks n) one_fragment
                (λ s h. h)))
            (λ u'.
              Triple-bind
                (weak (has_associations b address.hash) (
                  Keeps-has_associations b up force_write (Fewer b up force_write bounded marks n)
                    address.hash))
                (λ remain. either remain (update-Fewer n address.hash original updated) (
                  Triple-bind
                    (weak (delete_payload b up address.hash) (
                      Keeps-delete_payload b up force_write (Fewer b up force_write bounded marks n)
                        address.hash (λ s h. h)))
                    (λ u3.
                      Triple-bind
                        (weak (tally b up force_write one_payload) (
                          Keeps-tally b up force_write (Fewer b up force_write bounded marks n)
                            one_payload (λ s h. h)))
                        (λ u4.
                          update-Fewer n address.hash (obliterated_row b up force_write)
                            updated))))))
    where
      weak :
          {A : Type 0} (m : Store b A)
          → Keeps b (Fewer b up force_write bounded marks n) m
          → Triple
              (λ w. Fewer b up force_write bounded marks n w.committed)
              m
              (λ a w. Fewer b up force_write bounded marks n w.committed)
              (λ e w. Alive b up force_write bounded marks n w.committed)
      weak m k =
          Triple-weaken (λ w h. h) (λ a w h. h)
            (λ e w h. Fewer-Alive b up force_write bounded marks n w.committed h) k

      either :
          (x : Bool) {m m' : Store b (Unit {0})}
          → Triple
              (λ w. Fewer b up force_write bounded marks n w.committed)
              m
              (λ u w. Alive b up force_write bounded marks n w.committed)
              (λ e w. Alive b up force_write bounded marks n w.committed)
          → Triple
              (λ w. Fewer b up force_write bounded marks n w.committed)
              m'
              (λ u w. Alive b up force_write bounded marks n w.committed)
              (λ e w. Alive b up force_write bounded marks n w.committed)
          → Triple
              (λ w. Fewer b up force_write bounded marks n w.committed)
              (if x then m else m')
              (λ u w. Alive b up force_write bounded marks n w.committed)
              (λ e w. Alive b up force_write bounded marks n w.committed)
      either true h k = h
      either false h k = k
