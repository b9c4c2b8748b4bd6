-- ===== src/Immutable/Sweep.antt =====
-- What obliterate of lore-pg/src/store/pg_immutable_store.rs keeps as a whole, whatever becomes of
-- the requests: what each of its writes keeps.
use lore_stack.Common.{ℕ, zero, suc, ◌+◌, ◌≡◌, refl, Bool, true, false, Bytes, if◌then◌else◌}
use lore_stack.Common.Eq.{nat_eq, list_eq}
use lore_stack.Sql.World.{◌>>◌}
use lore_stack.Sql.Triple.{Triple, Triple-bind, Triple-weaken}
use lore_stack.Immutable.Types.{Cause, Address, Fragment, Upstream, Backend, Stored, internal}
use lore_stack.Immutable.Index.{association, is_obliteration, update_metadata_cas}
use lore_stack.Immutable.Payload.{delete_payload}
use lore_stack.Immutable.Obliterate.{
  obliterate_in, settle, obliterating_row, obliterated_row, tally,
}
use lore_stack.Immutable.Keeps.{Keeps, Keeps-pure, Keeps-raise, Keeps-if}
use lore_stack.Immutable.Requests.{
  Unused, has_associations-Unused, rewritten, dissociated, unstored, Keeps-tally, Keeps-metadata,
  Keeps-update, Keeps-remove, Keeps-delete_payload,
}
use lore_stack.Immutable.Descend.{Keeps-sub_fragments}

module _ (b : Backend) (up : Upstream) (force_write : Bool) (repository : Bytes)
    (P : Stored b → Type 0) where
  -- Each write of an obliteration in the repository keeps `P`; an object goes only where no
  -- association of its hash is left.
  pub record Survives : Type 0 where
    pub counters :
        (fragments payloads : ℕ) (s : Stored b)
        → P s
        → P (record s { num_fragments = fragments; num_payloads = payloads })
    pub row :
        (hash : Bytes) (new old : Fragment) (s : Stored b)
        → P s
        → P (rewritten b up force_write hash new old s)
    pub link :
        (address : Address) (s : Stored b)
        → P s
        → P (dissociated b up force_write (association repository address) s)
    pub object :
        (hash : Bytes) (s : Stored b)
        → P s
        → Unused b up force_write hash s
        → P (unstored b up force_write hash s)

  module _ (survives : Survives) where
    pub one_fragment :
        Keeps b P (tally b up force_write (λ s. record s { num_fragments = s.num_fragments + 1 }))
    one_fragment =
        Keeps-tally b up force_write P (λ s. record s { num_fragments = s.num_fragments + 1 })
          (λ s. survives.counters (s.num_fragments + 1) s.num_payloads s)

    pub one_payload :
        Keeps b P (tally b up force_write (λ s. record s { num_payloads = s.num_payloads + 1 }))
    one_payload =
        Keeps-tally b up force_write P (λ s. record s { num_payloads = s.num_payloads + 1 })
          (λ s. survives.counters s.num_fragments (s.num_payloads + 1) s)

    pub updated_row :
        (hash : Bytes) (new old : Fragment) → Keeps b P (update_metadata_cas b hash new old)
    updated_row hash new old =
        Keeps-update b up force_write P hash new old (survives.row hash new old)

    emptied :
        (hash : Bytes)
        → Triple
            (λ w. P w.committed × Unused b up force_write hash w.committed)
            (delete_payload b up hash)
            (λ u w. P w.committed)
            (λ e w. P w.committed)
    emptied hash =
        Triple-weaken (λ w h. h) (λ a w h. h.0) (λ e w h. h.0)
          (Keeps-delete_payload b up force_write (λ s. P s × Unused b up force_write hash s) hash
            (λ s h. (survives.object hash s h.0 h.1, h.1)))

    last :
        (address : Address) (original updated : Fragment) (x : Bool)
        → Triple
            (λ w. P w.committed × (x ≡ false → Unused b up force_write address.hash w.committed))
            (if x then update_metadata_cas b address.hash original updated else (do
              delete_payload b up address.hash
              tally b up force_write (λ s. record s { num_payloads = s.num_payloads + 1 })
              update_metadata_cas b address.hash (obliterated_row b up force_write) updated))
            (λ u w. P w.committed)
            (λ e w. P w.committed)
    last address original updated true =
        Triple-weaken (λ w h. h.0) (λ a w h. h) (λ e w h. h)
          (updated_row address.hash original updated)
    last address original updated false =
        Triple-bind
          (Triple-weaken (λ w h. (h.0, h.1 refl)) (λ a w h. h) (λ e w h. h) (emptied address.hash))
          (λ u.
            Triple-bind one_payload
              (λ u'. updated_row address.hash (obliterated_row b up force_write) updated))

    Keeps-settle :
        (address : Address) (original updated : Fragment)
        → Keeps b P (settle b up force_write repository address original updated)
    unfolding settle
    Keeps-settle address original updated =
        Triple-bind (Keeps-remove b up force_write P repository address (survives.link address))
          (λ u. Triple-bind one_fragment (λ u'.
            Triple-bind (has_associations-Unused b up force_write P address.hash)
              (λ remain. last address original updated remain)))

    pub Keeps-obliterate_in :
        (fuel : ℕ) (address : Address)
        → Keeps b P (obliterate_in b up force_write fuel repository address)
    unfolding obliterate_in
    Keeps-obliterate_in zero address = Keeps-raise b P (internal Cause.out_of_fuel)
    Keeps-obliterate_in (suc fuel) address =
        Triple-bind (Keeps-metadata b up force_write P address.hash) (λ original.
          Keeps-if b P (is_obliteration b up original) _ _ (Keeps-pure b P tt) (
            Triple-bind
              (updated_row address.hash (obliterating_row b up force_write original) original)
              (λ u.
                Triple-bind
                  (Keeps-sub_fragments b up force_write P
                    (obliterate_in b up force_write fuel repository) (Keeps-obliterate_in fuel)
                    address original (obliterating_row b up force_write original))
                  (λ u'.
                    Keeps-settle address original (obliterating_row b up force_write original)))))
