-- ===== src/Immutable/Sessions.antt =====
-- Sessions that run `obliterate` of lore-pg/src/store/pg_immutable_store.rs at once, for fragments
-- without sub-fragments, one request after the other in any order.
use Prim.Native.Nat.{bit_and, bit_or}
use lore_stack.Common.{ℕ, ◌+◌, ◌≡◌, Bool, true, false, [], Bytes}
use lore_stack.Common.Eq.{◌==◌, nat_eq}
use lore_stack.Common.Family.{update}
use lore_stack.Sql.World.{Result, ok, ◌>>◌}
use lore_stack.Sql.Triple.{world}
use lore_stack.Immutable.Types.{Address, StoreError, Fragment, Upstream, Backend, Stored}
use lore_stack.Immutable.Index.{
  metadata_with_size_validation, is_obliteration, update_metadata_cas, remove_association,
  has_associations,
}
use lore_stack.Immutable.Payload.{delete_payload}
use lore_stack.Immutable.Obliterate.{obliterating_row, obliterated_row, tally}

-- The arguments of one call.
pub record Erasure : Type 0 where
  pub partition : Bytes
  pub address : Address

-- Where a session stands: outside; with the metadata read, before the CAS that sets the mark;
-- after it; without the association; with the answer of `has_associations`; without the payload.
pub data Pc : Type 0 where
  idle : Pc
  read : (a : Erasure) (original : Fragment) → Pc
  marked : (a : Erasure) (original : Fragment) → Pc
  removed : (a : Erasure) (original : Fragment) → Pc
  counted : (a : Erasure) (original : Fragment) (remain_associated : Bool) → Pc
  emptied : (a : Erasure) (original : Fragment) → Pc

module _ (b : Backend) (up : Upstream) (force_write : Bool) where
  -- One request of one session that is answered, with what it does to what is stored.
  pub data Move (s : Stored b) : Pc → Stored b → Pc → Type 0 where
    read :
        (a : Erasure) {f : Fragment}
        → metadata_with_size_validation b up a.address.hash (world s s []) ≡ (ok f, world s s [])
        → is_obliteration b up f ≡ false
        → (bit_and (bit_or f.flags up.payload_obliterating) up.payload_fragmented == 0) ≡ true
        → Move s Pc.idle s (Pc.read a f)
    mark :
        {a : Erasure} {f : Fragment} {s' : Stored b}
        → update_metadata_cas b a.address.hash
            (obliterating_row b up force_write f)
            f
            (world s s [])
          ≡ (ok tt, world s' s [])
        → Move s (Pc.read a f) s' (Pc.marked a f)
    remove :
        {a : Erasure} {f : Fragment} {s' : Stored b}
        → remove_association b (up.context_of a.partition) a.address (world s s [])
          ≡ (ok tt, world s' s [])
        → Move s (Pc.marked a f) s' (Pc.removed a f)
    count :
        {a : Erasure} {f : Fragment} {x : Bool} {s' : Stored b}
        → (do
          tally b up force_write (λ t. record t { num_fragments = t.num_fragments + 1 })
          has_associations b a.address.hash)
            (world s s [])
          ≡ (ok x, world s' s [])
        → Move s (Pc.removed a f) s' (Pc.counted a f x)
    restore :
        {a : Erasure} {f : Fragment} {s' : Stored b} {r : Result StoreError (Unit {0})}
        → update_metadata_cas b a.address.hash f
            (obliterating_row b up force_write f)
            (world s s [])
          ≡ (r, world s' s [])
        → Move s (Pc.counted a f true) s' Pc.idle
    empty :
        {a : Erasure} {f : Fragment} {s' : Stored b}
        → delete_payload b up a.address.hash (world s s []) ≡ (ok tt, world s' s [])
        → Move s (Pc.counted a f false) s' (Pc.emptied a f)
    finish :
        {a : Erasure} {f : Fragment} {s' : Stored b} {r : Result StoreError (Unit {0})}
        → (do
          tally b up force_write (λ t. record t { num_payloads = t.num_payloads + 1 })
          update_metadata_cas b a.address.hash
              (obliterated_row b up force_write)
              (obliterating_row b up force_write f))
            (world s s [])
          ≡ (r, world s' s [])
        → Move s (Pc.emptied a f) s' Pc.idle
    -- a request takes effect and its answer does not arrive
    lost : {p q : Pc} {s' : Stored b} → Move s p s' q → Move s p s' Pc.idle
    -- a request fails before it takes effect
    leave : {p : Pc} → Move s p s Pc.idle

  pub record System : Type 0 where
    pub stored : Stored b
    pub pc : ℕ → Pc

  -- Obliterations alone.
  pub data Step (s : System) : System → Type 0 where
    turn :
        (i : ℕ) {t : Stored b} {p : Pc}
        → Move s.stored (s.pc i) t p
        → Step s (record { stored = t; pc = update s.pc i p })

  pub data Reach (before : Stored b) : System → Type 0 where
    start : Reach before (record { stored = before; pc = λ i. Pc.idle })
    later : {s t : System} → Reach before s → Step s t → Reach before t

  -- From any system on, so that other calls can come between two such parts.
  pub data Leads (s : System) : System → Type 0 where
    here : Leads s s
    later : {t u : System} → Leads s t → Step t u → Leads s u

  abbrev pub outside : Stored b → System
  outside s = record { stored = s; pc = λ i. Pc.idle }
