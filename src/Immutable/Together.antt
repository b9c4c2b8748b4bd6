-- ===== src/Immutable/Together.antt =====
-- What obliterations of lore-pg/src/store/pg_immutable_store.rs that run at once keep, one request
-- after the other in any order.
use lore_stack.Common.{ℕ, ◌+◌, refl, ◌≡◌, subst, Bool, true, false, [], Bytes}
use lore_stack.Common.Family.{update-cases}
use lore_stack.Sql.Laws.{find-delete_if_some}
use lore_stack.Sql.World.{Result, ok, err, ◌>>◌}
use lore_stack.Sql.Triple.{world, Post, Triple-bind}
use lore_stack.Immutable.Types.{StoreError, Fragment, Upstream, Backend, Stored}
use lore_stack.Immutable.Index.{Store, association, has_associations}
use lore_stack.Immutable.Obliterate.{tally, obliterating_row, obliterated_row}
use lore_stack.Immutable.Keeps.{Keeps}
use lore_stack.Immutable.Requests.{
  Unused, Keeps-remove, Keeps-delete_payload, has_associations-Unused,
}
use lore_stack.Immutable.Sweep.{Survives, one_fragment, one_payload, updated_row}
use lore_stack.Immutable.Sessions.{Erasure, Pc, Move, System, Step, Reach, start, later}
use lore_stack.Immutable.Durable.{IsDurable}
use lore_stack.Immutable.Durable.Erasing.{survives}

module _ (b : Backend) (up : Upstream) (force_write : Bool) where
  -- Where the session counted no association, none is there.
  Decided : Pc → Stored b → Type 0
  Decided p s =
      (a : Erasure) (f : Fragment)
      → p ≡ Pc.counted a f false
      → Unused b up force_write a.address.hash s

  Decided-Survives : (p : Pc) (r : Bytes) → Survives b up force_write r (Decided p)
  unfolding Decided
  Decided-Survives p r = record {
    counters = λ m n s d. d;
    row = λ hash new old s d. d;
    link = λ address s d a f e j found. d a f e j (
        find-delete_if_some b.fragments (association r address) j (λ row. true) tt s.associations
          found);
    object = λ hash s d unused. d;
  }

  -- The outcome of a request.
  kept :
      {A : Type 0} (P : Stored b → Type 0) (m : Store b A) (s t : Stored b)
      (r : Result StoreError A)
      → Keeps b P m
      → m (world s s []) ≡ (r, world t s [])
      → P s
      → P t
  kept P m s t (ok x) k e h = subst (Post _ _) e (k.at (world s s []) h)
  kept P m s t (err x) k e h = subst (Post _ _) e (k.at (world s s []) h)

  module _ (P : Stored b → Type 0) (each : (r : Bytes) → Survives b up force_write r P) where
    -- What the answer of `has_associations` says.
    counted_after :
        (hash : Bytes) (s t : Stored b) (x : Bool)
        → (do
          tally b up force_write (λ t. record t { num_fragments = t.num_fragments + 1 })
          has_associations b hash)
            (world s s [])
          ≡ (ok x, world t s [])
        → P s
        → P t × (x ≡ false → Unused b up force_write hash t)
    counted_after hash s t x e h = subst (Post _ (λ e w. P w.committed)) e (
        (Triple-bind (one_fragment b up force_write [] P (each []))
            (λ u. has_associations-Unused b up force_write P hash)).at
          (world s s []) h)

    Move-kept :
        {s t : Stored b} {p q : Pc} → Move b up force_write s p t q → Decided p s → P s → P t
    unfolding Decided
    Move-kept (Move.read a e alive plain) decided h = h
    Move-kept {s} {t} (Move.mark {a} {f} e) decided h =
        kept P _ s t _ (updated_row b up force_write [] P (each []) a.address.hash _ f) e h
    Move-kept {s} {t} (Move.remove {a} e) decided h =
        let r = up.context_of a.partition in
        kept P _ s t _ (Keeps-remove b up force_write P r a.address ((each r).link a.address)) e h
    Move-kept {s} {t} (Move.count {a} {f} {x} e) decided h =
        (counted_after a.address.hash s t x e h).0
    Move-kept {s} {t} (Move.restore {a} {f} {r} e) decided h =
        kept P _ s t r (updated_row b up force_write [] P (each []) a.address.hash f _) e h
    Move-kept {s} {t} (Move.empty {a} {f} e) decided h =
        let hash = a.address.hash in
        let Q : Stored b → Type 0 = λ s. P s × Unused b up force_write hash s in
        (kept Q _ s t _
          (Keeps-delete_payload b up force_write Q hash
            (λ u (g, unused). ((each []).object hash u g unused, unused)))
          e (h, decided a f refl)).0
    Move-kept {s} {t} (Move.finish {a} {f} {r} e) decided h =
        kept P _ s t r
          (Triple-bind (one_payload b up force_write [] P (each [])) (λ u.
            updated_row b up force_write [] P (each []) a.address.hash
              (obliterated_row b up force_write) (obliterating_row b up force_write f)))
          e h
    Move-kept (Move.lost m) decided h = Move-kept m decided h
    Move-kept Move.leave decided h = h

  Decided-after :
      {s t : Stored b} {p q : Pc} → Move b up force_write s p t q → Decided p s → Decided q t
  unfolding Decided
  Decided-after (Move.read a e alive plain) d a' f' q = absurd (cc)
  Decided-after (Move.mark e) d a' f' q = absurd (cc)
  Decided-after (Move.remove e) d a' f' q = absurd (cc)
  Decided-after {s} {t} (Move.count {a} {f} {x} e) d a' f' q =
      let after =
        counted_after (Decided Pc.idle) (Decided-Survives Pc.idle) a.address.hash s t x e
          (λ a f e. absurd (cc)) in
      let same : a ≡ a' = cc in
      subst (λ a. Unused b up force_write a.address.hash t) same (after.1 (cc))
  Decided-after (Move.restore e) d a' f' q = absurd (cc)
  Decided-after (Move.empty e) d a' f' q = absurd (cc)
  Decided-after (Move.finish e) d a' f' q = absurd (cc)
  Decided-after (Move.lost m) d a' f' q = absurd (cc)
  Decided-after Move.leave d a' f' q = absurd (cc)

  Reach-Decided :
      {before : Stored b} {s : System b up force_write}
      → Reach b up force_write before s
      → (i : ℕ) → Decided (s.pc i) s.stored
  unfolding Decided
  Reach-Decided start i = λ a f e. absurd (cc)
  Reach-Decided (later {s} r (Step.turn i {t} {p} m)) j =
      update-cases (λ p. Decided p t) s.pc i j p (λ e. Decided-after m (Reach-Decided r i))
        (λ apart.
          Move-kept (Decided (s.pc j)) (Decided-Survives (s.pc j)) m (Reach-Decided r i)
            (Reach-Decided r j))

  -- What the requests of a single obliteration keep, those that run at once keep.
  Reach-kept :
      (P : Stored b → Type 0)
      → ((r : Bytes) → Survives b up force_write r P)
      → {before : Stored b} {s : System b up force_write} → Reach b up force_write before s
      → P before
      → P s.stored
  Reach-kept P each start h = h
  Reach-kept P each (later r (Step.turn i m)) h =
      Move-kept P each m (Reach-Decided r i) (Reach-kept P each r h)

  -- If every association has a metadata row and an object for its hash, then this holds at every
  -- point of any run of sessions that obliterate fragments without sub-fragments at once, one
  -- request after the other in any order, whatever becomes of the requests.
  pub sessions-IsDurable :
      {before : Stored b} {s : System b up force_write}
      → Reach b up force_write before s
      → IsDurable b up before
      → IsDurable b up s.stored
  sessions-IsDurable r = Reach-kept (IsDurable b up) (survives b up force_write) r
