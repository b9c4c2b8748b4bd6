-- ===== src/Immutable/Exclusive.antt =====
-- The mark of an obliteration in lore-pg/src/store/pg_immutable_store.rs as a lock on the hash.
use Prim.Native.Nat.{bit_and, bit_or}
use lore_stack.Common.{
  ℕ, ◌+◌, ◌<◌, ◌^◌, ◌≡◌, ◌≢◌, refl, ap, sym, subst, ◌∙◌, ◌⊎◌, inl, inr, Bool, true, false, some, [],
  Bytes,
}
use lore_stack.Common.Eq.{◌==◌, nat_eq, list_eq}
use lore_stack.Common.Family.{update, update-cases}
use lore_stack.Sql.Laws.{find-update_if_ne, beq_self}
use lore_stack.Sql.World.{checkout, auto, ok}
use lore_stack.Sql.Triple.{world}
use lore_stack.Immutable.Types.{Fragment, Upstream, Backend, Stored, bytes_eq}
use lore_stack.Immutable.Index.{
  metadata_row, same_row, remove_association, update_metadata_cas, has_associations, count,
}
use lore_stack.Immutable.Payload.{delete_payload}
use lore_stack.Immutable.Obliterate.{obliterating_row}
use lore_stack.Immutable.Requests.{rewritten}
use lore_stack.Immutable.Sessions.{Erasure, Pc, Move, System, Step, Reach, start, later}
use lore_stack.Immutable.Marked.{
  inside, marked_row, Carries, Sound, read_small, swapped_row, swapped_to, unmarked_row,
}

module _ (b : Backend) (up : Upstream) (force_write : Bool)
    (marks : (n : ℕ)
      → n < 2 ^ 32
      → (bit_and (bit_or n up.payload_obliterating) up.payload_obliteration == 0) ≡ false) where
  abbrev Row : Bytes → Fragment → Stored b → Type 0
  Row = Carries b up force_write marks

  abbrev Owns : Pc → Stored b → Type 0
  Owns p s = (a : Erasure) (f : Fragment) → inside p ≡ some (a, f) → Row a.address.hash f s

  -- What one request of a session does to the marks.
  record Effect (s : Stored b) (p : Pc) (t : Stored b) (q : Pc) : Type 0 where
    sound : Sound b up force_write marks q
    owns : Owns q t
    enters :
        (a : Erasure) (f : Fragment)
        → inside q ≡ some (a, f)
        → (inside p ≡ some (a, f)) ⊎ ((g : Fragment) → ¬ Row a.address.hash g s)
    frame :
        (h : Bytes) (g : Fragment)
        → Row h g s
        → ((a : Erasure) (f : Fragment) → inside p ≡ some (a, f) → a.address.hash ≢ h)
        → Row h g t

  -- The rows stay, and the session keeps its place or leaves it.
  still :
      (s t : Stored b) (p q : Pc)
      → t.rows ≡ s.rows
      → Sound b up force_write marks q
      → Owns p s
      → ((a : Erasure) (f : Fragment) → inside q ≡ some (a, f) → inside p ≡ some (a, f))
      → Effect s p t q
  still s t p q same sound owns within =
      let moved : (h : Bytes) (g : Fragment) → Row h g s → Row h g t =
        λ h g r. (r.0, ap (λ x. b.metadata.find x h) same ∙ r.1) in
      record {
        sound = sound;
        owns = λ a f e. moved a.address.hash f (owns a f (within a f e));
        enters = λ a f e. inl (within a f e);
        frame = λ h g r apart. moved h g r;
      }

  -- The row of another hash stays.
  elsewhere :
      (hash h : Bytes) (new old g : Fragment) (s t : Stored b)
      → t.rows ≡ (rewritten b up force_write hash new old s).rows
      → hash ≢ h
      → Row h g s
      → Row h g t
  elsewhere hash h new old g s t to apart r = (
    r.0,
    ap (λ x. b.metadata.find x h) to
        ∙ find-update_if_ne b.metadata hash h (λ x. same_row x (metadata_row old))
            (metadata_row new) s.rows apart
        ∙ r.1,
  )

  some_back : (x y : Erasure × Fragment) → some x ≡ some y → x ≡ y
  some_back x y e = cc

  mark-Effect :
      (a : Erasure) (f : Fragment) (s t : Stored b)
      → Sound b up force_write marks (Pc.read a f)
      → update_metadata_cas b a.address.hash (obliterating_row b up force_write f) f (world s s [])
        ≡ (ok tt, world t s [])
      → Effect s (Pc.read a f) t (Pc.marked a f)
  mark-Effect a f s t (small, alive) e =
      let hash = a.address.hash in
      let new = obliterating_row b up force_write f in
      let met = swapped_row b up force_write marks hash new f s t e in
      let to = swapped_to b up force_write marks hash new f s t s (ok tt) e in
      let free : (g : Fragment) → ¬ Row hash g s = λ g r.
        unmarked_row b up force_write marks f g (b.metadata.find s.rows hash) r.0 alive met r.1 in
      let set : b.metadata.find t.rows hash ≡ some (marked_row b up force_write marks f) =
        ap (λ x. b.metadata.find x hash) to
        ∙ b.metadata.find-update_if hash hash (λ x. same_row x (metadata_row f)) (metadata_row new)
            s.rows
        ∙ rw (beq_self bytes_eq hash, met) in
      record {
        sound = small;
        owns = λ a' f' q.
            subst (λ x. Row x.0.address.hash x.1 t) (some_back (a, f) (a', f') q) (small, set);
        enters = λ a' f' q. inr (
            subst (λ x. (g : Fragment) → ¬ Row x.0.address.hash g s) (some_back (a, f) (a', f') q)
              free);
        frame = λ h g r apart.
            elsewhere hash h new f g s t to (λ q. free g (subst (λ x. Row x g s) (sym q) r)) r;
      }

  -- The session leaves its place with one update of its own row.
  leave-Effect :
      (a : Erasure) (f new old : Fragment) (s t : Stored b) (p : Pc)
      → inside p ≡ some (a, f)
      → t.rows ≡ (rewritten b up force_write a.address.hash new old s).rows
      → Effect s p t Pc.idle
  leave-Effect a f new old s t p here to = record {
    sound = tt;
    owns = λ a' f' q. absurd (cc);
    enters = λ a' f' q. absurd (cc);
    frame = λ h g r apart. elsewhere a.address.hash h new old g s t to (apart a f here) r;
  }

  Move-Effect :
      {s t : Stored b} {p q : Pc}
      → Move b up force_write s p t q
      → Sound b up force_write marks p
      → Owns p s
      → Effect s p t q
  unfolding remove_association has_associations count delete_payload checkout auto
  Move-Effect {s} (Move.read a {f} e alive plain) sound owns =
      still s s Pc.idle (Pc.read a f) refl
        (read_small b up force_write marks a.address.hash f s e, alive) owns (λ a' f' q. cc)
  Move-Effect {s} {t} (Move.mark {a} {f} e) sound owns = mark-Effect a f s t sound e
  Move-Effect {s} {t} (Move.remove {a} {f} e) sound owns =
      still s t (Pc.marked a f) (Pc.removed a f) (ap (λ o. o.1.committed.rows) (sym e)) sound owns
        (λ a' f' q. q)
  Move-Effect {s} {t} (Move.count {a} {f} {x} e) sound owns =
      still s t (Pc.removed a f) (Pc.counted a f x) (ap (λ o. o.1.committed.rows) (sym e)) sound
        owns (λ a' f' q. q)
  Move-Effect {s} {t} (Move.restore {a} {f} {r} e) sound owns =
      leave-Effect a f _ _ s t (Pc.counted a f true) refl
        (swapped_to b up force_write marks a.address.hash _ _ s t s r e)
  Move-Effect {s} {t} (Move.empty {a} {f} e) sound owns =
      still s t (Pc.counted a f false) (Pc.emptied a f) (ap (λ o. o.1.committed.rows) (sym e)) sound
        owns (λ a' f' q. q)
  Move-Effect {s} {t} (Move.finish {a} {f} {r} e) sound owns =
      leave-Effect a f _ _ s t (Pc.emptied a f) refl (
        swapped_to b up force_write marks a.address.hash _ _
          (record s { num_payloads = s.num_payloads + 1 }) t s r e)
  Move-Effect {s} {t} (Move.lost m) sound owns =
      let effect = Move-Effect m sound owns in
      record {
        sound = tt;
        owns = λ a f e. absurd (cc);
        enters = λ a f e. absurd (cc);
        frame = effect.frame;
      }
  Move-Effect {s} {p} Move.leave sound owns = still s s p Pc.idle refl tt owns (λ a' f' q. cc)

  -- Every session that is inside owns the row of its hash, and no other one is inside with it.
  record Inv (s : System b up force_write) : Type 0 where
    sound : (i : ℕ) → Sound b up force_write marks (s.pc i)
    owns : (i : ℕ) → Owns (s.pc i) s.stored
    single :
        (i j : ℕ) (a a' : Erasure) (f f' : Fragment)
        → inside (s.pc i) ≡ some (a, f)
        → inside (s.pc j) ≡ some (a', f')
        → a.address.hash ≡ a'.address.hash
        → i ≡ j

  module _ (s : System b up force_write) (inv : Inv s) (i : ℕ) {t : Stored b} {q : Pc}
      (effect : Effect s.stored (s.pc i) t q) where
    -- The one that moves is not inside with the hash of another.
    alone :
        (k : ℕ) (a a' : Erasure) (f f' : Fragment)
        → i ≢ k
        → inside q ≡ some (a, f)
        → inside (s.pc k) ≡ some (a', f')
        → a.address.hash ≢ a'.address.hash
    alone k a a' f f' apart here there same = elim (effect.enters a f here) [
      | inl before ↦ apart (inv.single i k a a' f f' before there same)
      | inr free ↦ free f' (subst (λ h. Row h f' s.stored) (sym same) (inv.owns k a' f' there))
    ]

    Owns-after : (j : ℕ) → Owns (update s.pc i q j) t
    Owns-after j =
        update-cases (λ p. Owns p t) s.pc i j q (λ e. effect.owns)
          (λ apart a f there.
            effect.frame a.address.hash f (inv.owns j a f there)
              (λ a' f' here same. apart (inv.single i j a' a f' f here there same)))

    single_after :
        (j k : ℕ) (a a' : Erasure) (f f' : Fragment)
        → inside (update s.pc i q j) ≡ some (a, f)
        → inside (update s.pc i q k) ≡ some (a', f')
        → a.address.hash ≡ a'.address.hash
        → j ≡ k
    single_after j k a a' f f' =
        update-cases
          (λ p.
            inside p ≡ some (a, f)
            → inside (update s.pc i q k) ≡ some (a', f')
            → a.address.hash ≡ a'.address.hash
            → j ≡ k)
          s.pc i j q
          (λ e here.
            update-cases (λ p. inside p ≡ some (a', f') → a.address.hash ≡ a'.address.hash → j ≡ k)
              s.pc i k q (λ e' there same. sym e ∙ e')
              (λ apart there same. absurd (alone k a a' f f' apart here there same)))
          (λ apart here.
            update-cases (λ p. inside p ≡ some (a', f') → a.address.hash ≡ a'.address.hash → j ≡ k)
              s.pc i k q (λ e' there same. absurd (alone j a' a f' f apart there here (sym same)))
              (λ apart' there same. inv.single j k a a' f f' here there same))

    Inv-after : Inv (record { stored = t; pc = update s.pc i q })
    Inv-after = record {
      sound = λ j.
          update-cases (Sound b up force_write marks) s.pc i j q (λ e. effect.sound)
            (λ apart. inv.sound j);
      owns = Owns-after;
      single = single_after;
    }

  Reach-Inv :
      {before : Stored b} {s : System b up force_write} → Reach b up force_write before s → Inv s
  Reach-Inv start = record {
    sound = λ i. tt;
    owns = λ i a f e. absurd (cc);
    single = λ i j a a' f f' e. absurd (cc);
  }
  Reach-Inv (later {s} r (Step.turn i m)) =
      let inv = Reach-Inv r in Inv-after s inv i (Move-Effect m (inv.sound i) (inv.owns i))

  -- For sessions that obliterate fragments without sub-fragments at once, one request after the
  -- other in any order, where the obliterating bit of 32-bit flags makes them count as marked:
  -- two sessions that have set the mark for the same hash, and have not finished, are one, and
  -- the metadata row of the hash then is the marked one of what the session read.
  pub mark-excludes :
      {before : Stored b} {s : System b up force_write} (i j : ℕ) (a a' : Erasure) (f f' : Fragment)
      → Reach b up force_write before s
      → inside (s.pc i) ≡ some (a, f)
      → inside (s.pc j) ≡ some (a', f')
      → a.address.hash ≡ a'.address.hash
      → (i ≡ j)
        × (b.metadata.find s.stored.rows a.address.hash
            ≡ some (metadata_row (obliterating_row b up force_write f)))
  mark-excludes i j a a' f f' r here there same =
      let inv = Reach-Inv r in (inv.single i j a a' f f' here there same, (inv.owns i a f here).1)
