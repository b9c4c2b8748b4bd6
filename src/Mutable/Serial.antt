-- ===== src/Mutable/Serial.antt =====
-- Swaps that run at once answer as if each one ran alone at its COMMIT.
use lore_stack.Common.{ℕ, ◌≡◌, ap, sym, subst, ◌∙◌, ◌⊎◌, inl, inr, some, [], Bytes}
use lore_stack.Common.Family.{update, update-cases}
use lore_stack.Common.Eq.{nat_eq, list_eq}
use lore_stack.Sql.Table.{Table}
use lore_stack.Sql.World.{ok}
use lore_stack.Sql.Triple.{world}
use lore_stack.Mutable.Types.{ValueKey, value_key_eq, Upstream}
use lore_stack.Mutable.Store.{compare_and_swap_typed}
use lore_stack.Mutable.Register.{IsWellFormed}
use lore_stack.Mutable.Laws.{swap_hit}
use lore_stack.Mutable.Races.{swap_miss}
use lore_stack.Mutable.Fresh.{
  IsFresh, Touches-IsFresh, Touches-IsWellFormed, Move-Touches, Move-lock, Move-IsFresh,
}
use lore_stack.Mutable.Sessions.{Swap, Pc, lock_of, commit_of, System, Step, Reach}

module _ (up : Upstream) (values : Table value_key_eq Bytes) (lock_id : ValueKey → ℕ) where
  open values use {T, find}

  pub record Inv (s : System up values lock_id) : Type 0 where
    pub formed : IsWellFormed up values s.db
    pub exclusive :
        (i j l : ℕ)
        → lock_of up values lock_id (s.pc i) ≡ some l
        → lock_of up values lock_id (s.pc j) ≡ some l
        → i ≡ j
    pub fresh : (i : ℕ) → IsFresh up values lock_id s.db (s.pc i)

  Step-Inv : {s t : System up values lock_id} → Inv s → Step up values lock_id s t → Inv t
  Step-Inv {s} v (Step.turn i {db} {p} mv) = record {
    formed =
        Touches-IsWellFormed up values lock_id (s.pc i)
          (Move-Touches up values lock_id mv (v.fresh i)) v.formed;
    exclusive = λ j k l h h'. v.exclusive j k l (old j l h) (old k l h');
    fresh = λ j.
        update-cases (IsFresh up values lock_id db) s.pc i j p
          (λ _. Move-IsFresh up values lock_id mv v.formed (v.fresh i))
          (λ n.
            Touches-IsFresh up values lock_id (s.pc i) (s.pc j)
              (Move-Touches up values lock_id mv (v.fresh i)) (λ l h h'. n (v.exclusive i j l h h'))
              (v.fresh j));
  }
    where
      old :
          (j l : ℕ)
          → lock_of up values lock_id (update s.pc i p j) ≡ some l
          → lock_of up values lock_id (s.pc j) ≡ some l
      old j l =
          update-cases
            (λ q.
              lock_of up values lock_id q ≡ some l → lock_of up values lock_id (s.pc j) ≡ some l)
            s.pc i j p
            (λ e h.
              subst (λ k. lock_of up values lock_id (s.pc k) ≡ some l) e
                (Move-lock up values lock_id mv l h))
            (λ n h. h)
  Step-Inv {s} v (Step.enter i a at_lock free) = record {
    formed = v.formed;
    exclusive = λ j k l h h'. elim (held j l h) [
      | inl (e, m) ↦ elim (held k l h') [
        | inl (e', _) ↦ sym e ∙ e'
        | inr o' ↦ absurd (free k (o' ∙ ap some m))
      ]
      | inr o ↦ elim (held k l h') [
        | inl (_, m') ↦ absurd (free j (o ∙ ap some m'))
        | inr o' ↦ v.exclusive j k l o o'
      ]
    ];
    fresh = λ j.
        update-cases (IsFresh up values lock_id s.db) s.pc i j (Pc.locked a)
          (λ _. subst (IsFresh up values lock_id s.db) at_lock (v.fresh i)) (λ n. v.fresh j);
  }
    where
      held :
          (j l : ℕ)
          → lock_of up values lock_id (update s.pc i (Pc.locked a) j) ≡ some l
          → ((i ≡ j) × (l ≡ lock_id a.key)) ⊎ (lock_of up values lock_id (s.pc j) ≡ some l)
      held j l =
          update-cases
            (λ q.
              lock_of up values lock_id q ≡ some l
              → ((i ≡ j) × (l ≡ lock_id a.key)) ⊎ (lock_of up values lock_id (s.pc j) ≡ some l))
            s.pc i j (Pc.locked a) (λ e h. inl (e, cc)) (λ n h. inr h)

  pub Reach-Inv :
      {db : T} {s : System up values lock_id}
      → IsWellFormed up values db
      → Reach up values lock_id db s
      → Inv s
  Reach-Inv wf Reach.start = record { formed = wf; exclusive = λ i j l h h'. cc; fresh = λ i. tt }
  Reach-Inv wf (Reach.later r st) = Step-Inv (Reach-Inv wf r) st

  commit_alone :
      {a : Swap} {c : Bytes} {db db' : T} (p : Pc) (t : T)
      → IsWellFormed up values db
      → commit_of up values lock_id db p ≡ some (a, c, db')
      → IsFresh up values lock_id db p
      → (u : T) × (compare_and_swap_typed up values a.key.repository_id a.key.key a.expected a.value
            (world db t [])
          ≡ (ok c, world db' u []))
  commit_alone Pc.idle t wf h f = cc
  commit_alone (Pc.waiting b) t wf h f = cc
  commit_alone (Pc.locked b) t wf h f = cc
  commit_alone (Pc.seen b d) t wf h f = cc
  commit_alone {a} {c} {db} {db'} (Pc.wrote b d) t wf h f =
      let (u, e) =
        swap_hit up values b.key.repository_id b.key.key b.expected b.value db t wf (f.1 ∙ f.2) in
      let ea : a ≡ b = cc in
      let ec : c ≡ d = cc in
      let ed : db' ≡ (values.upsert b.key b.value db).1 = cc in (u, rw (ea, ec, ed, f.2) e)
  commit_alone {a} {c} {db} {db'} (Pc.passed b d) t wf h f =
      let e =
        swap_miss up values b.key.repository_id b.key.key b.expected b.value d db t wf f.1 f.2 in
      let ea : a ≡ b = cc in
      let ec : c ≡ d = cc in let ed : db' ≡ db = cc in (db, rw (ea, ec, ed) e)
  commit_alone (Pc.finished b d) t wf h f = cc

  -- Sessions run `compare_and_swap` at once, request by request in any order, some of them cut
  -- off at any point. In every state that is reached from well-formed rows, a swap whose COMMIT
  -- is next answers and leaves what one call of `compare_and_swap` alone would, made at that
  -- moment.
  pub commit-linearizes :
      (start : T) (s : System up values lock_id) (i : ℕ) (a : Swap) (c : Bytes) (db t : T)
      → IsWellFormed up values start
      → Reach up values lock_id start s
      → commit_of up values lock_id s.db (s.pc i) ≡ some (a, c, db)
      → (u : T) × (compare_and_swap_typed up values a.key.repository_id a.key.key a.expected a.value
            (world s.db t [])
          ≡ (ok c, world db u []))
  commit-linearizes start s i a c db t wf r h =
      let v = Reach-Inv wf r in commit_alone (s.pc i) t v.formed h (v.fresh i)
