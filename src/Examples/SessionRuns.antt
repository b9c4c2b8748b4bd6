-- ===== src/Examples/SessionRuns.antt =====
-- Sessions that run at once: a swap up to its COMMIT, a store in the middle of one, and a batch of
-- locks.
use lore_stack.Common.{ℕ, ◌≡◌, ◌≢◌, refl, some, [], ◌∷◌, arith}
use lore_stack.Common.Family.{update}
use lore_stack.Sql.World.{ok}
use lore_stack.Sql.Triple.{world}
use lore_stack.Mutable.Types.{ValueKey}
use lore_stack.Mutable.Store.{compare_and_swap_typed, decoded}
use lore_stack.Mutable.Register.{register}
use lore_stack.Mutable.Sessions.{Swap, Pc, lock_of, commit_of, Move, System, Step, Reach}
use lore_stack.Mutable.Serial.{commit-linearizes}
use lore_stack.Mutable.Mixed.{store-overwritten, MixedReach, quiet, none-ne-some}
use lore_stack.Locks.Sessions as Rounds
use lore_stack.Locks.Waits.{next_of}
use lore_stack.Locks.Deadlock.{no_deadlock, Unblocked}
use lore_stack.Examples.Orders.{resource_order, key_order, resource_order-key_order}
use lore_stack.Examples.ValueRuns.{up, values, old, new, slot_key, name, table, row-IsWellFormed}
use lore_stack.Examples.LockRuns.{hall, door, lamp}

abbrev one_lock : ValueKey → ℕ
one_lock k = 0

abbrev to_new : Swap
to_new = record { key = slot_key; expected = old; value = new }

abbrev pcs : ℕ → Pc
pcs =
    update
      (update
        (update (update (update (λ i. Pc.idle) 0 (Pc.waiting to_new)) 0 (Pc.locked to_new)) 0
          (Pc.seen to_new old))
        0 (Pc.wrote to_new old))
      1 (Pc.waiting to_new)

abbrev before_commit : System up values one_lock
before_commit = record { db = table; pc = pcs }

before_commit_reached : Reach up values one_lock table before_commit
unfolding decoded
before_commit_reached =
    Reach.later
      (Reach.later
        (Reach.later
          (Reach.later (Reach.later Reach.start (Step.turn 0 (Move.call to_new refl))) (
            Step.enter 0 to_new refl (λ j. none-ne-some up values one_lock _ _ (
              quiet up values one_lock (lock_of up values one_lock) (Pc.waiting to_new)
                (λ i. Pc.idle) refl (λ i. refl) j))))
          (Step.turn 0 (Move.select {a = to_new} {found = some old} refl)))
        (Step.turn 0 (Move.write {a = to_new} {c = old} refl)))
      (Step.turn 1 (Move.call to_new refl))

commit-linearizes_example :
    (u : values.T) × (compare_and_swap_typed up values slot_key.repository_id slot_key.key old new
        (world table [] [])
      ≡ (ok old, world (values.upsert slot_key new table).1 u []))
commit-linearizes_example =
    commit-linearizes up values one_lock table before_commit 0 to_new old
      (values.upsert slot_key new table).1 [] (row-IsWellFormed slot_key) before_commit_reached refl

store-overwritten_example :
    (s : System up values one_lock) × (t : values.T) × MixedReach up values one_lock table s
    × (register up values s.db slot_key ≡ name)
    × (commit_of up values one_lock s.db (s.pc 0) ≡ some (to_new, old, t))
    × (register up values t slot_key ≡ new)
store-overwritten_example =
    store-overwritten up values one_lock table to_new name (row-IsWellFormed slot_key) refl refl
      refl

-- The first of two sessions has asked for the door and the lamp.
abbrev asked : Rounds.System
asked = record {
  pc =
      update (λ i. Rounds.Pc.idle) 0
        (Rounds.Pc.running [] (Rounds.rounds resource_order hall (door ∷ lamp ∷ [])));
}

no_deadlock_example :
    (j : ℕ) × (asked.pc j ≢ Rounds.Pc.idle) × Unblocked asked j (next_of (asked.pc j))
no_deadlock_example =
    no_deadlock resource_order key_order resource_order-key_order 2 asked 0
      (Rounds.Reach.later Rounds.Reach.start
        (Rounds.Step.begin 0 hall (door ∷ lamp ∷ []) (omega arith) refl))
      (λ e. cc)
