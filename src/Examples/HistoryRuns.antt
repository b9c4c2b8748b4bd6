-- ===== src/Examples/HistoryRuns.antt =====
-- Sequences of calls of the mutable store.
use lore_stack.Common.{◌≡◌, refl, List, [], ◌∷◌}
use lore_stack.Common.Eq.{nat_eq, list_eq}
use lore_stack.Sql.World.{World, answered, refused, lost}
use lore_stack.Sql.Triple.{world}
use lore_stack.Mutable.Types.{value_key_eq}
use lore_stack.Mutable.Store.{fill}
use lore_stack.Mutable.Abstract.{Op, replay, Explains, run}
use lore_stack.Mutable.Register.{register, IsWellFormed}
use lore_stack.Mutable.History.{run-replay}
use lore_stack.Mutable.Faults.{run-Explains}
use lore_stack.Examples.ValueRuns.{
  KeyType, up, values, name, new, table, slot_key, row-IsWellFormed,
}

-- A branch is made, advanced, read, and reset.
abbrev calls : List (Op KeyType)
calls =
    Op.compare_and_swap (1 ∷ []) name (fill 32 0) (fill 32 0) KeyType.branch
    ∷ Op.compare_and_swap (1 ∷ []) name (fill 32 0) new KeyType.branch
    ∷ Op.load (1 ∷ []) name KeyType.branch
    ∷ Op.store (1 ∷ []) name (fill 32 0) KeyType.branch
    ∷ Op.load (1 ∷ []) name KeyType.untyped
    ∷ []

run-replay_example :
    let o = run up values calls (world table [] []) in
    ((o.0, register up values o.1.committed) ≡ replay up calls (register up values table))
    × IsWellFormed up values o.1.committed
run-replay_example =
    run-replay up values calls table [] (refl, (refl, (tt, (refl, (tt, tt)))))
      (row-IsWellFormed slot_key)

-- The answer to the first COMMIT is lost, and a later request fails.
abbrev unlucky : World values.T
unlucky =
    world table []
      (answered ∷ answered ∷ answered ∷ answered ∷ answered ∷ lost ∷ answered ∷ refused ∷ [])

run-Explains_example :
    let o = run up values calls unlucky in
    Explains up calls (register up values table) o.0 (register up values o.1.committed)
    × IsWellFormed up values o.1.committed
run-Explains_example =
    run-Explains up values calls unlucky (refl, (refl, (tt, (refl, (tt, tt)))))
      (row-IsWellFormed slot_key)
