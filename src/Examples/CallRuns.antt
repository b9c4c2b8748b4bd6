-- ===== src/Examples/CallRuns.antt =====
-- Sequences of calls of the lock store.
use lore_stack.Common.{String, sym, ◌≡◌, ◌≢◌, ◌⊎◌, refl, inr, true, some, List, [], ◌∷◌}
use lore_stack.Common.Eq.{nat_eq, string_eq, int_eq}
use lore_stack.Common.Int.{pos}
use lore_stack.Sql.World.{World, err, checkout, begin, exec, commit, auto, answered, lost}
use lore_stack.Sql.Triple.{world}
use lore_stack.Locks.Types.{not_owned, LockRow, lock_key_eq}
use lore_stack.Locks.Canon.{canonical}
use lore_stack.Locks.Store.{
  key, lock_resources, lock_all, lock_one, lock_data, by_repository, query_locks,
}
use lore_stack.Locks.History.{Call, Any, Asks, run, perform, run-keeps_locks, run-asked_locks}
use lore_stack.Locks.Exclusion.{lock_resources-excludes_after}
use lore_stack.Examples.LockRuns.{locks, before, hall, door, lamp, lit, ann-gets_lamp, ann-not_bob}
use lore_stack.Examples.Orders.{resource_order}
use mathlib.Core.List.{mem-cons_self}

-- Bob tries to take the door and to open it, and looks at all locks of the hall.
abbrev tries : List Call
tries =
    Call.lock_resources "bob" hall (pos 9) (lamp ∷ door ∷ [])
    ∷ Call.unlock_resources "bob" true hall (door ∷ [])
    ∷ Call.query_locks (by_repository hall)
    ∷ []

abbrev anns_row : LockRow
anns_row = record { owner_id = "ann"; description = "door"; locked_at = pos 5 }

abbrev unlucky : World locks.T
unlucky = world before.committed [] (answered ∷ lost ∷ [])

bob-not_ann : ◌≢◌ {A = String} "bob" "ann"
bob-not_ann e = ann-not_bob (sym e)

run-keeps_locks_example :
    locks.find (run locks resource_order tries unlucky).committed (key hall door) ≡ some anns_row
run-keeps_locks_example =
    run-keeps_locks locks resource_order tries unlucky (key hall door) anns_row refl
      (tt, (inr (refl, bob-not_ann), (tt, tt)))

-- Ann takes the lamp after Bob has tried.
abbrev takes : List Call
takes =
    Call.lock_resources "ann" hall (pos 9) (lamp ∷ []) ∷ Call.query_locks (by_repository hall) ∷ []

lamp_row : LockRow
lamp_row = record { owner_id = "ann"; description = "lamp"; locked_at = pos 9 }

lamp_taken :
    locks.find (run locks resource_order takes before).committed (key hall lamp) ≡ some lamp_row
unfolding lamp_row run perform query_locks lock_resources canonical lock_all lock_one checkout begin
    exec commit auto
lamp_taken = refl

run-asked_locks_example :
    (locks.find before.committed (key hall lamp) ≡ some lamp_row)
    ⊎ Any (Asks (key hall lamp) lamp_row) takes
run-asked_locks_example =
    run-asked_locks locks resource_order takes before (key hall lamp) lamp_row lamp_taken

lock_resources-excludes_after_example :
    let later = (run locks resource_order tries lit).committed in
    ((lock_resources locks resource_order "bob" hall (pos 10) (lamp ∷ []) (world later [] [])).0
      ≡ err not_owned)
    × ((lock_resources locks resource_order "bob" hall
          (pos 10)
          (lamp ∷ [])
          (world later [] [])).1.committed
        ≡ later)
lock_resources-excludes_after_example =
    lock_resources-excludes_after locks resource_order hall "ann" "bob" (pos 9) (pos 10)
      (lamp ∷ door ∷ []) (lamp ∷ []) lamp tries before
      (world (run locks resource_order tries lit).committed [] [])
      (lock_data "ann" (pos 9) lamp ∷ []) ann-not_bob ann-gets_lamp
      (tt, (inr (refl, bob-not_ann), (tt, tt))) refl refl mem-cons_self mem-cons_self
