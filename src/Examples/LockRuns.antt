-- ===== src/Examples/LockRuns.antt =====
-- Two owners and three files, one of which is locked: runs of the lock store.
use lore_stack.Common.{
  String, ◌≢◌, ◌≡◌, refl, ◌↔◌, Bool, true, ◌&&◌, List, [], ◌∷◌, Bytes, arith, All,
}
use lore_stack.Common.Eq.{◌==◌, nat_eq, string_eq, int_eq}
use lore_stack.Common.Int.{pos}
use lore_stack.Sql.Table.{Table}
use lore_stack.Sql.World.{ok, err, World, answered, lost}
use lore_stack.Sql.Triple.{Post, world}
use lore_stack.Locks.Types.{not_owned, LockResource, LockData, LockRow, lock_key_eq}
use lore_stack.Locks.Canon.{canonical}
use lore_stack.Locks.Holding.{Available, Held}
use lore_stack.Locks.Store.{
  key, LockQuery, lock_resources, unlock_resources, query_locks, check_locks_status,
}
use lore_stack.Locks.Acquire
use lore_stack.Locks.Release
use lore_stack.Locks.Release.{unlock_resources_outcome}
use lore_stack.Locks.Sequence.{lock_resources-after_unlock}
use lore_stack.Sql.World.{checkout, begin, exec, commit}
use lore_stack.Locks.Store.{lock_all, lock_one, unlock_one, unlock_owned, lock_data}
use lore_stack.Locks.Decide.{lock_resources_decides}
use lore_stack.Locks.Rows.{Matches}
use lore_stack.Locks.Query.{IsExact, IsStatus, query_locks-IsExact, check_locks_status-IsExact}
use lore_stack.Examples.Rows.{Eq-IsSet, rows_table}
use lore_stack.Examples.Orders.{resource_order}

abbrev pub row_beq : LockRow → LockRow → Bool
row_beq a b =
    a.owner_id == b.owner_id && (a.description == b.description && a.locked_at == b.locked_at)

pub row_beq_iff : (a b : LockRow) → (row_beq a b ≡ true) ↔ (a ≡ b)
row_beq_iff a b = ground (
  arith,
  string_eq.beq_iff a.owner_id b.owner_id,
  string_eq.beq_iff a.description b.description,
  int_eq.beq_iff a.locked_at b.locked_at,
)

pub row_IsSet : IsSet LockRow
row_IsSet = Eq-IsSet (record { beq = row_beq; beq_iff = row_beq_iff })

abbrev pub locks : Table lock_key_eq LockRow
locks = rows_table lock_key_eq row_IsSet

abbrev pub main_branch : Bytes
main_branch = 1 ∷ []

abbrev pub hall : Bytes
hall = 7 ∷ []

abbrev pub door : LockResource
door = record { branch = main_branch; hash = 2 ∷ []; description = "door" }

abbrev pub lamp : LockResource
lamp = record { branch = main_branch; hash = 3 ∷ []; description = "lamp" }

-- The door is Ann's.
abbrev pub before : World locks.T
before =
    world
      ((key hall door, record { owner_id = "ann"; description = "door"; locked_at = pos 5 }) ∷ [])
      [] []

-- The same, with a request that takes effect and whose answer is lost.
abbrev unlucky : World locks.T
unlucky = world before.committed [] (answered ∷ lost ∷ [])

lock_resources_decides_example :
    (All (Available locks "bob" hall before.committed) (lamp ∷ door ∷ [])
      → (newly : List LockData) × ((lock_resources locks resource_order "bob" hall
            (pos 9)
            (lamp ∷ door ∷ [])
            before).0
          ≡ ok newly))
    × ((¬ All (Available locks "bob" hall before.committed) (lamp ∷ door ∷ []))
        → ((lock_resources locks resource_order "bob" hall (pos 9) (lamp ∷ door ∷ []) before).0
            ≡ err not_owned)
          × ((lock_resources locks resource_order "bob" hall
                (pos 9)
                (lamp ∷ door ∷ [])
                before).1.committed
              ≡ before.committed))
lock_resources_decides_example =
    lock_resources_decides locks resource_order "bob" hall (pos 9) (lamp ∷ door ∷ []) before refl

anns : All (Held locks "ann" hall before.committed) (door ∷ [])
anns = ((record { owner_id = "ann"; description = "door"; locked_at = pos 5 }, refl, refl), tt)

unlock_resources_outcome_example :
    Post
      (Release.Accepted locks resource_order "ann" hall (door ∷ []) unlucky true)
      (Release.Rejected locks resource_order "ann" hall true (door ∷ []) unlucky)
      (unlock_resources locks resource_order "ann" true hall (door ∷ []) unlucky)
unlock_resources_outcome_example =
    unlock_resources_outcome locks resource_order "ann" hall (door ∷ []) unlucky true

query_locks-IsExact_example :
    IsExact locks
      (Matches (LockQuery.by_owner "ann"))
      before
      (query_locks locks (LockQuery.by_owner "ann") before)
query_locks-IsExact_example = query_locks-IsExact locks (LockQuery.by_owner "ann") before

check_locks_status-IsExact_example :
    IsExact locks
      (IsStatus locks hall (door ∷ lamp ∷ []))
      before
      (check_locks_status locks hall (door ∷ lamp ∷ []) before)
check_locks_status-IsExact_example = check_locks_status-IsExact locks hall (door ∷ lamp ∷ []) before

pub ann-not_bob : ◌≢◌ {A = String} "ann" "bob"
ann-not_bob e = ground (arith, (string_eq.beq_iff "ann" "bob").1 e)

abbrev pub lit : World locks.T
lit = (lock_resources locks resource_order "ann" hall (pos 9) (lamp ∷ door ∷ []) before).1

pub ann-gets_lamp :
    (lock_resources locks resource_order "ann" hall (pos 9) (lamp ∷ door ∷ []) before).0
    ≡ ok (lock_data "ann" (pos 9) lamp ∷ [])
unfolding lock_resources canonical lock_all lock_one checkout begin exec commit
ann-gets_lamp = refl

abbrev left : World locks.T
left = (unlock_resources locks resource_order "ann" true hall (door ∷ []) before).1

ann-leaves :
    (unlock_resources locks resource_order "ann" true hall (door ∷ []) before).0 ≡ ok (door ∷ [])
unfolding unlock_resources canonical unlock_owned unlock_one checkout begin exec commit
ann-leaves = refl

lock_resources-after_unlock_example :
    (newly : List LockData) × ((lock_resources locks resource_order "bob" hall
        (pos 10)
        (door ∷ [])
        (world left.committed [] [])).0
      ≡ ok newly)
lock_resources-after_unlock_example =
    lock_resources-after_unlock locks resource_order hall "ann" "bob" true (pos 10) (door ∷ [])
      (door ∷ []) before (world left.committed [] []) ann-leaves refl refl
