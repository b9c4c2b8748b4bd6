-- ===== src/Locks/Holding.antt =====
-- Who holds a lock, as the rows of the table say.
use lore_stack.Common.{◌≡◌, ◌≢◌, ◌⊎◌, inl, inr, some, List, [], ◌∷◌, All, Bytes, String}
use lore_stack.Sql.Table.{Table}
use lore_stack.Locks.Types.{LockResource, LockRow, lock_key_eq}
use lore_stack.Locks.Store.{key}

module _ (locks : Table lock_key_eq LockRow) (owner_id : String) (repository : Bytes) where
  open locks use {T, find}

  abbrev pub Held : T → LockResource → Type 0
  Held t r = (row : LockRow) × (find t (key repository r) ≡ some row) × (row.owner_id ≡ owner_id)

  -- Another owner holds the lock.
  abbrev pub Foreign : T → LockResource → Type 0
  Foreign t r = (row : LockRow) × (find t (key repository r) ≡ some row) × (row.owner_id ≢ owner_id)

  -- No other owner holds the lock.
  abbrev pub Available : T → LockResource → Type 0
  Available t r = ¬ Foreign t r

  -- Some resource of the list is held by another owner.
  abbrev pub Contested : T → List LockResource → Type 0
  Contested t [] = ⊥
  Contested t (r ∷ rs) = Foreign t r ⊎ Contested t rs

  pub not-Available_of_Contested :
      (t : T) (rs : List LockResource) → Contested t rs → ¬ All (Available t) rs
  not-Available_of_Contested t [] x h = x
  not-Available_of_Contested t (r ∷ rs) (inl f) h = h.0 f
  not-Available_of_Contested t (r ∷ rs) (inr x) h = not-Available_of_Contested t rs x h.1
