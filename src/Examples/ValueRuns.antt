-- ===== src/Examples/ValueRuns.antt =====
-- Two key types and a stored hash: runs of the mutable store.
use lore_stack.Common.{
  List, ℕ, ◌≡◌, ◌≢◌, refl, ap, ◌⊎◌, ◌↔◌, ◌<◌, Bool, true, false, none, some, [], ◌∷◌, Bytes, arith,
  All, length, if◌then◌else◌,
}
use lore_stack.Common.Eq.{list_eq, nat_eq, list_beq_iff, ◌==◌}
use lore_stack.Sql.Table.{Table}
use lore_stack.Sql.World.{ok, World, answered, lost}
use lore_stack.Sql.Triple.{Post, world}
use lore_stack.Mutable.Types.{ValueKey, value_key_eq, Upstream}
use lore_stack.Mutable.Store.{fill, at, store_typed, compare_and_swap_typed, list}
use lore_stack.Mutable.Register.{IsWellFormed, Sets, slot, store_typed_outcome}
use lore_stack.Mutable.Swap
use lore_stack.Mutable.Swap.{compare_and_swap_typed_outcome}
use lore_stack.Mutable.Listing.{list-exact}
use mathlib.Core.List.{Mem}
use lore_stack.Examples.Rows.{Eq-IsSet, rows_table}

pub data KeyType : Type 0 where
  untyped branch : KeyType

abbrev pub code : KeyType → ℕ
code KeyType.untyped = 0
code KeyType.branch = 1

abbrev pub is_untyped : KeyType → Bool
is_untyped KeyType.untyped = true
is_untyped KeyType.branch = false

pub code-lt : (t : KeyType) → code t < 256
code-lt KeyType.untyped = omega arith
code-lt KeyType.branch = omega arith

pub code-injective : (s t : KeyType) → code s ≡ code t → s ≡ t
code-injective KeyType.untyped KeyType.untyped h = refl
code-injective KeyType.untyped KeyType.branch h = absurd (omega arith)
code-injective KeyType.branch KeyType.untyped h = absurd (omega arith)
code-injective KeyType.branch KeyType.branch h = refl

abbrev pub up : Upstream
up = record {
  KeyType = KeyType;
  code = code;
  is_untyped = is_untyped;
  zero_hash = fill 32 0;
  is_zero = λ h. h == fill 32 0;
  context_of = λ p. p;
  code-lt = code-lt;
  code-injective = code-injective;
  context_of-injective = λ p q h. h;
  length-zero_hash = refl;
  is_zero_iff = λ h. list_beq_iff ⦃e = nat_eq⦄ h (fill 32 0);
}

abbrev pub values : Table value_key_eq Bytes
values = rows_table value_key_eq (Eq-IsSet (list_eq ⦃e = nat_eq⦄))

abbrev pub old : Bytes
old = fill 32 4

abbrev pub new : Bytes
new = fill 32 5

abbrev pub name : Bytes
name = fill 32 9

abbrev pub slot_key : ValueKey
slot_key = at up values (1 ∷ []) name

abbrev pub table : values.T
table = (slot_key, old) ∷ []

pub row-IsWellFormed : (j : ValueKey) → IsWellFormed up values ((j, old) ∷ [])
row-IsWellFormed j k v h = go (value_key_eq.beq j k) h
  where
    go : (b : Bool) → (if b then some old else none) ≡ some v → length v ≡ 32
    go true q = let e : v ≡ old = cc in ap length e
    go false q = cc

abbrev unlucky : World values.T
unlucky = world table [] (answered ∷ lost ∷ [])

store_typed_outcome_example :
    Post
      (λ _ w. Sets up values slot_key (slot up values new) table w.committed)
      (λ e w.
        ((w.committed ≡ table) ⊎ Sets up values slot_key (slot up values new) table w.committed)
        × ((answered ∷ lost ∷ []) ≢ []))
      (store_typed up values (1 ∷ []) name new unlucky)
store_typed_outcome_example = store_typed_outcome up values (1 ∷ []) name new unlucky

compare_and_swap_typed_outcome_example :
    Post
      (Swap.Witnessed up values (1 ∷ []) name old new unlucky)
      (Swap.Aborted up values (1 ∷ []) name old new unlucky)
      (compare_and_swap_typed up values (1 ∷ []) name old new unlucky)
compare_and_swap_typed_outcome_example =
    compare_and_swap_typed_outcome up values (1 ∷ []) name old new unlucky

abbrev branch_key : ValueKey
branch_key = at up values (1 ∷ []) (1 ∷ fill 31 9)

list-exact_example :
    (items : List (Bytes × Bytes)) × (list up values
        (1 ∷ [])
        KeyType.branch
        (world ((branch_key, old) ∷ []) [] [])
      ≡ (ok items, world ((branch_key, old) ∷ []) [] []))
    × ((b : ℕ) (bs v : Bytes)
        → length (b ∷ bs) ≡ 32
        → All (λ d. d < 256) bs
        → Mem (b ∷ bs, v) items ↔ (
            (values.find ((branch_key, old) ∷ []) (at up values (1 ∷ []) (b ∷ bs)) ≡ some v)
            × (b ≡ 1)
            × (up.is_zero v ≡ false)))
list-exact_example =
    list-exact up values (1 ∷ []) KeyType.branch ((branch_key, old) ∷ []) [] refl
      (row-IsWellFormed branch_key)
