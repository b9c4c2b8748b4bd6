-- ===== src/Examples/ObliterateRuns.antt =====
-- Runs of obliterate.
use lore_stack.Common.{
  ◌||◌, sym, ◌≡◌, refl, Bool, true, false, none, some, [], ◌∷◌, arith, if◌then◌else◌,
}
use lore_stack.Common.Eq.{nat_eq, list_eq, int_eq}
use lore_stack.Sql.Triple.{world}
use lore_stack.Immutable.Types.{Fragment, Stored, bytes_eq, association_eq}
use lore_stack.Immutable.Index.{metadata_row}
use lore_stack.Immutable.Index.{association}
use lore_stack.Immutable.Obliterate.{obliterate}
use lore_stack.Immutable.Erase.{IsLast}
use lore_stack.Examples.Bucket.{backend, file, up, home, address, empty, full}
use lore_stack.Examples.Bits.{bit_or-one_bound, bit_or-one_marks}
use lore_stack.Immutable.Marks.{Covers}
use lore_stack.Immutable.Fuel.{obliterate-fuel}

abbrev busy_file : Fragment
busy_file = record { flags = 5; size_payload = 3; size_content = 10 }

-- The file, while it is being obliterated.
abbrev busy : Stored backend
busy = record full { rows = (7 ∷ [], metadata_row busy_file) ∷ [] }

pub home-IsLast : IsLast backend up false (association home address) full.associations
home-IsLast j h same = go (association_eq.beq (association home address) j) refl h
  where
    go :
        (x : Bool)
        → association_eq.beq (association home address) j ≡ x
        → (if x then some tt else none) ≡ some (tt {0})
        → j ≡ association home address
    go true e q = sym ((association_eq.beq_iff (association home address) j).0 e)
    go false e q = cc

full-Covers : Covers backend up false bit_or-one_bound bit_or-one_marks ((7 ∷ []) ∷ []) full
full-Covers h r at alive = go (bytes_eq.beq (7 ∷ []) h) at
  where
    go : (x : Bool) → (if x then some (metadata_row file) else none) ≡ some r → x || false ≡ true
    go true e = refl
    go false e = absurd cc

obliterate-fuel_example :
    obliterate backend up false 2 home address (world full empty [])
    ≡ obliterate backend up false 5 home address (world full empty [])
obliterate-fuel_example =
    obliterate-fuel backend up false bit_or-one_bound bit_or-one_marks ((7 ∷ []) ∷ []) 2 5 home
      address (world full empty []) full-Covers (omega arith) (omega arith)
