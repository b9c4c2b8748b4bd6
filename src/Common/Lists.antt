-- ===== src/Common/Lists.antt =====
-- Lists measured by native numbers, under the library's names, and predicates on all members.
use Prim.Native.Nat.{ℕ, suc, ◌+◌}
use mathlib.Core.Path.{◌≡◌}
use native.Mathlib.Omega.{arith}
use mathlib.Core.List.{List, [], ◌∷◌, ◌++◌}

module _ {ℓ} {A : Type ℓ} where
  abbrev pub length : List A → ℕ
  length [] = 0
  length (x ∷ xs) = suc (length xs)

pub length-append {ℓ} : {A : Type ℓ} (xs ys : List A) → length (xs ++ ys) ≡ length xs + length ys
length-append [] ys = omega arith
length-append (x ∷ xs) ys = omega (arith, length-append xs ys)

-- Byte strings, and identifiers us the byte strings that they are.
abbrev pub Bytes : Type 0
Bytes = List ℕ

module _ {ℓ κ} {A : Type ℓ} (P : A → Type κ) where
  -- `P` of every member.
  abbrev pub All : List A → Type κ
  All [] = Unit
  All (a ∷ us) = P a × All us

  pub All-split : (us bs : List A) → All (us ++ bs) → All us × All bs
  All-split [] bs h = (tt, h)
  All-split (a ∷ us) bs h = let r = All-split us bs h.1 in ((h.0, r.0), r.1)

  pub All-append : (us bs : List A) → All us → All bs → All (us ++ bs)
  All-append [] bs both rest = rest
  All-append (a ∷ us) bs both rest = (both.0, All-append us bs both.1 rest)

pub All-map {ℓ κ} :
    {A : Type ℓ} {P Q : A → Type κ} (f : (x : A) → P x → Q x) (xs : List A) → All P xs → All Q xs
All-map f [] h = tt
All-map f (x ∷ xs) h = (f x h.0, All-map f xs h.1)
