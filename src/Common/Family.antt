-- ===== src/Common/Family.antt =====
-- Families indexed by numbers, such as the sessions of a system.
use Prim.Native.Nat.{ℕ}
use mathlib.Core.Path.{◌≡◌}
use mathlib.Core.Logic.{◌≢◌, inl, inr}
use native.Mathlib.Omega.{arith}
use lore_stack.Common.Tests.{if◌then◌else◌, Bool-cases}
use lore_stack.Common.Eq.{nat_eq, ◌==◌}

abbrev pub update {ℓ} : {A : Type ℓ} → (ℕ → A) → ℕ → A → ℕ → A
update f i x j = if i == j then x else f j

-- A property of every member of the new family is one of the new member and of the others.
pub update-cases {ℓ κ} :
    {A : Type ℓ} (P : A → Type κ) (f : ℕ → A) (i j : ℕ) (x : A)
    → (i ≡ j → P x)
    → (i ≢ j → P (f j))
    → P (update f i x j)
update-cases P f i j x same other = elim (Bool-cases (i == j)) [
  | inl y ↦ rw y (same ((nat_eq.beq_iff i j).0 y))
  | inr n ↦ rw n (other (λ e. ground (arith, (nat_eq.beq_iff i j).1 e)))
]
