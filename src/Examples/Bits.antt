-- ===== src/Examples/Bits.antt =====
-- The bits of the marks 1 and 3.
use Prim.Native.Nat.{bit_and, bit_or, digits, bit_and-bitwise, bit_or-bitwise, max, min}
use lore_stack.Common.{
  ℕ, zero, suc, ◌+◌, ◌*◌, ◌/◌, ◌%◌, ◌^◌, ◌<◌, ◌≤◌, ◌≡◌, refl, ap, ◌∙◌, false, arith,
}
use lore_stack.Common.Eq.{◌==◌, nat_eq}

digits-zero : (k a : ℕ) → a ≤ k → digits (λ b. b) max k a 0 ≡ a
digits-zero zero zero le = refl
digits-zero zero (suc a) le = absurd (omega arith)
digits-zero (suc k) zero le = refl
digits-zero (suc k) (suc a) le =
    ap (λ h. h * 2 + max (suc a % 2) 0) (digits-zero k (suc a / 2) (omega arith)) ∙ omega arith

bit_or-one : (n : ℕ) → bit_or n 1 ≡ n / 2 * 2 + 1
bit_or-one zero = refl
bit_or-one (suc a) =
    bit_or-bitwise (suc a) 1
    ∙ ap (λ h. h * 2 + max (suc a % 2) 1) (digits-zero a (suc a / 2) (omega arith))
    ∙ omega arith

pub bit_or-one_bound : (n : ℕ) → n < 2 ^ 32 → bit_or n 1 < 2 ^ 32
bit_or-one_bound n lt = omega (arith, bit_or-one n)

odd_ne_zero : (d : ℕ) → (d * 2 + 1 == 0) ≡ false
odd_ne_zero d = ground arith

bit_and-odd : (a : ℕ) → suc a % 2 ≡ 1 → (bit_and (suc a) 3 == 0) ≡ false
bit_and-odd a odd =
    ap (λ n. n == 0)
      (bit_and-bitwise (suc a) 3
        ∙ ap (λ r. digits (λ b. zero) min a (suc a / 2) 1 * 2 + min r 1) odd)
    ∙ odd_ne_zero (digits (λ b. zero) min a (suc a / 2) 1)

bit_and-double_suc : (m : ℕ) → (bit_and (m * 2 + 1) 3 == 0) ≡ false
bit_and-double_suc m =
    let e : m * 2 + 1 ≡ suc (m * 2) = omega arith in
    ap (λ n. bit_and n 3 == 0) e ∙ bit_and-odd (m * 2) (omega arith)

-- A number with the first bit set has a bit of the two first.
pub bit_or-one_marks : (n : ℕ) → n < 2 ^ 32 → (bit_and (bit_or n 1) 3 == 0) ≡ false
bit_or-one_marks n lt = ap (λ m. bit_and m 3 == 0) (bit_or-one n) ∙ bit_and-double_suc (n / 2)
