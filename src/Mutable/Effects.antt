-- ===== src/Mutable/Effects.antt =====
-- A row that is set, a row that is found, and what they say of the abstract registers.
use mathlib.Core.Path.{fun_ext}
use lore_stack.Common.{
  ◌≡◌, refl, ap, sym, ◌∙◌, inl, inr, Option, none, some, Bytes, arith, length, Bool-cases,
  if◌then◌else◌,
}
use lore_stack.Common.Eq.{◌==◌, nat_eq, list_eq}
use lore_stack.Sql.Table.{Table}
use lore_stack.Sql.World.{ok, err, World, pure, continue}
use lore_stack.Mutable.Types.{
  address_not_found, ValueKey, value_key_eq, value_key_beq_iff, Upstream,
}
use lore_stack.Mutable.Store.{found_or_missing, or_zero}
use lore_stack.Mutable.Abstract.{set}
use lore_stack.Mutable.Register.{register, IsWellFormed, Sets, slot, Sets-IsWellFormed}

module _ (up : Upstream) (values : Table value_key_eq Bytes) where
  open up use {zero_hash, is_zero, is_zero_iff}
  open values use {T, find}

  -- Where a zero deletes the row, the register reads zero all the same.
  or_zero-slot : (v : Bytes) → or_zero up (slot up values v) ≡ v
  or_zero-slot v = elim (Bool-cases (is_zero v)) [
    | inl e ↦ rw e (sym ((is_zero_iff v).0 e))
    | inr e ↦ rw e
  ]

  pub register-Sets :
      (k : ValueKey) (row : Option Bytes) (t u : T)
      → Sets up values k row t u
      → register up values u ≡ set k (or_zero up row) (register up values t)
  register-Sets k row t u s = fun_ext λ j. elim (Bool-cases (k == j)) [
    | inl y ↦ rw y (
        ap (λ x. or_zero up (find u x)) (sym ((value_key_beq_iff k j).0 y))
        ∙ ap (or_zero up) s.self)
    | inr n ↦ rw n (ap (or_zero up) (s.others j (λ e. ground (arith, (value_key_beq_iff k j).1 e))))
  ]

  pub register-slot :
      (k : ValueKey) (v : Bytes) (t u : T)
      → Sets up values k (slot up values v) t u
      → register up values u ≡ set k v (register up values t)
  register-slot k v t u s =
      register-Sets k (slot up values v) t u s
      ∙ ap (λ x. set k x (register up values t)) (or_zero-slot v)

  pub register-kept :
      (t u : T)
      → ((j : ValueKey) → find u j ≡ find t j)
      → register up values u ≡ register up values t
  register-kept t u same = fun_ext λ j. ap (or_zero up) (same j)

  pub kept-IsWellFormed :
      (t u : T)
      → ((j : ValueKey) → find u j ≡ find t j)
      → IsWellFormed up values t
      → IsWellFormed up values u
  kept-IsWellFormed t u same wf j v h = wf j v (sym (same j) ∙ h)

  pub hash-IsWellFormed :
      (k : ValueKey) (v : Bytes) (t u : T)
      → Sets up values k (some v) t u
      → length v ≡ 32
      → IsWellFormed up values t
      → IsWellFormed up values u
  hash-IsWellFormed k v t u s n =
      Sets-IsWellFormed up values k (some v) t u s
        (λ x e. let same : x ≡ v = cc in ap length same ∙ n)

  pub slot-IsWellFormed :
      (k : ValueKey) (v : Bytes) (t u : T)
      → Sets up values k (slot up values v) t u
      → length v ≡ 32
      → IsWellFormed up values t
      → IsWellFormed up values u
  slot-IsWellFormed k v t u s n =
      Sets-IsWellFormed up values k (slot up values v) t u s (λ x e. ap length (slot_value x e) ∙ n)
    where
      slot_value : (x : Bytes) → slot up values v ≡ some x → x ≡ v
      slot_value x e = ground arith

  pub continue-found_or_missing :
      (key : Bytes) (o : Option Bytes) (w : World T)
      → continue (λ v. pure (some v)) (found_or_missing up key o, w) ≡ (
        if is_zero (or_zero up o) then err (address_not_found key) else ok (some (or_zero up o)),
        w,
      )
  continue-found_or_missing key none w = rw ((is_zero_iff zero_hash).1 refl) refl
  continue-found_or_missing key (some v) w = elim (Bool-cases (is_zero v)) [
    | inl e ↦ rw e
    | inr e ↦ rw e
  ]
