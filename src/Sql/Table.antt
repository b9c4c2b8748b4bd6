-- ===== src/Sql/Table.antt =====
-- One SQL table with a primary key, by the statements that the stores send. The laws are
-- what PostgreSQL documents for these statements.
use lore_stack.Common.{ℕ, ◌≡◌, ◌↔◌, Bool, true, ◌&&◌, not, Option, none, some, List, if◌then◌else◌}
use lore_stack.Common.Eq.{Eq}
use mathlib.Core.List.{Mem}

abbrev pub is_some {ℓ} : {A : Type ℓ} → Option A → Bool
is_some none = Bool.false
is_some (some a) = true

abbrev pub satisfies {ℓ} : {A : Type ℓ} → (A → Bool) → Option A → Bool
satisfies p none = Bool.false
satisfies p (some a) = p a

abbrev pub affected : Bool → ℕ
affected b = if b then 1 else 0

abbrev pub or_else {ℓ} : {A : Type ℓ} → Option A → A → A
or_else none a = a
or_else (some b) a = b

pub record Table {K : Type 0} (e : Eq K) (R : Type 0) : Type 1 where
  pub T : Type 0
  pub find : T → K → Option R
  -- INSERT … ON CONFLICT DO NOTHING
  pub insert_new : K → R → T → ℕ × T
  -- INSERT … ON CONFLICT DO UPDATE
  pub upsert : K → R → T → ℕ × T
  -- UPDATE … SET all columns WHERE key AND condition
  pub update_if : K → (R → Bool) → R → T → ℕ × T
  -- DELETE … WHERE key AND condition
  pub delete_if : K → (R → Bool) → T → ℕ × T
  -- SELECT … WHERE condition
  pub select : (K → R → Bool) → T → List (K × R)
  pub insert_new_count :
      (k : K) (r : R) (t : T) → (insert_new k r t).0 ≡ affected (not (is_some (find t k)))
  pub find-insert_new :
      (k j : K) (r : R) (t : T)
      → find (insert_new k r t).1 j ≡ (if e.beq k j then some (or_else (find t k) r) else find t j)
  pub upsert_count : (k : K) (r : R) (t : T) → (upsert k r t).0 ≡ 1
  pub find-upsert :
      (k j : K) (r : R) (t : T) → find (upsert k r t).1 j ≡ (if e.beq k j then some r else find t j)
  pub update_if_count :
      (k : K) (p : R → Bool) (r : R) (t : T)
      → (update_if k p r t).0 ≡ affected (satisfies p (find t k))
  pub find-update_if :
      (k j : K) (p : R → Bool) (r : R) (t : T)
      → find (update_if k p r t).1 j
        ≡ (if e.beq k j && satisfies p (find t k) then some r else find t j)
  pub delete_if_count :
      (k : K) (p : R → Bool) (t : T) → (delete_if k p t).0 ≡ affected (satisfies p (find t k))
  pub find-delete_if :
      (k j : K) (p : R → Bool) (t : T)
      → find (delete_if k p t).1 j
        ≡ (if e.beq k j && satisfies p (find t k) then none else find t j)
  pub mem-select :
      (p : K → R → Bool) (t : T) (k : K) (r : R)
      → Mem (k, r) (select p t) ↔ ((find t k ≡ some r) × (p k r ≡ true))
