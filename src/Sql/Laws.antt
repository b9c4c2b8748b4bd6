-- ===== src/Sql/Laws.antt =====
-- The laws of a table in the forms that the stores' proofs apply.
use lore_stack.Common.{
  ◌≡◌, ◌≢◌, refl, ap, subst, ◌∙◌, ◌⊎◌, inl, inr, Bool, true, false, none, some, arith, Bool-cases,
}
use lore_stack.Common.Eq.{Eq}
use lore_stack.Sql.Table.{Table, satisfies}

module _ {K : Type 0} (e : Eq K) where
  pub beq_self : (k : K) → e.beq k k ≡ true
  beq_self k = (e.beq_iff k k).1 refl

  pub beq_ne : (k j : K) → k ≢ j → e.beq k j ≡ false
  beq_ne k j h = ground (arith, e.beq_iff k j)

  -- Two keys are one or two.
  pub key-cases : (k j : K) → (k ≡ j) ⊎ (k ≢ j)
  key-cases k j = elim (Bool-cases (e.beq k j)) [
    | inl h ↦ inl ((e.beq_iff k j).0 h)
    | inr h ↦ inr (λ p. ground (arith, (e.beq_iff k j).1 p))
  ]

module _ {K R : Type 0} {e : Eq K} (table : Table e R) where
  open table use {T, find, insert_new, upsert, update_if, delete_if}

  pub find-insert_new_self :
      (k : K) (r : R) (t : T) → find t k ≡ none → find (insert_new k r t).1 k ≡ some r
  find-insert_new_self k r t h = ground (arith, table.find-insert_new k k r t, beq_self e k)

  pub find-insert_new_ne :
      (k j : K) (r : R) (t : T) → k ≢ j → find (insert_new k r t).1 j ≡ find t j
  find-insert_new_ne k j r t h = ground (arith, table.find-insert_new k j r t, beq_ne e k j h)

  -- A row that is there stays.
  pub find-insert_new_kept :
      (k j : K) (r s : R) (t : T) → find t j ≡ some s → find (insert_new k r t).1 j ≡ some s
  find-insert_new_kept k j r s t h = elim (key-cases e k j) [
    | inl p ↦
        subst (λ i. find (insert_new k r t).1 i ≡ some s) p
          (ground (arith, table.find-insert_new k k r t, beq_self e k, ap (find t) p))
    | inr n ↦ find-insert_new_ne k j r t n ∙ h
  ]

  pub find-upsert_self : (k : K) (r : R) (t : T) → find (upsert k r t).1 k ≡ some r
  find-upsert_self k r t = ground (arith, table.find-upsert k k r t, beq_self e k)

  pub find-upsert_ne : (k j : K) (r : R) (t : T) → k ≢ j → find (upsert k r t).1 j ≡ find t j
  find-upsert_ne k j r t h = ground (arith, table.find-upsert k j r t, beq_ne e k j h)

  pub find-update_if_self :
      (k : K) (p : R → Bool) (r s : R) (t : T)
      → find t k ≡ some s
      → p s ≡ true
      → find (update_if k p r t).1 k ≡ some r
  find-update_if_self k p r s t h y = ground (arith, table.find-update_if k k p r t, beq_self e k)

  pub find-update_if_ne :
      (k j : K) (p : R → Bool) (r : R) (t : T) → k ≢ j → find (update_if k p r t).1 j ≡ find t j
  find-update_if_ne k j p r t h = ground (arith, table.find-update_if k j p r t, beq_ne e k j h)

  pub find-delete_if_self :
      (k : K) (p : R → Bool) (t : T)
      → satisfies p (find t k) ≡ true
      → find (delete_if k p t).1 k ≡ none
  find-delete_if_self k p t h = ground (arith, table.find-delete_if k k p t, beq_self e k)

  pub find-delete_if_ne :
      (k j : K) (p : R → Bool) (t : T) → k ≢ j → find (delete_if k p t).1 j ≡ find t j
  find-delete_if_ne k j p t h = ground (arith, table.find-delete_if k j p t, beq_ne e k j h)

  -- What a DELETE leaves was there.
  pub find-delete_if_some :
      (k j : K) (p : R → Bool) (s : R) (t : T)
      → find (delete_if k p t).1 j ≡ some s
      → find t j ≡ some s
  find-delete_if_some k j p s t h = ground (arith, table.find-delete_if k j p t)
