-- ===== src/Examples/Rows.antt =====
-- A table that keeps the laws: a list of rows, of which the first with a key counts.
use mathlib.Core.Option as Option_
use mathlib.Core.HLevel.{×_prop, hedberg}
use mathlib.Core.Bool.{Bool-set}
use mathlib.Core.Logic.Or
use mathlib.Core.List.{Mem, mem-cons, mem-cons_self, mem-cons_of_mem, not-mem-nil}
use lore_stack.Common.{
  ℕ, ◌≡◌, refl, ap, sym, ◌↔◌, inl, inr, Bool, true, not, ◌&&◌, Option, none, some, List, [], ◌∷◌,
  arith, if◌then◌else◌, Bool-cases, Option-cases, subst,
}
use lore_stack.Common.Eq.{Eq}
use lore_stack.Sql.Table.{Table, is_some, satisfies, affected, or_else}
use lore_stack.Sql.Laws.{beq_self}

pub Eq-IsSet {ℓ} : {A : Type ℓ} → Eq A → IsSet A
Eq-IsSet e = hedberg (λ x y. elim (Bool-cases (e.beq x y)) [
  | inl h ↦ Dec.yes ((e.beq_iff x y).0 h)
  | inr h ↦ Dec.no (λ p. ground (arith, (e.beq_iff x y).1 p))
])

module _ {K R : Type 0} (e : Eq K) (is_set : IsSet R) where
  abbrev Rows : Type 0
  Rows = List (K × R)

  abbrev pub find : Rows → K → Option R
  find [] j = none
  find ((k, r) ∷ t) j = let rest = find t j in if e.beq k j then some r else rest

  abbrev remove : K → Rows → Rows
  remove j [] = []
  remove j ((k, r) ∷ t) = let rest = remove j t in if e.beq j k then rest else (k, r) ∷ rest

  abbrev pub select : (K → R → Bool) → Rows → Rows
  select p [] = []
  select p ((k, r) ∷ t) =
      let rest = select (λ j s. not (e.beq k j) && p j s) t in if p k r then (k, r) ∷ rest else rest

  abbrev pub insert_new : K → R → Rows → ℕ × Rows
  insert_new k r t = if is_some (find t k) then (0, t) else (1, (k, r) ∷ t)

  abbrev pub update_if : K → (R → Bool) → R → Rows → ℕ × Rows
  update_if k p r t = if satisfies p (find t k) then (1, (k, r) ∷ t) else (0, t)

  abbrev pub delete_if : K → (R → Bool) → Rows → ℕ × Rows
  delete_if k p t = if satisfies p (find t k) then (1, remove k t) else (0, t)

  find-remove : (k j : K) (t : Rows) → find (remove k t) j ≡ (if e.beq k j then none else find t j)
  find-remove k j [] = ground arith
  find-remove k j ((i, r) ∷ t) =
      ground (arith, find-remove k j t, e.beq_iff k j, e.beq_iff k i, e.beq_iff i j, beq_self e k)

  pub mem-select :
      (p : K → R → Bool) (t : Rows) (k : K) (r : R)
      → Mem (k, r) (select p t) ↔ ((find t k ≡ some r) × (p k r ≡ true))
  mem-select p [] k r = (λ m. absurd (not-mem-nil m), λ x. cc)
  mem-select p ((j, s) ∷ t) k r =
      let later : K → R → Bool = λ i u. not (e.beq j i) && p i u in
      let ih = mem-select later t k r in
      let goal_prop =
        ×_prop (Option_.is_set is_set (find ((j, s) ∷ t) k) (some r)) (Bool-set (p k r) true) in
      elim (Bool-cases (p j s)) [
        | inl y ↦ rw y (
          λ m.
              Or.elim goal_prop (mem-cons.0 m)
                (λ q.
                  let jk : j ≡ k = sym (ap (λ x. x.0) q) in
                  let sr : s ≡ r = sym (ap (λ x. x.1) q) in
                  let yes : e.beq j k ≡ true = (e.beq_iff j k).1 jk in
                  (rw yes (ap some sr), cc (jk, sr, y)))
                (λ n. let h = ih.0 n in ground (arith, h)),
          λ h. elim (Bool-cases (e.beq j k)) [
            | inl same ↦
                let jk : j ≡ k = (e.beq_iff j k).0 same in
                let sr : s ≡ r = ground (arith, h) in
                subst (λ x. Mem x ((j, s) ∷ select later t)) (λ i. (jk i, sr i)) mem-cons_self
            | inr other ↦ mem-cons_of_mem (j, s) (ih.1 (ground (arith, h)))
          ],
        )
        | inr n ↦
            rw n (
              λ m. let h = ih.0 m in ground (arith, h),
              λ h. ih.1 (ground (arith, h, e.beq_iff j k)),
            )
      ]

  pub insert_new_count :
      (k : K) (r : R) (t : Rows) → (insert_new k r t).0 ≡ affected (not (is_some (find t k)))
  insert_new_count k r t = ground arith

  pub find-insert_new :
      (k j : K) (r : R) (t : Rows)
      → find (insert_new k r t).1 j ≡ (if e.beq k j then some (or_else (find t k) r) else find t j)
  find-insert_new k j r t = elim (Option-cases (find t k)) [
    | inl free ↦ rw free refl
    | inr (row, taken) ↦ rw taken (elim (Bool-cases (e.beq k j)) [
      | inl same ↦
          let at_j : find t j ≡ some row =
            subst (λ i. find t i ≡ some row) ((e.beq_iff k j).0 same) taken in
          ground (arith, same, at_j)
      | inr other ↦ ground (arith, other)
    ])
  ]

  pub update_if_count :
      (k : K) (p : R → Bool) (r : R) (t : Rows)
      → (update_if k p r t).0 ≡ affected (satisfies p (find t k))
  update_if_count k p r t = ground arith

  pub find-update_if :
      (k j : K) (p : R → Bool) (r : R) (t : Rows)
      → find (update_if k p r t).1 j
        ≡ (if e.beq k j && satisfies p (find t k) then some r else find t j)
  find-update_if k j p r t = ground arith

  pub delete_if_count :
      (k : K) (p : R → Bool) (t : Rows) → (delete_if k p t).0 ≡ affected (satisfies p (find t k))
  delete_if_count k p t = ground arith

  pub find-delete_if :
      (k j : K) (p : R → Bool) (t : Rows)
      → find (delete_if k p t).1 j
        ≡ (if e.beq k j && satisfies p (find t k) then none else find t j)
  find-delete_if k j p t = ground (arith, find-remove k j t)

  abbrev pub rows_table : Table e R
  rows_table = record {
    T = Rows;
    find = find;
    insert_new = insert_new;
    upsert = λ k r t. (1, (k, r) ∷ t);
    update_if = update_if;
    delete_if = delete_if;
    select = select;
    insert_new_count = insert_new_count;
    find-insert_new = find-insert_new;
    upsert_count = λ k r t. refl;
    find-upsert = λ k j r t. refl;
    update_if_count = update_if_count;
    find-update_if = find-update_if;
    delete_if_count = delete_if_count;
    find-delete_if = find-delete_if;
    mem-select = mem-select;
  }
