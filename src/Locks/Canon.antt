-- ===== src/Locks/Canon.antt =====
-- `sort` and `dedup` of a vector of resources. Their order and equality are the derived ones of
-- the upstream type, taken as an interface.
use lore_stack.Common.{
  ◌≡◌, sym, subst, ◌↔◌, ◌⊎◌, inl, inr, Bool, true, false, List, [], ◌∷◌, All, arith, if◌then◌else◌,
  Bool-cases,
}

-- `Ord` and `Eq` of a type that derives both.
pub record Order (A : Type 0) : Type 0 where
  pub le : A → A → Bool
  pub same : A → A → Bool
  pub le_total : (a b : A) → (le a b ≡ true) ⊎ (le b a ≡ true)
  pub le_trans : (a b c : A) → le a b ≡ true → le b c ≡ true → le a c ≡ true
  pub le_antisymm : (a b : A) → le a b ≡ true → le b a ≡ true → a ≡ b
  pub same_iff : (a b : A) → (same a b ≡ true) ↔ (a ≡ b)

module _ {A : Type 0} (o : Order A) where
  unfoldable pub insert_sorted : A → List A → List A
  insert_sorted x [] = x ∷ []
  insert_sorted x (y ∷ ys) = if o.le x y then x ∷ y ∷ ys else y ∷ insert_sorted x ys

  unfoldable pub sort : List A → List A
  unfolding insert_sorted
  sort [] = []
  sort (x ∷ xs) = insert_sorted x (sort xs)

  unfoldable pub dedup_after : A → List A → List A
  dedup_after x [] = x ∷ []
  dedup_after x (y ∷ ys) =
      let skipped = dedup_after x ys in
      let kept = x ∷ dedup_after y ys in if o.same x y then skipped else kept

  -- Drops every item that equals the one before it.
  unfoldable pub dedup : List A → List A
  unfolding dedup_after
  dedup [] = []
  dedup (x ∷ xs) = dedup_after x xs

  unfoldable pub canonical : List A → List A
  unfolding sort dedup
  canonical xs = dedup (sort xs)

  module _ {κ} (P : A → Type κ) where
    All-insert_sorted : (x : A) (xs : List A) → All P (insert_sorted x xs) ↔ All P (x ∷ xs)
    unfolding insert_sorted
    All-insert_sorted x [] = (λ h. h, λ h. h)
    All-insert_sorted x (y ∷ ys) =
        let ih = All-insert_sorted x ys in
        elim (Bool-cases (o.le x y)) [
          | inl e ↦ rw e (λ h. h, λ h. h)
          | inr e ↦
              rw e (λ h. let t = ih.0 h.1 in (t.0, (h.0, t.1)), λ h. (h.1.0, ih.1 (h.0, h.1.1)))
        ]

    All-sort : (xs : List A) → All P (sort xs) ↔ All P xs
    unfolding sort
    All-sort [] = (λ h. h, λ h. h)
    All-sort (x ∷ xs) =
        let ih = All-sort xs in
        let step = All-insert_sorted x (sort xs) in
        (λ h. let t = step.0 h in (t.0, ih.0 t.1), λ h. step.1 (h.0, ih.1 h.1))

    All-dedup_after : (x : A) (xs : List A) → All P (dedup_after x xs) ↔ All P (x ∷ xs)
    unfolding dedup_after
    All-dedup_after x [] = (λ h. h, λ h. h)
    All-dedup_after x (y ∷ ys) = elim (Bool-cases (o.same x y)) [
      | inl e ↦
          let ih = All-dedup_after x ys in
          rw e (
            λ h. let t = ih.0 h in (t.0, (subst P ((o.same_iff x y).0 e) t.0, t.1)),
            λ h. ih.1 (h.0, h.1.1),
          )
      | inr e ↦ let ih = All-dedup_after y ys in rw e (λ h. (h.0, ih.0 h.1), λ h. (h.0, ih.1 h.1))
    ]

    All-dedup : (xs : List A) → All P (dedup xs) ↔ All P xs
    unfolding dedup
    All-dedup [] = (λ h. h, λ h. h)
    All-dedup (x ∷ xs) = All-dedup_after x xs

    -- The canonical list has the members of the given one.
    pub All-canonical : (xs : List A) → All P (canonical xs) ↔ All P xs
    unfolding canonical
    All-canonical xs =
        let a = All-dedup (sort xs) in let b = All-sort xs in (λ h. b.0 (a.0 h), λ h. a.1 (b.1 h))

  -- Each item strictly precedes the next.
  abbrev pub Follows : A → List A → Type 0
  Follows x [] = Unit {0}
  Follows x (y ∷ ys) = (o.le x y ≡ true) × (o.same x y ≡ false) × Follows y ys

  abbrev pub IsStrict : List A → Type 0
  IsStrict [] = Unit {0}
  IsStrict (x ∷ xs) = Follows x xs

  abbrev Climbs : A → List A → Type 0
  Climbs x [] = Unit {0}
  Climbs x (y ∷ ys) = (o.le x y ≡ true) × Climbs y ys

  abbrev IsSorted : List A → Type 0
  IsSorted [] = Unit {0}
  IsSorted (x ∷ xs) = Climbs x xs

  Climbs-insert_sorted :
      (z x : A) (xs : List A) → o.le z x ≡ true → Climbs z xs → Climbs z (insert_sorted x xs)
  unfolding insert_sorted
  Climbs-insert_sorted z x [] h c = (h, tt)
  Climbs-insert_sorted z x (y ∷ ys) h c = elim (Bool-cases (o.le x y)) [
    | inl e ↦ rw e (h, (e, c.1))
    | inr e ↦ rw e (c.0, Climbs-insert_sorted y x ys (ground (arith, o.le_total x y)) c.1)
  ]

  IsSorted-insert_sorted : (x : A) (xs : List A) → IsSorted xs → IsSorted (insert_sorted x xs)
  unfolding insert_sorted
  IsSorted-insert_sorted x [] c = tt
  IsSorted-insert_sorted x (y ∷ ys) c = elim (Bool-cases (o.le x y)) [
    | inl e ↦ rw e (e, c)
    | inr e ↦ rw e (Climbs-insert_sorted y x ys (ground (arith, o.le_total x y)) c)
  ]

  sort-IsSorted : (xs : List A) → IsSorted (sort xs)
  unfolding sort
  sort-IsSorted [] = tt
  sort-IsSorted (x ∷ xs) = IsSorted-insert_sorted x (sort xs) (sort-IsSorted xs)

  Follows-dedup_after :
      (z x : A) (xs : List A)
      → o.le z x ≡ true
      → o.same z x ≡ false
      → Climbs x xs
      → Follows z (dedup_after x xs)
  unfolding dedup_after
  Follows-dedup_after z x [] h n c = (h, n, tt)
  Follows-dedup_after z x (y ∷ ys) h n c = elim (Bool-cases (o.same x y)) [
    | inl e ↦
        rw e (
          Follows-dedup_after z x ys h n
            (subst (λ a. Climbs a ys) (sym ((o.same_iff x y).0 e)) c.1))
    | inr e ↦ rw e (h, n, Follows-dedup_after x y ys c.0 e c.1)
  ]

  IsStrict-dedup_after : (x : A) (xs : List A) → Climbs x xs → IsStrict (dedup_after x xs)
  unfolding dedup_after
  IsStrict-dedup_after x [] c = tt
  IsStrict-dedup_after x (y ∷ ys) c = elim (Bool-cases (o.same x y)) [
    | inl e ↦
        rw e (IsStrict-dedup_after x ys (subst (λ a. Climbs a ys) (sym ((o.same_iff x y).0 e)) c.1))
    | inr e ↦ rw e (Follows-dedup_after x y ys c.0 e c.1)
  ]

  -- The sorted list without duplicates is strictly increasing.
  pub canonical-IsStrict : (xs : List A) → IsStrict (canonical xs)
  unfolding canonical dedup
  canonical-IsStrict xs = go (sort xs) (sort-IsSorted xs)
    where
      go : (ys : List A) → IsSorted ys → IsStrict (dedup ys)
      go [] c = tt
      go (y ∷ ys) c = IsStrict-dedup_after y ys c
