-- ===== src/Startup/Relations.antt =====
-- What the CREATE ... IF NOT EXISTS statements of ensure_schema in lore-pg/src/store leave in the
-- database.
use lore_stack.Common.{
  if◌then◌else◌, Option, ◌⊎◌, not, ◌&&◌, ◌||◌, String, ◌≡◌, refl, ap, sym, ◌∙◌, inl, inr, Bool,
  true, false, none, some, List, [], ◌∷◌, All, arith, Option-cases, Bool-cases,
}
use lore_stack.Common.Eq.{◌==◌, string_eq}
use lore_stack.Tls.{Tls}
use lore_stack.Startup.Types.{Relation, Catalog}
use lore_stack.Startup.Build.{create_all}

abbrev named : String → List (String × Relation) → Bool
named n [] = false
named n ((m, r) ∷ rs) = m == n || named n rs

-- The first relation that is declared by the name.
abbrev pub declared : String → List (String × Relation) → Option Relation
declared n [] = none
declared n ((m, r) ∷ rs) = if m == n then some r else declared n rs

abbrev pub or_else : Option Relation → Option Relation → Option Relation
or_else none rest = rest
or_else (some q) rest = some q

or_none : (x : Option Relation) → or_else x none ≡ x
or_none none = refl
or_none (some q) = refl

abbrev distinct : List (String × Relation) → Bool
distinct [] = true
distinct ((m, r) ∷ rs) = not (named m rs) && distinct rs

or_false : (x y : Bool) → x || y ≡ false → (x ≡ false) × (y ≡ false)
or_false x y h = ground arith

and_true : (x y : Bool) → x && y ≡ true → (x ≡ true) × (y ≡ true)
and_true x y h = ground arith

not-true : (x : Bool) → not x ≡ true → x ≡ false
not-true x h = ground arith

module _ (tls : Tls) (catalog : Catalog) where
  open catalog use {T, relation, create_if_not_exists}

  abbrev pub Kept : T → T → Type 0
  Kept t u = (n : String) (q : Relation) → relation t n ≡ some q → relation u n ≡ some q

  create-Kept : (n : String) (r : Relation) (t : T) → Kept t (create_if_not_exists n r t)
  create-Kept n r t m q at = elim (Bool-cases (n == m)) [
    | inl y ↦
        let same = (string_eq.beq_iff n m).0 y in
        let here : relation t n ≡ some q = ap (relation t) same ∙ at in
        ap (λ u. relation u m) (catalog.create-present n r q t here) ∙ at
    | inr z ↦
        catalog.create-other n m r t (λ e. let hit = (string_eq.beq_iff n m).1 e in cc (hit, z))
        ∙ at
  ]

  pub create_all-Kept :
      (rs : List (String × Relation)) (t : T) → Kept t (create_all tls catalog rs t)
  create_all-Kept [] t n q at = at
  create_all-Kept ((m, r) ∷ rs) t n q at = create_all-Kept rs _ n q (create-Kept m r t n q at)

  -- The relation of that name is the one that was asked for.
  abbrev pub Holds : T → String × Relation → Type 0
  Holds t x = relation t x.0 ≡ some x.1

  create_all-apart :
      (rs : List (String × Relation)) (t : T) (n : String)
      → named n rs ≡ false
      → relation (create_all tls catalog rs t) n ≡ relation t n
  create_all-apart [] t n h = refl
  create_all-apart ((m, r) ∷ rs) t n h =
      let (other, rest) = or_false (m == n) (named n rs) h in
      create_all-apart rs _ n rest
      ∙ catalog.create-other m n r t (λ e. let hit = (string_eq.beq_iff m n).1 e in cc (hit, other))

  create-absent_still :
      (m : String) (r : Relation) (rs : List (String × Relation)) (t : T)
      → named m rs ≡ false
      → All (λ x. relation t x.0 ≡ none) rs
      → All (λ x. relation (create_if_not_exists m r t) x.0 ≡ none) rs
  create-absent_still m r [] t d h = tt
  create-absent_still m r ((n, q) ∷ rs) t d h =
      let (other, rest) = or_false (n == m) (named m rs) d in
      (
        catalog.create-other m n r t
              (λ e. let hit = (string_eq.beq_iff n m).1 (sym e) in cc (hit, other))
            ∙ h.0,
        create-absent_still m r rs t rest h.1,
      )

  -- With distinct names, none of which is taken, every relation comes out as asked for.
  pub create_all-Holds :
      (rs : List (String × Relation)) (t : T)
      → distinct rs ≡ true
      → All (λ x. relation t x.0 ≡ none) rs
      → All (Holds (create_all tls catalog rs t)) rs
  create_all-Holds [] t d h = tt
  create_all-Holds ((m, r) ∷ rs) t d h =
      let (apart, rest) = and_true (not (named m rs)) (distinct rs) d in
      let fresh = not-true (named m rs) apart in
      (
        create_all-apart rs _ m fresh ∙ catalog.create-absent m r t h.0,
        create_all-Holds rs _ rest (create-absent_still m r rs t fresh h.1),
      )

  -- A name that is there keeps its relation; another one gets the first that is declared for it.
  create-relation :
      (n m : String) (r : Relation) (rest : Option Relation) (t : T)
      → or_else (relation (create_if_not_exists n r t) m) rest
        ≡ or_else (relation t m) (if n == m then some r else rest)
  create-relation n m r rest t = elim (Bool-cases (n == m)) [
    | inl y ↦ rw (y, ← (string_eq.beq_iff n m).0 y) (taken (Option-cases (relation t n)))
    | inr z ↦ rw z (
        ap (λ q. or_else q rest)
          (catalog.create-other n m r t
            (λ e. let hit = (string_eq.beq_iff n m).1 e in cc (hit, z))))
  ]
    where
      taken :
          (relation t n ≡ none) ⊎ ((q : Relation) × (relation t n ≡ some q))
          → or_else (relation (create_if_not_exists n r t) n) rest ≡ or_else (relation t n) (some r)
      taken (inl absent) = rw (catalog.create-absent n r t absent, absent) refl
      taken (inr (q, at)) = rw (catalog.create-present n r q t at, at) refl

  pub create_all-relation :
      (rs : List (String × Relation)) (t : T) (n : String)
      → relation (create_all tls catalog rs t) n ≡ or_else (relation t n) (declared n rs)
  create_all-relation [] t n = sym (or_none (relation t n))
  create_all-relation ((m, r) ∷ rs) t n =
      create_all-relation rs _ n ∙ create-relation m n r (declared n rs) t

  pub Kept-compose : (t u v : T) → Kept t u → Kept u v → Kept t v
  Kept-compose t u v f g n q at = g n q (f n q at)

  pub Kept-same : (t u : T) → u ≡ t → Kept t u
  Kept-same t u e n q at = ap (λ v. relation v n) e ∙ at
