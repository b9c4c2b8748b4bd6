-- ===== src/Examples/Orders.antt =====
-- Lexicographic orders, up to one of lock resources.
use Prim.Native.Char.{code}
use text.Mathlib.TextEquality.{Char-path}
use lore_stack.Common.{
  ℕ, Bytes, ◌≡◌, refl, ap, ◌↔◌, ◌⊎◌, inl, inr, Bool, true, false, List, [], ◌∷◌, String, arith, leb,
  if◌then◌else◌,
}
use lore_stack.Common.Eq.{nat_eq}
use lore_stack.Locks.Types.{LockResource, LockKey}
use lore_stack.Locks.Store.{key}
use lore_stack.Locks.Canon.{Order}

pub leb_total : (a b : ℕ) → (leb a b ≡ true) ⊎ (leb b a ≡ true)
leb_total a b = ground arith

pub leb_trans : (a b c : ℕ) → leb a b ≡ true → leb b c ≡ true → leb a c ≡ true
leb_trans a b c h k = ground arith

pub leb_antisymm : (a b : ℕ) → leb a b ≡ true → leb b a ≡ true → a ≡ b
leb_antisymm a b h k = ground arith

abbrev pub nat_order : Order ℕ
nat_order = record {
  le = leb;
  same = nat_eq.beq;
  le_total = leb_total;
  le_trans = leb_trans;
  le_antisymm = leb_antisymm;
  same_iff = nat_eq.beq_iff;
}

module _ {A : Type 0} (o : Order A) where
  abbrev pub list_le : List A → List A → Bool
  list_le [] ys = true
  list_le (x ∷ xs) [] = false
  list_le (x ∷ xs) (y ∷ ys) = let rest = list_le xs ys in if o.same x y then rest else o.le x y

  abbrev pub list_same : List A → List A → Bool
  list_same [] [] = true
  list_same (x ∷ xs) (y ∷ ys) = let rest = list_same xs ys in if o.same x y then rest else false
  list_same _ _ = false

  pub list_le_total : (xs ys : List A) → (list_le xs ys ≡ true) ⊎ (list_le ys xs ≡ true)
  list_le_total [] ys = inl refl
  list_le_total (x ∷ xs) [] = inr refl
  list_le_total (x ∷ xs) (y ∷ ys) =
      ground (arith, list_le_total xs ys, o.le_total x y, o.same_iff x y, o.same_iff y x)

  pub list_le_trans :
      (xs ys zs : List A) → list_le xs ys ≡ true → list_le ys zs ≡ true → list_le xs zs ≡ true
  list_le_trans [] ys zs h k = refl
  list_le_trans (x ∷ xs) [] zs h k = ground arith
  list_le_trans (x ∷ xs) (y ∷ ys) [] h k = ground arith
  list_le_trans (x ∷ xs) (y ∷ ys) (z ∷ zs) h k = ground (
    arith,
    list_le_trans xs ys zs,
    o.le_trans x y z,
    o.le_antisymm x y,
    o.same_iff x y,
    o.same_iff y z,
    o.same_iff x z,
  )

  pub list_le_antisymm : (xs ys : List A) → list_le xs ys ≡ true → list_le ys xs ≡ true → xs ≡ ys
  list_le_antisymm [] [] h k = refl
  list_le_antisymm [] (y ∷ ys) h k = ground arith
  list_le_antisymm (x ∷ xs) [] h k = ground arith
  list_le_antisymm (x ∷ xs) (y ∷ ys) h k =
      ground (arith, list_le_antisymm xs ys, o.le_antisymm x y, o.same_iff x y, o.same_iff y x)

  pub list_same_iff : (xs ys : List A) → (list_same xs ys ≡ true) ↔ (xs ≡ ys)
  list_same_iff [] [] = (λ _. refl, λ _. refl)
  list_same_iff [] (y ∷ ys) = ground arith
  list_same_iff (x ∷ xs) [] = ground arith
  list_same_iff (x ∷ xs) (y ∷ ys) = ground (arith, o.same_iff x y, list_same_iff xs ys)

  abbrev pub list_order : Order (List A)
  list_order = record {
    le = list_le;
    same = list_same;
    le_total = list_le_total;
    le_trans = list_le_trans;
    le_antisymm = list_le_antisymm;
    same_iff = list_same_iff;
  }

abbrev pub codes : String → List ℕ
codes String.[] = []
codes (String.◌∷◌ c s) = code c ∷ codes s

head_or : ℕ → List ℕ → ℕ
head_or n [] = n
head_or n (x ∷ xs) = x

rest_of : List ℕ → List ℕ
rest_of [] = []
rest_of (x ∷ xs) = xs

codes-injective : (s t : String) → codes s ≡ codes t → s ≡ t
codes-injective String.[] String.[] h = refl
codes-injective String.[] (String.◌∷◌ c t) h = ground arith
codes-injective (String.◌∷◌ c s) String.[] h = ground arith
codes-injective (String.◌∷◌ c s) (String.◌∷◌ d t) h =
    let e : code c ≡ code d = cc in
    let e' : codes s ≡ codes t = cc in
    λ i. String.◌∷◌ (Char-path c d e i) (codes-injective s t e' i)

abbrev pub fields : LockResource → List (List ℕ)
fields r = r.branch ∷ r.hash ∷ codes r.description ∷ []

pub fields-injective : (r s : LockResource) → fields r ≡ fields s → r ≡ s
fields-injective r s h =
    let b : r.branch ≡ s.branch = cc in
    let n : r.hash ≡ s.hash = cc in
    let d : codes r.description ≡ codes s.description = cc in
    λ i. record {
      branch = b i;
      hash = n i;
      description = codes-injective r.description s.description d i;
    }

abbrev pub resource_order : Order LockResource
resource_order =
    let o = list_order (list_order nat_order) in
    record {
      le = λ r s. o.le (fields r) (fields s);
      same = λ r s. o.same (fields r) (fields s);
      le_total = λ r s. o.le_total (fields r) (fields s);
      le_trans = λ r s t. o.le_trans (fields r) (fields s) (fields t);
      le_antisymm = λ r s h k. fields-injective r s (o.le_antisymm (fields r) (fields s) h k);
      same_iff = λ r s. (
        λ h. fields-injective r s ((o.same_iff (fields r) (fields s)).0 h),
        λ h. (o.same_iff (fields r) (fields s)).1 (ap fields h),
      );
    }

abbrev pub key_fields : LockKey → List (List ℕ)
key_fields k = k.repository ∷ k.branch ∷ k.hash ∷ []

pub key_fields-injective : (j k : LockKey) → key_fields j ≡ key_fields k → j ≡ k
key_fields-injective j k h =
    let r : j.repository ≡ k.repository = cc in
    let b : j.branch ≡ k.branch = cc in
    let n : j.hash ≡ k.hash = cc in λ i. record { repository = r i; branch = b i; hash = n i }

abbrev pub key_order : Order LockKey
key_order =
    let o = list_order (list_order nat_order) in
    record {
      le = λ r s. o.le (key_fields r) (key_fields s);
      same = λ r s. o.same (key_fields r) (key_fields s);
      le_total = λ r s. o.le_total (key_fields r) (key_fields s);
      le_trans = λ r s t. o.le_trans (key_fields r) (key_fields s) (key_fields t);
      le_antisymm =
          λ r s h k. key_fields-injective r s (o.le_antisymm (key_fields r) (key_fields s) h k);
      same_iff = λ r s. (
        λ h. key_fields-injective r s ((o.same_iff (key_fields r) (key_fields s)).0 h),
        λ h. (o.same_iff (key_fields r) (key_fields s)).1 (ap key_fields h),
      );
    }

pub resource_order-key_order :
    (repository : Bytes) (r s : LockResource)
    → resource_order.le r s ≡ true
    → key_order.le (key repository r) (key repository s) ≡ true
resource_order-key_order repository r s h =
    ground (arith, list_same_iff nat_order repository repository)
