-- ===== src/Locks/Orderly.antt =====
-- What holds of every reachable state of the row locks of lock_resources and unlock_resources of
-- lore-pg/src/store/pg_lock_store.rs.
use lore_stack.Common.{
  ℕ, ◌≡◌, ◌≢◌, ◌≤◌, refl, ap, sym, subst, ◌∙◌, ◌⊎◌, inl, inr, Bool, true, false, ◌||◌, List, [],
  ◌∷◌, map, Bytes, All, All-map, arith, Bool-cases,
}
use lore_stack.Common.Eq.{◌==◌}
use lore_stack.Common.Family.{update, update-cases}
use lore_stack.Locks.Types.{LockResource, LockKey, lock_key_eq}
use lore_stack.Locks.Canon.{Order, canonical, Follows, IsStrict, canonical-IsStrict}
use lore_stack.Locks.Store.{key}
use lore_stack.Locks.Sessions.{Pc, held_by, contains, System, IsFree, rounds, Step, Reach}

pub or_right : (x y : Bool) → x || y ≡ true → x ≡ false → y ≡ true
or_right x y h n = ground arith

module _ (by_key : Order LockKey) where
  abbrev pub Before : LockKey → LockKey → Type 0
  Before j k = by_key.le j k ≡ true

  abbrev IsAscending : List LockKey → Type 0
  IsAscending [] = Unit {0}
  IsAscending (k ∷ ks) = All (Before k) ks × IsAscending ks

  -- The keys that are held precede those that are left.
  abbrev pub IsOrderly : Pc → Type 0
  IsOrderly Pc.idle = Unit {0}
  IsOrderly (Pc.running held rest) = IsAscending rest × All (λ k. All (Before k) rest) held

  pub record Inv (n : ℕ) (s : System) : Type 0 where
    pub few : (i : ℕ) → n ≤ i → s.pc i ≡ Pc.idle
    pub orderly : (i : ℕ) → IsOrderly (s.pc i)
    pub exclusive :
        (i j : ℕ) (k : LockKey)
        → contains (held_by (s.pc i)) k ≡ true
        → contains (held_by (s.pc j)) k ≡ true
        → i ≡ j

  -- A session that moves holds what it held before and what was free.
  moved :
      {n : ℕ} {s : System} (i : ℕ) (q : Pc)
      → Inv n s
      → (n ≤ i → q ≡ Pc.idle)
      → IsOrderly q
      → ((k : LockKey)
          → contains (held_by q) k ≡ true
          → (contains (held_by (s.pc i)) k ≡ true) ⊎ IsFree s i k)
      → Inv n (record { pc = update s.pc i q })
  moved {n} {s} i q v few_q orderly_q taken = record {
    few = λ j le.
        update-cases (λ p. p ≡ Pc.idle) s.pc i j q (λ e. few_q (omega arith)) (λ _. v.few j le);
    orderly = λ j. update-cases IsOrderly s.pc i j q (λ _. orderly_q) (λ _. v.orderly j);
    exclusive = λ j l k h h'. elim (held j k h) [
      | inl (e, o) ↦ elim (held l k h') [
        | inl (e', _) ↦ sym e ∙ e'
        | inr (n', h'') ↦ elim o [
          | inl old ↦ sym e ∙ v.exclusive i l k old h''
          | inr free ↦ let no : contains (held_by (s.pc l)) k ≡ false = free l n' in cc (no, h'')
        ]
      ]
      | inr (n', h'') ↦ elim (held l k h') [
        | inl (e', o) ↦ elim o [
          | inl old ↦ sym (sym e' ∙ v.exclusive i j k old h'')
          | inr free ↦ let no : contains (held_by (s.pc j)) k ≡ false = free j n' in cc (no, h'')
        ]
        | inr (_, g) ↦ v.exclusive j l k h'' g
      ]
    ];
  }
    where
      held :
          (j : ℕ) (k : LockKey)
          → contains (held_by (update s.pc i q j)) k ≡ true
          → ((i ≡ j) × ((contains (held_by (s.pc i)) k ≡ true) ⊎ IsFree s i k))
            ⊎ ((i ≢ j) × (contains (held_by (s.pc j)) k ≡ true))
      held j k =
          update-cases
            (λ p.
              contains (held_by p) k ≡ true
              → ((i ≡ j) × ((contains (held_by (s.pc i)) k ≡ true) ⊎ IsFree s i k))
                ⊎ ((i ≢ j) × (contains (held_by (s.pc j)) k ≡ true)))
            s.pc i j q (λ e h. inl (e, taken k h)) (λ n h. inr (n, h))

module _ (order : Order LockResource) (by_key : Order LockKey)
    (monotone : (repository : Bytes) (r s : LockResource)
      → order.le r s ≡ true
      → by_key.le (key repository r) (key repository s) ≡ true) where
  Follows-All :
      (x : LockResource) (xs : List LockResource)
      → Follows order x xs
      → All (λ y. order.le x y ≡ true) xs
  Follows-All x [] f = tt
  Follows-All x (y ∷ ys) f =
      (f.0, All-map (λ z h. order.le_trans x y z f.0 h) ys (Follows-All y ys f.2))

  All-keys :
      (repository : Bytes) (x : LockResource) (xs : List LockResource)
      → All (λ y. order.le x y ≡ true) xs
      → All (Before by_key (key repository x)) (map (key repository) xs)
  All-keys repository x [] h = tt
  All-keys repository x (y ∷ ys) h = (monotone repository x y h.0, All-keys repository x ys h.1)

  Follows-IsAscending :
      (repository : Bytes) (x : LockResource) (xs : List LockResource)
      → Follows order x xs
      → IsAscending by_key (map (key repository) (x ∷ xs))
  Follows-IsAscending repository x [] f = (tt, tt)
  Follows-IsAscending repository x (y ∷ ys) f = (
    All-keys repository x (y ∷ ys) (Follows-All x (y ∷ ys) f),
    Follows-IsAscending repository y ys f.2,
  )

  rounds-IsAscending :
      (repository : Bytes) (resources : List LockResource)
      → IsAscending by_key (rounds order repository resources)
  rounds-IsAscending repository resources =
      go (canonical order resources) (canonical-IsStrict order resources)
    where
      go :
          (xs : List LockResource)
          → IsStrict order xs
          → IsAscending by_key (map (key repository) xs)
      go [] h = tt
      go (x ∷ xs) h = Follows-IsAscending repository x xs h

  Step-Inv : {n : ℕ} {s t : System} → Inv by_key n s → Step order n s t → Inv by_key n t
  Step-Inv v (Step.begin i repository resources lt at) =
      moved by_key i (Pc.running [] (rounds order repository resources)) v
        (λ le. absurd (omega arith)) (rounds-IsAscending repository resources, tt) (λ k h. cc)
  Step-Inv {s} v (Step.take i k held rest at free) =
      let o = subst (IsOrderly by_key) at (v.orderly i) in
      moved by_key i (Pc.running (k ∷ held) rest) v (λ le. let idle = v.few i le in cc (at, idle))
        (o.0.1, (o.0.0, All-map (λ j x. x.1) held o.1))
        (λ m h. elim (Bool-cases (k == m)) [
          | inl y ↦ inr (subst (IsFree s i) ((lock_key_eq.beq_iff k m).0 y) free)
          | inr other ↦ inl (ap (λ p. contains (held_by p) m) at ∙ or_right (k == m) _ h other)
        ])
  Step-Inv v (Step.pass i k held rest at free) =
      let o = subst (IsOrderly by_key) at (v.orderly i) in
      moved by_key i (Pc.running held rest) v (λ le. let idle = v.few i le in cc (at, idle))
        (o.0.1, All-map (λ j x. x.1) held o.1)
        (λ m h. inl (ap (λ p. contains (held_by p) m) at ∙ h))
  Step-Inv v (Step.leave i) = moved by_key i Pc.idle v (λ le. refl) tt (λ k h. cc)

  pub Reach-Inv : {n : ℕ} {s : System} → Reach order n s → Inv by_key n s
  Reach-Inv Reach.start = record {
    few = λ i le. refl;
    orderly = λ i. tt;
    exclusive = λ i j k h h'. cc;
  }
  Reach-Inv (Reach.later r st) = Step-Inv (Reach-Inv r) st
