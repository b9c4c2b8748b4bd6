-- ===== src/Locks/Deadlock.antt =====
-- Transactions that take their row locks in one order never wait for each other in a circle.
use lore_stack.Common.{
  refl, ℕ, ◌≡◌, ◌≢◌, ◌<◌, ◌≤◌, ap, sym, subst, inl, inr, true, false, Option, none, some, [], ◌∷◌,
  Bytes, All, arith, Bool-cases,
}
use native.Mathlib.Decide.{dec_lt}
use lore_stack.Locks.Types.{LockResource, LockKey, lock_key_eq}
use lore_stack.Locks.Canon.{Order}
use lore_stack.Locks.Store.{key}
use lore_stack.Locks.Sessions.{Pc, held_by, contains, System, IsFree, Reach}
use lore_stack.Locks.Orderly.{Before, IsOrderly, Inv, Reach-Inv}
use lore_stack.Locks.Waits.{next_of, holder, All-contains, next_of-busy, latest}

module _ (by_key : Order LockKey) where
  IsOrderly-Before :
      (p : Pc) (k m : LockKey)
      → IsOrderly by_key p
      → contains (held_by p) k ≡ true
      → next_of p ≡ some m
      → Before by_key k m
  IsOrderly-Before Pc.idle k m o c at = absurd cc
  IsOrderly-Before (Pc.running held []) k m o c at = absurd cc
  IsOrderly-Before (Pc.running held (l ∷ rest)) k m o c at =
      let l_m : l ≡ m = cc at in
      subst (Before by_key k) l_m
        (All-contains (λ j. All (Before by_key j) (l ∷ rest)) held k o.1 c).0

  -- The session with the last key waits for no one.
  latest-IsFree :
      (n : ℕ) (s : System) (i : ℕ) (k : LockKey)
      → Inv by_key n s
      → next_of (s.pc i) ≡ some k
      → ((j : ℕ) (m : LockKey) → j < n → next_of (s.pc j) ≡ some m → Before by_key m k)
      → (j : ℕ) → j < n
      → i ≢ j
      → contains (held_by (s.pc j)) k ≡ true
      → (m : LockKey) → next_of (s.pc j) ≡ some m
      → IsFree s j m
  latest-IsFree n s i k v at max j lt other h m next l apart =
      elim (Bool-cases (contains (held_by (s.pc l)) m)) [
        | inr out ↦ out
        | inl taken ↦ absurd (
            apart (
              v.exclusive j l k h
                (subst (λ x. contains (held_by (s.pc l)) x ≡ true) (sym same) taken)))
      ]
    where
      same : k ≡ m
      same =
          by_key.le_antisymm k m (IsOrderly-Before (s.pc j) k m (v.orderly j) h next)
            (max j m lt next)

  idle-holds :
      (n : ℕ) (s : System) (k : LockKey) (j : ℕ)
      → Inv by_key n s
      → n ≤ j
      → contains (held_by (s.pc j)) k ≡ false
  idle-holds n s k j v le = ap (λ p. contains (held_by p) k) (v.few j le)

-- The session has no statement left, or its next one waits for nobody.
abbrev pub Unblocked : System → ℕ → Option LockKey → Type 0
Unblocked s j none = Unit {0}
Unblocked s j (some k) = IsFree s j k

Unblocked-next :
    (s : System) (j : ℕ) (o : Option LockKey)
    → ((k : LockKey) → o ≡ some k → IsFree s j k)
    → Unblocked s j o
Unblocked-next s j none free = tt
Unblocked-next s j (some k) free = free k refl

module _ (order : Order LockResource) (by_key : Order LockKey)
    (monotone : (repository : Bytes) (r s : LockResource)
      → order.le r s ≡ true
      → by_key.le (key repository r) (key repository s) ≡ true) where
  unblocked :
      (n : ℕ) (s : System) (i : ℕ)
      → Reach order n s
      → s.pc i ≢ Pc.idle
      → (j : ℕ) × (s.pc j ≢ Pc.idle) × ((k : LockKey) → next_of (s.pc j) ≡ some k → IsFree s j k)
  unblocked n s i r busy = elim (latest by_key s n) [
    | inl all ↦ (i, busy, λ k at. let quiet = all i i_below in absurd cc (quiet, at))
    | inr (l, k, at, max) ↦ elim (holder s l k n) [
      | inl free ↦ (
        l,
        next_of-busy (s.pc l) k at,
        λ m at' j' apart. elim (dec_lt j' n) [
          | yes below ↦
              let same : m ≡ k = cc (at, at') in
              subst (λ x. contains (held_by (s.pc j')) x ≡ false) (sym same) (free j' below apart)
          | no above ↦ idle-holds by_key n s m j' v (omega arith)
        ],
      )
      | inr (j, lt, other, h) ↦ (
        j,
        λ idle.
            let none_held : contains (held_by (s.pc j)) k ≡ false =
              ap (λ p. contains (held_by p) k) idle in
            cc (h, none_held),
        λ m next. latest-IsFree by_key n s l k v at max j lt other h m next,
      )
    ]
  ]
    where
      v : Inv by_key n s
      v = Reach-Inv order by_key monotone r

      i_below : i < n
      i_below = elim (dec_lt i n) [
        | yes below ↦ below
        | no above ↦ absurd (busy (v.few i (omega arith)))
      ]

  -- Sessions run transactions of `lock_resources` and `unlock_resources` at once, in any order,
  -- each waiting where it needs a row that another one has written; the order of the resources
  -- respects the one of the keys. In every state that is reached, if a session is inside its
  -- transaction, then so is one that has no statement left or whose next statement waits for
  -- nobody.
  pub no_deadlock :
      (n : ℕ) (s : System) (i : ℕ)
      → Reach order n s
      → s.pc i ≢ Pc.idle
      → (j : ℕ) × (s.pc j ≢ Pc.idle) × Unblocked s j (next_of (s.pc j))
  no_deadlock n s i r busy =
      let (j, running, free) = unblocked n s i r busy in
      (j, running, Unblocked-next s j (next_of (s.pc j)) free)
