-- ===== src/Locks/Waits.antt =====
-- Where the transactions of lore-pg/src/store/pg_lock_store.rs that run at once stand: their next
-- statements, and who holds a key.
use lore_stack.Common.{
  ℕ, zero, suc, ◌≡◌, ◌≢◌, ◌<◌, ap, sym, subst, ◌∙◌, ◌⊎◌, inl, inr, true, false, Option, none, some,
  Option-cases, List, [], ◌∷◌, All, arith, Bool-cases,
}
use native.Mathlib.Decide.{dec_lt, ℕ_discrete}
use lore_stack.Common.Eq.{◌==◌}
use lore_stack.Locks.Types.{LockKey, lock_key_eq}
use lore_stack.Locks.Canon.{Order}
use lore_stack.Locks.Sessions.{Pc, held_by, contains, System}
use lore_stack.Locks.Orderly.{Before, or_right}

-- The key of the session's next statement.
abbrev pub next_of : Pc → Option LockKey
next_of Pc.idle = none
next_of (Pc.running held []) = none
next_of (Pc.running held (k ∷ rest)) = some k

below-cases : (i n : ℕ) → i < suc n → (i < n) ⊎ (i ≡ n)
below-cases i n lt = elim (dec_lt i n) [ yes below ↦ inl below | no other ↦ inr (omega arith) ]

next-same :
    (s : System) {j n : ℕ} {k m : LockKey}
    → j ≡ n
    → next_of (s.pc n) ≡ some k
    → next_of (s.pc j) ≡ some m
    → m ≡ k
next-same s {j} {n} e at at' =
    let moved : next_of (s.pc j) ≡ next_of (s.pc n) = ap (λ i. next_of (s.pc i)) e in
    cc (moved, at, at')

-- The other session that holds the key, when there is one.
pub holder :
    (s : System) (i : ℕ) (k : LockKey) (n : ℕ)
    → ((j : ℕ) → j < n → i ≢ j → contains (held_by (s.pc j)) k ≡ false)
      ⊎ ((j : ℕ) × (j < n) × (i ≢ j) × (contains (held_by (s.pc j)) k ≡ true))
holder s i k zero = inl (λ j lt. absurd (omega arith))
holder s i k (suc n) = elim (holder s i k n) [
  | inr (j, lt, other, h) ↦ inr (j, omega arith, other, h)
  | inl all ↦ elim (Bool-cases (contains (held_by (s.pc n)) k)) [
    | inr out ↦ inl (λ j lt other. elim (below-cases j n lt) [
      | inl below ↦ all j below other
      | inr same ↦ ap (λ l. contains (held_by (s.pc l)) k) same ∙ out
    ])
    | inl h ↦ elim (ℕ_discrete i n) [
      | yes same ↦ inl (λ j lt other. elim (below-cases j n lt) [
        | inl below ↦ all j below other
        | inr e ↦ absurd (other (omega arith))
      ])
      | no other ↦ inr (n, omega arith, other, h)
    ]
  ]
]

pub All-contains :
    (P : LockKey → Type 0) (ks : List LockKey) (k : LockKey) → All P ks → contains ks k ≡ true → P k
All-contains P [] k h c = absurd cc
All-contains P (j ∷ js) k h c = elim (Bool-cases (j == k)) [
  | inl y ↦ subst P ((lock_key_eq.beq_iff j k).0 y) h.0
  | inr other ↦ All-contains P js k h.1 (or_right (j == k) _ c other)
]

pub next_of-busy : (p : Pc) (k : LockKey) → next_of p ≡ some k → p ≢ Pc.idle
next_of-busy p k at e = let none_some : next_of p ≡ none = ap next_of e in cc (at, none_some)

module _ (by_key : Order LockKey) where
  le_refl : (k m : LockKey) → k ≡ m → Before by_key k m
  le_refl k m e = subst (Before by_key k) e (elim (by_key.le_total k k) [ inl x ↦ x | inr x ↦ x ])

  -- Of the sessions that have a next statement, one has the last key.
  pub latest :
      (s : System) (n : ℕ)
      → ((i : ℕ) → i < n → next_of (s.pc i) ≡ none)
        ⊎ ((i : ℕ) × (k : LockKey) × (next_of (s.pc i) ≡ some k)
            × ((j : ℕ) (m : LockKey) → j < n → next_of (s.pc j) ≡ some m → Before by_key m k))
  latest s zero = inl (λ i lt. absurd (omega arith))
  latest s (suc n) = elim (Option-cases (next_of (s.pc n))) [
    | inl quiet ↦ elim (latest s n) [
      | inl all ↦ inl (λ i lt. elim (below-cases i n lt) [
        | inl below ↦ all i below
        | inr e ↦ ap (λ j. next_of (s.pc j)) e ∙ quiet
      ])
      | inr (i, k, at, max) ↦ inr (
        i,
        k,
        at,
        λ j m lt e. elim (below-cases j n lt) [
          | inl below ↦ max j m below e
          | inr same ↦
              let moved : next_of (s.pc j) ≡ next_of (s.pc n) = ap (λ i. next_of (s.pc i)) same in
              cc (moved, quiet, e)
        ],
      )
    ]
    | inr (m, here) ↦ elim (latest s n) [
      | inl all ↦ inr (
        n,
        m,
        here,
        λ j m' lt e. elim (below-cases j n lt) [
          | inl below ↦ let quiet = all j below in cc (quiet, e)
          | inr same ↦ le_refl m' m (next-same s same here e)
        ],
      )
      | inr (i, k, at, max) ↦ elim (by_key.le_total m k) [
        | inl le ↦ inr (
          i,
          k,
          at,
          λ j m' lt e. elim (below-cases j n lt) [
            | inl below ↦ max j m' below e
            | inr same ↦ subst (λ x. Before by_key x k) (sym (next-same s same here e)) le
          ],
        )
        | inr ge ↦ inr (
          n,
          m,
          here,
          λ j m' lt e. elim (below-cases j n lt) [
            | inl below ↦ by_key.le_trans m' k m (max j m' below e) ge
            | inr same ↦ le_refl m' m (next-same s same here e)
          ],
        )
      ]
    ]
  ]
