-- ===== src/Mutable/Mixed.antt =====
-- Swaps beside plain stores, which take no advisory lock.
use lore_stack.Common.{
  false, Bool-cases, inl, inr, ℕ, ◌≡◌, ◌≢◌, refl, ap, ◌∙◌, Option, none, some, [], Bytes, length,
}
use lore_stack.Common.Family.{update}
use lore_stack.Common.Eq.{◌==◌, nat_eq, list_eq, list_beq_iff}
use lore_stack.Sql.Table.{Table}
use lore_stack.Sql.World.{ok}
use lore_stack.Sql.Triple.{world}
use lore_stack.Mutable.Types.{ValueKey, value_key_eq, Upstream}
use lore_stack.Mutable.Store.{or_zero, store_typed}
use lore_stack.Mutable.Register.{register, IsWellFormed, upsert-Sets, decoded_total}
use lore_stack.Mutable.Laws.{store_typed-calm}
use lore_stack.Mutable.Sessions.{Swap, Pc, lock_of, commit_of, Move, System, Step}

module _ (up : Upstream) (values : Table value_key_eq Bytes) (lock_id : ValueKey → ℕ) where
  open values use {T, find}

  -- A statement on a row that another transaction has written waits for it.
  abbrev writes : Pc → Option ValueKey
  writes (Pc.wrote a c) = some a.key
  writes _ = none

  -- `store` is one statement outside a transaction.
  pub data MixedStep (s : System up values lock_id) : System up values lock_id → Type 0 where
    swap : {t : System up values lock_id} → Step up values lock_id s t → MixedStep s t
    store :
        (k : ValueKey) (v : Bytes) {db u : T}
        → ((j : ℕ) → writes (s.pc j) ≢ some k)
        → store_typed up values k.repository_id k.key v (world s.db s.db [])
          ≡ (ok tt, world db u [])
        → MixedStep s (record { db = db; pc = s.pc })

  pub data MixedReach (db : T) : System up values lock_id → Type 0 where
    start : MixedReach db (record { db = db; pc = λ i. Pc.idle })
    later : {s t : System up values lock_id} → MixedReach db s → MixedStep s t → MixedReach db t

  -- Nobody holds a lock, or writes a row, where only session 0 has left the idle state.
  pub quiet :
      {A : Type 0} (g : Pc → Option A) (p : Pc) (f : ℕ → Pc)
      → g p ≡ none
      → ((j : ℕ) → g (f j) ≡ none)
      → (j : ℕ) → g (update f 0 p j) ≡ none
  quiet g p f here there j = elim (Bool-cases (0 == j)) [
    | inl y ↦ rw y here
    | inr n ↦ rw n (there j)
  ]

  pub none-ne-some : {A : Type 0} (o : Option A) (x : A) → o ≡ none → o ≢ some x
  none-ne-some o x h e = cc (h, e)

  -- From any well-formed rows in which a register holds what a swap expects, a schedule leads to
  -- a state in which a `store` of a value that is not zero has committed to the register in the
  -- middle of the swap, and the swap, whose COMMIT is next, answers the expected value and
  -- overwrites the stored one.
  pub store-overwritten :
      (db : T) (a : Swap) (v : Bytes)
      → IsWellFormed up values db
      → length a.value ≡ 32
      → register up values db a.key ≡ a.expected
      → up.is_zero v ≡ false
      → (s : System up values lock_id) × (t : T) × MixedReach db s
        × (register up values s.db a.key ≡ v)
        × (commit_of up values lock_id s.db (s.pc 0) ≡ some (a, a.expected, t))
        × (register up values t a.key ≡ a.value)
  store-overwritten db a v wf n h nz =
      let c = or_zero up (find db a.key) in
      let stored = (values.upsert a.key v db).1 in
      let stores : store_typed up values a.key.repository_id a.key.key v (world db db [])
          ≡ (ok tt, world stored db []) =
        store_typed-calm up values a.key.repository_id a.key.key v db db ∙ rw nz refl in
      let w1 : MixedReach db _ = later start (swap (Step.turn 0 (Move.call a n))) in
      let w2 : MixedReach db _ = later w1 (
        swap (
          Step.enter 0 a refl (λ j. none-ne-some _ _ (
            quiet (lock_of up values lock_id) (Pc.waiting a) (λ i. Pc.idle) refl (λ i. refl)
              j)))) in
      let w3 : MixedReach db _ = later w2 (
        swap (
          Step.turn 0
            (Move.select {a = a} (decoded_total up values a.key.repository_id a.key.key db wf)))) in
      let w4 : MixedReach db _ = later w3 (
        store a.key v
          (λ j. none-ne-some _ _ (
            quiet writes (Pc.seen a c) _ refl
              (quiet writes (Pc.locked a) _ refl
                (quiet writes (Pc.waiting a) (λ i. Pc.idle) refl (λ i. refl)))
              j))
          stores) in
      let w5 : MixedReach db _ =
        later w4 (swap (Step.turn 0 (Move.write ((list_beq_iff ⦃e = nat_eq⦄ c a.expected).1 h)))) in
      (
        _,
        (values.upsert a.key a.value stored).1,
        w5,
        ap (or_zero up) (upsert-Sets up values a.key v db).self,
        ap (λ x. some (a, x, (values.upsert a.key a.value stored).1)) h,
        ap (or_zero up) (upsert-Sets up values a.key a.value stored).self,
      )
