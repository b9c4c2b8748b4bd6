-- ===== src/Mutable/Faults.antt =====
-- Whatever becomes of the requests, a sequence of calls of the mutable store is explained by the
-- abstract registers.
use lore_stack.Common.{
  ◌≡◌, ◌≢◌, refl, ap, sym, subst, ◌⊎◌, inl, inr, Option, some, none, List, [], ◌∷◌, Bytes, arith,
  length, All, Bool-cases,
}
use lore_stack.Common.Eq.{◌==◌, nat_eq, list_eq, list_beq_iff}
use lore_stack.Sql.Table.{Table}
use lore_stack.Sql.World.{World, Result, ok, err, pure, continue}
use lore_stack.Sql.Triple.{Post}
use lore_stack.Mutable.Types.{StoreError, ValueKey, value_key_eq, Upstream}
use lore_stack.Mutable.Store.{typed_key, load, store, compare_and_swap}
use lore_stack.Mutable.Abstract.{
  Op, Answer, IsHash, place, effect, Explained, answered, failed, Explains, call, run, set,
}
use lore_stack.Mutable.Register.{register, IsWellFormed, Sets, slot, store_typed_outcome}
use lore_stack.Mutable.Swap
use lore_stack.Mutable.Swap.{compare_and_swap_typed_outcome}
use lore_stack.Mutable.Effects.{
  register-Sets, register-slot, register-kept, kept-IsWellFormed, hash-IsWellFormed,
  slot-IsWellFormed,
}
use lore_stack.Mutable.Failures.{IsInternal, store-Guarded, swap-Guarded}
use lore_stack.Mutable.Loads.{Loaded, NotLoaded, load_typed_outcome}

module _ (up : Upstream) (values : Table value_key_eq Bytes) where
  open up use {KeyType, context_of, is_zero}
  open values use {T, find}

  abbrev Outcome : Op KeyType → T → Answer → World T → Type 0
  Outcome op c a w =
      Explained up op (register up values c) a (register up values w.committed)
      × IsWellFormed up values w.committed

  -- An internal error, after which nothing or all of the call has happened.
  uncertain :
      (op : Op KeyType) (c : T) (e : StoreError) (w : World T)
      → IsInternal e
      → IsWellFormed up values c
      → ((w.committed ≡ c)
          ⊎ ((register up values w.committed ≡ effect up op (register up values c))
              × IsWellFormed up values w.committed))
      → Outcome op c (err e) w
  uncertain op c e w (cause, i) wf (inl same) = (
    failed cause (ap err i) (inl (ap (register up values) same)),
    subst (IsWellFormed up values) (sym same) wf,
  )
  uncertain op c e w (cause, i) wf (inr (h, wf')) = (failed cause (ap err i) (inr h), wf')

  module _ (p key : Bytes) (kt : KeyType) (before : World T)
      (wf : IsWellFormed up values before.committed) where
    abbrev c : T
    c = before.committed

    abbrev k : ValueKey
    k = place up p key kt

    -- The outcome of a call, from what its method returns.
    abbrev ExplainsResult :
        {A : Type 0} → Op KeyType → (A → Option Bytes) → Result StoreError A × World T → Type 0
    ExplainsResult op g o = let (a, w) = continue (λ a. pure (g a)) o in Outcome op c a w

    load-Outcome :
        (o : Result StoreError Bytes × World T)
        → Post
            (Loaded up values (context_of p) (typed_key up key kt) before)
            (NotLoaded up values (context_of p) (typed_key up key kt) before)
            o
        → ExplainsResult (Op.load p key kt) some o
    load-Outcome (ok v, w) h = (
      answered (rw h.1 (ap (λ x. ok (some x)) h.0)) (ap (register up values) h.2),
      subst (IsWellFormed up values) (sym h.2) wf,
    )
    load-Outcome (err e, w) h = elim h.0 [
      | inl (miss, zero) ↦ (
        answered (rw zero (ap err miss)) (ap (register up values) h.1),
        subst (IsWellFormed up values) (sym h.1) wf,
      )
      | inr (i, bad) ↦ uncertain (Op.load p key kt) c e w i wf (inl h.1)
    ]

    module _ (v : Bytes) (n : length v ≡ 32) where
      store-Outcome :
          (o : Result StoreError (Unit {0}) × World T)
          → Post
              (λ _ w. Sets up values k (slot up values v) c w.committed)
              (λ e w.
                ((w.committed ≡ c) ⊎ Sets up values k (slot up values v) c w.committed)
                × (before.fates ≢ []))
              o
          → Post (λ a w. Unit {0}) (λ e w. IsInternal e) o
          → ExplainsResult (Op.store p key v kt) (λ _. none) o
      store-Outcome (ok a, w) s h = (
        answered refl (register-slot up values k v c w.committed s),
        slot-IsWellFormed up values k v c w.committed s n wf,
      )
      store-Outcome (err e, w) s i = uncertain (Op.store p key v kt) c e w i wf (elim s.0 [
        | inl same ↦ inl same
        | inr set ↦ inr (
          register-slot up values k v c w.committed set,
          slot-IsWellFormed up values k v c w.committed set n wf,
        )
      ])

      module _ (expected : Bytes) where
        -- The registers after a swap.
        swapped :
            (w : World T)
            → Swap.Swaps up values (context_of p) (typed_key up key kt) expected v c w.committed
            → (register up values w.committed
                ≡ effect up (Op.compare_and_swap p key expected v kt) (register up values c))
              × IsWellFormed up values w.committed
        swapped w s =
            let now = register up values c k in
            elim (Bool-cases (now == expected)) [
              | inl y ↦
                  let set = s.swapped ((list_beq_iff ⦃e = nat_eq⦄ now expected).0 y) in
                  (
                    rw y (register-Sets up values k (some v) c w.committed set),
                    hash-IsWellFormed up values k v c w.committed set n wf,
                  )
              | inr x ↦
                  let same =
                    s.kept (λ e. ground (arith, (list_beq_iff ⦃e = nat_eq⦄ now expected).1 e)) in
                  (
                    rw x (register-kept up values c w.committed same),
                    kept-IsWellFormed up values c w.committed same wf,
                  )
            ]

        swap-Outcome :
            (o : Result StoreError Bytes × World T)
            → Post
                (Swap.Witnessed up values (context_of p) (typed_key up key kt) expected v before)
                (Swap.Aborted up values (context_of p) (typed_key up key kt) expected v before)
                o
            → Post (λ a w. Unit {0}) (λ e w. IsInternal e) o
            → ExplainsResult (Op.compare_and_swap p key expected v kt) some o
        swap-Outcome (ok a, w) s h =
            let (r, wf') = swapped w s.1 in (answered (ap (λ x. ok (some x)) s.0) r, wf')
        swap-Outcome (err e, w) s i =
            uncertain (Op.compare_and_swap p key expected v kt) c e w i wf
              (elim s.whole [ inl same ↦ inl same | inr (_, done) ↦ inr (swapped w done) ])

  call-Outcome :
      (op : Op KeyType) (before : World T)
      → IsHash op
      → IsWellFormed up values before.committed
      → let (a, w) = call up values op before in Outcome op before.committed a w
  unfolding call load store compare_and_swap
  call-Outcome (Op.load p key kt) before n wf =
      load-Outcome p key kt before wf _
        (load_typed_outcome up values (context_of p) (typed_key up key kt) before wf)
  call-Outcome (Op.store p key v kt) before n wf =
      store-Outcome p key kt before wf v n _
        (store_typed_outcome up values (context_of p) (typed_key up key kt) v before)
        ((store-Guarded up values (context_of p) (typed_key up key kt) v).at before tt)
  call-Outcome (Op.compare_and_swap p key expected v kt) before n wf =
      swap-Outcome p key kt before wf v n expected _
        (compare_and_swap_typed_outcome up values (context_of p) (typed_key up key kt) expected v
          before)
        ((swap-Guarded up values (context_of p) (typed_key up key kt) expected v).at before tt)

  -- Whatever becomes of the requests, from well-formed rows: any sequence of calls of `load`,
  -- `store` and `compare_and_swap` that write hashes of 32 bytes is explained, answer by answer,
  -- by a hash for each key: each call answers and takes effect there at once, or it fails with an
  -- internal error and has taken effect or not; the registers end as the explanation does, and
  -- the rows stay well-formed.
  pub run-Explains :
      (ops : List (Op KeyType)) (before : World T)
      → All IsHash ops
      → IsWellFormed up values before.committed
      → let (answers, w) = run up values ops before in
        Explains up ops
          (register up values before.committed)
          answers
          (register up values w.committed)
        × IsWellFormed up values w.committed
  unfolding run
  run-Explains [] before n wf = (refl, wf)
  run-Explains (op ∷ ops) before n wf =
      let (a, w) = call up values op before in
      let (e, wf') = call-Outcome op before n.0 wf in
      let (rest, wf'') = run-Explains ops w n.1 wf' in
      ((register up values w.committed, e, rest), wf'')
