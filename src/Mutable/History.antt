-- ===== src/Mutable/History.antt =====
-- While every request is answered, a sequence of calls of the mutable store answers and leaves
-- what the abstract registers say.
use lore_stack.Common.{
  ◌≡◌, refl, ap, sym, inl, inr, some, List, [], ◌∷◌, Bytes, arith, length, All, Bool-cases,
}
use lore_stack.Common.Eq.{◌==◌, nat_eq, list_eq, list_beq_iff}
use lore_stack.Sql.Table.{Table}
use lore_stack.Sql.World.{ok}
use lore_stack.Sql.Triple.{world}
use lore_stack.Mutable.Types.{value_key_eq, Upstream}
use lore_stack.Mutable.Store.{typed_key, load, store, compare_and_swap}
use lore_stack.Mutable.Abstract.{Op, IsHash, place, reply, effect, replay, call, run}
use lore_stack.Mutable.Register.{register, IsWellFormed, upsert-Sets, load_typed-calm}
use lore_stack.Mutable.Laws.{stored, stored-Sets, store_typed-calm, swap_hit}
use lore_stack.Mutable.Races.{swap_miss}
use lore_stack.Mutable.Effects.{
  register-Sets, register-slot, hash-IsWellFormed, slot-IsWellFormed, continue-found_or_missing,
}

module _ (up : Upstream) (values : Table value_key_eq Bytes) where
  open up use {KeyType, context_of}
  open values use {T, find}

  -- The call answers and leaves what the registers say, and the rows stay well-formed.
  abbrev Follows : Op KeyType → T → T → Type 0
  Follows op c t =
      (d : T) × (u : T) × (call up values op (world c t [])
        ≡ (reply up op (register up values c), world d u []))
      × (register up values d ≡ effect up op (register up values c))
      × IsWellFormed up values d

  load-Follows :
      (p key : Bytes) (kt : KeyType) (c t : T)
      → IsWellFormed up values c
      → Follows (Op.load p key kt) c t
  unfolding call load
  load-Follows p key kt c t wf = (
    c,
    t,
    rw (load_typed-calm up values (context_of p) (typed_key up key kt) c t wf) (
        continue-found_or_missing up values (typed_key up key kt) (find c (place up p key kt))
          (world c t [])),
    refl,
    wf,
  )

  store-Follows :
      (p key v : Bytes) (kt : KeyType) (c t : T)
      → length v ≡ 32
      → IsWellFormed up values c
      → Follows (Op.store p key v kt) c t
  unfolding call store
  store-Follows p key v kt c t n wf =
      let k = place up p key kt in
      let d = stored up values k v c in
      let s = stored-Sets up values k v c in
      (
        d,
        t,
        rw (store_typed-calm up values (context_of p) (typed_key up key kt) v c t) refl,
        register-slot up values k v c d s,
        slot-IsWellFormed up values k v c d s n wf,
      )

  swap-Follows :
      (p key expected v : Bytes) (kt : KeyType) (c t : T)
      → length v ≡ 32
      → IsWellFormed up values c
      → Follows (Op.compare_and_swap p key expected v kt) c t
  unfolding call compare_and_swap
  swap-Follows p key expected v kt c t n wf =
      let k = place up p key kt in
      let now = register up values c k in
      elim (Bool-cases (now == expected)) [
        | inl y ↦
            let e = (list_beq_iff ⦃e = nat_eq⦄ now expected).0 y in
            let s = upsert-Sets up values k v c in
            let (u, h) =
              swap_hit up values (context_of p) (typed_key up key kt) expected v c t wf e in
            (
              (values.upsert k v c).1,
              u,
              rw h (ap (λ x. (ok (some x), world (values.upsert k v c).1 u [])) (sym e)),
              rw y (register-Sets up values k (some v) c _ s),
              hash-IsWellFormed up values k v c _ s n wf,
            )
        | inr x ↦
            let h =
              swap_miss up values (context_of p) (typed_key up key kt) expected v now c t wf refl
                (λ e. ground (arith, (list_beq_iff ⦃e = nat_eq⦄ now expected).1 e)) in
            (c, c, rw h refl, rw x, wf)
      ]

  call-Follows : (op : Op KeyType) (c t : T) → IsHash op → IsWellFormed up values c → Follows op c t
  call-Follows (Op.load p key kt) c t n wf = load-Follows p key kt c t wf
  call-Follows (Op.store p key v kt) c t n wf = store-Follows p key v kt c t n wf
  call-Follows (Op.compare_and_swap p key expected v kt) c t n wf =
      swap-Follows p key expected v kt c t n wf

  -- While all requests are answered, from well-formed rows: any sequence of calls of `load`,
  -- `store` and `compare_and_swap` that write hashes of 32 bytes gives the answers, and leaves
  -- the registers, of the same calls on a hash for each key, and the rows stay well-formed.
  pub run-replay :
      (ops : List (Op KeyType)) (c t : T)
      → All IsHash ops
      → IsWellFormed up values c
      → let (answers, w) = run up values ops (world c t []) in
        ((answers, register up values w.committed) ≡ replay up ops (register up values c))
        × IsWellFormed up values w.committed
  unfolding run
  run-replay [] c t n wf = (refl, wf)
  run-replay (op ∷ ops) c t n wf =
      let (d, u, e, r, wf') = call-Follows op c t n.0 wf in
      let ih = run-replay ops d u n.1 wf' in
      rw (e, sym r) (ap (λ x. (reply up op (register up values c) ∷ x.0, x.1)) ih.0, ih.1)
