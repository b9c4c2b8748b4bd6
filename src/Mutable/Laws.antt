-- ===== src/Mutable/Laws.antt =====
-- What a client of the mutable store reads after it wrote, while every request is answered.
use lore_stack.Common.{
  ◌≡◌, ◌≢◌, refl, ap, sym, ◌∙◌, ◌⊎◌, inl, inr, true, false, Option, some, [], Bytes, arith, length,
  Bool-cases, if◌then◌else◌,
}
use lore_stack.Common.Eq.{list_beq_iff, nat_eq, list_eq}
use lore_stack.Sql.Table.{Table}
use lore_stack.Sql.World.{
  Result, World, continue, from_result, ok, err, checkout, auto, begin, exec, commit,
}
use lore_stack.Sql.Triple.{world}
use lore_stack.Mutable.Types.{StoreError, address_not_found, ValueKey, value_key_eq, Upstream}
use lore_stack.Mutable.Store.{
  decoded, found_or_missing, or_zero, at, typed_key, load_typed, store_typed,
  compare_and_swap_typed, load, store, compare_and_swap,
}
use lore_stack.Mutable.Keys.{typed_key-isolates}
use lore_stack.Mutable.Register.{
  register, IsWellFormed, Sets, slot, upsert-Sets, delete-Sets, decoded_total, Sets-IsWellFormed,
}

module _ (up : Upstream) (values : Table value_key_eq Bytes) where
  open up use {KeyType, zero_hash, is_zero, context_of, is_zero_iff, context_of-injective}
  open values use {T, find}

  -- The rows after a `store`.
  abbrev pub stored : ValueKey → Bytes → T → T
  stored k v c =
      if is_zero v then (values.delete_if k (λ row. true) c).1 else (values.upsert k v c).1

  pub stored-Sets :
      (k : ValueKey) (v : Bytes) (c : T) → Sets up values k (slot up values v) c (stored k v c)
  stored-Sets k v c = elim (Bool-cases (is_zero v)) [
    | inl e ↦ rw e (delete-Sets up values k c)
    | inr e ↦ rw e (upsert-Sets up values k v c)
  ]

  pub store_typed-calm :
      (repository key v : Bytes) (c t : T)
      → store_typed up values repository key v (world c t [])
        ≡ (ok tt, world (stored (at up values repository key) v c) t [])
  unfolding store_typed checkout auto
  store_typed-calm repository key v c t = elim (Bool-cases (is_zero v)) [
    | inl e ↦ rw e
    | inr e ↦ rw e
  ]

  abbrev answer : Bytes → Result StoreError (Option Bytes) → Result StoreError Bytes
  answer key (ok o) = found_or_missing up key o
  answer key (err e) = err e

  answered_by :
      (key : Bytes) (r : Result StoreError (Option Bytes)) (w : World T)
      → (continue (λ o. from_result (found_or_missing up key o)) (r, w)).0 ≡ answer key r
  answered_by key (ok o) w = refl
  answered_by key (err e) w = refl

  -- A `load` depends on the row of its key alone.
  load_typed-answer :
      (repository key : Bytes) (c t : T)
      → (load_typed up values repository key (world c t [])).0
        ≡ answer key (decoded (find c (at up values repository key)))
  unfolding load_typed checkout auto
  load_typed-answer repository key c t =
      answered_by key (decoded (find c (at up values repository key))) (world c t [])

  load_typed-slot :
      (repository key v : Bytes) (c t : T)
      → length v ≡ 32
      → find c (at up values repository key) ≡ slot up values v
      → (load_typed up values repository key (world c t [])).0
        ≡ (if is_zero v then err (address_not_found key) else ok v)
  unfolding decoded
  load_typed-slot repository key v c t n h =
      rw (load_typed-answer repository key c t, h) (ground arith)

  -- While all requests are answered: `load` after a `store` of a hash of 32 bytes under the same
  -- key and key type returns the value, or not-found if the value is zero.
  pub load-store :
      (p key v : Bytes) (kt : KeyType) (c t : T)
      → length v ≡ 32
      → (load up values p key kt (store up values p key v kt (world c t [])).1).0
        ≡ (if is_zero v then err (address_not_found (typed_key up key kt)) else ok v)
  unfolding load store
  load-store p key v kt c t n =
      let k = at up values (context_of p) (typed_key up key kt) in
      rw (store_typed-calm (context_of p) (typed_key up key kt) v c t) (
        load_typed-slot (context_of p) (typed_key up key kt) v (stored k v c) t n
          (stored-Sets k v c).self)

  -- While all requests are answered: a `store` does not change what a `load` of a key of 32 bytes
  -- answers in another partition or under another key type.
  pub load-store_isolated :
      (p p' key key' v : Bytes) (kt kt' : KeyType) (c t : T)
      → length key ≡ 32
      → length key' ≡ 32
      → ((p ≢ p') ⊎ (kt ≢ kt'))
      → (load up values p' key' kt' (store up values p key v kt (world c t [])).1).0
        ≡ (load up values p' key' kt' (world c t [])).0
  unfolding load store
  load-store_isolated p p' key key' v kt kt' c t n n' apart =
      let k = at up values (context_of p) (typed_key up key kt) in
      let k' = at up values (context_of p') (typed_key up key' kt') in
      rw (store_typed-calm (context_of p) (typed_key up key kt) v c t) (
        load_typed-answer (context_of p') (typed_key up key' kt') (stored k v c) t
        ∙ ap (λ o. answer (typed_key up key' kt') (decoded o))
            ((stored-Sets k v c).others k' (differ apart))
        ∙ sym (load_typed-answer (context_of p') (typed_key up key' kt') c t))
    where
      differ :
          (p ≢ p') ⊎ (kt ≢ kt')
          → at up values (context_of p) (typed_key up key kt)
            ≢ at up values (context_of p') (typed_key up key' kt')
      differ (inl d) e = d (context_of-injective p p' (ap (λ x. x.repository_id) e))
      differ (inr d) e = d (typed_key-isolates up key key' kt kt' n n' (ap (λ x. x.key) e))

  -- A swap that meets the expected value writes the row.
  pub swap_hit :
      (repository key expected v : Bytes) (c t : T)
      → IsWellFormed up values c
      → register up values c (at up values repository key) ≡ expected
      → (u : T) × (compare_and_swap_typed up values repository key expected v (world c t [])
          ≡ (ok expected, world (values.upsert (at up values repository key) v c).1 u []))
  unfolding compare_and_swap_typed checkout begin exec commit
  swap_hit repository key expected v c t wf h =
      let k = at up values repository key in
      (
        (values.upsert k v c).1,
        rw (
          decoded_total up values repository key c wf,
          h,
          (list_beq_iff ⦃e = nat_eq⦄ expected expected).1 refl,
        ),
      )

  -- While all requests are answered and the rows are well-formed: from a register that reads
  -- zero, a swap of zero for zero and then of zero for a revision that is not zero both see zero,
  -- and the revision is then loaded.
  pub branch_advances :
      (p key v : Bytes) (kt : KeyType) (c t : T)
      → IsWellFormed up values c
      → length v ≡ 32
      → is_zero v ≡ false
      → register up values c (at up values (context_of p) (typed_key up key kt)) ≡ zero_hash
      → let made = compare_and_swap up values p key zero_hash zero_hash kt (world c t []) in
        let advanced = compare_and_swap up values p key zero_hash v kt made.1 in
        (made.0 ≡ ok zero_hash)
        × (advanced.0 ≡ ok zero_hash)
        × ((load up values p key kt advanced.1).0 ≡ ok v)
  unfolding compare_and_swap load
  branch_advances p key v kt c t wf n nz z =
      let r = context_of p in
      let tk = typed_key up key kt in
      let k = at up values r tk in
      let c1 = (values.upsert k zero_hash c).1 in
      let set1 = upsert-Sets up values k zero_hash c in
      let wf1 =
        Sets-IsWellFormed up values k (some zero_hash) c c1 set1
          (λ x e. ap length (some_back x zero_hash (sym e)) ∙ up.length-zero_hash) wf in
      let set2 = upsert-Sets up values k v c1 in
      let (u1, e1) = swap_hit r tk zero_hash zero_hash c t wf z in
      let (u2, e2) = swap_hit r tk zero_hash v c1 u1 wf1 (ap (or_zero up) set1.self) in
      let loaded : (load_typed up values r tk (world (values.upsert k v c1).1 u2 [])).0 ≡ ok v =
        load_typed-slot r tk v _ u2 n (set2.self ∙ rw nz) ∙ rw nz in
      (ap (λ o. o.0) e1, rw e1 (ap (λ o. o.0) e2), rw e1 (rw e2 loaded))
    where
      some_back : (x y : Bytes) → some x ≡ some y → x ≡ y
      some_back x y e = cc
