-- ===== src/Mutable/Races.antt =====
-- Two swaps that expect the same value.
use lore_stack.Common.{◌≡◌, ◌≢◌, refl, ap, sym, ◌∙◌, false, some, [], Bytes, length, arith}
use lore_stack.Common.Eq.{list_beq_iff, nat_eq, list_eq, ◌==◌}
use lore_stack.Sql.Table.{Table}
use lore_stack.Sql.World.{ok, checkout, begin, exec, commit}
use lore_stack.Sql.Triple.{world}
use lore_stack.Mutable.Types.{value_key_eq, Upstream}
use lore_stack.Mutable.Store.{or_zero, at, typed_key, compare_and_swap_typed, compare_and_swap}
use lore_stack.Mutable.Register.{
  register, IsWellFormed, upsert-Sets, decoded_total, Sets-IsWellFormed,
}
use lore_stack.Mutable.Laws.{swap_hit}

beq_false : (x y : Bytes) → x ≢ y → (x == y) ≡ false
beq_false x y n = ground (arith, list_beq_iff ⦃e = nat_eq⦄ x y)

module _ (up : Upstream) (values : Table value_key_eq Bytes) where
  -- A swap that meets another value writes nothing.
  pub swap_miss :
      (repository key expected v actual : Bytes) (c t : values.T)
      → IsWellFormed up values c
      → register up values c (at up values repository key) ≡ actual
      → actual ≢ expected
      → compare_and_swap_typed up values repository key expected v (world c t [])
        ≡ (ok actual, world c c [])
  unfolding compare_and_swap_typed checkout begin exec commit
  swap_miss repository key expected v actual c t wf h n =
      rw (decoded_total up values repository key c wf, h, beq_false actual expected n) refl

  -- While all requests are answered and the rows are well-formed: of two swaps, one after the
  -- other, that expect what the register holds, the first one sees it; if its value is another
  -- one of 32 bytes, the second swap sees that value, writes nothing, and the value stays.
  pub compare_and_swap-one_winner :
      (p key expected v w : Bytes) (kt : up.KeyType) (c t : values.T)
      → IsWellFormed up values c
      → length v ≡ 32
      → v ≢ expected
      → register up values c (at up values (up.context_of p) (typed_key up key kt)) ≡ expected
      → let first = compare_and_swap up values p key expected v kt (world c t []) in
        let second = compare_and_swap up values p key expected w kt first.1 in
        (first.0 ≡ ok expected)
        × (second.0 ≡ ok v)
        × (second.1.committed ≡ first.1.committed)
        × (register up values second.1.committed
              (at up values (up.context_of p) (typed_key up key kt))
            ≡ v)
  unfolding compare_and_swap
  compare_and_swap-one_winner p key expected v w kt c t wf n two h =
      let r = up.context_of p in
      let tk = typed_key up key kt in
      let k = at up values r tk in
      let set = upsert-Sets up values k v c in
      let wf1 =
        Sets-IsWellFormed up values k (some v) c (values.upsert k v c).1 set
          (λ x e. ap length (some_back x v (sym e)) ∙ n) wf in
      let (u, e) = swap_hit up values r tk expected v c t wf h in
      let now : register up values (values.upsert k v c).1 k ≡ v = ap (or_zero up) set.self in
      let e' = swap_miss r tk expected w v (values.upsert k v c).1 u wf1 now two in
      (
        ap (λ o. o.0) e,
        rw e (ap (λ o. o.0) e'),
        rw e (ap (λ o. o.1.committed) e'),
        rw e (rw e' now),
      )
    where
      some_back : (x y : Bytes) → some x ≡ some y → x ≡ y
      some_back x y e = cc
