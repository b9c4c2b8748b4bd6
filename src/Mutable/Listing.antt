-- ===== src/Mutable/Listing.antt =====
-- What `list` sends.
use mathlib.Core.Logic.Or
use mathlib.Core.List.{Mem, mem-cons, mem-cons_self, mem-cons_of_mem, not-mem-nil, Mem-prop}
use mathlib.Core.HLevel.{×_prop}
use mathlib.Core.Bool.{Bool-set}
use lore_stack.Common.{
  ℕ, ◌≡◌, refl, ap, sym, subst, ◌∙◌, ◌↔◌, ◌<◌, inl, inr, Bool, true, false, not, ◌&&◌, some, List,
  [], ◌∷◌, Bytes, arith, length, All, Bool-cases, if◌then◌else◌,
}
use lore_stack.Common.Eq.{nat_eq, list_eq, list_beq_iff, ◌==◌}
use lore_stack.Sql.Table.{Table}
use lore_stack.Sql.World.{ok, checkout, auto}
use lore_stack.Sql.Triple.{world}
use lore_stack.Mutable.Types.{ValueKey, value_key_eq, Upstream}
use lore_stack.Mutable.Store.{hash_from_bytes, at, sent, in_range, list_typed, list}
use lore_stack.Mutable.Keys.{in_range_iff}
use lore_stack.Mutable.Register.{IsWellFormed}

both : (x y : Bool) → x && y ≡ true → (x ≡ true) × (y ≡ true)
both x y h = ground arith

unset : (x : Bool) → not x ≡ true → x ≡ false
unset x h = ground arith

module _ (up : Upstream) where
  open up use {KeyType, code, is_untyped, is_zero, context_of}

  -- Both columns are hashes, and the value is not zero.
  abbrev sendable : Bytes → Bytes → Bool
  sendable key v = length key == 32 && (length v == 32 && not (is_zero v))

  sent-cons :
      (k : ValueKey) (v : Bytes) (rows : List (ValueKey × Bytes))
      → sent up ((k, v) ∷ rows)
        ≡ (if sendable k.key v then (k.key, v) ∷ sent up rows else sent up rows)
  unfolding sent hash_from_bytes
  sent-cons k v rows = ground arith

  module _ (values : Table value_key_eq Bytes) (repository : Bytes) where
    open values use {T, find, select, mem-select}

    mem-sent :
        (rows : List (ValueKey × Bytes))
        → ((k : ValueKey) (v : Bytes) → Mem (k, v) rows → k.repository_id ≡ repository)
        → (key v : Bytes)
        → Mem (key, v) (sent up rows)
          ↔ (Mem (at up values repository key, v) rows × (sendable key v ≡ true))
    unfolding sent
    mem-sent [] own key v = (λ m. absurd (not-mem-nil m), λ x. absurd (not-mem-nil x.0))
    mem-sent ((k, u) ∷ rows) own key v =
        let ih = mem-sent rows (λ j w m. own j w (mem-cons_of_mem (k, u) m)) key v in
        let mine : k ≡ at up values repository k.key =
          (λ i. record { repository_id = own k u mem-cons_self i; key = k.key }) in
        rw (sent-cons k u rows) (elim (Bool-cases (sendable k.key u)) [
          | inl y ↦ rw y (
            λ m.
                Or.elim (×_prop Mem-prop (Bool-set (sendable key v) true)) (mem-cons.0 m)
                  (λ q. (
                    subst (λ x. Mem x ((k, u) ∷ rows))
                        (λ i.
                          ((mine ∙ ap (λ x. at up values repository x.0) (sym q)) i, (sym q i).1))
                        mem-cons_self,
                    subst (λ x. sendable x.0 x.1 ≡ true) (sym q) y,
                  ))
                  (λ n. let h = ih.0 n in (mem-cons_of_mem (k, u) h.0, h.1)),
            λ x.
                Or.elim Mem-prop (mem-cons.0 x.0)
                  (λ q.
                    subst (λ x. Mem x ((k.key, u) ∷ sent up rows))
                      (ap (λ z. (z.0.key, z.1)) (sym q)) mem-cons_self)
                  (λ m. mem-cons_of_mem (k.key, u) (ih.1 (m, x.1))),
          )
          | inr n ↦ rw n (
            λ m. let h = ih.0 m in (mem-cons_of_mem (k, u) h.0, h.1),
            λ x.
                Or.elim Mem-prop (mem-cons.0 x.0)
                  (λ q.
                    let e = subst (λ z. sendable z.0.key z.1 ≡ true) q x.1 in
                    absurd (ground (arith, e, n)))
                  (λ m. ih.1 (m, x.1)),
          )
        ])

  -- While all requests are answered and the rows are well-formed: `list` of a key type writes
  -- nothing and sends a key of 32 bytes with a value exactly if the partition's row of the key
  -- has that value, the first byte of the key is that of the type, and the value is not zero.
  pub list-exact :
      (values : Table value_key_eq Bytes) (partition : Bytes) (kt : KeyType) (c t : values.T)
      → is_untyped kt ≡ false
      → IsWellFormed up values c
      → (items : List (Bytes × Bytes)) × (list up values partition kt (world c t [])
          ≡ (ok items, world c t []))
        × ((b : ℕ) (bs v : Bytes)
            → length (b ∷ bs) ≡ 32
            → All (λ d. d < 256) bs
            → Mem (b ∷ bs, v) items ↔ (
                (values.find c (at up values (context_of partition) (b ∷ bs)) ≡ some v)
                × (b ≡ code kt)
                × (is_zero v ≡ false)))
  unfolding list list_typed checkout auto
  list-exact values partition kt c t typed wf =
      let r = context_of partition in
      let p : ValueKey → Bytes → Bool = λ k v. k.repository_id == r && in_range up kt k.key in
      let own : (k : ValueKey) (v : Bytes) → Mem (k, v) (values.select p c) → k.repository_id ≡ r =
        λ k v m.
          let x = (values.mem-select p c k v).0 m in
          ground (arith, x.1, list_beq_iff ⦃e = nat_eq⦄ k.repository_id r) in
      (
        sent up (values.select p c),
        rw typed refl,
        λ b bs v n small.
            let m = mem-sent values r (values.select p c) own (b ∷ bs) v in
            let s = values.mem-select p c (at up values r (b ∷ bs)) v in
            let g = in_range_iff up kt b bs n small in
            (
              λ x.
                  let y = m.0 x in
                  let z = s.0 y.0 in
                  let lengths = both (length (b ∷ bs) == 32) _ y.1 in
                  (
                    z.0,
                    g.0 ((both (context_of partition == r) _ z.1).1),
                    unset (is_zero v) ((both (length v == 32) _ lengths.1).1),
                  ),
              λ x.
                  let same : (r == r) ≡ true = (list_beq_iff ⦃e = nat_eq⦄ r r).1 refl in
                  let hash : (length v == 32) ≡ true =
                    (nat_eq.beq_iff (length v) 32).1 (wf (at up values r (b ∷ bs)) v x.0) in
                  let key : (length (b ∷ bs) == 32) ≡ true =
                    (nat_eq.beq_iff (length (b ∷ bs)) 32).1 n in
                  m.1 (s.1 (x.0, rw (same, g.1 x.1) refl), rw (key, hash, x.2) refl),
            ),
      )
