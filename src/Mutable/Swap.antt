-- ===== src/Mutable/Swap.antt =====
-- `compare_and_swap` as an atomic operation on the register of its key.
use lore_stack.Common.{
  ◌≡◌, ◌≢◌, refl, ap, sym, subst, ◌∙◌, ◌⊎◌, inl, inr, Option, none, some, List, [], Bytes, arith,
  length, Bool-cases, if◌then◌else◌, ℕ,
}
use lore_stack.Common.Eq.{list_beq_iff, nat_eq, ◌==◌, list_eq}
use lore_stack.Sql.Table.{Table}
use lore_stack.Sql.World.{
  World, Fate, Result, ok, err, first_fate, rest_fates, exec, commit, from_result, pure, ◌>>◌,
}
use lore_stack.Sql.Triple.{
  Triple, Post, world, Fails, Triple-bind, Triple-assume, Triple-weaken, Triple-exec, Triple-pure,
  Triple-begin, Triple-commit, Triple-checkout,
}
use lore_stack.Mutable.Types.{
  Cause, pool, cas_lock, cas_select, cas_write, hash_length, StoreError, internal, ValueKey,
  value_key_eq, Upstream,
}
use lore_stack.Mutable.Store.{decoded, or_zero, at, compare_and_swap_typed}
use lore_stack.Mutable.Register.{register, IsWellFormed, Sets, upsert-Sets, decoded_total}

pub decoded_ok : (o x : Option Bytes) → decoded o ≡ ok x → x ≡ o
unfolding decoded
decoded_ok none x h = ground arith
decoded_ok (some v) x h = ground arith

pub decoded_err :
    (o : Option Bytes) (e : StoreError)
    → decoded o ≡ err e
    → (n : ℕ) × (e ≡ internal (hash_length n))
unfolding decoded
decoded_err none e h = cc
decoded_err (some v) e h = (length v, ground arith)

module _ (up : Upstream) (values : Table value_key_eq Bytes)
    (repository key expected value : Bytes) where
  open up use {zero_hash}
  open values use {T, find}

  abbrev k : ValueKey
  k = at up values repository key

  -- The register is compared and set.
  pub record Swaps (t u : T) : Type 0 where
    pub swapped : register up values t k ≡ expected → Sets up values k (some value) t u
    pub kept : register up values t k ≢ expected → (j : ValueKey) → find u j ≡ find t j

  module _ (before : World T) where
    abbrev c : T
    c = before.committed

    abbrev fs : List Fate
    fs = before.fates

    abbrev pub Witnessed : Bytes → World T → Type 0
    Witnessed witness w = (witness ≡ register up values c k) × Swaps c w.committed

    -- An error changes nothing; or it is a COMMIT whose answer was lost, after the whole swap.
    pub record Aborted (e : StoreError) (w : World T) : Type 0 where
      pub whole : (w.committed ≡ c) ⊎ ((e ≡ internal Cause.commit) × Swaps c w.committed)
      pub only : fs ≡ [] → ¬ IsWellFormed up values c

    abbrev Ready : World T → Type 0
    Ready w = (w.committed ≡ c) × (fs ≡ [] → w.fates ≡ [])

    abbrev Open : T → World T → Type 0
    Open t w = (w.working ≡ t) × Ready w

    failed :
        (cause : Cause) (w : World T) (gs : List Fate)
        → w.committed ≡ c
        → (fs ≡ [] → gs ≡ [])
        → Fails gs
        → Aborted (internal cause) w
    failed cause w gs same calm bad = record {
      whole = inl same;
      only = λ p. absurd (bad (ap first_fate (calm p)));
    }

    finish :
        (witness : Bytes) (t : T)
        → witness ≡ register up values c k
        → Swaps c t
        → Triple (Open t) (do commit (internal Cause.commit); pure witness) Witnessed Aborted
    finish witness t e s =
        Triple-bind {Q = λ _. Witnessed witness}
          (Triple-commit _ (λ d u gs h. (e, subst (Swaps c) (sym h.0) s))
            λ d u gs h bad.
              let a = failed Cause.commit (world d u (rest_fates gs)) gs h.1.0 h.1.1 bad in
              (a, record { whole = inr (refl, subst (Swaps c) (sym h.0) s); only = a.only }))
          λ _. Triple-pure witness (λ w h. h)

    decide :
        (found : Option Bytes)
        → found ≡ find c k
        → Triple
            (Open c)
            (if or_zero up found == expected
              then (do
                exec (internal cas_write) (values.upsert k value)
                commit (internal Cause.commit)
                pure (or_zero up found))
              else (do commit (internal Cause.commit); pure (or_zero up found)))
            Witnessed
            Aborted
    decide found e =
        let same : or_zero up found ≡ register up values c k = ap (or_zero up) e in
        elim (Bool-cases (or_zero up found == expected)) [
          | inl hit ↦
              let yes_equal : register up values c k ≡ expected =
                sym same ∙ (list_beq_iff ⦃e = nat_eq⦄ _ _).0 hit in
              rw hit (
                Triple-bind {Q = λ _. Open (values.upsert k value c).1}
                  (Triple-exec (internal cas_write) _
                    (λ d t gs h. (
                      ap (λ x. (values.upsert k value x).1) h.0,
                      (h.1.0, λ p. ap rest_fates (h.1.1 p)),
                    ))
                    (λ d t u gs h bad. failed cas_write _ gs h.1.0 h.1.1 bad))
                  λ _. finish _ _ same (record {
                    swapped = λ _. upsert-Sets up values k value c;
                    kept = λ n. absurd (n yes_equal);
                  }))
          | inr miss ↦ rw miss (
              finish _ c same (record {
                swapped = λ p.
                    cc (miss, (list_beq_iff ⦃e = nat_eq⦄ (or_zero up found) expected).1 (same ∙ p));
                kept = λ n j. refl;
              }))
        ]

    read_row :
        (row : Option Bytes)
        → row ≡ find c k
        → Triple
            (Open c)
            (from_result (decoded row))
            (λ found w. (found ≡ find c k) × Open c w)
            Aborted
    read_row row e = record { at = λ w h. go (decoded row) refl w h }
      where
        go :
            (r : Result StoreError (Option Bytes))
            → decoded row ≡ r
            → (w : World T) → Open c w
            → Post (λ found v. (found ≡ find c k) × Open c v) Aborted (r, w)
        go (ok found) q w h = (decoded_ok row found q ∙ e, h)
        go (err x) q w h = record {
          whole = inl h.1.0;
          only = λ p wf. cc (q, ap decoded e, decoded_total up values repository key c wf);
        }

    -- Whatever becomes of the requests: a success of `compare_and_swap` returns what the register
    -- held, and has set it exactly if that was the expected value; an error changes nothing,
    -- unless it is a COMMIT whose answer was lost after the whole swap. There is no error while
    -- all requests are answered and the rows are well-formed.
    pub compare_and_swap_typed_outcome :
        Post Witnessed Aborted
          (compare_and_swap_typed up values repository key expected value before)
    unfolding compare_and_swap_typed
    compare_and_swap_typed_outcome =
        let proof : Triple (λ w. w ≡ before)
            (compare_and_swap_typed up values repository key expected value) Witnessed Aborted =
          Triple-bind {Q = λ _. Ready}
            (Triple-checkout (internal pool)
              (λ d t gs h.
                (ap (λ w. w.committed) h, λ p. ap (λ w. rest_fates w.fates) h ∙ ap rest_fates p))
              (λ d t gs h bad.
                failed pool _ gs (ap (λ w. w.committed) h) (λ p. ap (λ w. w.fates) h ∙ p) bad))
            λ _.
              Triple-bind {Q = λ _. Open c}
                (Triple-begin (internal Cause.begin)
                  (λ d t gs h. (h.0, (h.0, λ p. ap rest_fates (h.1 p))))
                  (λ d t u gs h bad. failed Cause.begin _ gs h.0 h.1 bad))
                λ _.
                  Triple-bind {Q = λ _. Open c}
                    (Triple-exec (internal cas_lock) _
                      (λ d t gs h. (h.0, (h.1.0, λ p. ap rest_fates (h.1.1 p))))
                      (λ d t u gs h bad. failed cas_lock _ gs h.1.0 h.1.1 bad))
                    λ _.
                      Triple-bind {Q = λ row w. (row ≡ find c k) × Open c w}
                        (Triple-exec (internal cas_select) _
                          (λ d t gs h.
                            (ap (λ x. find x k) h.0, (h.0, (h.1.0, λ p. ap rest_fates (h.1.1 p)))))
                          (λ d t u gs h bad. failed cas_select _ gs h.1.0 h.1.1 bad))
                        λ row.
                          Triple-assume (row ≡ find c k) (λ w h. h.0)
                            λ e.
                              Triple-bind
                                (Triple-weaken (λ w h. h.1) (λ a w h. h) (λ x w h. h)
                                  (read_row row e))
                                λ found.
                                  Triple-assume (found ≡ find c k) (λ w h. h.0)
                                    λ e'.
                                      Triple-weaken (λ w h. h.1) (λ a w h. h) (λ x w h. h)
                                        (decide found e') in
        proof.at before refl
