-- ===== src/Locks/LockOne.antt =====
-- One round of the loop of `lock_resources`: the row goes in, or is the owner's already, or the
-- transaction is rolled back.
use lore_stack.Common.{
  ℕ, ◌++◌, ◌≡◌, refl, sym, ap, ◌∙◌, inl, inr, Option, none, some, List, [], ◌∷◌, Bytes, String,
  arith, Option-cases, Bool-cases,
}
use mathlib.Core.List.{append-nil, mem-cons_self}
use lore_stack.Common.Eq.{string_eq}
use lore_stack.Common.Int.{ℤ}
use lore_stack.Sql.Laws.{key-cases, find-insert_new_self, find-insert_new_ne, find-insert_new_kept}
use lore_stack.Sql.Table.{Table}
use lore_stack.Sql.World.{World, Fate, first_fate, rest_fates, exec}
use lore_stack.Sql.Triple.{
  Triple, world, Fails, Triple-bind, Triple-assume, Triple-weaken, Triple-exec, Triple-pure,
  Triple-raise, Triple-rollback,
}
use lore_stack.Locks.Types.{
  Cause, insert, select_owner, LockError, not_owned, internal, LockResource, LockData, LockKey,
  LockRow, lock_key_eq,
}
use lore_stack.Locks.Holding.{Foreign}
use lore_stack.Locks.Store.{key, new_row, lock_data, on_existing, lock_one}
use lore_stack.Locks.Grants.{Grants}

module _ (locks : Table lock_key_eq LockRow) (owner_id : String) (repository : Bytes)
    (now : ℤ) where
  open locks use {T, find, insert_new, find-insert_new, insert_new_count}

  -- Of the errors before the commit: what `LockNotOwned` means, and which come without a failure.
  pub record Refusal (c : T) (fs : List Fate) (Contested : Type 0) (e : LockError) (w : World T)
      : Type 0 where
    pub unchanged : w.committed ≡ c
    pub contested : e ≡ not_owned → Contested
    pub only : fs ≡ [] → e ≡ not_owned

  insert_Grants :
      (t : T) (r : LockResource)
      → find t (key repository r) ≡ none
      → Grants locks owner_id repository now
          (r ∷ [])
          t
          (insert_new (key repository r) (new_row owner_id now r) t).1
          (lock_data owner_id now r ∷ [])
  insert_Grants t r free =
      let row = new_row owner_id now r in
      let k = key repository r in
      let self = find-insert_new_self locks k row t free in
      record {
        kept = λ j s h. find-insert_new_kept locks k j row s t h;
        held = ((row, self, refl), tt);
        frame = λ j h. find-insert_new_ne locks k j row t h.0;
        stamped = λ j s h h'. elim (key-cases lock_key_eq k j) [
          | inl p ↦
              let same : s ≡ row = cc (self, h', ap (find (insert_new k row t).1) p) in
              (ap (λ x. x.owner_id) same, ap (λ x. x.locked_at) same)
          | inr n ↦ absurd (cc (find-insert_new_ne locks k j row t n, h, h'))
        ];
        returned = ((free, self, refl), tt);
        listed = λ j s h h'. elim (key-cases lock_key_eq k j) [
          | inl p ↦ (lock_data owner_id now r, mem-cons_self, p)
          | inr n ↦ absurd (cc (find-insert_new_ne locks k j row t n, h, h'))
        ];
        once = (tt, tt);
      }

  still_free :
      (t : T) (r : LockResource) (s : LockRow)
      → find t (key repository r) ≡ some s
      → (j : LockKey) (x : LockRow) → find t j ≡ none
      → find (insert_new (key repository r) (new_row owner_id now r) t).1 j ≡ some x
      → ⊥
  still_free t r s taken j x h h' =
      let row = new_row owner_id now r in
      elim (key-cases lock_key_eq (key repository r) j) [
        | inl p ↦ cc (taken, h, ap (find t) p)
        | inr n ↦ cc (find-insert_new_ne locks (key repository r) j row t n, h, h')
      ]

  -- An INSERT that meets a row changes nothing that can be read.
  again_Grants :
      (t : T) (r : LockResource) (s : LockRow)
      → find t (key repository r) ≡ some s
      → s.owner_id ≡ owner_id
      → Grants locks owner_id repository now
          (r ∷ [])
          t
          (insert_new (key repository r) (new_row owner_id now r) t).1
          []
  again_Grants t r s taken mine =
      let row = new_row owner_id now r in
      let k = key repository r in
      let kept = λ (j : LockKey) (x : LockRow) (h : find t j ≡ some x).
        find-insert_new_kept locks k j row x t h in
      record {
        kept = kept;
        held = ((s, kept k s taken, mine), tt);
        frame = λ j h. find-insert_new_ne locks k j row t h.0;
        stamped = λ j x h h'. absurd (still_free t r s taken j x h h');
        returned = tt;
        listed = λ j x h h'. absurd (still_free t r s taken j x h h');
        once = tt;
      }

  module _ (c : T) (fs : List Fate) where
    -- The transaction is open over `c` and has made `t` of it.
    abbrev pub Open : T → World T → Type 0
    Open t w = (w.committed ≡ c) × (w.working ≡ t) × (fs ≡ [] → w.fates ≡ [])

    abbrev pub Granted : List LockResource → T → List LockData → List LockData → World T → Type 0
    Granted rs t newly newly' w =
        (new : List LockData) × (newly' ≡ newly ++ new)
        × Grants locks owner_id repository now rs t w.working new
        × (w.committed ≡ c)
        × (fs ≡ [] → w.fates ≡ [])

    failed :
        (Contested : Type 0) (cause : Cause) (t : T)
        → (c' t' u : T) (gs : List Fate) → Open t (world c' t' gs)
        → Fails gs
        → Refusal c fs Contested (internal cause) (world c' u (rest_fates gs))
    failed Contested cause t c' t' u gs h bad = record {
      unchanged = h.0;
      contested = λ p. cc;
      only = λ p. absurd (bad (ap first_fate (h.2 p)));
    }

    module _ (t : T) (r : LockResource) (newly : List LockData) where
      abbrev k : LockKey
      k = key repository r

      abbrev row : LockRow
      row = new_row owner_id now r

      abbrev u : T
      u = (insert_new k row t).1

      inserted :
          (n : ℕ)
          → (insert_new k row t).0 ≡ n
          → Triple
              (Open t)
              (exec (internal insert) (insert_new k row))
              (λ m w. (m ≡ n) × Open u w)
              (Refusal c fs (Foreign locks owner_id repository t r))
      inserted n count =
          Triple-exec (internal insert) (insert_new k row)
            (λ c' t' gs h. (
              ap (λ x. (insert_new k row x).0) h.1 ∙ count,
              (h.0, ap (λ x. (insert_new k row x).1) h.1, λ p. ap rest_fates (h.2 p)),
            ))
            (failed (Foreign locks owner_id repository t r) insert t)

      -- The row of another owner is there: the transaction is rolled back.
      existing_Granted :
          (s : LockRow)
          → find t k ≡ some s
          → (found : Option LockRow) → found ≡ some s
          → Triple
              (Open u)
              (on_existing locks owner_id newly found)
              (Granted (r ∷ []) t newly)
              (Refusal c fs (Foreign locks owner_id repository t r))
      unfolding on_existing
      existing_Granted s taken none e = absurd (cc)
      existing_Granted s taken (some s') e =
          let same : s' ≡ s = cc in
          elim (Bool-cases (string_eq.beq s'.owner_id owner_id)) [
            | inl mine ↦ rw mine (
                Triple-pure newly λ w h. (
                  [],
                  sym (append-nil newly),
                  rw h.1 (
                      again_Grants t r s taken
                        (ap (λ x. x.owner_id) (sym same) ∙ (string_eq.beq_iff _ _).0 mine)),
                  h.0,
                  h.2,
                ))
            | inr other ↦ rw other (
                Triple-bind {Q = λ _ w. w.committed ≡ c} (Triple-rollback (λ c' t' gs h. h.0)) λ _.
                  Triple-raise not_owned λ w h. record {
                    unchanged = h;
                    contested = λ _. (
                      s,
                      taken,
                      λ p. cc (other, (string_eq.beq_iff _ _).1 (ap (λ x. x.owner_id) same ∙ p)),
                    );
                    only = λ _. refl;
                  })
          ]

    pub lock_one-Granted :
        (t : T) (r : LockResource) (newly : List LockData)
        → Triple
            (Open t)
            (lock_one locks owner_id repository now r newly)
            (Granted (r ∷ []) t newly)
            (Refusal c fs (Foreign locks owner_id repository t r))
    unfolding lock_one
    lock_one-Granted t r newly = elim (Option-cases (find t (key repository r))) [
      | inl free ↦
          Triple-bind
            (inserted t r newly 1
              (ground (arith, insert_new_count (key repository r) (new_row owner_id now r) t)))
            (λ n.
              Triple-assume (n ≡ 1) (λ w h. h.0)
                λ e. rw e (
                  Triple-pure _ λ w h. (
                    lock_data owner_id now r ∷ [],
                    refl,
                    rw h.1.1 (insert_Grants t r free),
                    h.1.0,
                    h.1.2,
                  )))
      | inr (s, taken) ↦
          Triple-bind
            (inserted t r newly 0
              (ground (arith, insert_new_count (key repository r) (new_row owner_id now r) t)))
            (λ n.
              Triple-assume (n ≡ 0) (λ w h. h.0)
                λ e. rw e (
                  Triple-bind {Q = λ found w. (found ≡ some s) × Open (u t r newly) w}
                    (Triple-exec (internal select_owner) _
                      (λ c' t' gs h. (
                        ap (λ x. find x (key repository r)) h.1.1
                            ∙ find-insert_new_kept locks (key repository r) (key repository r)
                                (new_row owner_id now r) s t taken,
                        (h.1.0, h.1.1, λ p. ap rest_fates (h.1.2 p)),
                      ))
                      (λ c' t' u' gs h.
                        failed (Foreign locks owner_id repository t r) select_owner (u t r newly) c'
                          t' u' gs h.1))
                    λ found.
                      Triple-assume (found ≡ some s) (λ w h. h.0)
                        λ e'.
                          Triple-weaken (λ w h. h.1) (λ a w h. h) (λ a w h. h)
                            (existing_Granted t r newly s taken found e')))
    ]
