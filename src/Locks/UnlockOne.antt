-- ===== src/Locks/UnlockOne.antt =====
-- One round of the validating loop of `unlock_resources`.
use lore_stack.Common.{
  ℕ, ◌≡◌, ◌≢◌, refl, ap, sym, ◌∙◌, ◌⊎◌, inl, inr, Bool, true, Option, none, some, List, [], ◌∷◌,
  All, Bytes, String, arith, Option-cases, Bool-cases,
}
use lore_stack.Common.Eq.{string_eq}
use lore_stack.Sql.Laws.{find-delete_if_some}
use lore_stack.Sql.Table.{Table}
use lore_stack.Sql.World.{World, Fate, first_fate, rest_fates, exec, rollback, ◌>>=◌, ◌>>◌}
use lore_stack.Sql.Triple.{
  Triple, world, Fails, Triple-bind, Triple-assume, Triple-weaken, Triple-exec, Triple-pure,
  Triple-raise, Triple-rollback,
}
use lore_stack.Locks.Types.{
  Cause, delete, select_owner, LockError, not_owned, not_found, internal, LockResource, LockRow,
  lock_key_eq,
}
use lore_stack.Locks.Store.{key, on_missing, unlock_one}
use lore_stack.Locks.Holding.{Held, Foreign}
use lore_stack.Locks.Unlock.{Frees, delete-Frees}

module _ (repository : Bytes) where
  -- No two resources of the list go by one key.
  abbrev pub IsApart : List LockResource → Type 0
  IsApart [] = Unit {0}
  IsApart (r ∷ rs) = All (λ s. key repository s ≢ key repository r) rs × IsApart rs

module _ (locks : Table lock_key_eq LockRow) (owner_id : String) (repository : Bytes) where
  open locks use {T, find, delete_if, delete_if_count}

  -- The errors before the commit.
  pub record Kept (c : T) (fs : List Fate) (Taken Refused : Type 0) (e : LockError) (w : World T)
      : Type 0 where
    pub unchanged : w.committed ≡ c
    pub contested : e ≡ not_owned → Taken
    pub only : fs ≡ [] → (e ≡ not_owned) ⊎ (e ≡ not_found)
    pub refused : fs ≡ [] → Refused

  module _ (c : T) (fs : List Fate) where
    abbrev pub Open : T → World T → Type 0
    Open t w = (w.committed ≡ c) × (w.working ≡ t) × (fs ≡ [] → w.fates ≡ [])

    abbrev pub Freed : List LockResource → T → World T → Type 0
    Freed rs t w =
        Frees locks repository rs t w.working
        × All (Held locks owner_id repository t) rs
        × (w.committed ≡ c)
        × (fs ≡ [] → w.fates ≡ [])

    failed :
        (Taken Refused : Type 0) (cause : Cause) (t : T) (c' t' u : T) (gs : List Fate)
        → Open t (world c' t' gs)
        → Fails gs
        → Kept c fs Taken Refused (internal cause) (world c' u (rest_fates gs))
    failed Taken Refused cause t c' t' u gs h bad = record {
      unchanged = h.0;
      contested = λ p. cc;
      only = λ p. absurd (bad (ap first_fate (h.2 p)));
      refused = λ p. absurd (bad (ap first_fate (h.2 p)));
    }

    module _ (t : T) (r : LockResource) where
      abbrev pub mine : LockRow → Bool
      mine row = string_eq.beq row.owner_id owner_id

      abbrev Round : LockError → World T → Type 0
      Round =
          Kept c fs (Foreign locks owner_id repository t r) (¬ Held locks owner_id repository t r)

      deleted :
          (n : ℕ)
          → (delete_if (key repository r) mine t).0 ≡ n
          → Triple
              (Open t)
              (exec (internal delete) (delete_if (key repository r) mine))
              (λ m w. (m ≡ n) × Open (delete_if (key repository r) mine t).1 w)
              Round
      deleted n count =
          Triple-exec (internal delete) (delete_if (key repository r) mine)
            (λ c' t' gs h. (
              ap (λ x. (delete_if (key repository r) mine x).0) h.1 ∙ count,
              (
                h.0,
                ap (λ x. (delete_if (key repository r) mine x).1) h.1,
                λ p. ap rest_fates (h.2 p),
              ),
            ))
            (failed _ _ delete t)

      abbrev Seen : Option LockRow → Type 0
      Seen found = (row : LockRow) → found ≡ some row → find t (key repository r) ≡ some row

      -- The SELECT tells a missing lock from another owner's.
      missing_Round :
          (found : Option LockRow)
          → ((row : LockRow) → find t (key repository r) ≡ some row → row.owner_id ≢ owner_id)
          → (λ (o : Option LockRow).
                ((row : LockRow) → o ≡ some row → find t (key repository r) ≡ some row))
              found
          → Triple (λ w. w.committed ≡ c) (on_missing locks found) (λ _ w. Freed (r ∷ []) t w) Round
      unfolding on_missing
      missing_Round none foreign sub = Triple-raise not_found λ w h. record {
        unchanged = h;
        contested = λ p. cc;
        only = λ p. inr refl;
        refused = λ p held. foreign held.0 held.1 held.2;
      }
      missing_Round (some row) foreign sub = Triple-raise not_owned λ w h. record {
        unchanged = h;
        contested = λ p. (row, sub row refl, foreign row (sub row refl));
        only = λ p. inl refl;
        refused = λ p held. foreign held.0 held.1 held.2;
      }

      abbrev Alien : Type 0
      Alien = (row : LockRow) → find t (key repository r) ≡ some row → row.owner_id ≢ owner_id

      select_Round :
          Alien
          → Triple
              (Open (delete_if (key repository r) mine t).1)
              (do
                row ← exec (internal select_owner) (λ x. (find x (key repository r), x))
                rollback
                on_missing locks row)
              (λ _ w. Freed (r ∷ []) t w)
              Round
      select_Round foreign =
          Triple-bind {Q = λ found w. Seen found × (w.committed ≡ c)}
            (Triple-exec (internal select_owner) _
              (λ c' t' gs h. (
                λ row e.
                    find-delete_if_some locks (key repository r) (key repository r) mine row t
                      (ap (λ x. find x (key repository r)) (sym h.1) ∙ e),
                h.0,
              ))
              (failed _ _ select_owner _))
            λ found.
              Triple-assume (Seen found) (λ w h. h.0)
                λ seen.
                  Triple-bind {Q = λ _ w. w.committed ≡ c} (Triple-rollback λ c' t' gs h. h.1)
                    λ _. missing_Round found foreign seen

      refused_Round :
          Alien
          → (delete_if (key repository r) mine t).0 ≡ 0
          → Triple
              (Open t)
              (unlock_one locks owner_id repository r)
              (λ _ w. Freed (r ∷ []) t w)
              Round
      unfolding unlock_one
      refused_Round foreign count = Triple-bind (deleted 0 count) λ n.
          Triple-assume (n ≡ 0) (λ w h. h.0)
            λ e. rw e (Triple-weaken (λ w h. h.1) (λ a w h. h) (λ a w h. h) (select_Round foreign))

      Freed-Round :
          (row : LockRow)
          → find t (key repository r) ≡ some row
          → mine row ≡ true
          → Triple
              (Open t)
              (unlock_one locks owner_id repository r)
              (λ _ w. Freed (r ∷ []) t w)
              Round
      unfolding unlock_one
      Freed-Round row taken yours =
          Triple-bind (deleted 1 (ground (arith, delete_if_count (key repository r) mine t))) λ n.
            Triple-assume (n ≡ 1) (λ w h. h.0)
              λ e. rw e (
                Triple-pure tt λ w h. (
                  rw h.1.1 (
                      delete-Frees locks repository t r mine
                        (λ row' h'. let same : row ≡ row' = cc (taken, h') in rw (← same) yours)),
                  ((row, taken, (string_eq.beq_iff _ _).0 yours), tt),
                  h.1.0,
                  h.1.2,
                ))

      pub unlock_one-Freed :
          Triple (Open t) (unlock_one locks owner_id repository r) (λ _ w. Freed (r ∷ []) t w) Round
      unlock_one-Freed = elim (Option-cases (find t (key repository r))) [
        | inl free ↦
            refused_Round (λ row h. cc) (ground (arith, delete_if_count (key repository r) mine t))
        | inr (row, taken) ↦ elim (Bool-cases (mine row)) [
          | inl yours ↦ Freed-Round row taken yours
          | inr other ↦
              refused_Round
                (λ row' h p.
                  let same : row ≡ row' = cc (taken, h) in
                  cc (other, (string_eq.beq_iff _ _).1 (ap (λ x. x.owner_id) same ∙ p)))
                (ground (arith, delete_if_count (key repository r) mine t))
        ]
      ]
