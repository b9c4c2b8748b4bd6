-- ===== src/Locks/Unlock.antt =====
-- The loops of `unlock_resources`, over any list of resources.
use lore_stack.Common.{
  ◌≡◌, ◌≢◌, refl, ◌∙◌, inl, inr, Bool, true, none, some, List, [], ◌∷◌, All, Bytes, Option-cases,
}
use lore_stack.Common.Eq.{string_eq}
use lore_stack.Sql.Laws.{find-delete_if_self, find-delete_if_ne, find-delete_if_some}
use lore_stack.Sql.Table.{Table}
use lore_stack.Locks.Types.{LockResource, LockKey, LockRow, lock_key_eq}
use lore_stack.Locks.Store.{key}

module _ (locks : Table lock_key_eq LockRow) (repository : Bytes) where
  open locks use {T, find, delete_if, find-delete_if, delete_if_count}

  pub record Frees (rs : List LockResource) (t u : T) : Type 0 where
    -- the locks are gone
    pub gone : All (λ r. find u (key repository r) ≡ none) rs
    -- no lock is made or changed
    pub shrinks : (k : LockKey) (row : LockRow) → find u k ≡ some row → find t k ≡ some row
    -- no other key is touched
    pub frame : (k : LockKey) → All (λ r. key repository r ≢ k) rs → find u k ≡ find t k

  pub Frees-nil : (t : T) → Frees [] t t
  Frees-nil t = record { gone = tt; shrinks = λ k row h. h; frame = λ k h. refl }

  stays_gone :
      (t u : T) (k : LockKey)
      → ((row : LockRow) → find u k ≡ some row → find t k ≡ some row)
      → find t k ≡ none
      → find u k ≡ none
  stays_gone t u k shrinks free = elim (Option-cases (find u k)) [
    | inl e ↦ e
    | inr (row, e) ↦ cc (shrinks row e)
  ]

  pub Frees-cons :
      (r : LockResource) (rs : List LockResource) (t u v : T)
      → Frees (r ∷ []) t u
      → Frees rs u v
      → Frees (r ∷ rs) t v
  Frees-cons r rs t u v a b = record {
    gone = (stays_gone u v (key repository r) (b.shrinks (key repository r)) a.gone.0, b.gone);
    shrinks = λ k row h. a.shrinks k row (b.shrinks k row h);
    frame = λ k h. b.frame k h.1 ∙ a.frame k (h.0, tt);
  }

  pub delete-Frees :
      (t : T) (r : LockResource) (p : LockRow → Bool)
      → ((row : LockRow) → find t (key repository r) ≡ some row → p row ≡ true)
      → Frees (r ∷ []) t (delete_if (key repository r) p t).1
  delete-Frees t r p all =
      let k = key repository r in
      record {
        gone = (
          (elim (Option-cases (find t k)) [
            | inl free ↦
                stays_gone t (delete_if k p t).1 k
                  (λ row h. find-delete_if_some locks k k p row t h) free
            | inr (row, e) ↦ find-delete_if_self locks k p t (rw e (all row e))
          ]),
          tt,
        );
        shrinks = λ j row h. find-delete_if_some locks k j p row t h;
        frame = λ j h. find-delete_if_ne locks k j p t h.0;
      }
