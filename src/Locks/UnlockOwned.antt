-- ===== src/Locks/UnlockOwned.antt =====
-- The validating loop of `unlock_resources`.
use lore_stack.Common.{◌≢◌, refl, sym, ◌∙◌, inl, inr, List, [], ◌∷◌, All, All-map, Bytes, String}
use lore_stack.Common.Eq.{string_eq}
use lore_stack.Sql.Table.{Table}
use lore_stack.Sql.World.{World, Fate}
use lore_stack.Sql.Triple.{Triple, Post-map, Triple-bind, Triple-weaken, Triple-pure}
use lore_stack.Locks.Types.{LockError, LockResource, LockRow, lock_key_eq}
use lore_stack.Locks.Store.{key, unlock_owned}
use lore_stack.Locks.Holding.{Held, Contested}
use lore_stack.Locks.Unlock.{Frees-nil, Frees-cons}
use lore_stack.Locks.UnlockOne.{IsApart, Kept, Open, Freed, unlock_one-Freed}

module _ (locks : Table lock_key_eq LockRow) (owner_id : String) (repository : Bytes) where
  open locks use {T}

  module _ (c : T) (fs : List Fate) where
    -- The rest of the loop starts from the rows that the first round leaves.
    rest_Kept :
        (t : T) (r : LockResource) (rs : List LockResource) (w : World T)
        → Freed locks owner_id repository c fs (r ∷ []) t w
        → (e : LockError) (v : World T)
        → Kept locks owner_id repository c fs
            (Contested locks owner_id repository w.working rs)
            (IsApart repository rs → ¬ All (Held locks owner_id repository w.working) rs)
            e
            v
        → Kept locks owner_id repository c fs
            (Contested locks owner_id repository t (r ∷ rs))
            (IsApart repository (r ∷ rs) → ¬ All (Held locks owner_id repository t) (r ∷ rs))
            e
            v
    rest_Kept t r rs w freed e v k = record {
      unchanged = k.unchanged;
      contested = λ p. inr (back rs (k.contested p));
      only = k.only;
      refused = λ p apart held. k.refused p apart.1 (still rs apart.0 held.1);
    }
      where
        back :
            (xs : List LockResource)
            → Contested locks owner_id repository w.working xs
            → Contested locks owner_id repository t xs
        back [] x = elim x [ ]
        back (x ∷ xs) (inl f) = inl (f.0, freed.0.shrinks (key repository x) f.0 f.1, f.2)
        back (x ∷ xs) (inr f) = inr (back xs f)

        still :
            (xs : List LockResource)
            → All (λ s. key repository s ≢ key repository r) xs
            → All (Held locks owner_id repository t) xs
            → All (Held locks owner_id repository w.working) xs
        still [] a h = tt
        still (x ∷ xs) a h = (
          (h.0.0, freed.0.frame (key repository x) ((λ p. a.0 (sym p)), tt) ∙ h.0.1, h.0.2),
          still xs a.1 h.1,
        )

    Freed-cons :
        (t : T) (r : LockResource) (rs : List LockResource) (w v : World T)
        → Freed locks owner_id repository c fs (r ∷ []) t w
        → Freed locks owner_id repository c fs rs w.working v
        → Freed locks owner_id repository c fs (r ∷ rs) t v
    Freed-cons t r rs w v h h' = (
      Frees-cons locks repository r rs t w.working v.working h.0 h'.0,
      (h.1.0, All-map (λ x y. (y.0, h.0.shrinks (key repository x) y.0 y.1, y.2)) rs h'.1),
      h'.2,
      h'.3,
    )

    pub unlock_owned-Freed :
        (t : T) (rs : List LockResource)
        → Triple
            (Open locks owner_id repository c fs t)
            (unlock_owned locks owner_id repository rs)
            (λ _ w. Freed locks owner_id repository c fs rs t w)
            (Kept locks owner_id repository c fs
              (Contested locks owner_id repository t rs)
              (IsApart repository rs → ¬ All (Held locks owner_id repository t) rs))
    unfolding unlock_owned
    unlock_owned-Freed t [] =
        Triple-pure tt λ w h. (rw h.1 (Frees-nil locks repository t), tt, h.0, h.2)
    unlock_owned-Freed t (r ∷ rs) =
        Triple-bind
          (Triple-weaken (λ w h. h) (λ a w h. h)
            (λ e w k. record {
              unchanged = k.unchanged;
              contested = λ p. inl (k.contested p);
              only = k.only;
              refused = λ p apart held. k.refused p held.0;
            })
            (unlock_one-Freed locks owner_id repository c fs t r))
          λ _. record {
            at = λ w h.
                Post-map (λ _ v. Freed-cons t r rs w v h) (rest_Kept t r rs w h) _
                  ((unlock_owned-Freed w.working rs).at w (h.2, refl, h.3));
          }
