-- ===== src/Locks/LockAll.antt =====
-- The loop of `lock_resources`, over any list of resources.
use lore_stack.Common.{
  ◌++◌, ◌≡◌, refl, sym, ap, ◌∙◌, inl, inr, some, List, [], ◌∷◌, Bytes, String, Option-cases,
}
use mathlib.Core.List.{append-nil, append_assoc}
use lore_stack.Common.Eq.{string_eq}
use lore_stack.Common.Int.{ℤ}
use lore_stack.Sql.Table.{Table}
use lore_stack.Sql.World.{World, Fate}
use lore_stack.Sql.Triple.{Triple, Post-map, Triple-bind, Triple-weaken, Triple-pure}
use lore_stack.Locks.Types.{LockError, LockResource, LockData, LockRow, lock_key_eq}
use lore_stack.Locks.Holding.{Foreign, Contested}
use lore_stack.Locks.Store.{key, lock_all}
use lore_stack.Locks.Grants.{Grants, Grants-nil, Grants-append}
use lore_stack.Locks.LockOne.{Refusal, Open, Granted, lock_one-Granted}

module _ (locks : Table lock_key_eq LockRow) (owner_id : String) (repository : Bytes)
    (now : ℤ) where
  open locks use {T, find}

  Foreign-back :
      (rs : List LockResource) (t u : T) (new : List LockData) (r : LockResource)
      → Grants locks owner_id repository now rs t u new
      → Foreign locks owner_id repository u r
      → Foreign locks owner_id repository t r
  Foreign-back rs t u new r g (row, e, other) = elim (Option-cases (find t (key repository r))) [
    | inl free ↦ absurd (other (g.stamped (key repository r) row free e).0)
    | inr (row', e') ↦
        let same : row ≡ row' = cc (e, g.kept (key repository r) row' e') in
        (row, e' ∙ ap some (sym same), other)
  ]

  Contested-back :
      (rs : List LockResource) (t u : T) (new : List LockData) (rest : List LockResource)
      → Grants locks owner_id repository now rs t u new
      → Contested locks owner_id repository u rest
      → Contested locks owner_id repository t rest
  Contested-back rs t v new [] g none_left = elim none_left [ ]
  Contested-back rs t v new (r ∷ rest) g (inl f) = inl (Foreign-back rs t v new r g f)
  Contested-back rs t v new (r ∷ rest) g (inr f) = inr (Contested-back rs t v new rest g f)

  Refusal-map :
      {X Y : Type 0} {c : T} {fs : List Fate} (f : X → Y) (e : LockError) (w : World T)
      → Refusal locks owner_id repository now c fs X e w
      → Refusal locks owner_id repository now c fs Y e w
  Refusal-map f e w h = record {
    unchanged = h.unchanged;
    contested = λ p. f (h.contested p);
    only = h.only;
  }

  module _ (c : T) (fs : List Fate) where
    Granted-append :
        (r : LockResource) (rs : List LockResource) (t : T) (newly newly' newly'' : List LockData)
        (w v : World T)
        → Granted locks owner_id repository now c fs (r ∷ []) t newly newly' w
        → Granted locks owner_id repository now c fs rs w.working newly' newly'' v
        → Granted locks owner_id repository now c fs (r ∷ rs) t newly newly'' v
    Granted-append r rs t newly newly' newly'' w v (new, e, g, _, _) (new', e', g', same, calm) = (
      new ++ new',
      e' ∙ ap (λ l. l ++ new') e ∙ append_assoc newly new new',
      Grants-append locks owner_id repository now (r ∷ []) rs t w.working v.working new new' g g',
      same,
      calm,
    )

    pub lock_all-Granted :
        (t : T) (rs : List LockResource) (newly : List LockData)
        → Triple
            (Open locks owner_id repository now c fs t)
            (lock_all locks owner_id repository now rs newly)
            (Granted locks owner_id repository now c fs rs t newly)
            (Refusal locks owner_id repository now c fs (Contested locks owner_id repository t rs))
    unfolding lock_all
    lock_all-Granted t [] newly = Triple-pure newly λ w h.
        ([], sym (append-nil newly), rw h.1 (Grants-nil locks owner_id repository now t), h.0, h.2)
    lock_all-Granted t (r ∷ rs) newly =
        Triple-bind
          (Triple-weaken (λ w h. h) (λ a w h. h) (Refusal-map inl)
            (lock_one-Granted locks owner_id repository now c fs t r newly))
          λ newly'. record {
            at = λ w h.
                Post-map (λ newly'' v h'. Granted-append r rs t newly newly' newly'' w v h h')
                  (Refusal-map (λ x. inr (Contested-back (r ∷ []) t w.working h.0 rs h.2 x))) _
                  ((lock_all-Granted w.working rs newly').at w (h.3, refl, h.4));
          }
