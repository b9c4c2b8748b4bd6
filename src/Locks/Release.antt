-- ===== src/Locks/Release.antt =====
-- `unlock_resources` as a whole: what each outcome says of the committed rows.
use lore_stack.Common.{
  if◌then◌else◌, ◌≡◌, refl, ap, ◌∙◌, ◌⊎◌, inl, inr, Bool, true, false, List, [], ◌∷◌, All, Bytes,
  String,
}
use lore_stack.Sql.Table.{Table}
use lore_stack.Sql.World.{World, Fate, first_fate, rest_fates, commit}
use lore_stack.Sql.Triple.{
  Triple, Post, world, Fails, Triple-bind, Triple-weaken, Triple-exec, Triple-pure, Triple-begin,
  Triple-commit, Triple-checkout,
}
use lore_stack.Locks.Types.{
  Cause, pool, delete, LockError, not_owned, not_found, internal, LockResource, LockRow,
  lock_key_eq,
}
use lore_stack.Locks.Canon.{Order, canonical, All-canonical}
use lore_stack.Locks.Store.{key, unlock_any, unlock_owned, unlock_resources}
use lore_stack.Locks.Holding.{Held, Available, Contested, not-Available_of_Contested}
use lore_stack.Locks.Unlock.{Frees, Frees-nil, Frees-cons, delete-Frees}
use lore_stack.Locks.UnlockOne.{Open, IsApart, Kept}
use lore_stack.Locks.UnlockOwned.{unlock_owned-Freed}

module _ (locks : Table lock_key_eq LockRow) (order : Order LockResource) (owner_id : String)
    (repository : Bytes) where
  open locks use {T, find, delete_if}

  -- The errors, with the checks on only.
  pub record Rejected (validate_user : Bool) (resources : List LockResource) (before : World T)
      (e : LockError) (after : World T) : Type 0 where
    pub whole :
        (after.committed ≡ before.committed)
        ⊎ ((e ≡ internal Cause.commit)
            × Frees locks repository resources before.committed after.committed
            × (validate_user ≡ true
                → All (Held locks owner_id repository before.committed) resources))
    pub contested :
        e ≡ not_owned → ¬ All (Available locks owner_id repository before.committed) resources
    pub only : before.fates ≡ [] → ((e ≡ not_owned) ⊎ (e ≡ not_found)) × (validate_user ≡ true)
    pub refused :
        before.fates ≡ []
        → IsApart repository (canonical order resources)
        → ¬ All (Held locks owner_id repository before.committed) resources

  module _ (resources : List LockResource) (before : World T) where
    abbrev c : T
    c = before.committed

    abbrev fs : List Fate
    fs = before.fates

    abbrev Freed : Bool → World T → Type 0
    Freed validate_user w =
        Frees locks repository resources c w.working
        × (validate_user ≡ true → All (Held locks owner_id repository c) resources)
        × (w.committed ≡ c)
        × (fs ≡ [] → w.fates ≡ [])

    abbrev pub Accepted : Bool → List LockResource → World T → Type 0
    Accepted validate_user released w =
        (released ≡ canonical order resources)
        × Frees locks repository resources c w.committed
        × (validate_user ≡ true → All (Held locks owner_id repository c) resources)

    Frees-canonical :
        (u : T)
        → Frees locks repository (canonical order resources) c u
        → Frees locks repository resources c u
    Frees-canonical u f = record {
      gone = (All-canonical order _ resources).0 f.gone;
      shrinks = f.shrinks;
      frame = λ k h. f.frame k ((All-canonical order _ resources).1 h);
    }

    failed_early :
        (validate_user : Bool) (cause : Cause) (w : World T) (gs : List Fate)
        → w.committed ≡ c
        → (fs ≡ [] → gs ≡ [])
        → Fails gs
        → Rejected validate_user resources before (internal cause) w
    failed_early validate_user cause w gs same calm bad = record {
      whole = inl same;
      contested = λ p. cc;
      only = λ p. absurd (bad (ap first_fate (calm p)));
      refused = λ p. absurd (bad (ap first_fate (calm p)));
    }

    early :
        (e : LockError) (w : World T)
        → Kept locks owner_id repository c fs
            (Contested locks owner_id repository c (canonical order resources))
            (IsApart repository (canonical order resources)
              → ¬ All (Held locks owner_id repository c) (canonical order resources))
            e
            w
        → Rejected true resources before e w
    early e w h = record {
      whole = inl h.unchanged;
      contested = λ p all.
          not-Available_of_Contested locks owner_id repository c _ (h.contested p)
            ((All-canonical order _ resources).1 all);
      only = λ p. (h.only p, refl);
      refused = λ p apart held. h.refused p apart ((All-canonical order _ resources).1 held);
    }

    unlock_any_Freed :
        (t : T) (rs : List LockResource)
        → Triple
            (Open locks owner_id repository c fs t)
            (unlock_any locks repository rs)
            (λ _ w.
              Frees locks repository rs t w.working × (w.committed ≡ c) × (fs ≡ [] → w.fates ≡ []))
            (Rejected false resources before)
    unfolding unlock_any
    unlock_any_Freed t [] = Triple-pure tt λ w h. (rw h.1 (Frees-nil locks repository t), h.0, h.2)
    unlock_any_Freed t (r ∷ rs) =
        let u = (delete_if (key repository r) (λ row. true) t).1 in
        Triple-bind {Q = λ _. Open locks owner_id repository c fs u}
          (Triple-exec (internal delete) _
            (λ c' t' gs h. (
              h.0,
              ap (λ x. (delete_if (key repository r) (λ row. true) x).1) h.1,
              λ p. ap rest_fates (h.2 p),
            ))
            (λ c' t' v gs h bad. failed_early false delete _ gs h.0 h.2 bad))
          λ _.
            Triple-weaken (λ w h. h)
              (λ a w h. (
                Frees-cons locks repository r rs t u w.working
                    (delete-Frees locks repository t r (λ row. true) (λ row _. refl)) h.0,
                h.1,
                h.2,
              ))
              (λ e w h. h) (unlock_any_Freed u rs)

    body_Freed :
        (validate_user : Bool)
        → Triple
            (Open locks owner_id repository c fs c)
            (if validate_user
              then unlock_owned locks owner_id repository (canonical order resources)
              else unlock_any locks repository (canonical order resources))
            (λ _. Freed validate_user)
            (Rejected validate_user resources before)
    body_Freed true =
        Triple-weaken (λ w h. h)
          (λ a w h.
            (Frees-canonical w.working h.0, λ _. (All-canonical order _ resources).0 h.1, h.2, h.3))
          early (unlock_owned-Freed locks owner_id repository c fs c (canonical order resources))
    body_Freed false =
        Triple-weaken (λ w h. h) (λ a w h. (Frees-canonical w.working h.0, λ p. cc, h.1, h.2))
          (λ e w h. h) (unlock_any_Freed c (canonical order resources))

    commit-Freed :
        (validate_user : Bool)
        → Triple
            (Freed validate_user)
            (commit (internal Cause.commit))
            (λ _. Accepted validate_user (canonical order resources))
            (Rejected validate_user resources before)
    commit-Freed validate_user =
        Triple-commit _ (λ d t gs h. (refl, h.0, h.1))
          λ d t gs h bad.
            let e =
              failed_early validate_user Cause.commit (world d t (rest_fates gs)) gs h.2 h.3 bad in
            (
              e,
              record {
                whole = inr (refl, h.0, h.1);
                contested = λ p. cc;
                only = e.only;
                refused = e.refused;
              },
            )

    -- Whatever becomes of the requests: a success of `unlock_resources` returns the sorted
    -- resources without duplicates and has removed exactly their locks, which with validation
    -- were all the caller's; an error leaves the committed rows as they were, unless it is a
    -- COMMIT whose answer was lost after all of them were removed. While all requests are
    -- answered the only errors are the two of validation, and if no two resources share a key,
    -- one of them was not the caller's.
    pub unlock_resources_outcome :
        (validate_user : Bool)
        → Post
            (Accepted validate_user)
            (Rejected validate_user resources before)
            (unlock_resources locks order owner_id validate_user repository resources before)
    unfolding unlock_resources
    unlock_resources_outcome v =
        let proof : Triple (λ w. w ≡ before)
            (unlock_resources locks order owner_id v repository resources) (Accepted v)
            (Rejected v resources before) =
          Triple-bind {Q = λ _ w. (w.committed ≡ c) × (fs ≡ [] → w.fates ≡ [])}
            (Triple-checkout (internal pool)
              (λ d t gs h.
                (ap (λ w. w.committed) h, λ p. ap (λ w. rest_fates w.fates) h ∙ ap rest_fates p))
              (λ d t gs h bad.
                failed_early v pool _ gs (ap (λ w. w.committed) h) (λ p. ap (λ w. w.fates) h ∙ p)
                  bad))
            λ _.
              Triple-bind {Q = λ _. Open locks owner_id repository c fs c}
                (Triple-begin (internal Cause.begin)
                  (λ d t gs h. (h.0, h.0, λ p. ap rest_fates (h.1 p)))
                  (λ d t t' gs h bad. failed_early v Cause.begin _ gs h.0 h.1 bad))
                λ _. Triple-bind (body_Freed v) λ _.
                  Triple-bind (commit-Freed v)
                    λ _. Triple-pure (canonical order resources) (λ w h. h) in
        proof.at before refl
