-- ===== src/Locks/Acquire.antt =====
-- `lock_resources` as a whole: what each outcome says of the committed rows.
use lore_stack.Common.{◌≡◌, refl, ap, sym, subst, ◌∙◌, ◌⊎◌, inl, inr, List, [], All, Bytes, String}
use lore_stack.Common.Int.{ℤ}
use lore_stack.Sql.Table.{Table}
use lore_stack.Sql.World.{World, Fate, first_fate, rest_fates, commit}
use lore_stack.Sql.Triple.{
  Triple, Post, world, Fails, Triple-bind, Triple-weaken, Triple-pure, Triple-begin, Triple-commit,
  Triple-checkout,
}
use lore_stack.Locks.Types.{
  Cause, pool, LockError, not_owned, internal, LockResource, LockData, LockRow, lock_key_eq,
}
use lore_stack.Locks.Canon.{Order, canonical, All-canonical}
use lore_stack.Locks.Holding.{Available, Contested, not-Available_of_Contested}
use lore_stack.Locks.Store.{lock_resources}
use lore_stack.Locks.Grants.{Grants}
use lore_stack.Locks.LockOne.{Refusal, Open}
use lore_stack.Locks.LockAll.{lock_all-Granted}

module _ (locks : Table lock_key_eq LockRow) (order : Order LockResource) (owner_id : String)
    (repository : Bytes) (now : ℤ) where
  open locks use {T, find}

  Grants-canonical :
      (rs : List LockResource) (t u : T) (newly : List LockData)
      → Grants locks owner_id repository now (canonical order rs) t u newly
      → Grants locks owner_id repository now rs t u newly
  Grants-canonical rs t u newly g = record {
    kept = g.kept;
    held = (All-canonical order _ rs).0 g.held;
    frame = λ k h. g.frame k ((All-canonical order _ rs).1 h);
    stamped = g.stamped;
    returned = g.returned;
    listed = g.listed;
    once = g.once;
  }

  -- What an error leaves: the old rows; or, if only the answer to the COMMIT was lost, all of the
  -- new ones.
  pub record Rejected (resources : List LockResource) (before : World T) (e : LockError)
      (after : World T) : Type 0 where
    pub whole :
        (after.committed ≡ before.committed)
        ⊎ ((e ≡ internal Cause.commit)
            × (newly : List LockData) × Grants locks owner_id repository now resources
                before.committed after.committed newly)
    pub contested :
        e ≡ not_owned → ¬ All (Available locks owner_id repository before.committed) resources
    pub only : before.fates ≡ [] → e ≡ not_owned

  module _ (resources : List LockResource) (before : World T) where
    abbrev pub Accepted : List LockData → World T → Type 0
    Accepted newly after =
        Grants locks owner_id repository now resources before.committed after.committed newly

    early :
        (e : LockError) (w : World T)
        → Refusal locks owner_id repository now before.committed before.fates
            (Contested locks owner_id repository before.committed (canonical order resources))
            e
            w
        → Rejected resources before e w
    early e w h = record {
      whole = inl h.unchanged;
      contested = λ p all.
          not-Available_of_Contested locks owner_id repository before.committed _ (h.contested p)
            ((All-canonical order _ resources).1 all);
      only = h.only;
    }

    -- A request fails while nothing is committed.
    failed_early :
        (cause : Cause) (w : World T) (gs : List Fate)
        → w.committed ≡ before.committed
        → (before.fates ≡ [] → gs ≡ [])
        → Fails gs
        → Rejected resources before (internal cause) w
    failed_early cause w gs same calm bad = record {
      whole = inl same;
      contested = λ p. cc;
      only = λ p. absurd (bad (ap first_fate (calm p)));
    }

    abbrev Ready : World T → Type 0
    Ready w = (w.committed ≡ before.committed) × (before.fates ≡ [] → w.fates ≡ [])

    committed_Triple :
        (newly : List LockData)
        → Triple
            (λ w.
              Grants locks owner_id repository now resources before.committed w.working newly
              × Ready w)
            (commit (internal Cause.commit))
            (λ _ w. Accepted newly w)
            (Rejected resources before)
    committed_Triple newly =
        Triple-commit _ (λ c t gs h. h.0)
          λ c t gs h bad.
            let e = failed_early Cause.commit (world c t (rest_fates gs)) gs h.1.0 h.1.1 bad in
            (e, record { whole = inr (refl, newly, h.0); contested = λ p. cc; only = e.only })

    pub lock_resources_outcome :
        Post Accepted
          (Rejected resources before)
          (lock_resources locks order owner_id repository now resources before)
    unfolding lock_resources
    lock_resources_outcome =
        let c = before.committed in
        let fs = before.fates in
        let proof : Triple (λ w. w ≡ before)
            (lock_resources locks order owner_id repository now resources) Accepted
            (Rejected resources before) =
          Triple-bind {Q = λ _ w. Ready w}
            (Triple-checkout (internal pool)
              (λ c' t gs h.
                (ap (λ w. w.committed) h, λ p. ap (λ w. rest_fates w.fates) h ∙ ap rest_fates p))
              (λ c' t gs h bad.
                failed_early pool _ gs (ap (λ w. w.committed) h) (λ p. ap (λ w. w.fates) h ∙ p)
                  bad))
            λ _.
              Triple-bind {Q = λ _. Open locks owner_id repository now c fs c}
                (Triple-begin (internal Cause.begin)
                  (λ c' t gs h. (h.0, h.0, λ p. ap rest_fates (h.1 p)))
                  (λ c' t t' gs h bad. failed_early Cause.begin _ gs h.0 h.1 bad))
                λ _.
                  Triple-bind
                    (Triple-weaken (λ w h. h) (λ a w h. h) early
                      (lock_all-Granted locks owner_id repository now c fs c
                        (canonical order resources) []))
                    λ newly.
                      Triple-bind
                        (Triple-weaken
                          (λ w h. (
                            Grants-canonical resources c w.working newly (
                                subst (Grants locks owner_id repository now _ c w.working) (sym h.1)
                                  h.2),
                            (h.3, h.4),
                          ))
                          (λ a w h. h) (λ e w h. h) (committed_Triple newly))
                        λ _. Triple-pure newly (λ w h. h) in
        proof.at before refl
