-- ===== src/Locks/Decide.antt =====
-- When `lock_resources` succeeds, and what it returns when it is called again.
use lore_stack.Common.{
  ◌≡◌, ◌≢◌, refl, ap, sym, ◌∙◌, inl, inr, none, some, List, [], ◌∷◌, All, All-map, Option-cases,
  Bytes, String,
}
use lore_stack.Common.Int.{ℤ}
use lore_stack.Sql.Table.{Table}
use lore_stack.Sql.World.{World, Result, ok, err}
use lore_stack.Sql.Triple.{Post}
use lore_stack.Locks.Types.{
  LockError, not_owned, LockResource, LockData, LockKey, LockRow, lock_key_eq,
}
use lore_stack.Locks.Canon.{Order}
use lore_stack.Locks.Holding.{Held, Available}
use lore_stack.Locks.Store.{key, lock_resources}
use lore_stack.Locks.Grants.{Grants}
use lore_stack.Locks.Acquire.{Accepted, Rejected, lock_resources_outcome}

module _ (locks : Table lock_key_eq LockRow) (order : Order LockResource) (owner_id : String)
    (repository : Bytes) (now : ℤ) where
  open locks use {T, find}

  Available-of_Grants :
      (t u : T) (newly : List LockData) (rs : List LockResource)
      → ((k : LockKey) (row : LockRow) → find t k ≡ some row → find u k ≡ some row)
      → All (Held locks owner_id repository u) rs
      → All (Available locks owner_id repository t) rs
  Available-of_Grants t u newly rs kept held =
      All-map
        (λ r mine other. other.2 (cc (mine.2, mine.1, kept (key repository r) other.0 other.1))) rs
        held

  decided :
      (resources : List LockResource) (before : World T)
      (o : Result LockError (List LockData) × World T)
      → Post
          (Accepted locks order owner_id repository now resources before)
          (Rejected locks order owner_id repository now resources before)
          o
      → before.fates ≡ []
      → (All (Available locks owner_id repository before.committed) resources
          → (newly : List LockData) × (o.0 ≡ ok newly))
        × ((¬ All (Available locks owner_id repository before.committed) resources)
            → (o.0 ≡ err not_owned) × (o.1.committed ≡ before.committed))
  decided resources before (ok newly, w) g calm = (
    λ free. (newly, refl),
    λ taken. absurd (taken (Available-of_Grants _ _ newly resources g.kept g.held)),
  )
  decided resources before (err e, w) r calm = (
    λ free. absurd (r.contested (r.only calm) free),
    λ taken.
        (ap err (r.only calm), elim r.whole [ inl s ↦ s | inr x ↦ absurd (cc (r.only calm, x.0)) ]),
  )

  -- While all requests are answered `lock_resources` succeeds if no resource is held by another
  -- owner, and reports `LockNotOwned` and changes no committed row if one is.
  pub lock_resources_decides :
      (resources : List LockResource) (before : World T)
      → before.fates ≡ []
      → (All (Available locks owner_id repository before.committed) resources
          → (newly : List LockData) × ((lock_resources locks order owner_id repository now resources
                before).0
              ≡ ok newly))
        × ((¬ All (Available locks owner_id repository before.committed) resources)
            → ((lock_resources locks order owner_id repository now resources before).0
                ≡ err not_owned)
              × ((lock_resources locks order owner_id repository now resources before).1.committed
                  ≡ before.committed))
  lock_resources_decides resources before =
      decided resources before _
        (lock_resources_outcome locks order owner_id repository now resources before)

  others :
      (t : T) (k : LockKey) (rs : List LockResource)
      → find t k ≡ none
      → All (Held locks owner_id repository t) rs
      → All (λ r. key repository r ≢ k) rs
  others t k rs free held = All-map (λ r h p. cc (h.1, free, ap (find t) p)) rs held

  no_news :
      (t u : T) (resources : List LockResource) (newly : List LockData)
      → Grants locks owner_id repository now resources t u newly
      → All (Held locks owner_id repository t) resources
      → (newly ≡ []) × ((k : LockKey) → find u k ≡ find t k)
  no_news t u resources [] g held = (
    refl,
    λ k. elim (Option-cases (find t k)) [
      | inl free ↦ g.frame k (others t k resources free held)
      | inr (row, taken) ↦ g.kept k row taken ∙ sym taken
    ],
  )
  no_news t u resources (d ∷ ds) g held =
      let h = g.returned.0 in
      absurd (
        cc (
          h.0,
          h.1,
          g.frame (key repository d.resource)
              (others t (key repository d.resource) resources h.0 held),
        ))

  relocked :
      (resources : List LockResource) (before : World T)
      (o : Result LockError (List LockData) × World T)
      → Post
          (Accepted locks order owner_id repository now resources before)
          (Rejected locks order owner_id repository now resources before)
          o
      → before.fates ≡ []
      → All (Held locks owner_id repository before.committed) resources
      → (o.0 ≡ ok []) × ((k : LockKey) → find o.1.committed k ≡ find before.committed k)
  relocked resources before (ok newly, w) g calm held =
      let (none_new, same) = no_news before.committed w.committed resources newly g held in
      (ap ok none_new, same)
  relocked resources before (err e, w) r calm held = absurd (
      r.contested (r.only calm)
        (All-map (λ r mine other. other.2 (cc (mine.2, mine.1, other.1))) resources held))

  -- While all requests are answered: an owner that asks for locks that it holds already gets none
  -- of them as new, and no row changes.
  pub relock_idempotent :
      (resources : List LockResource) (before : World T)
      → before.fates ≡ []
      → All (Held locks owner_id repository before.committed) resources
      → ((lock_resources locks order owner_id repository now resources before).0 ≡ ok [])
        × ((k : LockKey)
            → find
                (lock_resources locks order owner_id repository now resources before).1.committed
                k
              ≡ find before.committed k)
  relock_idempotent resources before =
      relocked resources before _
        (lock_resources_outcome locks order owner_id repository now resources before)
