-- ===== src/Locks/Sequence.antt =====
-- Two owners, one after the other.
use mathlib.Core.Logic.Or
use mathlib.Core.HLevel.{⊥_prop}
use mathlib.Core.List.{Mem, mem-cons, not-mem-nil}
use lore_stack.Common.{
  ◌≡◌, ◌≢◌, ap, sym, subst, ◌∙◌, Bool, none, List, [], ◌∷◌, All, All-map, Bytes, String,
}
use lore_stack.Common.Int.{ℤ}
use lore_stack.Sql.Table.{Table}
use lore_stack.Sql.World.{World, Result, ok, err}
use lore_stack.Sql.Triple.{Post}
use lore_stack.Locks.Types.{LockError, not_owned, LockResource, LockData, LockRow, lock_key_eq}
use lore_stack.Locks.Canon.{Order}
use lore_stack.Locks.Holding.{Held, Available}
use lore_stack.Locks.Store.{key, lock_resources, unlock_resources}
use lore_stack.Locks.Acquire.{Accepted, Rejected, lock_resources_outcome}
use lore_stack.Locks.Release
use lore_stack.Locks.Release.{unlock_resources_outcome}
use lore_stack.Locks.Decide.{lock_resources_decides}

-- A property of all members holds of each, in a proof of a contradiction.
pub refuted_at {κ} :
    {A : Type 0} (P : A → Type κ) (x : A) (xs : List A) → Mem x xs → All P xs → (P x → ⊥) → ⊥
refuted_at P x [] m h k = not-mem-nil m
refuted_at P x (y ∷ ys) m h k =
    Or.elim ⊥_prop (mem-cons.0 m) (λ e. k (subst P (sym e) h.0)) (λ l. refuted_at P x ys l h.1 k)

module _ (locks : Table lock_key_eq LockRow) (order : Order LockResource) (repository : Bytes) where
  open locks use {T, find}

  pub granted :
      (owner_id : String) (now : ℤ) (resources : List LockResource) (before : World T)
      (newly : List LockData) (o : Result LockError (List LockData) × World T)
      → Post
          (Accepted locks order owner_id repository now resources before)
          (Rejected locks order owner_id repository now resources before)
          o
      → o.0 ≡ ok newly
      → All (Held locks owner_id repository o.1.committed) resources
  granted owner_id now resources before newly (ok ds, w) g h = g.held
  granted owner_id now resources before newly (err e, w) r h =
      absurd (let no : err e ≡ ok newly → ⊥ = λ q. cc in no h)

  released :
      (owner_id : String) (validate_user : Bool) (resources : List LockResource) (before : World T)
      (rs : List LockResource) (o : Result LockError (List LockResource) × World T)
      → Post
          (Release.Accepted locks order owner_id repository resources before validate_user)
          (Release.Rejected locks order owner_id repository validate_user resources before)
          o
      → o.0 ≡ ok rs
      → All (λ r. find o.1.committed (key repository r) ≡ none) resources
  released owner_id validate_user resources before rs (ok ds, w) g h = g.1.gone
  released owner_id validate_user resources before rs (err e, w) r h =
      absurd (let no : err e ≡ ok rs → ⊥ = λ q. cc in no h)

  -- Whatever became of the requests of a `lock_resources` that succeeded: while the committed
  -- rows are those that it left and all requests are answered, another owner's `lock_resources`
  -- of resources that share one with it reports `LockNotOwned` and changes no committed row.
  pub lock_resources-excludes :
      (ann bob : String) (now later : ℤ) (resources others : List LockResource)
      (shared : LockResource) (before after : World T) (newly : List LockData)
      → ann ≢ bob
      → (lock_resources locks order ann repository now resources before).0 ≡ ok newly
      → after.committed
        ≡ (lock_resources locks order ann repository now resources before).1.committed
      → after.fates ≡ []
      → Mem shared resources
      → Mem shared others
      → ((lock_resources locks order bob repository later others after).0 ≡ err not_owned)
        × ((lock_resources locks order bob repository later others after).1.committed
            ≡ after.committed)
  lock_resources-excludes ann bob now later resources others shared before after newly two success
        same calm m n =
      let held =
        granted ann now resources before newly _
          (lock_resources_outcome locks order ann repository now resources before) success in
      (lock_resources_decides locks order bob repository later others after calm).1 (λ free.
        refuted_at (Held locks ann repository _) shared resources m held (λ mine.
          refuted_at (Available locks bob repository after.committed) shared others n free
            (λ available. available (
              mine.0,
              ap (λ t. find t (key repository shared)) same ∙ mine.1,
              λ e. two (sym mine.2 ∙ e),
            ))))

  -- Whatever became of the requests of an `unlock_resources` that succeeded: while the committed
  -- rows are those that it left and all requests are answered, a `lock_resources` of the same
  -- resources succeeds for any owner.
  pub lock_resources-after_unlock :
      (ann bob : String) (validate_user : Bool) (later : ℤ)
      (resources released_ones : List LockResource) (before after : World T)
      → (unlock_resources locks order ann validate_user repository resources before).0
        ≡ ok released_ones
      → after.committed
        ≡ (unlock_resources locks order ann validate_user repository resources before).1.committed
      → after.fates ≡ []
      → (newly : List LockData) × ((lock_resources locks order bob repository later resources
            after).0
          ≡ ok newly)
  lock_resources-after_unlock ann bob validate_user later resources released_ones before after
        success same calm =
      let gone =
        released ann validate_user resources before released_ones _
          (unlock_resources_outcome locks order ann repository resources before validate_user)
          success in
      (lock_resources_decides locks order bob repository later resources after calm).0 (
        All-map
          (λ r free foreign.
            let e : find after.committed (key repository r) ≡ none =
              ap (λ t. find t (key repository r)) same ∙ free in
            cc (e, foreign.1))
          resources gone)
