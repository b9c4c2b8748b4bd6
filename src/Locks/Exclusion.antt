-- ===== src/Locks/Exclusion.antt =====
-- Two owners, with any calls of the lock store's methods in between.
use mathlib.Core.List.{Mem}
use lore_stack.Common.{◌≡◌, ◌≢◌, ap, sym, subst, ◌∙◌, List, [], All, Bytes, String}
use lore_stack.Common.Int.{ℤ}
use lore_stack.Sql.Table.{Table}
use lore_stack.Sql.World.{World, ok, err}
use lore_stack.Locks.Types.{not_owned, LockResource, LockData, LockRow, lock_key_eq}
use lore_stack.Locks.Canon.{Order}
use lore_stack.Locks.Holding.{Held, Available}
use lore_stack.Locks.Store.{key, lock_resources}
use lore_stack.Locks.Acquire.{lock_resources_outcome}
use lore_stack.Locks.Decide.{lock_resources_decides}
use lore_stack.Locks.Sequence.{refuted_at, granted}
use lore_stack.Locks.History.{Call, Spares, run, run-keeps_locks}

module _ (locks : Table lock_key_eq LockRow) (order : Order LockResource) (repository : Bytes) where
  open locks use {T, find}

  -- Whatever became of the requests of a `lock_resources` that succeeded and of any calls after
  -- it, none of which releases a shared resource for its owner: while all requests are answered,
  -- another owner's `lock_resources` of resources that include the shared one reports
  -- `LockNotOwned` and changes no committed row.
  pub lock_resources-excludes_after :
      (ann bob : String) (now later : ℤ) (resources others : List LockResource)
      (shared : LockResource) (calls : List Call) (before after : World T) (newly : List LockData)
      → ann ≢ bob
      → (lock_resources locks order ann repository now resources before).0 ≡ ok newly
      → All (Spares (key repository shared) ann) calls
      → after.committed
        ≡ (run locks order calls
            (lock_resources locks order ann repository now resources before).1).committed
      → after.fates ≡ []
      → Mem shared resources
      → Mem shared others
      → ((lock_resources locks order bob repository later others after).0 ≡ err not_owned)
        × ((lock_resources locks order bob repository later others after).1.committed
            ≡ after.committed)
  lock_resources-excludes_after ann bob now later resources others shared calls before after newly
        two success spared same calm m n =
      let first = (lock_resources locks order ann repository now resources before).1 in
      let held =
        granted locks order repository ann now resources before newly _
          (lock_resources_outcome locks order ann repository now resources before) success in
      (lock_resources_decides locks order bob repository later others after calm).1 (λ free.
        refuted_at (Held locks ann repository first.committed) shared resources m held (λ mine.
          let still =
            run-keeps_locks locks order calls first (key repository shared) mine.0 mine.1
              (subst (λ o. All (Spares (key repository shared) o) calls) (sym mine.2) spared) in
          refuted_at (Available locks bob repository after.committed) shared others n free
            (λ available. available (
              mine.0,
              ap (λ t. find t (key repository shared)) same ∙ still,
              λ e. two (sym mine.2 ∙ e),
            ))))
