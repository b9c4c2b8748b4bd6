-- ===== src/Locks/Sessions.antt =====
-- Transactions of lock_resources and unlock_resources of lore-pg/src/store/pg_lock_store.rs that
-- run at once, by the row locks that they take.
use lore_stack.Common.{ℕ, ◌≡◌, ◌≢◌, ◌<◌, Bool, false, ◌||◌, List, [], ◌∷◌, map, Bytes}
use lore_stack.Common.Eq.{◌==◌}
use lore_stack.Common.Family.{update}
use lore_stack.Locks.Types.{LockResource, LockKey, lock_key_eq}
use lore_stack.Locks.Canon.{Order, canonical}
use lore_stack.Locks.Store.{key}

-- Outside a transaction; or inside one, with the keys whose rows it has written, and the keys of
-- the rounds that are left.
pub data Pc : Type 0 where
  idle : Pc
  running : (held rest : List LockKey) → Pc

abbrev pub held_by : Pc → List LockKey
held_by Pc.idle = []
held_by (Pc.running held rest) = held

abbrev pub contains : List LockKey → LockKey → Bool
contains [] k = false
contains (j ∷ js) k = j == k || contains js k

pub record System : Type 0 where
  pub pc : ℕ → Pc

-- An INSERT or DELETE of a row waits while another open transaction has written it.
abbrev pub IsFree : System → ℕ → LockKey → Type 0
IsFree s i k = (j : ℕ) → i ≢ j → contains (held_by (s.pc j)) k ≡ false

module _ (order : Order LockResource) where
  -- The rounds of the loop: the keys of the sorted resources.
  abbrev pub rounds : Bytes → List LockResource → List LockKey
  rounds repository resources = map (key repository) (canonical order resources)

  pub data Step (n : ℕ) (s : System) : System → Type 0 where
    begin :
        (i : ℕ) (repository : Bytes) (resources : List LockResource)
        → i < n
        → s.pc i ≡ Pc.idle
        → Step n s (record { pc = update s.pc i (Pc.running [] (rounds repository resources)) })
    -- a row is inserted or deleted
    take :
        (i : ℕ) (k : LockKey) (held rest : List LockKey)
        → s.pc i ≡ Pc.running held (k ∷ rest)
        → IsFree s i k
        → Step n s (record { pc = update s.pc i (Pc.running (k ∷ held) rest) })
    -- the statement affects no row
    pass :
        (i : ℕ) (k : LockKey) (held rest : List LockKey)
        → s.pc i ≡ Pc.running held (k ∷ rest)
        → IsFree s i k
        → Step n s (record { pc = update s.pc i (Pc.running held rest) })
    -- COMMIT, ROLLBACK, or a request that fails
    leave : (i : ℕ) → Step n s (record { pc = update s.pc i Pc.idle })

  pub data Reach (n : ℕ) : System → Type 0 where
    start : Reach n (record { pc = λ i. Pc.idle })
    later : {s t : System} → Reach n s → Step n s t → Reach n t
