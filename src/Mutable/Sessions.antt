-- ===== src/Mutable/Sessions.antt =====
-- Sessions that run `compare_and_swap_typed` of lore-pg/src/store/pg_mutable_store.rs at once, one
-- request at a time and in any order.
use lore_stack.Common.{ℕ, ◌≡◌, ◌≢◌, true, false, Option, none, some, Bytes, length}
use lore_stack.Common.Family.{update}
use lore_stack.Common.Eq.{◌==◌, nat_eq, list_eq}
use lore_stack.Sql.Table.{Table}
use lore_stack.Sql.World.{ok}
use lore_stack.Mutable.Types.{ValueKey, value_key_eq, Upstream}
use lore_stack.Mutable.Store.{decoded, or_zero}

-- The arguments of one call.
pub record Swap : Type 0 where
  pub key : ValueKey
  pub expected : Bytes
  pub value : Bytes

-- Where a session stands: before BEGIN; before the advisory lock; before the SELECT; after it, with
-- the current value; before the COMMIT, with the row written or not; after the answer.
pub data Pc : Type 0 where
  idle : Pc
  waiting : (a : Swap) → Pc
  locked : (a : Swap) → Pc
  seen : (a : Swap) (current : Bytes) → Pc
  wrote : (a : Swap) (current : Bytes) → Pc
  passed : (a : Swap) (current : Bytes) → Pc
  finished : (a : Swap) (current : Bytes) → Pc

module _ (up : Upstream) (values : Table value_key_eq Bytes) (lock_id : ValueKey → ℕ) where
  open values use {T, find}

  -- The advisory lock that a session holds until its transaction ends.
  abbrev pub lock_of : Pc → Option ℕ
  lock_of Pc.idle = none
  lock_of (Pc.waiting a) = none
  lock_of (Pc.locked a) = some (lock_id a.key)
  lock_of (Pc.seen a c) = some (lock_id a.key)
  lock_of (Pc.wrote a c) = some (lock_id a.key)
  lock_of (Pc.passed a c) = some (lock_id a.key)
  lock_of (Pc.finished a c) = none

  -- What a COMMIT answers, and the rows that it leaves. An uncommitted row is seen by no other
  -- session.
  abbrev pub commit_of : T → Pc → Option (Swap × Bytes × T)
  commit_of db (Pc.wrote a c) = some (a, c, (values.upsert a.key a.value db).1)
  commit_of db (Pc.passed a c) = some (a, c, db)
  commit_of db _ = none

  -- One request of one session, but for the lock. Each statement reads what is committed.
  pub data Move (db : T) : Pc → T → Pc → Type 0 where
    call : (a : Swap) → length a.value ≡ 32 → Move db Pc.idle db (Pc.waiting a)
    select :
        {a : Swap} {found : Option Bytes}
        → decoded (find db a.key) ≡ ok found
        → Move db (Pc.locked a) db (Pc.seen a (or_zero up found))
    write :
        {a : Swap} {c : Bytes} → (c == a.expected) ≡ true → Move db (Pc.seen a c) db (Pc.wrote a c)
    pass :
        {a : Swap} {c : Bytes}
        → (c == a.expected) ≡ false
        → Move db (Pc.seen a c) db (Pc.passed a c)
    commit :
        {p : Pc} {a : Swap} {c : Bytes} {db' : T}
        → commit_of db p ≡ some (a, c, db')
        → Move db p db' (Pc.finished a c)
    -- the answer to the COMMIT is lost
    lost :
        {p : Pc} {a : Swap} {c : Bytes} {db' : T}
        → commit_of db p ≡ some (a, c, db')
        → Move db p db' Pc.idle
    -- a request fails or a row is malformed, and the transaction is dropped; or the answer is taken
    leave : {p : Pc} → Move db p db Pc.idle

  pub record System : Type 0 where
    pub db : T
    pub pc : ℕ → Pc

  -- The lock is granted while no session holds it.
  pub data Step (s : System) : System → Type 0 where
    turn :
        (i : ℕ) {db : T} {p : Pc}
        → Move s.db (s.pc i) db p
        → Step s (record { db = db; pc = update s.pc i p })
    enter :
        (i : ℕ) (a : Swap)
        → s.pc i ≡ Pc.waiting a
        → ((j : ℕ) → lock_of (s.pc j) ≢ some (lock_id a.key))
        → Step s (record { db = s.db; pc = update s.pc i (Pc.locked a) })

  pub data Reach (db : T) : System → Type 0 where
    start : Reach db (record { db = db; pc = λ i. Pc.idle })
    later : {s t : System} → Reach db s → Step s t → Reach db t
