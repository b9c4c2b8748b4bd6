-- ===== src/Locks/Types.antt =====
-- The rows and values of lore-pg/src/store/pg_lock_store.rs. Identifiers are byte strings as the
-- driver hands them over; `locked_at` is the BIGINT column.
use lore_stack.Common.{ℕ, ◌≡◌, ◌↔◌, Bool, true, ◌&&◌, Bytes, String, arith}
use lore_stack.Common.Eq.{Eq, ◌==◌, nat_eq, list_eq, list_beq_iff}
use lore_stack.Common.Int.{ℤ}

-- What failed, by the message of `LockError::internal`.
pub data Cause : Type 0 where
  pool begin insert select_owner disappeared commit query delete : Cause
  hash_length branch_length : ℕ → Cause

pub data LockError : Type 0 where
  not_owned not_found : LockError
  internal : Cause → LockError

pub record LockResource : Type 0 where
  pub branch : Bytes
  pub hash : Bytes
  pub description : String

pub record LockData : Type 0 where
  pub resource : LockResource
  pub owner : String
  pub locked_at : ℕ

-- The primary key of the locks table, and the other columns.
pub record LockKey : Type 0 where
  pub repository : Bytes
  pub branch : Bytes
  pub hash : Bytes

pub record LockRow : Type 0 where
  pub owner_id : String
  pub description : String
  pub locked_at : ℤ

abbrev lock_key_beq : LockKey → LockKey → Bool
lock_key_beq a b = a.repository == b.repository && (a.branch == b.branch && a.hash == b.hash)

pub lock_key_beq_iff : (a b : LockKey) → (lock_key_beq a b ≡ true) ↔ (a ≡ b)
lock_key_beq_iff a b = ground (
  arith,
  list_beq_iff a.repository b.repository,
  list_beq_iff a.branch b.branch,
  list_beq_iff a.hash b.hash,
)

instance abbrev pub lock_key_eq : Eq LockKey
lock_key_eq = record { beq = lock_key_beq; beq_iff = lock_key_beq_iff }
