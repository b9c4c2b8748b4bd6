-- ===== src/Mutable/Types.antt =====
-- The keys and values of lore-pg/src/store/pg_mutable_store.rs, and what it uses of the upstream
-- types `Hash` and `KeyType`.
use lore_stack.Common.{ℕ, ◌≡◌, ◌↔◌, ◌<◌, Bool, true, ◌&&◌, Bytes, arith, length}
use lore_stack.Common.Eq.{Eq, ◌==◌, nat_eq, list_eq, list_beq_iff}

pub data Cause : Type 0 where
  pool select delete upsert begin cas_lock cas_select cas_write commit : Cause
  hash_length : ℕ → Cause

pub data StoreError : Type 0 where
  address_not_found : Bytes → StoreError
  internal : Cause → StoreError

-- The primary key of the table; the row is the value.
pub record ValueKey : Type 0 where
  pub repository_id : Bytes
  pub key : Bytes

abbrev value_key_beq : ValueKey → ValueKey → Bool
value_key_beq a b = a.repository_id == b.repository_id && a.key == b.key

pub value_key_beq_iff : (a b : ValueKey) → (value_key_beq a b ≡ true) ↔ (a ≡ b)
value_key_beq_iff a b = ground (
  arith,
  list_beq_iff ⦃e = nat_eq⦄ a.repository_id b.repository_id,
  list_beq_iff ⦃e = nat_eq⦄ a.key b.key,
)

instance abbrev pub value_key_eq : Eq ValueKey
value_key_eq = record { beq = value_key_beq; beq_iff = value_key_beq_iff }

-- `Hash`, `KeyType` and `Partition` of lore_base: the zero hash, an enum with a byte for each
-- variant, and a conversion of identifiers that keeps them apart.
pub record Upstream : Type 1 where
  pub KeyType : Type 0
  pub code : KeyType → ℕ
  pub is_untyped : KeyType → Bool
  pub zero_hash : Bytes
  pub is_zero : Bytes → Bool
  -- `Partition` as a `Context`
  pub context_of : Bytes → Bytes
  pub code-lt : (t : KeyType) → code t < 256
  pub code-injective : (s t : KeyType) → code s ≡ code t → s ≡ t
  pub context_of-injective : (p q : Bytes) → context_of p ≡ context_of q → p ≡ q
  pub length-zero_hash : length zero_hash ≡ 32
  pub is_zero_iff : (h : Bytes) → (is_zero h ≡ true) ↔ (h ≡ zero_hash)
