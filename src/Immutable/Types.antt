-- ===== src/Immutable/Types.antt =====
-- The rows and values of lore-pg/src/store/pg_immutable_store.rs, and what it uses of the
-- upstream crates and of the bucket.
use lore_stack.Common.{
  ℕ, ◌≡◌, ◌≢◌, ◌↔◌, ◌++◌, Bool, true, ◌&&◌, Option, none, some, List, [], ◌∷◌, Bytes, arith,
}
use lore_stack.Common.Eq.{Eq, ◌==◌, nat_eq, list_eq, list_beq_iff}
use lore_stack.Common.Int.{ℤ}
use lore_stack.Sql.Table.{Table}

-- What failed; `out_of_fuel` is the model's own.
pub data Cause : Type 0 where
  pool exists_exact exists_repository exists_hash count_associations write_metadata update_metadata
        metadata_conflict load_metadata associate delete_association resolve_association bad_context
        begin commit :
      Cause
  payload_size s3_put s3_delete s3_stream size_mismatch : Cause
  invalid_fragment obliterating hash_collision payload_required obliterate_failed out_of_fuel :
      Cause

pub record Address : Type 0 where
  pub hash : Bytes
  pub context : Bytes

pub data StoreError : Type 0 where
  address_not_found : Address → StoreError
  slow_down : StoreError
  internal : Cause → StoreError

-- `u32`, `u32`, `u64`
pub record Fragment : Type 0 where
  pub flags : ℕ
  pub size_payload : ℕ
  pub size_content : ℕ

pub data StoreMatch : Type 0 where
  match_none match_hash match_partition match_full : StoreMatch

pub record StoreMatchResult : Type 0 where
  pub match_made : StoreMatch
  pub partition : Bytes
  pub context : Bytes
  pub stored_local : Bool
  pub stored_durable : Bool

pub record StoreGetData : Type 0 where
  pub fragment : Fragment
  pub match_made : StoreMatch
  pub partition : Bytes
  pub payload : Option Bytes
  pub content : Option Bytes

-- The row of the fragments table, all of it the key.
pub record Association : Type 0 where
  pub hash : Bytes
  pub repository : Bytes
  pub context : Bytes

-- The row of the metadata table, by hash.
pub record MetadataRow : Type 0 where
  pub flags : ℤ
  pub size_payload : ℤ
  pub size_content : ℤ

abbrev association_beq : Association → Association → Bool
association_beq a b = a.hash == b.hash && (a.repository == b.repository && a.context == b.context)

pub association_beq_iff : (a b : Association) → (association_beq a b ≡ true) ↔ (a ≡ b)
association_beq_iff a b = ground (
  arith,
  list_beq_iff ⦃e = nat_eq⦄ a.hash b.hash,
  list_beq_iff ⦃e = nat_eq⦄ a.repository b.repository,
  list_beq_iff ⦃e = nat_eq⦄ a.context b.context,
)

instance abbrev pub association_eq : Eq Association
association_eq = record { beq = association_beq; beq_iff = association_beq_iff }

abbrev pub bytes_eq : Eq Bytes
bytes_eq = list_eq ⦃e = nat_eq⦄

abbrev pub flatten : List Bytes → Bytes
flatten [] = []
flatten (c ∷ cs) = c ++ flatten cs

-- A bucket of objects: PutObject, DeleteObject, and GetObject with the chunks of its body.
pub record Bucket : Type 1 where
  pub O : Type 0
  pub object : O → Bytes → Option Bytes
  pub put : Bytes → Bytes → O → O
  pub delete : Bytes → O → O
  pub chunks : O → Bytes → List Bytes
  pub object-put_self : (k : Bytes) (v : Bytes) (o : O) → object (put k v o) k ≡ some v
  pub object-put_ne : (k j : Bytes) (v : Bytes) (o : O) → k ≢ j → object (put k v o) j ≡ object o j
  pub object-delete_self : (k : Bytes) (o : O) → object (delete k o) k ≡ none
  pub object-delete_ne : (k j : Bytes) (o : O) → k ≢ j → object (delete k o) j ≡ object o j
  pub chunks-object : (o : O) (k v : Bytes) → object o k ≡ some v → flatten (chunks o k) ≡ v

-- The names of lore_base, lore_storage and lore_revision that the store relies on.
pub record Upstream : Type 1 where
  -- bits of `FragmentFlags`; `payload_obliteration` is the mask of both states
  pub payload_obliterating : ℕ
  pub payload_obliterated : ℕ
  pub payload_obliteration : ℕ
  pub payload_fragmented : ℕ
  pub validate_fragment_size : Fragment → Bool
  pub validate_fragment_payload : Fragment → ℕ → Bool
  pub sanitise_fragment_behavior_flags : Fragment → Fragment
  pub no_match : StoreMatchResult
  pub no_data : StoreGetData
  pub metadata : Fragment → StoreMatch → Bytes → StoreGetData
  pub header_size : ℕ
  pub zero_context : Bytes
  pub is_zero : Bytes → Bool
  pub to_hex_str : Bytes → Bytes
  pub context_of : Bytes → Bytes
  -- the hashes of an array of `FragmentReference`
  pub references : Bytes → List Bytes
  pub match_made-no_match : no_match.match_made ≡ StoreMatch.match_none
  pub to_hex_str-injective : (a b : Bytes) → to_hex_str a ≡ to_hex_str b → a ≡ b
  pub context_of-injective : (p q : Bytes) → context_of p ≡ context_of q → p ≡ q

-- The two tables and the bucket.
pub record Backend : Type 1 where
  pub fragments : Table association_eq (Unit {0})
  pub metadata : Table bytes_eq MetadataRow
  pub bucket : Bucket

-- What they hold, and the counters of the running obliteration.
pub record Stored (b : Backend) : Type 0 where
  pub associations : b.fragments.T
  pub rows : b.metadata.T
  pub objects : b.bucket.O
  pub num_fragments : ℕ
  pub num_payloads : ℕ
