-- ===== src/Immutable/Index.antt =====
-- The PostgreSQL half of `PgImmutableStore`: existence checks, metadata and associations.
use Prim.Native.Nat.{bit_and}
use lore_stack.Common.{
  ℕ, Bool, true, false, not, ◌&&◌, Option, none, some, List, [], ◌∷◌, Bytes, length, ltb,
  if◌then◌else◌,
}
use lore_stack.Common.Eq.{◌==◌, nat_eq, list_eq, int_eq}
use lore_stack.Common.Int.{pos, u64_as_i64, i64_as_u64, i64_as_u32}
use lore_stack.Sql.World.{
  Result, ok, err, M, pure, raise, from_result, ◌>>=◌, ◌>>◌, checkout, exec, auto,
}
use lore_stack.Immutable.Types.{
  pool, exists_exact, exists_repository, exists_hash, count_associations, write_metadata,
  update_metadata, metadata_conflict, load_metadata, associate, delete_association,
  resolve_association, invalid_fragment, Address, StoreError, address_not_found, internal, Fragment,
  StoreMatch, match_none, match_hash, match_partition, match_full, StoreMatchResult, Association,
  MetadataRow, Upstream, Backend, Stored,
}

abbrev pub is_empty {ℓ} : {A : Type ℓ} → List A → Bool
is_empty [] = true
is_empty (x ∷ xs) = false

abbrev pub association : Bytes → Address → Association
association repository address = record {
  hash = address.hash;
  repository = repository;
  context = address.context;
}

-- The columns of a fragment: `flags as i64`, `size_payload as i64`, `size_content as i64`.
unfoldable pub metadata_row : Fragment → MetadataRow
metadata_row f = record {
  flags = pos f.flags;
  size_payload = pos f.size_payload;
  size_content = u64_as_i64 f.size_content;
}

-- And back: `as u32`, `as u32`, `as u64`.
unfoldable pub fragment_of_row : MetadataRow → Fragment
fragment_of_row r = record {
  flags = i64_as_u32 r.flags;
  size_payload = i64_as_u32 r.size_payload;
  size_content = i64_as_u64 r.size_content;
}

unfoldable pub same_row : MetadataRow → MetadataRow → Bool
same_row a b =
    a.flags == b.flags && (a.size_payload == b.size_payload && a.size_content == b.size_content)

module _ (b : Backend) where
  abbrev pub Store : Type 0 → Type 0
  Store A = M StoreError (Stored b) A

  abbrev pub on_associations :
      {A : Type 0} → (b.fragments.T → A × b.fragments.T) → Stored b → A × Stored b
  on_associations f s = let (a, t) = f s.associations in (a, record s { associations = t })

  abbrev pub on_rows : {A : Type 0} → (b.metadata.T → A × b.metadata.T) → Stored b → A × Stored b
  on_rows f s = let (a, t) = f s.rows in (a, record s { rows = t })

  -- `SELECT 1 FROM … WHERE … LIMIT 1` and `row.is_some()`
  abbrev pub select_one : (Association → Bool) → b.fragments.T → Bool
  select_one p t = not (is_empty (b.fragments.select (λ k u. p k) t))

  unfoldable pub check_exact : Bytes → Bytes → Bytes → Store Bool
  check_exact hash repository context = do
    checkout (internal pool)
    auto (internal exists_exact) (
        on_associations (λ t. (
          select_one (λ k. k.hash == hash && (k.repository == repository && k.context == context))
              t,
          t,
        )))

  unfoldable pub check_repository : Bytes → Bytes → Store Bool
  check_repository hash repository = do
    checkout (internal pool)
    auto (internal exists_repository) (
        on_associations
          (λ t. (select_one (λ k. k.hash == hash && k.repository == repository) t, t)))

  unfoldable pub check_hash : Bytes → Store Bool
  check_hash hash = do
    checkout (internal pool)
    auto (internal exists_hash) (on_associations (λ t. (select_one (λ k. k.hash == hash) t, t)))

  unfoldable pub count : Bytes → Store ℕ
  count hash = do
    checkout (internal pool)
    auto (internal count_associations)
        (on_associations (λ t. (length (b.fragments.select (λ k u. k.hash == hash) t), t)))

  unfoldable pub exists : Bytes → Address → StoreMatch → Store Bool
  unfolding check_exact check_repository check_hash
  exists repository address match_none = pure false
  exists repository address match_full = check_exact address.hash repository address.context
  exists repository address match_partition = check_repository address.hash repository
  exists repository address match_hash = check_hash address.hash

  unfoldable pub ensure_exists : Bytes → Address → StoreMatch → Store (Unit {0})
  ensure_exists repository address match_required = do
    found ← exists repository address match_required
    if found then pure tt else raise (address_not_found address)

  -- The upsert of `write_metadata`, a statement of the transaction that it is given.
  unfoldable pub put_metadata : Bytes → Fragment → Store (Unit {0})
  unfolding metadata_row
  put_metadata hash fragment = do
    exec (internal write_metadata) (on_rows (b.metadata.upsert hash (metadata_row fragment)))
    pure tt

  unfoldable pub update_metadata_cas : Bytes → Fragment → Fragment → Store (Unit {0})
  unfolding metadata_row same_row
  update_metadata_cas hash updated expected = do
    checkout (internal pool)
    rows_affected ← auto (internal update_metadata) (
        on_rows (
          b.metadata.update_if hash (λ r. same_row r (metadata_row expected))
            (metadata_row updated)))
    if rows_affected == 0 then raise (internal metadata_conflict) else pure tt

  -- The INSERT of `associate_fragment_with`; `send` says on which client.
  abbrev pub insert_association : Bytes → Address → Stored b → ℕ × Stored b
  insert_association repository address =
      on_associations (b.fragments.insert_new (association repository address) tt)

  unfoldable pub associate_fragment : Bytes → Address → Store (Unit {0})
  associate_fragment repository address = do
    checkout (internal pool)
    auto (internal associate) (insert_association repository address)
    pure tt

  unfoldable pub associate_fragment_in_txn : Bytes → Address → Store (Unit {0})
  associate_fragment_in_txn repository address = do
    exec (internal associate) (insert_association repository address)
    pure tt

  unfoldable pub remove_association : Bytes → Address → Store (Unit {0})
  remove_association repository address = do
    checkout (internal pool)
    auto (internal delete_association)
        (on_associations (b.fragments.delete_if (association repository address) (λ row. true)))
    pure tt

  unfoldable pub has_associations : Bytes → Store Bool
  unfolding count
  has_associations hash = do n ← count hash; pure (ltb 0 n)

  module _ (up : Upstream) where
    abbrev pub zero_context_hash : Bytes → Address
    zero_context_hash hash = record { hash = hash; context = up.zero_context }

    abbrev pub row_or_missing : Bytes → Option MetadataRow → Result StoreError Fragment
    row_or_missing hash none = err (address_not_found (zero_context_hash hash))
    row_or_missing hash (some r) = ok (fragment_of_row r)

    unfoldable pub fetch_metadata : Bytes → Store Fragment
    unfolding fragment_of_row
    fetch_metadata hash = do
      checkout (internal pool)
      row ← auto (internal load_metadata) (on_rows (λ t. (b.metadata.find t hash, t)))
      from_result (row_or_missing hash row)

    unfoldable pub metadata_with_size_validation : Bytes → Store Fragment
    unfolding fetch_metadata
    metadata_with_size_validation hash = do
      found ← fetch_metadata hash
      if up.validate_fragment_size found then pure found else raise (internal invalid_fragment)

    -- Being obliterated, or obliterated.
    abbrev pub is_obliteration : Fragment → Bool
    is_obliteration f = not (bit_and f.flags up.payload_obliteration == 0)

    unfoldable pub metadata_with_load_validation : Bytes → Store Fragment
    unfolding metadata_with_size_validation
    metadata_with_load_validation hash = do
      found ← metadata_with_size_validation hash
      if is_obliteration found
          then raise (address_not_found (zero_context_hash hash))
          else pure found

    abbrev pub full_match : Bytes → Address → StoreMatchResult
    full_match partition address = record {
      match_made = match_full;
      partition = partition;
      context = address.context;
      stored_local = false;
      stored_durable = true;
    }

    -- The row found carries the context that was asked for. (A CONTEXT of another length than the
    -- address's own cannot be found.)
    unfoldable pub resolve : Bytes → Address → Store StoreMatchResult
    unfolding fetch_metadata
    resolve partition address = do
      checkout (internal pool)
      row ← auto (internal resolve_association) (
          on_associations
            (λ t. (b.fragments.find t (association (up.context_of partition) address), t)))
      elim row [
        | none ↦ pure up.no_match
        | some u ↦ do
          fragment ← fetch_metadata address.hash
          if is_obliteration fragment then pure up.no_match else pure (full_match partition address)
      ]
