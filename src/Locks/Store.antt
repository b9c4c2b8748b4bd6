-- ===== src/Locks/Store.antt =====
-- The methods of `PgLockStore` in lore-pg/src/store/pg_lock_store.rs, over any table that keeps
-- the laws of PostgreSQL and any order of the resources.
use lore_stack.Common.{
  ◌++◌, Bool, true, false, Option, none, some, List, [], ◌∷◌, Bytes, String, length, if◌then◌else◌,
  ◌&&◌, ◌||◌,
}
use lore_stack.Common.Eq.{◌==◌, nat_eq, string_eq, list_eq}
use lore_stack.Common.Int.{ℤ, i64_as_u64}
use lore_stack.Sql.Table.{Table}
use lore_stack.Sql.World.{
  Result, ok, err, M, pure, raise, from_result, ◌>>=◌, ◌>>◌, checkout, begin, exec, commit,
  rollback, auto,
}
use lore_stack.Locks.Types.{
  Cause, pool, insert, select_owner, disappeared, query, delete, hash_length, branch_length,
  LockError, not_owned, not_found, internal, LockResource, LockData, LockKey, LockRow, lock_key_eq,
}
use lore_stack.Locks.Canon.{Order, canonical}

abbrev pub key : Bytes → LockResource → LockKey
key repository r = record { repository = repository; branch = r.branch; hash = r.hash }

abbrev pub new_row : String → ℤ → LockResource → LockRow
new_row owner_id now r = record {
  owner_id = owner_id;
  description = r.description;
  locked_at = now;
}

-- `locked_at as u64` of the same timestamp that goes into the row.
abbrev pub lock_data : String → ℤ → LockResource → LockData
lock_data owner_id now r = record { resource = r; owner = owner_id; locked_at = i64_as_u64 now }

unfoldable pub hash_from_pg : Bytes → Result LockError Bytes
hash_from_pg bytes =
    if length bytes == 32 then ok bytes else err (internal (hash_length (length bytes)))

unfoldable pub branch_from_pg : Bytes → Result LockError Bytes
branch_from_pg bytes =
    if length bytes == 16 then ok bytes else err (internal (branch_length (length bytes)))

abbrev with_branch : Result LockError Bytes → Bytes → LockRow → Result LockError LockData
with_branch (err e) hash row = err e
with_branch (ok branch) hash row = ok (record {
  resource = record { branch = branch; hash = hash; description = row.description };
  owner = row.owner_id;
  locked_at = i64_as_u64 row.locked_at;
})

abbrev pub with_hash :
    Result LockError Bytes → Result LockError Bytes → LockRow → Result LockError LockData
with_hash (err e) branch row = err e
with_hash (ok hash) branch row = with_branch branch hash row

unfoldable pub lock_data_from_row : LockKey × LockRow → Result LockError LockData
unfolding hash_from_pg branch_from_pg
lock_data_from_row (k, row) = with_hash (hash_from_pg k.hash) (branch_from_pg k.branch) row

abbrev pub attach :
    Result LockError LockData → Result LockError (List LockData) → Result LockError (List LockData)
attach (err e) rest = err e
attach (ok d) (err e) = err e
attach (ok d) (ok ds) = ok (d ∷ ds)

-- `rows.iter().map(lock_data_from_row).collect()`: the first bad row is the error.
unfoldable pub collect : List (LockKey × LockRow) → Result LockError (List LockData)
collect [] = ok []
collect (row ∷ rows) = attach (lock_data_from_row row) (collect rows)

pub data LockQuery : Type 0 where
  by_hash : Bytes → LockQuery
  by_hash_repository : Bytes → Bytes → LockQuery
  by_hash_repository_branch : Bytes → Bytes → Bytes → LockQuery
  by_owner : String → LockQuery
  by_owner_repository : String → Bytes → LockQuery
  by_owner_repository_branch : String → Bytes → Bytes → LockQuery
  by_repository : Bytes → LockQuery
  by_repository_branch : Bytes → Bytes → LockQuery
  by_repository_branch_description : Bytes → Bytes → String → LockQuery

-- The WHERE clause of each variant.
unfoldable pub where_clause : LockQuery → LockKey → LockRow → Bool
where_clause (by_hash h) k row = k.hash == h
where_clause (by_hash_repository h r) k row = k.hash == h && k.repository == r
where_clause (by_hash_repository_branch h r b) k row =
    k.hash == h && (k.repository == r && k.branch == b)
where_clause (by_owner o) k row = row.owner_id == o
where_clause (by_owner_repository o r) k row = row.owner_id == o && k.repository == r
where_clause (by_owner_repository_branch o r b) k row =
    row.owner_id == o && (k.repository == r && k.branch == b)
where_clause (by_repository r) k row = k.repository == r
where_clause (by_repository_branch r b) k row = k.repository == r && k.branch == b
where_clause (by_repository_branch_description r b d) k row =
    k.repository == r && (k.branch == b && row.description == d)

-- `(branch, hash) IN (SELECT * FROM unnest(…))`
unfoldable pub among : List LockResource → LockKey → Bool
among [] k = false
among (r ∷ rs) k = (r.branch == k.branch && r.hash == k.hash) || among rs k

module _ (locks : Table lock_key_eq LockRow) where
  open locks use {T, find, insert_new, delete_if, select}

  -- The owner of a lock that was there before; its own lock is passed over.
  unfoldable pub on_existing :
      String → List LockData → Option LockRow → M LockError T (List LockData)
  on_existing owner_id newly none = do rollback; raise (internal disappeared)
  on_existing owner_id newly (some row) =
      if row.owner_id == owner_id then pure newly else (do rollback; raise not_owned)

  -- One round of the loop of `lock_resources`.
  unfoldable pub lock_one :
      String → Bytes → ℤ → LockResource → List LockData → M LockError T (List LockData)
  unfolding on_existing
  lock_one owner_id repository now r newly = do
    rows_affected ← exec (internal insert) (insert_new (key repository r) (new_row owner_id now r))
    if rows_affected == 0
        then (do
          row ← exec (internal select_owner) (λ t. (find t (key repository r), t))
          on_existing owner_id newly row)
        else pure (newly ++ lock_data owner_id now r ∷ [])

  unfoldable pub lock_all :
      String → Bytes → ℤ → List LockResource → List LockData → M LockError T (List LockData)
  lock_all owner_id repository now [] newly = pure newly
  lock_all owner_id repository now (r ∷ rs) newly = do
    newly' ← lock_one owner_id repository now r newly
    lock_all owner_id repository now rs newly'

  -- The row of a lock that could not be deleted tells the two errors apart.
  unfoldable pub on_missing : Option LockRow → M LockError T (Unit {0})
  on_missing none = raise not_found
  on_missing (some row) = raise not_owned

  -- One round of the validating loop of `unlock_resources`.
  unfoldable pub unlock_one : String → Bytes → LockResource → M LockError T (Unit {0})
  unfolding on_missing
  unlock_one owner_id repository r = do
    deleted ←
        exec (internal delete) (delete_if (key repository r) (λ row. row.owner_id == owner_id))
    if deleted == 0
        then (do
          row ← exec (internal select_owner) (λ t. (find t (key repository r), t))
          rollback
          on_missing row)
        else pure tt

  unfoldable pub unlock_owned : String → Bytes → List LockResource → M LockError T (Unit {0})
  unlock_owned owner_id repository [] = pure tt
  unlock_owned owner_id repository (r ∷ rs) = do
    unlock_one owner_id repository r
    unlock_owned owner_id repository rs

  -- The unconditional loop.
  unfoldable pub unlock_any : Bytes → List LockResource → M LockError T (Unit {0})
  unlock_any repository [] = pure tt
  unlock_any repository (r ∷ rs) = do
    exec (internal delete) (delete_if (key repository r) (λ row. true))
    unlock_any repository rs

  unfoldable pub query_locks : LockQuery → M LockError T (List LockData)
  query_locks q = do
    checkout (internal pool)
    rows ← auto (internal query) (λ t. (select (where_clause q) t, t))
    from_result (collect rows)

  -- The set of the resources is empty exactly when their list is.
  unfoldable pub check_locks_status : Bytes → List LockResource → M LockError T (List LockData)
  check_locks_status repository [] = pure []
  check_locks_status repository (r ∷ rs) = do
    checkout (internal pool)
    rows ←
        auto (internal query)
          (λ t. (select (λ k row. k.repository == repository && among (r ∷ rs) k) t, t))
    from_result (collect rows)

  module _ (order : Order LockResource) where
    -- `now` is the clock's reading, shared by the batch.
    unfoldable pub lock_resources :
        String → Bytes → ℤ → List LockResource → M LockError T (List LockData)
    lock_resources owner_id repository now resources = do
      checkout (internal pool)
      begin (internal Cause.begin)
      newly_locked ← lock_all owner_id repository now (canonical order resources) []
      commit (internal Cause.commit)
      pure newly_locked

    unfoldable pub unlock_resources :
        String → Bool → Bytes → List LockResource → M LockError T (List LockResource)
    unlock_resources owner_id validate_user repository resources = do
      checkout (internal pool)
      begin (internal Cause.begin)
      if validate_user
          then unlock_owned owner_id repository (canonical order resources)
          else unlock_any repository (canonical order resources)
      commit (internal Cause.commit)
      pure (canonical order resources)
