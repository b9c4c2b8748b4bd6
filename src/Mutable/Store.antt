-- ===== src/Mutable/Store.antt =====
-- The methods of `PgMutableStore` in lore-pg/src/store/pg_mutable_store.rs.
use lore_stack.Common.{
  ℕ, zero, suc, Bool, true, false, ◌&&◌, Option, none, some, List, [], ◌∷◌, Bytes, length, ltb,
  if◌then◌else◌,
}
use lore_stack.Common.Eq.{◌==◌, nat_eq, list_eq}
use lore_stack.Sql.Table.{Table}
use lore_stack.Sql.World.{
  Result, ok, err, World, M, pure, from_result, ◌>>=◌, ◌>>◌, checkout, begin, exec, commit, auto,
}
use lore_stack.Mutable.Types.{
  Cause, pool, select, delete, upsert, cas_lock, cas_select, cas_write, hash_length, StoreError,
  address_not_found, internal, ValueKey, value_key_eq, Upstream,
}

unfoldable pub hash_from_bytes : Bytes → Result StoreError Bytes
hash_from_bytes bytes =
    if length bytes == 32 then ok bytes else err (internal (hash_length (length bytes)))

-- `key.data_mut()[0] = …` on an array of 32 bytes.
unfoldable pub set_first : ℕ → Bytes → Bytes
set_first c [] = []
set_first c (b ∷ bs) = c ∷ bs

abbrev pub fill : ℕ → ℕ → Bytes
fill zero b = []
fill (suc n) b = b ∷ fill n b

-- The order of BYTEA values: the bytes one by one, and a prefix first.
unfoldable pub bytes_le : Bytes → Bytes → Bool
bytes_le [] ys = true
bytes_le (x ∷ xs) [] = false
bytes_le (x ∷ xs) (y ∷ ys) =
    let rest = bytes_le xs ys in if ltb x y then true else if x == y then rest else false

-- `row.map(hash_from_bytes).transpose()`
unfoldable pub decoded : Option Bytes → Result StoreError (Option Bytes)
unfolding hash_from_bytes
decoded none = ok none
decoded (some bytes) = elim (hash_from_bytes bytes) [ ok h ↦ ok (some h) | err e ↦ err e ]

module _ (up : Upstream) where
  open up use {KeyType, code, is_untyped, zero_hash, is_zero, context_of}

  unfoldable pub typed_key : Bytes → KeyType → Bytes
  unfolding set_first
  typed_key key key_type = set_first (code key_type) key

  abbrev pub found_or_missing : Bytes → Option Bytes → Result StoreError Bytes
  found_or_missing key none = err (address_not_found key)
  found_or_missing key (some value) =
      if is_zero value then err (address_not_found key) else ok value

  abbrev pub or_zero : Option Bytes → Bytes
  or_zero none = zero_hash
  or_zero (some value) = value

  -- What the task of `list` sends on its channel, row by row.
  unfoldable pub sent : List (ValueKey × Bytes) → List (Bytes × Bytes)
  unfolding hash_from_bytes
  sent [] = []
  sent ((k, value) ∷ rows) =
      let rest = sent rows in
      elim (hash_from_bytes k.key) [
        | err e ↦ rest
        | ok key ↦ elim (hash_from_bytes value) [
          | err e ↦ rest
          | ok v ↦ if is_zero v then rest else (key, v) ∷ rest
        ]
      ]

  -- `key >= $2 AND key <= $3` with the bounds of the key type.
  unfoldable pub in_range : KeyType → Bytes → Bool
  unfolding bytes_le
  in_range key_type key =
      bytes_le (code key_type ∷ fill 31 0) key && bytes_le key (code key_type ∷ fill 31 0xff)

  module _ (values : Table value_key_eq Bytes) where
    open values use {T, find}

    abbrev pub at : Bytes → Bytes → ValueKey
    at repository key = record { repository_id = repository; key = key }

    unfoldable pub fetch_current : Bytes → Bytes → M StoreError T (Option Bytes)
    unfolding decoded
    fetch_current repository key = do
      checkout (internal pool)
      row ← auto (internal select) (λ t. (find t (at repository key), t))
      from_result (decoded row)

    unfoldable pub load_typed : Bytes → Bytes → M StoreError T Bytes
    unfolding fetch_current
    load_typed repository key = do
      current ← fetch_current repository key
      from_result (found_or_missing key current)

    unfoldable pub store_typed : Bytes → Bytes → Bytes → M StoreError T (Unit {0})
    store_typed repository key value = do
      checkout (internal pool)
      if is_zero value
          then (do
            auto (internal delete) (values.delete_if (at repository key) (λ row. true))
            pure tt)
          else (do auto (internal upsert) (values.upsert (at repository key) value); pure tt)

    -- The advisory lock changes no row; it keeps other swaps of the key out until the commit.
    unfoldable pub compare_and_swap_typed : Bytes → Bytes → Bytes → Bytes → M StoreError T Bytes
    unfolding decoded
    compare_and_swap_typed repository key expected value = do
      checkout (internal pool)
      begin (internal Cause.begin)
      exec (internal cas_lock) (λ t. (tt, t))
      row ← exec (internal cas_select) (λ t. (find t (at repository key), t))
      found ← from_result (decoded row)
      if or_zero found == expected
          then (do
            exec (internal cas_write) (values.upsert (at repository key) value)
            commit (internal Cause.commit)
            pure (or_zero found))
          else (do commit (internal Cause.commit); pure (or_zero found))

    abbrev pub streamed :
        Result StoreError (List (ValueKey × Bytes)) × World T
        → Result StoreError (List (Bytes × Bytes)) × World T
    streamed (ok rows, w) = (ok (sent rows), w)
    streamed (err e, w) = (ok [], w)

    abbrev pub list_rows : Bytes → KeyType → M StoreError T (List (ValueKey × Bytes))
    list_rows repository key_type = do
      checkout (internal pool)
      auto (internal select) (λ t.
          (values.select (λ k v. k.repository_id == repository && in_range key_type k.key) t, t))

    -- The stream's items, for a receiver that reads to the end. A failure in the task is logged
    -- and ends the stream.
    unfoldable pub list_typed : Bytes → KeyType → M StoreError T (List (Bytes × Bytes))
    unfolding sent in_range
    list_typed repository key_type w =
        if is_untyped key_type then (ok [], w) else streamed (list_rows repository key_type w)

    unfoldable pub load : Bytes → Bytes → KeyType → M StoreError T Bytes
    unfolding load_typed typed_key
    load partition key key_type = load_typed (context_of partition) (typed_key key key_type)

    unfoldable pub store : Bytes → Bytes → Bytes → KeyType → M StoreError T (Unit {0})
    unfolding store_typed typed_key
    store partition key value key_type =
        store_typed (context_of partition) (typed_key key key_type) value

    unfoldable pub compare_and_swap : Bytes → Bytes → Bytes → Bytes → KeyType → M StoreError T Bytes
    unfolding compare_and_swap_typed typed_key
    compare_and_swap partition key expected value key_type =
        compare_and_swap_typed (context_of partition) (typed_key key key_type) expected value

    unfoldable pub list : Bytes → KeyType → M StoreError T (List (Bytes × Bytes))
    unfolding list_typed
    list partition key_type = list_typed (context_of partition) key_type
