-- ===== src/Locks/Rows.antt =====
-- The WHERE clauses of the lock store as predicates, and the reading of rows as lock data.
use mathlib.Core.List.{Mem, mem-cons_self, mem-cons_of_mem}
use lore_stack.Common.{
  subst, Bool, false, if◌then◌else◌, ◌≡◌, refl, ◌↔◌, ◌⊎◌, true, List, [], ◌∷◌, arith, length,
}
use lore_stack.Common.Eq.{◌==◌, string_eq, nat_eq, list_beq_iff}
use lore_stack.Common.Int.{i64_as_u64}
use lore_stack.Sql.World.{Result, ok, err}
use lore_stack.Locks.Types.{
  internal, hash_length, branch_length, LockError, LockResource, LockData, LockKey, LockRow,
  lock_key_eq,
}
use lore_stack.Locks.Store.{
  LockQuery, by_hash, by_hash_repository, by_hash_repository_branch, by_owner, by_owner_repository,
  by_owner_repository_branch, by_repository, by_repository_branch, by_repository_branch_description,
  where_clause, among, collect, attach, lock_data_from_row, with_hash, hash_from_pg, branch_from_pg,
}

-- What each variant asks for.
abbrev pub Matches : LockQuery → LockKey → LockRow → Type 0
Matches (by_hash h) k row = k.hash ≡ h
Matches (by_hash_repository h r) k row = (k.hash ≡ h) × (k.repository ≡ r)
Matches (by_hash_repository_branch h r b) k row = (k.hash ≡ h) × (k.repository ≡ r) × (k.branch ≡ b)
Matches (by_owner o) k row = row.owner_id ≡ o
Matches (by_owner_repository o r) k row = (row.owner_id ≡ o) × (k.repository ≡ r)
Matches (by_owner_repository_branch o r b) k row =
    (row.owner_id ≡ o) × (k.repository ≡ r) × (k.branch ≡ b)
Matches (by_repository r) k row = k.repository ≡ r
Matches (by_repository_branch r b) k row = (k.repository ≡ r) × (k.branch ≡ b)
Matches (by_repository_branch_description r b d) k row =
    (k.repository ≡ r) × (k.branch ≡ b) × (row.description ≡ d)

pub where_clause_iff :
    (q : LockQuery) (k : LockKey) (row : LockRow) → (where_clause q k row ≡ true) ↔ Matches q k row
unfolding where_clause
where_clause_iff (by_hash h) k row = list_beq_iff ⦃e = nat_eq⦄ k.hash h
where_clause_iff (by_hash_repository h r) k row =
    ground (arith, list_beq_iff ⦃e = nat_eq⦄ k.hash h, list_beq_iff ⦃e = nat_eq⦄ k.repository r)
where_clause_iff (by_hash_repository_branch h r b) k row = ground (
  arith,
  list_beq_iff ⦃e = nat_eq⦄ k.hash h,
  list_beq_iff ⦃e = nat_eq⦄ k.repository r,
  list_beq_iff ⦃e = nat_eq⦄ k.branch b,
)
where_clause_iff (by_owner o) k row = string_eq.beq_iff row.owner_id o
where_clause_iff (by_owner_repository o r) k row =
    ground (arith, string_eq.beq_iff row.owner_id o, list_beq_iff ⦃e = nat_eq⦄ k.repository r)
where_clause_iff (by_owner_repository_branch o r b) k row = ground (
  arith,
  string_eq.beq_iff row.owner_id o,
  list_beq_iff ⦃e = nat_eq⦄ k.repository r,
  list_beq_iff ⦃e = nat_eq⦄ k.branch b,
)
where_clause_iff (by_repository r) k row = list_beq_iff ⦃e = nat_eq⦄ k.repository r
where_clause_iff (by_repository_branch r b) k row =
    ground (arith, list_beq_iff ⦃e = nat_eq⦄ k.repository r, list_beq_iff ⦃e = nat_eq⦄ k.branch b)
where_clause_iff (by_repository_branch_description r b d) k row = ground (
  arith,
  list_beq_iff ⦃e = nat_eq⦄ k.repository r,
  list_beq_iff ⦃e = nat_eq⦄ k.branch b,
  string_eq.beq_iff row.description d,
)

-- `(branch, hash)` is one of the pairs of the list.
abbrev pub IsAmong : List LockResource → LockKey → Type 0
IsAmong [] k = ⊥
IsAmong (r ∷ rs) k = ((r.branch ≡ k.branch) × (r.hash ≡ k.hash)) ⊎ IsAmong rs k

pub among_iff : (rs : List LockResource) (k : LockKey) → (among rs k ≡ true) ↔ IsAmong rs k
unfolding among
among_iff [] k = (λ p. cc, λ x. absurd x)
among_iff (r ∷ rs) k = ground (
  arith,
  list_beq_iff ⦃e = nat_eq⦄ r.branch k.branch,
  list_beq_iff ⦃e = nat_eq⦄ r.hash k.hash,
  among_iff rs k,
)

-- The lock of a row, column by column.
abbrev pub IsLockOf : LockKey × LockRow → LockData → Type 0
IsLockOf (k, row) d =
    (d.resource.branch ≡ k.branch)
    × (d.resource.hash ≡ k.hash)
    × (d.resource.description ≡ row.description)
    × (d.owner ≡ row.owner_id)
    × (d.locked_at ≡ i64_as_u64 row.locked_at)

-- The rows are read one by one as the data.
abbrev pub ReadAs : List (LockKey × LockRow) → List LockData → Type 0
ReadAs [] [] = Unit {0}
ReadAs (row ∷ rows) (d ∷ ds) = IsLockOf row d × ReadAs rows ds
ReadAs _ _ = ⊥

-- What is read from a row is its lock.
row-IsLockOf :
    (row : LockKey × LockRow) (d : LockData) → lock_data_from_row row ≡ ok d → IsLockOf row d
unfolding lock_data_from_row hash_from_pg branch_from_pg
row-IsLockOf (k, row) d h = go (length k.hash == 32) (length k.branch == 16) h
  where
    go :
        (x y : Bool)
        → with_hash
            (if x then ok k.hash else err (internal (hash_length (length k.hash))))
            (if y then ok k.branch else err (internal (branch_length (length k.branch))))
            row
          ≡ ok d
        → IsLockOf (k, row) d
    go true true h = subst (IsLockOf (k, row)) (cc h) (refl, refl, refl, refl, refl)
    go true false h = absurd (cc h)
    go false y h = absurd (cc h)

attach_ok :
    (x : Result LockError LockData) (y : Result LockError (List LockData)) (es : List LockData)
    → attach x y ≡ ok es
    → (d : LockData) × (ds : List LockData) × (x ≡ ok d) × (y ≡ ok ds) × (es ≡ d ∷ ds)
attach_ok (err e) y es h = cc
attach_ok (ok d) (err e) es h = cc
attach_ok (ok d) (ok ds) es h = (d, ds, refl, refl, cc)

pub collect-ReadAs :
    (rows : List (LockKey × LockRow)) (ds : List LockData) → collect rows ≡ ok ds → ReadAs rows ds
unfolding collect
collect-ReadAs [] [] h = tt
collect-ReadAs [] (d ∷ ds) h = cc
collect-ReadAs (row ∷ rows) ds h =
    let (d, ds', p, q, e) = attach_ok (lock_data_from_row row) (collect rows) ds h in
    rw e (row-IsLockOf row d p, collect-ReadAs rows ds' q)

-- A row whose identifiers have the lengths that the store writes.
abbrev pub IsWellFormed : LockKey → Type 0
IsWellFormed k = (length k.hash ≡ 32) × (length k.branch ≡ 16)

row_read :
    (k : LockKey) (row : LockRow)
    → IsWellFormed k
    → (d : LockData) × (lock_data_from_row (k, row) ≡ ok d)
unfolding lock_data_from_row
row_read k row h = (
  record {
    resource = record { branch = k.branch; hash = k.hash; description = row.description };
    owner = row.owner_id;
    locked_at = i64_as_u64 row.locked_at;
  },
  ground arith,
)

pub collect_total :
    (rows : List (LockKey × LockRow))
    → ((k : LockKey) (row : LockRow) → Mem (k, row) rows → IsWellFormed k)
    → (ds : List LockData) × (collect rows ≡ ok ds)
unfolding collect
collect_total [] h = ([], refl)
collect_total ((k, row) ∷ rows) h =
    let (d, p) = row_read k row (h k row mem-cons_self) in
    let (ds, q) = collect_total rows (λ j s m. h j s (mem-cons_of_mem (k, row) m)) in
    (d ∷ ds, rw (p, q))
