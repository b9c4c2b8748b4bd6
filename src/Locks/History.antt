-- ===== src/Locks/History.antt =====
-- Sequences of calls of the lock store's methods, by any owners, whatever becomes of the requests.
use lore_stack.Common.{
  ◌≡◌, ◌≢◌, ap, sym, ◌∙◌, ◌⊎◌, inl, inr, Bool, true, some, List, [], ◌∷◌, All, All-map,
  Option-cases, Bytes, String,
}
use lore_stack.Common.Eq.{nat_eq, list_eq}
use lore_stack.Common.Int.{ℤ}
use lore_stack.Sql.Laws.{key-cases}
use lore_stack.Sql.Table.{Table}
use lore_stack.Sql.World.{World, Result, ok, err}
use lore_stack.Sql.Triple.{Post}
use lore_stack.Locks.Types.{LockError, LockResource, LockData, LockKey, LockRow, lock_key_eq}
use lore_stack.Locks.Canon.{Order}
use lore_stack.Locks.Store
use lore_stack.Locks.Store.{key, LockQuery, collect, where_clause, among}
use lore_stack.Locks.Holding.{Held}
use lore_stack.Locks.Grants.{Grants}
use lore_stack.Locks.Unlock.{Frees}
use lore_stack.Locks.Acquire
use lore_stack.Locks.Acquire.{lock_resources_outcome}
use lore_stack.Locks.Release
use lore_stack.Locks.Release.{unlock_resources_outcome}
use lore_stack.Locks.Query.{query_locks-IsExact, check_locks_status-IsExact}

-- The methods' arguments; those of `lock_resources` have the clock's reading.
pub data Call : Type 0 where
  lock_resources : String → Bytes → ℤ → List LockResource → Call
  unlock_resources : String → Bool → Bytes → List LockResource → Call
  query_locks : LockQuery → Call
  check_locks_status : Bytes → List LockResource → Call

-- Some member has the property.
abbrev pub Any : {A : Type 0} → (A → Type 0) → List A → Type 0
Any P [] = ⊥
Any P (x ∷ xs) = P x ⊎ Any P xs

-- One of the resources is the key's.
abbrev pub Covers : Bytes → List LockResource → LockKey → Type 0
Covers repository rs k = Any (λ r. key repository r ≡ k) rs

covered :
    (repository : Bytes) (rs : List LockResource) (k : LockKey)
    → All (λ r. key repository r ≢ k) rs ⊎ Covers repository rs k
covered repository [] k = inl tt
covered repository (r ∷ rs) k = elim (key-cases lock_key_eq (key repository r) k) [
  | inl same ↦ inr (inl same)
  | inr apart ↦ elim (covered repository rs k) [
    | inl all ↦ inl (apart, all)
    | inr some_one ↦ inr (inr some_one)
  ]
]

-- The call does not release the key's lock of the owner: it is no `unlock_resources`, or one of
-- other keys, or one with validation by another owner.
abbrev pub Spares : LockKey → String → Call → Type 0
Spares k owner (Call.unlock_resources caller validate repository rs) =
    (¬ Covers repository rs k) ⊎ ((validate ≡ true) × (caller ≢ owner))
Spares k owner _ = Unit {0}

-- The call asked for the lock that the row is.
abbrev pub Asks : LockKey → LockRow → Call → Type 0
Asks k row (Call.lock_resources owner repository now rs) =
    (row.owner_id ≡ owner) × (row.locked_at ≡ now) × Covers repository rs k
Asks k row _ = ⊥

module _ (locks : Table lock_key_eq LockRow) (order : Order LockResource) where
  open locks use {T, find}

  -- What a call leaves, whether it succeeds or fails.
  unfoldable pub perform : Call → World T → World T
  perform (Call.lock_resources owner repository now rs) w =
      (Store.lock_resources locks order owner repository now rs w).1
  perform (Call.unlock_resources owner validate repository rs) w =
      (Store.unlock_resources locks order owner validate repository rs w).1
  perform (Call.query_locks q) w = (Store.query_locks locks q w).1
  perform (Call.check_locks_status repository rs) w =
      (Store.check_locks_status locks repository rs w).1

  unfoldable pub run : List Call → World T → World T
  run [] w = w
  run (call ∷ calls) w = run calls (perform call w)

  -- What the call does to one row.
  record Evolves (call : Call) (t u : T) (k : LockKey) (row : LockRow) : Type 0 where
    kept : find t k ≡ some row → Spares k row.owner_id call → find u k ≡ some row
    caused : find u k ≡ some row → (find t k ≡ some row) ⊎ Asks k row call

  Evolves-same :
      (call : Call) (t u : T) (k : LockKey) (row : LockRow) → u ≡ t → Evolves call t u k row
  Evolves-same call t u k row e = record {
    kept = λ h spared. ap (λ x. find x k) e ∙ h;
    caused = λ h. inl (ap (λ x. find x k) (sym e) ∙ h);
  }

  module _ (owner : String) (repository : Bytes) (rs : List LockResource) (t u : T) (k : LockKey)
      (row : LockRow) where
    Evolves-granted :
        (now : ℤ) (newly : List LockData)
        → Grants locks owner repository now rs t u newly
        → Evolves (Call.lock_resources owner repository now rs) t u k row
    Evolves-granted now newly g = record {
      kept = λ h spared. g.kept k row h;
      caused = λ h. elim (Option-cases (find t k)) [
        | inr (old, there) ↦ inl (there ∙ (sym (g.kept k old there) ∙ h))
        | inl free ↦ elim (covered repository rs k) [
          | inl apart ↦ absurd (cc (g.frame k apart, free, h))
          | inr covers ↦ let (mine, stamp) = g.stamped k row free h in inr (mine, stamp, covers)
        ]
      ];
    }

    Evolves-freed :
        (validate : Bool)
        → Frees locks repository rs t u
        → (validate ≡ true → All (Held locks owner repository t) rs)
        → Evolves (Call.unlock_resources owner validate repository rs) t u k row
    Evolves-freed validate f mine = record {
      kept = λ h spared. f.frame k (apart h spared) ∙ h;
      caused = λ h. inl (f.shrinks k row h);
    }
      where
        apart :
            find t k ≡ some row
            → Spares k row.owner_id (Call.unlock_resources owner validate repository rs)
            → All (λ r. key repository r ≢ k) rs
        apart h (inl uncovered) = elim (covered repository rs k) [
          | inl all ↦ all
          | inr covers ↦ absurd (uncovered covers)
        ]
        apart h (inr (checked, other)) =
            All-map (λ r held e. other (cc (held.2, held.1, h, ap (find t) e))) rs (mine checked)

  module _ (before : World T) (k : LockKey) (row : LockRow) where
    abbrev c : T
    c = before.committed

    Evolves-lock :
        (owner : String) (repository : Bytes) (now : ℤ) (rs : List LockResource)
        (o : Result LockError (List LockData) × World T)
        → Post
            (Acquire.Accepted locks order owner repository now rs before)
            (Acquire.Rejected locks order owner repository now rs before)
            o
        → Evolves (Call.lock_resources owner repository now rs) c o.1.committed k row
    Evolves-lock owner repository now rs (ok newly, w) g =
        Evolves-granted owner repository rs c w.committed k row now newly g
    Evolves-lock owner repository now rs (err e, w) h = elim h.whole [
      | inl same ↦
          Evolves-same (Call.lock_resources owner repository now rs) c w.committed k row same
      | inr (lost, newly, g) ↦ Evolves-granted owner repository rs c w.committed k row now newly g
    ]

    Evolves-unlock :
        (owner : String) (validate : Bool) (repository : Bytes) (rs : List LockResource)
        (o : Result LockError (List LockResource) × World T)
        → Post
            (Release.Accepted locks order owner repository rs before validate)
            (Release.Rejected locks order owner repository validate rs before)
            o
        → Evolves (Call.unlock_resources owner validate repository rs) c o.1.committed k row
    Evolves-unlock owner validate repository rs (ok released, w) h =
        Evolves-freed owner repository rs c w.committed k row validate h.1 h.2
    Evolves-unlock owner validate repository rs (err e, w) h = elim h.whole [
      | inl same ↦
          Evolves-same (Call.unlock_resources owner validate repository rs) c w.committed k row same
      | inr (lost, freed, mine) ↦
          Evolves-freed owner repository rs c w.committed k row validate freed mine
    ]

    perform-Evolves : (call : Call) → Evolves call c (perform call before).committed k row
    unfolding perform
    perform-Evolves (Call.lock_resources owner repository now rs) =
        Evolves-lock owner repository now rs _
          (lock_resources_outcome locks order owner repository now rs before)
    perform-Evolves (Call.unlock_resources owner validate repository rs) =
        Evolves-unlock owner validate repository rs _
          (unlock_resources_outcome locks order owner repository rs before validate)
    perform-Evolves (Call.query_locks q) =
        Evolves-same (Call.query_locks q) c _ k row (query_locks-IsExact locks q before).unchanged
    perform-Evolves (Call.check_locks_status repository rs) =
        Evolves-same (Call.check_locks_status repository rs) c _ k row
          (check_locks_status-IsExact locks repository rs before).unchanged

  -- Whatever becomes of the requests: a lock stays as it is, owner, description and time
  -- included, through any sequence of calls by any owners that has no `unlock_resources` of its
  -- key but with validation and by other owners.
  pub run-keeps_locks :
      (calls : List Call) (before : World T) (k : LockKey) (row : LockRow)
      → find before.committed k ≡ some row
      → All (Spares k row.owner_id) calls
      → find (run calls before).committed k ≡ some row
  unfolding run
  run-keeps_locks [] before k row h spared = h
  run-keeps_locks (call ∷ calls) before k row h spared =
      run-keeps_locks calls (perform call before) k row
        ((perform-Evolves before k row call).kept h spared.0) spared.1

  -- Whatever becomes of the requests: a lock that is there after a sequence of calls was there
  -- before it, or one of the calls was a `lock_resources` by its owner, at its time, with a
  -- resource of its key.
  pub run-asked_locks :
      (calls : List Call) (before : World T) (k : LockKey) (row : LockRow)
      → find (run calls before).committed k ≡ some row
      → (find before.committed k ≡ some row) ⊎ Any (Asks k row) calls
  unfolding run
  run-asked_locks [] before k row h = inl h
  run-asked_locks (call ∷ calls) before k row h =
      elim (run-asked_locks calls (perform call before) k row h) [
        | inr later ↦ inr (inr later)
        | inl here ↦ elim ((perform-Evolves before k row call).caused here) [
          | inl already ↦ inl already
          | inr asked ↦ inr (inl asked)
        ]
      ]
