-- ===== src/Locks/Grants.antt =====
-- What `lock_resources` promises of the table: the relation between the rows before and after.
use mathlib.Core.List.{Mem, mem-append_left, mem-append_right}
use lore_stack.Common.{
  ◌++◌, ◌≡◌, ◌≢◌, refl, ap, subst, ◌∙◌, inl, inr, none, some, List, [], ◌∷◌, All, All-map,
  All-append, All-split, Bytes, String, Option-cases,
}
use lore_stack.Common.Int.{ℤ}
use lore_stack.Sql.Table.{Table}
use lore_stack.Locks.Types.{LockResource, LockData, LockKey, LockRow, lock_key_eq}
use lore_stack.Locks.Holding.{Held}
use lore_stack.Locks.Store.{key, new_row, lock_data}

module _ (locks : Table lock_key_eq LockRow) (owner_id : String) (repository : Bytes)
    (now : ℤ) where
  open locks use {T, find}

  -- `d` was free before and is locked afterwards, as `d` says.
  abbrev pub New : T → T → LockData → Type 0
  New t t' d =
      (find t (key repository d.resource) ≡ none)
      × (find t' (key repository d.resource) ≡ some (new_row owner_id now d.resource))
      × (d ≡ lock_data owner_id now d.resource)

  -- No two are of the same key.
  abbrev pub Once : List LockData → Type 0
  Once [] = Unit {0}
  Once (d ∷ ds) = All (λ e. key repository d.resource ≢ key repository e.resource) ds × Once ds

  pub record Grants (rs : List LockResource) (t t' : T) (newly : List LockData) : Type 0 where
    -- no lock is taken away or changed, whoever holds it
    pub kept : (k : LockKey) (row : LockRow) → find t k ≡ some row → find t' k ≡ some row
    -- every resource that was asked for is held
    pub held : All (Held locks owner_id repository t') rs
    -- no other key is touched
    pub frame : (k : LockKey) → All (λ r. key repository r ≢ k) rs → find t' k ≡ find t k
    -- every row that was added carries the owner and the time
    pub stamped :
        (k : LockKey) (row : LockRow)
        → find t k ≡ none
        → find t' k ≡ some row
        → (row.owner_id ≡ owner_id) × (row.locked_at ≡ now)
    -- what is returned was added
    pub returned : All (New t t') newly
    -- what was added is returned, and only once
    pub listed :
        (k : LockKey) (row : LockRow)
        → find t k ≡ none
        → find t' k ≡ some row
        → (d : LockData) × Mem d newly × (key repository d.resource ≡ k)
    pub once : Once newly

  pub Grants-nil : (t : T) → Grants [] t t []
  Grants-nil t = record {
    kept = λ k row h. h;
    held = tt;
    frame = λ k h. refl;
    stamped = λ k row h h'. cc;
    returned = tt;
    listed = λ k row h h'. cc;
    once = tt;
  }

  Once-append :
      (ds es : List LockData)
      → All (λ d. All (λ e. key repository d.resource ≢ key repository e.resource) es) ds
      → Once ds
      → Once es
      → Once (ds ++ es)
  Once-append [] es apart first rest = rest
  Once-append (d ∷ ds) es apart first rest =
      (All-append _ ds es first.0 apart.0, Once-append ds es apart.1 first.1 rest)

  -- What the second half adds was still free after the first.
  apart_halves :
      (t u v : T) (new new' : List LockData)
      → All (New t u) new
      → All (New u v) new'
      → All (λ d. All (λ e. key repository d.resource ≢ key repository e.resource) new') new
  apart_halves t u v new new' first rest =
      All-map (λ d h. All-map (λ e h' same. cc (h.1, h'.0, ap (find u) same)) new' rest) new first

  listed_through :
      (t u v : T) (new new' : List LockData) (k : LockKey) (row : LockRow)
      → ((r : LockRow)
          → find u k ≡ some r
          → (d : LockData) × Mem d new × (key repository d.resource ≡ k))
      → (find u k ≡ none → (d : LockData) × Mem d new' × (key repository d.resource ≡ k))
      → (d : LockData) × Mem d (new ++ new') × (key repository d.resource ≡ k)
  listed_through t u v new new' k row first rest = elim (Option-cases (find u k)) [
    | inl e ↦ let (d, m, same) = rest e in (d, mem-append_right new m, same)
    | inr (r, e) ↦ let (d, m, same) = first r e in (d, mem-append_left new' m, same)
  ]

  was_free :
      (t u : T) (k : LockKey)
      → ((row : LockRow) → find t k ≡ some row → find u k ≡ some row)
      → find u k ≡ none
      → find t k ≡ none
  was_free t u k kept h = elim (Option-cases (find t k)) [
    | inl e ↦ e
    | inr (row, e) ↦ cc (kept row e)
  ]

  stamped_through :
      (u v : T) (k : LockKey) (row : LockRow)
      → ((row' : LockRow) → find u k ≡ some row' → find v k ≡ some row')
      → (find u k ≡ none → find v k ≡ some row → (row.owner_id ≡ owner_id) × (row.locked_at ≡ now))
      → ((row' : LockRow)
          → find u k ≡ some row'
          → (row'.owner_id ≡ owner_id) × (row'.locked_at ≡ now))
      → find v k ≡ some row
      → (row.owner_id ≡ owner_id) × (row.locked_at ≡ now)
  stamped_through u v k row kept later earlier h = elim (Option-cases (find u k)) [
    | inl e ↦ later e h
    | inr (row', e) ↦
        let same : row' ≡ row = cc (kept row' e) in
        subst (λ r. (r.owner_id ≡ owner_id) × (r.locked_at ≡ now)) same (earlier row' e)
  ]

  pub Grants-append :
      (rs rs' : List LockResource) (t u v : T) (new new' : List LockData)
      → Grants rs t u new
      → Grants rs' u v new'
      → Grants (rs ++ rs') t v (new ++ new')
  Grants-append rs rs' t u v new new' a b = record {
    kept = λ k row h. b.kept k row (a.kept k row h);
    held = All-append _ rs rs' (All-map (λ r h. (h.0, b.kept _ _ h.1, h.2)) rs a.held) b.held;
    frame = λ k h. let (l, r) = All-split _ rs rs' h in b.frame k r ∙ a.frame k l;
    stamped = λ k row h h'.
        stamped_through u v k row (b.kept k) (b.stamped k row) (λ row' e. a.stamped k row' h e) h';
    returned = All-append _ new new' (All-map (λ d h. (h.0, b.kept _ _ h.1, h.2)) new a.returned) (
        All-map (λ d h. (was_free t u _ (a.kept (key repository d.resource)) h.0, h.1, h.2)) new'
          b.returned);
    listed = λ k row h h'.
        listed_through t u v new new' k row (λ r e. a.listed k r h e) (λ e. b.listed k row e h');
    once = Once-append new new' (apart_halves t u v new new' a.returned b.returned) a.once b.once;
  }
