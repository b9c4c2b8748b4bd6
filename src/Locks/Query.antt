-- ===== src/Locks/Query.antt =====
-- The reads of the lock store: which rows `query_locks` and `check_locks_status` return.
use mathlib.Core.List.{Mem, not-mem-nil}
use lore_stack.Common.{
  ◌≡◌, refl, ap, subst, ◌∙◌, ◌↔◌, Bool, true, some, List, [], ◌∷◌, Bytes, arith,
}
use lore_stack.Common.Eq.{string_eq, nat_eq, list_beq_iff}
use lore_stack.Sql.Table.{Table}
use lore_stack.Sql.World.{
  World, first_fate, rest_fates, Result, ok, err, M, ◌>>=◌, ◌>>◌, checkout, auto, from_result,
}
use lore_stack.Sql.Triple.{Triple, Post, Triple-bind, Triple-checkout, Triple-auto}
use lore_stack.Locks.Types.{
  pool, query, LockError, internal, LockResource, LockData, LockKey, LockRow, lock_key_eq,
}
use lore_stack.Locks.Store.{LockQuery, where_clause, collect, query_locks, check_locks_status}
use lore_stack.Locks.Rows.{
  Matches, where_clause_iff, IsAmong, among_iff, ReadAs, collect-ReadAs, IsWellFormed,
  collect_total,
}

module _ (locks : Table lock_key_eq LockRow) where
  open locks use {T, find, select, mem-select}

  -- The rows that are read and turned into the result.
  abbrev pub Answers : (LockKey → LockRow → Type 0) → T → List LockData → Type 0
  Answers P t ds =
      (rows : List (LockKey × LockRow)) × ReadAs rows ds
      × ((k : LockKey) (row : LockRow) → Mem (k, row) rows ↔ ((find t k ≡ some row) × P k row))

  abbrev AllWellFormed : T → Type 0
  AllWellFormed t = (k : LockKey) (row : LockRow) → find t k ≡ some row → IsWellFormed k

  -- What a read returns: the rows that fit, and none else; it writes nothing. It fails only if a
  -- request does or a row is malformed.
  pub record IsExact (P : LockKey → LockRow → Type 0) (before : World T)
      (o : Result LockError (List LockData) × World T) : Type 0 where
    pub unchanged : o.1.committed ≡ before.committed
    pub exact : (ds : List LockData) → o.0 ≡ ok ds → Answers P before.committed ds
    pub total :
        before.fates ≡ [] → AllWellFormed before.committed → (ds : List LockData) × (o.0 ≡ ok ds)

  module _ (p : LockKey → LockRow → Bool) (P : LockKey → LockRow → Type 0)
      (iff : (k : LockKey) (row : LockRow) → (p k row ≡ true) ↔ P k row) (before : World T) where
    abbrev read : M LockError T (List LockData)
    read = do
      checkout (internal pool)
      rows ← auto (internal query) (λ t. (select p t, t))
      from_result (collect rows)

    mem_rows :
        (k : LockKey) (row : LockRow)
        → Mem (k, row) (select p before.committed)
          ↔ ((find before.committed k ≡ some row) × P k row)
    mem_rows k row =
        let m = mem-select p before.committed k row in
        (λ x. let y = m.0 x in (y.0, (iff k row).0 y.1), λ y. m.1 (y.0, (iff k row).1 y.1))

    Found : List LockData → World T → Type 0
    Found ds w = (w.committed ≡ before.committed) × Answers P before.committed ds

    NotFound : LockError → World T → Type 0
    NotFound e w =
        (w.committed ≡ before.committed) × (before.fates ≡ [] → ¬ AllWellFormed before.committed)

    collected :
        (r : Result LockError (List LockData))
        → collect (select p before.committed) ≡ r
        → (w : World T) → w.committed ≡ before.committed
        → Post Found NotFound (r, w)
    unfolding Found NotFound
    collected (ok ds) h w same =
        (same, (select p before.committed, collect-ReadAs _ ds h, mem_rows))
    collected (err e) h w same = (
      same,
      λ calm wf.
          let (ds, q) =
            collect_total (select p before.committed)
              (λ k row m. wf k row ((mem_rows k row).0 m).0) in
          cc (h, q),
    )

    read-Found : Post Found NotFound (read before)
    unfolding NotFound
    read-Found =
        let proof : Triple (λ w. w ≡ before) read Found NotFound =
          Triple-bind
            {Q = λ _ w. (w.committed ≡ before.committed) × (before.fates ≡ [] → w.fates ≡ [])}
            (Triple-checkout (internal pool)
              (λ c t gs h.
                (ap (λ w. w.committed) h, λ q. ap (λ w. rest_fates w.fates) h ∙ ap rest_fates q))
              (λ c t gs h bad. (
                ap (λ w. w.committed) h,
                λ q. absurd (bad (ap (λ w. first_fate w.fates) h ∙ ap first_fate q)),
              )))
            λ _.
              Triple-bind
                {Q = λ rows w.
                  (rows ≡ select p before.committed) × (w.committed ≡ before.committed)}
                (Triple-auto (internal query) _ (λ c t gs h. (ap (select p) h.0, h.0))
                  (λ c t gs h bad.
                    let e = λ (q : before.fates ≡ []) (wf : AllWellFormed before.committed).
                      bad (ap first_fate (h.1 q)) in
                    ((h.0, e), (h.0, e))))
                λ rows. record { at = λ w h. rw h.0 (collected _ refl w h.1) } in
        proof.at before refl

    IsExact-of :
        (o : Result LockError (List LockData) × World T)
        → Post Found NotFound o
        → IsExact P before o
    unfolding Found NotFound
    IsExact-of (ok ds, w) h = record {
      unchanged = h.0;
      exact = λ es e. subst (Answers P before.committed) (cc e) h.1;
      total = λ calm wf. (ds, refl);
    }
    IsExact-of (err e, w) h = record {
      unchanged = h.0;
      exact = λ es q. cc;
      total = λ calm wf. absurd (h.1 calm wf);
    }

    read-IsExact : IsExact P before (read before)
    read-IsExact = IsExact-of (read before) read-Found

  -- Each of the nine queries writes nothing and returns exactly the committed rows that it asks
  -- for, each one as its lock: branch, hash, description, owner, and time as an unsigned number;
  -- it returns while all requests are answered and the rows are well-formed.
  pub query_locks-IsExact :
      (q : LockQuery) (before : World T) → IsExact (Matches q) before (query_locks locks q before)
  unfolding query_locks
  query_locks-IsExact q before =
      read-IsExact (where_clause q) (Matches q) (where_clause_iff q) before

  abbrev pub IsStatus : Bytes → List LockResource → LockKey → LockRow → Type 0
  IsStatus repository rs k row = (k.repository ≡ repository) × IsAmong rs k

  -- `check_locks_status` writes nothing and returns exactly the rows of the repository that are
  -- among the resources, each one as its lock: branch, hash, description, owner, and time as an
  -- unsigned number; it returns while all requests are answered and the rows are well-formed.
  pub check_locks_status-IsExact :
      (repository : Bytes) (resources : List LockResource) (before : World T)
      → IsExact
          (IsStatus repository resources)
          before
          (check_locks_status locks repository resources before)
  unfolding check_locks_status
  check_locks_status-IsExact repository [] before = record {
    unchanged = refl;
    exact = λ ds e.
        rw (← (let q : ◌≡◌ {A = List LockData} [] ds = cc e in q))
          ([], tt, λ k row. (λ m. absurd (not-mem-nil m), λ x. absurd x.1.1));
    total = λ calm wf. ([], refl);
  }
  check_locks_status-IsExact repository (r ∷ rs) before =
      read-IsExact _ (IsStatus repository (r ∷ rs))
        (λ k row.
          ground (arith, list_beq_iff ⦃e = nat_eq⦄ k.repository repository, among_iff (r ∷ rs) k))
        before
