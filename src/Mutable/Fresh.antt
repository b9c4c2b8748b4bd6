-- ===== src/Mutable/Fresh.antt =====
-- What one request of a swap leaves of what the sessions have read.
use lore_stack.Common.{
  ℕ, ◌≡◌, ◌≢◌, refl, ap, sym, subst, ◌∙◌, ◌⊎◌, inl, inr, some, Bytes, length, arith,
}
use lore_stack.Common.Eq.{nat_eq, list_eq, list_beq_iff}
use lore_stack.Sql.Table.{Table}
use lore_stack.Mutable.Types.{ValueKey, value_key_eq, Upstream}
use lore_stack.Mutable.Store.{or_zero}
use lore_stack.Mutable.Register.{register, IsWellFormed, upsert-Sets, Sets-IsWellFormed}
use lore_stack.Mutable.Swap.{decoded_ok}
use lore_stack.Mutable.Sessions.{Swap, Pc, lock_of, commit_of, Move}

module _ (up : Upstream) (values : Table value_key_eq Bytes) (lock_id : ValueKey → ℕ) where
  open values use {T, find}

  -- What a session has read is still there.
  abbrev pub IsFresh : T → Pc → Type 0
  IsFresh db Pc.idle = Unit {0}
  IsFresh db (Pc.waiting a) = length a.value ≡ 32
  IsFresh db (Pc.locked a) = length a.value ≡ 32
  IsFresh db (Pc.seen a c) = (length a.value ≡ 32) × (register up values db a.key ≡ c)
  IsFresh db (Pc.wrote a c) =
      (length a.value ≡ 32) × (register up values db a.key ≡ c) × (c ≡ a.expected)
  IsFresh db (Pc.passed a c) =
      (length a.value ≡ 32) × (register up values db a.key ≡ c) × (c ≢ a.expected)
  IsFresh db (Pc.finished a c) = Unit {0}

  -- The rows after one step differ at most in the row of a key whose lock the session holds.
  abbrev Touches : T → Pc → T → Type 0
  Touches db p db' =
      (db' ≡ db)
      ⊎ ((a : Swap) × (lock_of up values lock_id p ≡ some (lock_id a.key))
          × (db' ≡ (values.upsert a.key a.value db).1)
          × (length a.value ≡ 32))

  committed-Touches :
      {a : Swap} {c : Bytes} {db db' : T} (p : Pc)
      → commit_of up values lock_id db p ≡ some (a, c, db')
      → IsFresh db p
      → Touches db p db'
  committed-Touches Pc.idle h f = cc
  committed-Touches (Pc.waiting b) h f = cc
  committed-Touches (Pc.locked b) h f = cc
  committed-Touches (Pc.seen b d) h f = cc
  committed-Touches (Pc.wrote b d) h f = inr (b, refl, cc, f.0)
  committed-Touches (Pc.passed b d) h f = inl (cc)
  committed-Touches (Pc.finished b d) h f = cc

  pub Move-Touches :
      {db db' : T} {p p' : Pc}
      → Move up values lock_id db p db' p'
      → IsFresh db p
      → Touches db p db'
  Move-Touches (Move.call a n) f = inl refl
  Move-Touches (Move.select e) f = inl refl
  Move-Touches (Move.write e) f = inl refl
  Move-Touches (Move.pass e) f = inl refl
  Move-Touches (Move.commit {p} e) f = committed-Touches p e f
  Move-Touches (Move.lost {p} e) f = committed-Touches p e f
  Move-Touches Move.leave f = inl refl

  -- A step keeps the session's lock or releases it.
  pub Move-lock :
      {db db' : T} {p p' : Pc}
      → Move up values lock_id db p db' p'
      → (l : ℕ) → lock_of up values lock_id p' ≡ some l
      → lock_of up values lock_id p ≡ some l
  Move-lock (Move.call a n) l h = cc
  Move-lock (Move.select e) l h = h
  Move-lock (Move.write e) l h = h
  Move-lock (Move.pass e) l h = h
  Move-lock (Move.commit e) l h = cc
  Move-lock (Move.lost e) l h = cc
  Move-lock Move.leave l h = cc

  -- What the session itself reads.
  pub Move-IsFresh :
      {db db' : T} {p p' : Pc}
      → Move up values lock_id db p db' p'
      → IsWellFormed up values db
      → IsFresh db p
      → IsFresh db' p'
  Move-IsFresh (Move.call a n) wf f = n
  Move-IsFresh {db} (Move.select {a} {found} e) wf f =
      (f, ap (or_zero up) (sym (decoded_ok (find db a.key) found e)))
  Move-IsFresh (Move.write {a} {c} e) wf f =
      (f.0, f.1, (list_beq_iff ⦃e = nat_eq⦄ c a.expected).0 e)
  Move-IsFresh (Move.pass {a} {c} e) wf f =
      (f.0, f.1, λ q. ground (arith, (list_beq_iff ⦃e = nat_eq⦄ c a.expected).1 q))
  Move-IsFresh (Move.commit e) wf f = tt
  Move-IsFresh (Move.lost e) wf f = tt
  Move-IsFresh Move.leave wf f = tt

  register_kept :
      (a b : ValueKey) (v : Bytes) (db : T)
      → lock_id a ≢ lock_id b
      → register up values (values.upsert a v db).1 b ≡ register up values db b
  register_kept a b v db n =
      ap (or_zero up) ((upsert-Sets up values a v db).others b (λ e. n (ap lock_id e)))

  -- What another session has read under another lock stays.
  upsert-IsFresh :
      (a : ValueKey) (v : Bytes) (db : T) (q : Pc)
      → lock_of up values lock_id q ≢ some (lock_id a)
      → IsFresh db q
      → IsFresh (values.upsert a v db).1 q
  upsert-IsFresh a v db Pc.idle n f = tt
  upsert-IsFresh a v db (Pc.waiting b) n f = f
  upsert-IsFresh a v db (Pc.locked b) n f = f
  upsert-IsFresh a v db (Pc.seen b c) n f =
      (f.0, register_kept a b.key v db (λ e. n (ap some (sym e))) ∙ f.1)
  upsert-IsFresh a v db (Pc.wrote b c) n f =
      (f.0, register_kept a b.key v db (λ e. n (ap some (sym e))) ∙ f.1, f.2)
  upsert-IsFresh a v db (Pc.passed b c) n f =
      (f.0, register_kept a b.key v db (λ e. n (ap some (sym e))) ∙ f.1, f.2)
  upsert-IsFresh a v db (Pc.finished b c) n f = tt

  pub Touches-IsFresh :
      {db db' : T} (p q : Pc)
      → Touches db p db'
      → ((l : ℕ) → lock_of up values lock_id p ≡ some l → lock_of up values lock_id q ≢ some l)
      → IsFresh db q
      → IsFresh db' q
  Touches-IsFresh p q (inl e) n f = subst (λ t. IsFresh t q) (sym e) f
  Touches-IsFresh {db} p q (inr (a, h, e, _)) n f =
      subst (λ t. IsFresh t q) (sym e) (upsert-IsFresh a.key a.value db q (n (lock_id a.key) h) f)

  pub Touches-IsWellFormed :
      {db db' : T} (p : Pc)
      → Touches db p db'
      → IsWellFormed up values db
      → IsWellFormed up values db'
  Touches-IsWellFormed p (inl e) wf = subst (IsWellFormed up values) (sym e) wf
  Touches-IsWellFormed {db} p (inr (a, _, e, n)) wf = subst (IsWellFormed up values) (sym e) (
      Sets-IsWellFormed up values a.key (some a.value) db (values.upsert a.key a.value db).1
        (upsert-Sets up values a.key a.value db)
        (λ v q. let same : v ≡ a.value = cc in ap length same ∙ n) wf)
