-- ===== src/Sql/World.antt =====
-- Requests to the database, their failures, and Hoare triples for the stores' methods.
use lore_stack.Common.{List, [], ◌∷◌}

pub data Result {ℓ} (E A : Type ℓ) : Type ℓ where
  ok : A → Result E A
  err : E → Result E A

-- A request is answered; or it fails on the way there, or on the way back, after it took effect.
pub data Fate : Type 0 where
  answered refused lost : Fate

-- `committed` is what other sessions read, `working` what the open transaction reads. `fates`
-- says what becomes of the next requests; all after them are answered.
pub record World (T : Type 0) : Type 0 where
  pub committed : T
  pub working : T
  pub fates : List Fate

abbrev pub first_fate : List Fate → Fate
first_fate [] = answered
first_fate (f ∷ fs) = f

abbrev pub rest_fates : List Fate → List Fate
rest_fates [] = []
rest_fates (f ∷ fs) = fs

abbrev pub M : Type 0 → Type 0 → Type 0 → Type 0
M E T A = World T → Result E A × World T

module _ {E T A : Type 0} where
  abbrev pub pure : A → M E T A
  pure a w = (ok a, w)

  abbrev pub raise : E → M E T A
  raise e w = (err e, w)

  abbrev pub from_result : Result E A → M E T A
  from_result r w = (r, w)

module _ {E T A B : Type 0} where
  abbrev pub continue : (A → M E T B) → Result E A × World T → Result E B × World T
  continue f (ok a, w) = f a w
  continue f (err e, w) = (err e, w)

  infixl 5 ◌>>=◌ ◌>>◌
  abbrev pub ◌>>=◌ : M E T A → (A → M E T B) → M E T B
  ◌>>=◌ m f w = continue f (m w)

  abbrev pub ◌>>◌ : M E T A → M E T B → M E T B
  m >> k = m >>= λ _. k

module _ {E T : Type 0} where
  abbrev pub respond : {A : Type 0} → E → Fate → A × World T → World T → Result E A × World T
  respond e answered (a, done) unchanged = (ok a, done)
  respond e refused (a, done) unchanged = (err e, unchanged)
  respond e lost (a, done) unchanged = (err e, done)

  abbrev request : {A : Type 0} → E → (World T → A × World T) → M E T A
  request e f w =
      let w' = record w { fates = rest_fates w.fates } in respond e (first_fate w.fates) (f w') w'

  -- A request with no effect on the rows, such as taking a connection from the pool.
  unfoldable pub checkout : E → M E T (Unit {0})
  checkout e = request e (λ w. (tt, w))

  unfoldable pub begin : E → M E T (Unit {0})
  begin e = request e (λ w. (tt, record w { working = w.committed }))

  -- A statement of the open transaction. Nothing of it is visible before the commit.
  unfoldable pub exec : {A : Type 0} → E → (T → A × T) → M E T A
  exec e f = request e (λ w. let (a, t) = f w.working in (a, record w { working = t }))

  unfoldable pub commit : E → M E T (Unit {0})
  commit e = request e (λ w. (tt, record w { committed = w.working }))

  -- `txn.rollback().await.ok()`: the error is dropped, and the server forgets the transaction
  -- also when the request fails.
  unfoldable pub rollback : M E T (Unit {0})
  rollback w = (ok tt, record w { working = w.committed; fates = rest_fates w.fates })

  -- A statement outside a transaction.
  unfoldable pub auto : {A : Type 0} → E → (T → A × T) → M E T A
  auto e f = request e (λ w. let (a, t) = f w.committed in (a, record w { committed = t }))
