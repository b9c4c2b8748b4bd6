-- ===== src/Sql/Triple.antt =====
-- Hoare triples for the stores' methods: one rule for each request and for each way to go on.
use lore_stack.Common.{◌≢◌, List}
use lore_stack.Sql.World.{
  Result, ok, err, Fate, answered, refused, lost, World, first_fate, rest_fates, M, pure, raise,
  continue, ◌>>=◌, respond, checkout, begin, exec, commit, rollback, auto,
}

-- `m` started where `P` holds ends where `Q` or, on an error, `R` holds.
module _ {E T A : Type 0} where
  abbrev pub Post : (A → World T → Type 0) → (E → World T → Type 0) → Result E A × World T → Type 0
  Post Q R (ok a, w) = Q a w
  Post Q R (err e, w) = R e w

  pub record Triple (P : World T → Type 0) (m : M E T A) (Q : A → World T → Type 0)
      (R : E → World T → Type 0) : Type 0 where
    pub at : (w : World T) → P w → Post Q R (m w)

  pub Post-map :
      {Q Q' : A → World T → Type 0} {R R' : E → World T → Type 0}
      → ((a : A) (w : World T) → Q a w → Q' a w)
      → ((e : E) (w : World T) → R e w → R' e w)
      → (o : Result E A × World T) → Post Q R o
      → Post Q' R' o
  Post-map f g (ok a, w) h = f a w h
  Post-map f g (err e, w) h = g e w h

  -- What the precondition says of the values may be used to choose the proof.
  pub Triple-assume :
      {P : World T → Type 0} {m : M E T A} {Q : A → World T → Type 0} {R : E → World T → Type 0}
      (X : Type 0)
      → ((w : World T) → P w → X)
      → (X → Triple P m Q R)
      → Triple P m Q R
  Triple-assume X pre t = record { at = λ w h. (t (pre w h)).at w h }

  pub Triple-weaken :
      {P P' : World T → Type 0} {m : M E T A} {Q Q' : A → World T → Type 0}
      {R R' : E → World T → Type 0}
      → ((w : World T) → P' w → P w)
      → ((a : A) (w : World T) → Q a w → Q' a w)
      → ((e : E) (w : World T) → R e w → R' e w)
      → Triple P m Q R
      → Triple P' m Q' R'
  Triple-weaken {m} pre post post_err t = record {
    at = λ w h. Post-map post post_err (m w) (t.at w (pre w h));
  }

module _ {E T A B : Type 0} where
  Post-continue :
      {Q : A → World T → Type 0} {Q' : B → World T → Type 0} {R : E → World T → Type 0}
      (f : A → M E T B)
      → ((a : A) → Triple (Q a) (f a) Q' R)
      → (o : Result E A × World T) → Post Q R o
      → Post Q' R (continue f o)
  Post-continue f tf (ok a, w) h = (tf a).at w h
  Post-continue f tf (err e, w) h = h

  pub Triple-bind :
      {P : World T → Type 0} {Q : A → World T → Type 0} {Q' : B → World T → Type 0}
      {R : E → World T → Type 0} {m : M E T A} {f : A → M E T B}
      → Triple P m Q R
      → ((a : A) → Triple (Q a) (f a) Q' R)
      → Triple P (m >>= f) Q' R
  Triple-bind {m} {f} tm tf = record { at = λ w h. Post-continue f tf (m w) (tm.at w h) }

abbrev pub world : {T : Type 0} → T → T → List Fate → World T
world c t fs = record { committed = c; working = t; fates = fs }

-- The request at the head of `fs` does not come back with an answer.
abbrev pub Fails : List Fate → Type 0
Fails fs = first_fate fs ≢ answered

module _ {E T A : Type 0} (Q : A → World T → Type 0) (R : E → World T → Type 0) where
  Post-respond :
      (e : E) (x : Fate) (done : A × World T) (w : World T)
      → Q done.0 done.1
      → (x ≢ answered → R e done.1)
      → (x ≢ answered → R e w)
      → Post Q R (respond e x done w)
  Post-respond e answered done w q r s = q
  Post-respond e refused done w q r s = s (λ p. cc)
  Post-respond e lost done w q r s = r (λ p. cc)

module _ {E T A : Type 0} {P : World T → Type 0} {Q : A → World T → Type 0}
    {R : E → World T → Type 0} where
  pub Triple-pure : (a : A) → ((w : World T) → P w → Q a w) → Triple P (pure a) Q R
  Triple-pure a h = record { at = h }

  pub Triple-raise : (e : E) → ((w : World T) → P w → R e w) → Triple P (raise e) Q R
  Triple-raise e h = record { at = h }

  pub Triple-exec :
      (e : E) (f : T → A × T)
      → ((c t : T) (fs : List Fate)
          → P (world c t fs)
          → Q (f t).0 (world c (f t).1 (rest_fates fs)))
      → ((c t t' : T) (fs : List Fate)
          → P (world c t fs)
          → Fails fs
          → R e (world c t' (rest_fates fs)))
      → Triple P (exec e f) Q R
  unfolding exec
  Triple-exec e f q r = record {
    at = λ w h.
        Post-respond Q R e (first_fate w.fates) _ _ (q w.committed w.working w.fates h)
          (r w.committed w.working (f w.working).1 w.fates h)
          (r w.committed w.working w.working w.fates h);
  }

  -- A statement outside a transaction whose answer is lost has taken effect.
  pub Triple-auto :
      (e : E) (f : T → A × T)
      → ((c t : T) (fs : List Fate)
          → P (world c t fs)
          → Q (f c).0 (world (f c).1 t (rest_fates fs)))
      → ((c t : T) (fs : List Fate)
          → P (world c t fs)
          → Fails fs
          → R e (world c t (rest_fates fs)) × R e (world (f c).1 t (rest_fates fs)))
      → Triple P (auto e f) Q R
  unfolding auto
  Triple-auto e f q r = record {
    at = λ w h.
        let s = r w.committed w.working w.fates h in
        Post-respond Q R e (first_fate w.fates) _ _ (q w.committed w.working w.fates h)
          (λ x. (s x).1) (λ x. (s x).0);
  }

module _ {E T : Type 0} {P : World T → Type 0} {Q : Unit {0} → World T → Type 0}
    {R : E → World T → Type 0} where
  pub Triple-checkout :
      (e : E)
      → ((c t : T) (fs : List Fate) → P (world c t fs) → Q tt (world c t (rest_fates fs)))
      → ((c t : T) (fs : List Fate) → P (world c t fs) → Fails fs → R e (world c t (rest_fates fs)))
      → Triple P (checkout e) Q R
  unfolding checkout
  Triple-checkout e q r = record {
    at = λ w h.
        let s = r w.committed w.working w.fates h in
        Post-respond Q R e (first_fate w.fates) _ _ (q w.committed w.working w.fates h) s s;
  }

  pub Triple-begin :
      (e : E)
      → ((c t : T) (fs : List Fate) → P (world c t fs) → Q tt (world c c (rest_fates fs)))
      → ((c t t' : T) (fs : List Fate)
          → P (world c t fs)
          → Fails fs
          → R e (world c t' (rest_fates fs)))
      → Triple P (begin e) Q R
  unfolding begin
  Triple-begin e q r = record {
    at = λ w h.
        Post-respond Q R e (first_fate w.fates) _ _ (q w.committed w.working w.fates h)
          (r w.committed w.working w.committed w.fates h)
          (r w.committed w.working w.working w.fates h);
  }

  -- A commit whose answer is lost has taken effect.
  pub Triple-commit :
      (e : E)
      → ((c t : T) (fs : List Fate) → P (world c t fs) → Q tt (world t t (rest_fates fs)))
      → ((c t : T) (fs : List Fate)
          → P (world c t fs)
          → Fails fs
          → R e (world c t (rest_fates fs)) × R e (world t t (rest_fates fs)))
      → Triple P (commit e) Q R
  unfolding commit
  Triple-commit e q r = record {
    at = λ w h.
        let s = r w.committed w.working w.fates h in
        Post-respond Q R e (first_fate w.fates) _ _ (q w.committed w.working w.fates h)
          (λ x. (s x).1) (λ x. (s x).0);
  }

  pub Triple-rollback :
      ((c t : T) (fs : List Fate) → P (world c t fs) → Q tt (world c c (rest_fates fs)))
      → Triple P rollback Q R
  unfolding rollback
  Triple-rollback q = record { at = λ w h. q w.committed w.working w.fates h }
