-- ===== src/Immutable/Keeps.antt =====
-- What requests and loops of lore-pg/src/store/pg_immutable_store.rs keep, and when two
-- continuations go on alike.
use lore_stack.Common.{◌≡◌, refl, Bool, true, false, if◌then◌else◌}
use lore_stack.Common.Eq.{nat_eq, list_eq}
use lore_stack.Sql.World.{
  Result, ok, err, World, pure, raise, from_result, continue, ◌>>=◌, checkout, auto,
}
use lore_stack.Sql.Triple.{Triple, Post, Triple-pure, Triple-raise, Triple-auto, Triple-checkout}
use lore_stack.Immutable.Types.{StoreError, Upstream, Backend, Stored}
use lore_stack.Immutable.Index.{Store}
use lore_stack.Immutable.Store.{attempt}

module _ (b : Backend) where
  -- What holds of the committed rows before holds after, whatever becomes of the requests.
  abbrev pub Keeps : {A : Type 0} → (Stored b → Type 0) → Store b A → Type 0
  Keeps P m = Triple (λ w. P w.committed) m (λ a w. P w.committed) (λ e w. P w.committed)

  module _ (P : Stored b → Type 0) where
    pub Keeps-checkout : (e : StoreError) → Keeps P (checkout e)
    Keeps-checkout e = Triple-checkout e (λ c t fs h. h) (λ c t fs h f. h)

    pub Keeps-auto :
        {A : Type 0} (e : StoreError) (f : Stored b → A × Stored b)
        → ((s : Stored b) → P s → P (f s).1)
        → Keeps P (auto e f)
    Keeps-auto e f k = Triple-auto e f (λ c t fs h. k c h) (λ c t fs h x. (h, k c h))

    pub Keeps-pure : {A : Type 0} (a : A) → Keeps P (pure a)
    Keeps-pure a = Triple-pure a (λ w h. h)

    pub Keeps-raise : {A : Type 0} (e : StoreError) → Keeps {A = A} P (raise e)
    Keeps-raise e = Triple-raise e (λ w h. h)

    pub Keeps-from_result : {A : Type 0} (r : Result StoreError A) → Keeps P (from_result r)
    Keeps-from_result (ok a) = Keeps-pure a
    Keeps-from_result (err e) = Keeps-raise e

    pub Keeps-if :
        {A : Type 0} (x : Bool) (m n : Store b A)
        → Keeps P m
        → Keeps P n
        → Keeps P (if x then m else n)
    Keeps-if true m n h k = h
    Keeps-if false m n h k = k

    pub always :
        {A : Type 0} (o : Result StoreError A × World (Stored b))
        → Post (λ a w. P w.committed) (λ e w. P w.committed) o
        → P o.1.committed
    always (ok a, v) h = h
    always (err e, v) h = h

    pub Keeps-attempt :
        {A : Type 0} (up : Upstream) (m : Store b A) → Keeps P m → Keeps P (attempt b up m)
    Keeps-attempt up m k = record { at = λ w h. always (m w) (k.at w h) }

  continued :
      {A B : Type 0} (Q : A → World (Stored b) → Type 0)
      (R : StoreError → World (Stored b) → Type 0) (o : Result StoreError A × World (Stored b))
      (k k' : A → Store b B)
      → Post Q R o
      → ((a : A) (v : World (Stored b)) → Q a v → k a v ≡ k' a v)
      → continue k o ≡ continue k' o
  continued Q R (ok a, v) k k' h agree = agree a v h
  continued Q R (err e, v) k k' h agree = refl

  -- One step further the two go on alike.
  pub bind_agree :
      {A B : Type 0} {P : World (Stored b) → Type 0} {Q : A → World (Stored b) → Type 0}
      {R : StoreError → World (Stored b) → Type 0} (m : Store b A) (k k' : A → Store b B)
      (w : World (Stored b))
      → Triple P m Q R
      → P w
      → ((a : A) (v : World (Stored b)) → Q a v → k a v ≡ k' a v)
      → (m >>= k) w ≡ (m >>= k') w
  bind_agree {Q} {R} m k k' w t p agree = continued Q R (m w) k k' (t.at w p) agree
