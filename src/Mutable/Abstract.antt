-- ===== src/Mutable/Abstract.antt =====
-- The mutable store as its client sees it: a hash for each key, and calls that take effect one
-- after the other. The concrete side runs the methods of `PgMutableStore` in
-- lore-pg/src/store/pg_mutable_store.rs.
use lore_stack.Common.{◌≡◌, ◌⊎◌, Option, none, some, List, [], ◌∷◌, Bytes, length, if◌then◌else◌}
use lore_stack.Common.Eq.{◌==◌, nat_eq, list_eq}
use lore_stack.Sql.Table.{Table}
use lore_stack.Sql.World.{Result, ok, err, World, M, pure, ◌>>=◌, ◌>>◌}
use lore_stack.Mutable.Types.{
  Cause, StoreError, address_not_found, internal, ValueKey, value_key_eq, Upstream,
}
use lore_stack.Mutable.Store
use lore_stack.Mutable.Store.{typed_key}

-- A call by a client, with the partition first.
pub data Op (KeyType : Type 0) : Type 0 where
  load : Bytes → Bytes → KeyType → Op KeyType
  store : Bytes → Bytes → Bytes → KeyType → Op KeyType
  compare_and_swap : Bytes → Bytes → Bytes → Bytes → KeyType → Op KeyType

-- The answer of a `store` carries no hash.
abbrev pub Answer : Type 0
Answer = Result StoreError (Option Bytes)

abbrev pub Registers : Type 0
Registers = ValueKey → Bytes

abbrev pub set : ValueKey → Bytes → Registers → Registers
set k v f j = if k == j then v else f j

-- The values that a client writes are hashes.
abbrev pub IsHash : {KeyType : Type 0} → Op KeyType → Type 0
IsHash (Op.load p key kt) = Unit {0}
IsHash (Op.store p key v kt) = length v ≡ 32
IsHash (Op.compare_and_swap p key expected v kt) = length v ≡ 32

module _ (up : Upstream) where
  open up use {KeyType, is_zero, context_of}

  abbrev pub place : Bytes → Bytes → KeyType → ValueKey
  place p key kt = record { repository_id = context_of p; key = typed_key up key kt }

  -- What a call answers.
  abbrev pub reply : Op KeyType → Registers → Answer
  reply (Op.load p key kt) f =
      if is_zero (f (place p key kt))
      then err (address_not_found (typed_key up key kt))
      else ok (some (f (place p key kt)))
  reply (Op.store p key v kt) f = ok none
  reply (Op.compare_and_swap p key expected v kt) f = ok (some (f (place p key kt)))

  -- What a call leaves.
  abbrev pub effect : Op KeyType → Registers → Registers
  effect (Op.load p key kt) f = f
  effect (Op.store p key v kt) f = set (place p key kt) v f
  effect (Op.compare_and_swap p key expected v kt) f =
      if f (place p key kt) == expected then set (place p key kt) v f else f

  abbrev pub replay : List (Op KeyType) → Registers → List Answer × Registers
  replay [] f = ([], f)
  replay (op ∷ ops) f = let (answers, g) = replay ops (effect op f) in (reply op f ∷ answers, g)

  -- A call answers and takes effect; or it fails with an internal error, and took effect or not.
  pub data Explained (op : Op KeyType) (f : Registers) (a : Answer) (g : Registers) : Type 0 where
    answered : a ≡ reply op f → g ≡ effect op f → Explained op f a g
    failed :
        (cause : Cause)
        → a ≡ err (internal cause)
        → ((g ≡ f) ⊎ (g ≡ effect op f))
        → Explained op f a g

  abbrev pub Explains : List (Op KeyType) → Registers → List Answer → Registers → Type 0
  Explains [] f [] g = f ≡ g
  Explains [] f (a ∷ answers) g = ⊥
  Explains (op ∷ ops) f [] g = ⊥
  Explains (op ∷ ops) f (a ∷ answers) g =
      (h : Registers) × Explained op f a h × Explains ops h answers g

  module _ (values : Table value_key_eq Bytes) where
    open values use {T}

    unfoldable pub call : Op KeyType → M StoreError T (Option Bytes)
    call (Op.load p key kt) = do v ← Store.load up values p key kt; pure (some v)
    call (Op.store p key v kt) = do Store.store up values p key v kt; pure none
    call (Op.compare_and_swap p key expected v kt) = do
      old ← Store.compare_and_swap up values p key expected v kt
      pure (some old)

    unfoldable pub run : List (Op KeyType) → World T → List Answer × World T
    run [] w = ([], w)
    run (op ∷ ops) w =
        let (a, w') = call op w in let (answers, w'') = run ops w' in (a ∷ answers, w'')
