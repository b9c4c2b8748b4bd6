-- ===== src/Immutable/Durable/Erasing.antt =====
-- `obliterate` of lore-pg/src/store/pg_immutable_store.rs: the association first, and the object
-- only after the last one.
use lore_stack.Common.{ℕ, Bool, Bytes}
use lore_stack.Immutable.Types.{Address, Upstream, Backend}
use lore_stack.Immutable.Index.{association}
use lore_stack.Immutable.Obliterate.{obliterate}
use lore_stack.Immutable.Keeps.{Keeps}
use lore_stack.Immutable.Sweep.{Survives, Keeps-obliterate_in}
use lore_stack.Immutable.Durable.{
  IsDurable, rewritten-IsDurable, dissociated-IsDurable, unstored-IsDurable,
}

module _ (b : Backend) (up : Upstream) (force_write : Bool) where
  pub survives : (repository : Bytes) → Survives b up force_write repository (IsDurable b up)
  survives repository = record {
    counters = λ m n s d. d;
    row = rewritten-IsDurable b up force_write;
    link = λ address. dissociated-IsDurable b up force_write (association repository address);
    object = unstored-IsDurable b up force_write;
  }

  pub obliterate-Keeps :
      (fuel : ℕ) (partition : Bytes) (address : Address)
      → Keeps b (IsDurable b up) (obliterate b up force_write fuel partition address)
  unfolding obliterate
  obliterate-Keeps fuel partition address =
      Keeps-obliterate_in b up force_write (up.context_of partition) (IsDurable b up)
        (survives (up.context_of partition)) fuel address
