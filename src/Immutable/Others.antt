-- ===== src/Immutable/Others.antt =====
-- What obliterate of lore-pg/src/store/pg_immutable_store.rs leaves to the other partitions,
-- whatever becomes of the requests.
use lore_stack.Common.{ℕ, ◌≡◌, ◌≢◌, refl, ap, sym, ◌∙◌, Bool, true, some, Bytes}
use lore_stack.Common.Eq.{nat_eq, list_eq}
use lore_stack.Sql.Laws.{find-delete_if_ne}
use lore_stack.Sql.World.{World}
use lore_stack.Immutable.Types.{Address, Association, Upstream, Backend, Stored}
use lore_stack.Immutable.Index.{association}
use lore_stack.Immutable.Payload.{hash_to_hex}
use lore_stack.Immutable.Obliterate.{obliterate}
use lore_stack.Immutable.Keeps.{always}
use lore_stack.Immutable.Writes.{entry}
use lore_stack.Immutable.Requests.{Unused, unstored}
use lore_stack.Immutable.Sweep.{Survives, Keeps-obliterate_in}

module _ (b : Backend) (up : Upstream) (force_write : Bool) (repository : Bytes)
    (before : Stored b) where
  -- The associations of other repositories are those of before, and so are the objects that they
  -- lead to.
  pub record Undisturbed (s : Stored b) : Type 0 where
    pub associations :
        (j : Association)
        → j.repository ≢ repository
        → b.fragments.find s.associations j ≡ b.fragments.find before.associations j
    pub objects :
        (j : Association)
        → j.repository ≢ repository
        → b.fragments.find before.associations j ≡ some tt
        → b.bucket.object s.objects (hash_to_hex b up j.hash)
          ≡ b.bucket.object before.objects (hash_to_hex b up j.hash)

  dissociated-Undisturbed :
      (address : Address) (s : Stored b)
      → Undisturbed s
      → Undisturbed (record s {
        associations =
            (b.fragments.delete_if (association repository address) (λ row. true) s.associations).1;
      })
  dissociated-Undisturbed address s u = record {
    associations = λ j n.
        find-delete_if_ne b.fragments (association repository address) j (λ row. true)
          s.associations (λ e. n (sym (ap (λ k. k.repository) e)))
        ∙ u.associations j n;
    objects = u.objects;
  }

  unstored-Undisturbed :
      (hash : Bytes) (s : Stored b)
      → Undisturbed s
      → Unused b up force_write hash s
      → Undisturbed (unstored b up force_write hash s)
  unstored-Undisturbed hash s u unused = record {
    associations = u.associations;
    objects = λ j n held.
        b.bucket.object-delete_ne (hash_to_hex b up hash) (hash_to_hex b up j.hash) s.objects
          (λ e. unused j (u.associations j n ∙ held) (sym (up.to_hex_str-injective hash j.hash e)))
        ∙ u.objects j n held;
  }

  survives : Survives b up force_write repository Undisturbed
  survives = record {
    counters = λ m n s u. record { associations = u.associations; objects = u.objects };
    row = λ h new old s u. record { associations = u.associations; objects = u.objects };
    link = dissociated-Undisturbed;
    object = unstored-Undisturbed;
  }

module _ (b : Backend) (up : Upstream) (force_write : Bool) where
  -- Whatever becomes of the requests: an `obliterate` in one partition, its sub-fragments
  -- included, leaves every association of another partition as it was, and the object of every
  -- hash that the other partition holds.
  pub obliterate-others :
      (fuel : ℕ) (partition other : Bytes) (address a : Address) (w : World (Stored b))
      → other ≢ partition
      → let v = (obliterate b up force_write fuel partition address w).1 in
        (entry b up other a v.committed ≡ entry b up other a w.committed)
        × (entry b up other a w.committed ≡ some tt
            → b.bucket.object v.committed.objects (hash_to_hex b up a.hash)
              ≡ b.bucket.object w.committed.objects (hash_to_hex b up a.hash))
  unfolding obliterate
  obliterate-others fuel partition other address a w apart =
      let repository = up.context_of partition in
      let start : Undisturbed b up force_write repository w.committed w.committed = record {
        associations = λ j n. refl;
        objects = λ j n held. refl;
      } in
      let kept = always b (Undisturbed b up force_write repository w.committed) _ (
        (Keeps-obliterate_in b up force_write repository
            (Undisturbed b up force_write repository w.committed)
            (survives b up force_write repository w.committed) fuel address).at
          w start) in
      let j = association (up.context_of other) a in
      let n : j.repository ≢ repository = λ e. apart (up.context_of-injective other partition e) in
      (kept.associations j n, kept.objects j n)
