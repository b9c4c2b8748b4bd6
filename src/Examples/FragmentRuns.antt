-- ===== src/Examples/FragmentRuns.antt =====
-- Two partitions, a bucket and a stored payload: runs of the immutable store.
use lore_stack.Common.{◌≡◌, refl, true, false, some, [], ◌∷◌}
use lore_stack.Common.Eq.{nat_eq, list_eq, int_eq}
use lore_stack.Sql.World.{ok, err}
use lore_stack.Sql.Triple.{world}
use lore_stack.Immutable.Types.{address_not_found, internal, hash_collision, association_eq}
use lore_stack.Immutable.Index.{metadata_row, fragment_of_row}
use lore_stack.Immutable.Store.{put, get, copy}
use lore_stack.Immutable.Writes.{written, put-unassociated, put-associated}
use lore_stack.Immutable.Reads.{whole, get-unassociated, get-put}
use lore_stack.Immutable.Copies.{get-copy}
use lore_stack.Examples.Bucket.{
  backend, file, up, home, away, address, bytes, empty, full, file-InRange,
}

put-unassociated_example :
    put backend up false home address file (some bytes) (world empty empty []) ≡ (
      ok tt,
      world
          (written backend up home address file bytes empty)
          (written backend up home address file bytes empty)
          [],
    )
put-unassociated_example =
    put-unassociated backend up false home address file file bytes empty empty refl refl refl refl

put-associated_example :
    put backend up false home address
      (record { flags = 0; size_payload = 3; size_content = 11 })
      (some bytes)
      (world full empty [])
    ≡ (err (internal hash_collision), world full empty [])
unfolding fragment_of_row metadata_row
put-associated_example =
    put-associated backend up home address
      (record { flags = 0; size_payload = 3; size_content = 11 }) _ (some bytes) (metadata_row file)
      full empty refl refl refl refl refl refl refl

get-unassociated_example :
    get backend up false away address (world full empty [])
    ≡ (err (address_not_found address), world full empty [])
get-unassociated_example = get-unassociated backend up false away address full empty refl

get-put_example :
    (get backend up false home address
      (put backend up true home address file (some bytes) (world empty empty [])).1).0
    ≡ ok (whole backend up home file bytes)
get-put_example =
    get-put backend up true false home address file file bytes empty empty refl file-InRange refl
      refl refl refl refl

get-copy_example :
    (get backend up false away
      (record { hash = 7 ∷ []; context = 9 ∷ [] })
      (copy backend up home address away (9 ∷ []) (world full empty [])).1).0
    ≡ ok (whole backend up away file bytes)
get-copy_example =
    get-copy backend up false home address away (9 ∷ []) bytes file full empty refl file-InRange
      refl refl refl refl (record { associated = refl; row = refl; object = refl })
