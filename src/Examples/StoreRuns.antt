-- ===== src/Examples/StoreRuns.antt =====
-- Sequences of calls of the immutable store, and what they leave to another partition.
use lore_stack.Common.{
  subst, ap, Bool, ◌≡◌, ◌≢◌, refl, true, false, none, some, List, [], ◌∷◌, Bytes, if◌then◌else◌,
  arith,
}
use lore_stack.Common.Eq.{nat_eq, list_eq, int_eq}
use lore_stack.Sql.World.{checkout, auto, World, ok, err, answered, refused, lost}
use lore_stack.Sql.Triple.{world}
use lore_stack.Immutable.Types.{
  Address, Cause, Fragment, Stored, internal, address_not_found, association_eq,
}
use lore_stack.Immutable.Index.{
  association, metadata_row, metadata_with_size_validation, update_metadata_cas, remove_association,
  has_associations,
}
use lore_stack.Immutable.Fragments.{InRange}
use lore_stack.Immutable.Store.{get, put}
use lore_stack.Immutable.Writes.{entry}
use lore_stack.Immutable.Reads.{whole}
use lore_stack.Immutable.Replaced.{get-put_elsewhere}
use lore_stack.Immutable.Obliterate.{obliterate}
use lore_stack.Immutable.Others.{obliterate-others}
use lore_stack.Immutable.Shared.{obliterate-shared}
use lore_stack.Immutable.Interrupted.{obliterate-interrupted}
use lore_stack.Immutable.Durable.{IsDurable, HasRow, HasObject}
use lore_stack.Immutable.Durable.Calls.{Call, run, run-IsDurable}
use lore_stack.Examples.Bucket.{
  backend, file, up, home, away, address, bytes, empty, full, file-InRange,
}

-- The file, in two partitions.
abbrev both : Stored backend
both = record full {
  associations =
      (record { hash = 7 ∷ []; repository = home; context = 8 ∷ [] }, tt)
      ∷ (record { hash = 7 ∷ []; repository = away; context = 8 ∷ [] }, tt)
      ∷ [];
}

-- The object is deleted, and the answer is lost.
abbrev unlucky : World (Stored backend)
unlucky = world both empty (answered ∷ answered ∷ answered ∷ lost ∷ [])

away-not_home : away ≢ home
away-not_home e = cc

obliterate-others_example :
    let v = (obliterate backend up false 1 home address unlucky).1 in
    (entry backend up away address v.committed ≡ entry backend up away address both)
    × (entry backend up away address both ≡ some tt
        → v.committed.objects (7 ∷ []) ≡ both.objects (7 ∷ []))
obliterate-others_example =
    obliterate-others backend up false 1 home away address address unlucky away-not_home

apart : association home address ≢ association away address
apart e = cc

obliterate-shared_example :
    let o = obliterate backend up false 1 home address (world both empty []) in
    (o.0 ≡ ok tt)
    × (entry backend up home address o.1.committed ≡ none)
    × ((get backend up false away address o.1).0 ≡ ok (whole backend up away file bytes))
obliterate-shared_example =
    obliterate-shared backend up false 0 home away bytes address address file both empty
      file-InRange refl refl refl refl refl refl apart
      (record { associated = refl; row = refl; object = refl })

busy-InRange : InRange (record { flags = 5; size_payload = 3; size_content = 10 })
busy-InRange = record {
  flags = omega arith;
  size_payload = omega arith;
  size_content = omega arith;
}

-- The count of the associations is refused, when one of the two is gone already.
obliterate-interrupted_example :
    let first = obliterate backend up false 1 home address (
      world both empty (
        answered ∷ answered ∷ answered ∷ answered ∷ answered ∷ answered ∷ answered ∷ refused
        ∷ [])) in
    let left = first.1.committed in
    (obliterate backend up false 2 away address (world left empty [])
      ≡ (ok tt, world left empty []))
    × (c : Address) × (c.hash ≡ 7 ∷ [])
    × ((get backend up false away address (world left empty [])).0 ≡ err (address_not_found c))
unfolding obliterate metadata_with_size_validation checkout auto metadata_row update_metadata_cas
    remove_association has_associations
obliterate-interrupted_example =
    obliterate-interrupted backend up false 0 1 home away address address file both empty
      (answered ∷ answered ∷ answered ∷ refused ∷ []) (internal Cause.count_associations)
      file-InRange busy-InRange refl refl refl refl refl refl refl (λ p. cc) refl

abbrev other_bytes : Bytes
other_bytes = 1 ∷ 2 ∷ []

abbrev other_file : Fragment
other_file = record { flags = 0; size_payload = 2; size_content = 2 }

other-InRange : InRange other_file
other-InRange = record {
  flags = omega arith;
  size_payload = omega arith;
  size_content = omega arith;
}

get-put_elsewhere_example :
    (get backend up false home address
      (put backend up false away address other_file (some other_bytes) (world full empty [])).1).0
    ≡ ok (whole backend up home other_file other_bytes)
get-put_elsewhere_example =
    get-put_elsewhere backend up false false away home other_bytes address address other_file
      other_file full empty refl other-InRange refl refl refl refl refl refl refl

-- A put whose COMMIT is lost, a copy and an obliteration that is cut short.
abbrev calls : List Call
calls =
    Call.put away address file (some bytes)
    ∷ Call.copy home address away (9 ∷ [])
    ∷ Call.obliterate 2 home address
    ∷ Call.get away address
    ∷ []

pub full-IsDurable : IsDurable backend up full
full-IsDurable j h = go (association_eq.beq (association home address) j) refl h
  where
    rests : HasRow backend up (7 ∷ []) full × HasObject backend up (7 ∷ []) full
    rests = ((metadata_row file, refl), (bytes, refl))

    go :
        (x : Bool)
        → association_eq.beq (association home address) j ≡ x
        → (if x then some tt else none) ≡ some (tt {0})
        → HasRow backend up j.hash full × HasObject backend up j.hash full
    go true e q =
        subst (λ h. HasRow backend up h full × HasObject backend up h full)
          (ap (λ k. k.hash) ((association_eq.beq_iff (association home address) j).0 e)) rests
    go false e q = cc

run-IsDurable_example :
    IsDurable backend up
      (run backend up false calls
        (world full empty (answered ∷ answered ∷ lost ∷ answered ∷ refused ∷ []))).committed
run-IsDurable_example =
    run-IsDurable backend up false calls
      (world full empty (answered ∷ answered ∷ lost ∷ answered ∷ refused ∷ [])) full-IsDurable
