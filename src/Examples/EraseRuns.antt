-- ===== src/Examples/EraseRuns.antt =====
-- Runs of obliterations at once.
use lore_stack.Common.{ℕ, ◌≡◌, refl, false, none, some, [], ◌∷◌}
use lore_stack.Common.Family.{update}
use lore_stack.Sql.World.{ok}
use lore_stack.Sql.Triple.{world}
use lore_stack.Immutable.Types.{Stored}
use lore_stack.Immutable.Index.{metadata_row}
use lore_stack.Immutable.Store.{put}
use lore_stack.Immutable.Writes.{entry}
use lore_stack.Immutable.Erase.{replaced, swapped, validated}
use lore_stack.Immutable.Obliterate.{obliterating_row}
use lore_stack.Immutable.Sessions.{
  Erasure, Pc, Move, System, Step, Reach, Leads, start, later, outside,
}
use lore_stack.Immutable.Races.{put-lost}
use lore_stack.Immutable.Exclusive.{mark-excludes}
use lore_stack.Immutable.Durable.{IsDurable}
use lore_stack.Immutable.Together.{sessions-IsDurable}
use lore_stack.Examples.Bucket.{backend, up, home, away, address, bytes, full, file, file-InRange}
use lore_stack.Examples.Bits.{bit_or-one_marks}
use lore_stack.Examples.ObliterateRuns.{home-IsLast}
use lore_stack.Examples.StoreRuns.{full-IsDurable}

abbrev removal : Erasure
removal = record { partition = home; address = address }

put-lost_example :
    (u t : System backend up false) × (v : Stored backend) × Leads backend up false
      (outside backend up false full)
      u
    × (put backend up false away address file (some bytes) (world u.stored u.stored [])
        ≡ (ok tt, world v v []))
    × Leads backend up false (record { stored = v; pc = u.pc }) t
    × (entry backend up away address t.stored ≡ some tt)
    × (backend.bucket.object t.stored.objects (7 ∷ []) ≡ none)
put-lost_example =
    put-lost backend up false removal file full file-InRange refl refl refl refl home-IsLast away
      bytes address file file refl refl refl refl refl

-- What is stored once the mark is set.
abbrev marked_full : Stored backend
marked_full = record full {
  rows = replaced backend up false (7 ∷ []) (obliterating_row backend up false file) file full.rows;
}

abbrev after_mark : System backend up false
after_mark = record {
  stored = marked_full;
  pc = update (update (λ i. Pc.idle) 0 (Pc.read removal file)) 0 (Pc.marked removal file);
}

after_mark-Reach : Reach backend up false full after_mark
after_mark-Reach =
    let read : Move backend up false full Pc.idle full (Pc.read removal file) =
      Move.read removal (validated backend up false (7 ∷ []) file full full file-InRange refl refl)
        refl refl in
    let mark : Move backend up false full (Pc.read removal file) marked_full
        (Pc.marked removal file) =
      Move.mark (
        swapped backend up false (7 ∷ []) (obliterating_row backend up false file) file full full
          refl) in
    later (later start (Step.turn 0 read)) (Step.turn 0 mark)

mark-excludes_example :
    ◌≡◌ {A = ℕ} 0 0
    × (backend.metadata.find marked_full.rows (7 ∷ [])
        ≡ some (metadata_row (obliterating_row backend up false file)))
mark-excludes_example =
    mark-excludes backend up false bit_or-one_marks 0 0 removal removal file file after_mark-Reach
      refl refl refl

sessions-IsDurable_example : IsDurable backend up marked_full
sessions-IsDurable_example = sessions-IsDurable backend up false after_mark-Reach full-IsDurable
