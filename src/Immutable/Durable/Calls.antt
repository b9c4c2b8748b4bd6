-- ===== src/Immutable/Durable/Calls.antt =====
-- Sequences of calls of the immutable store's methods, whatever becomes of their requests.
use lore_stack.Common.{ℕ, Bool, Option, List, [], ◌∷◌, Bytes}
use lore_stack.Sql.World.{World}
use lore_stack.Immutable.Types.{Address, Fragment, Upstream, Backend, Stored}
use lore_stack.Immutable.Store
use lore_stack.Immutable.Obliterate
use lore_stack.Immutable.Keeps.{always}
use lore_stack.Immutable.Durable.{IsDurable}
use lore_stack.Immutable.Durable.Reading.{get-Keeps, get_metadata-Keeps, query-Keeps}
use lore_stack.Immutable.Durable.Puts.{put-Keeps}
use lore_stack.Immutable.Durable.Copying.{copy-Keeps}
use lore_stack.Immutable.Durable.Erasing.{obliterate-Keeps}

-- The methods' arguments; that of `obliterate` begins with fuel.
pub data Call : Type 0 where
  get : Bytes → Address → Call
  get_metadata : Bytes → Address → Call
  query : Bytes → List Address → Call
  put : Bytes → Address → Fragment → Option Bytes → Call
  copy : Bytes → Address → Bytes → Bytes → Call
  obliterate : ℕ → Bytes → Address → Call

module _ (b : Backend) (up : Upstream) (force_write : Bool) where
  -- What a call leaves, whether it succeeds or fails.
  unfoldable pub perform : Call → World (Stored b) → World (Stored b)
  perform (Call.get p a) w = (Store.get b up force_write p a w).1
  perform (Call.get_metadata p a) w = (Store.get_metadata b up p a w).1
  perform (Call.query p addresses) w = (Store.query b up p addresses w).1
  perform (Call.put p a f payload) w = (Store.put b up force_write p a f payload w).1
  perform (Call.copy p a q context) w = (Store.copy b up p a q context w).1
  perform (Call.obliterate fuel p a) w = (Obliterate.obliterate b up force_write fuel p a w).1

  unfoldable pub run : List Call → World (Stored b) → World (Stored b)
  run [] w = w
  run (call ∷ calls) w = run calls (perform call w)

  perform-IsDurable :
      (call : Call) (w : World (Stored b))
      → IsDurable b up w.committed
      → IsDurable b up (perform call w).committed
  unfolding perform
  perform-IsDurable (Call.get p a) w d =
      always b (IsDurable b up) _ ((get-Keeps b up (IsDurable b up) force_write p a).at w d)
  perform-IsDurable (Call.get_metadata p a) w d =
      always b (IsDurable b up) _ ((get_metadata-Keeps b up (IsDurable b up) p a).at w d)
  perform-IsDurable (Call.query p addresses) w d =
      always b (IsDurable b up) _ ((query-Keeps b up (IsDurable b up) p addresses).at w d)
  perform-IsDurable (Call.put p a f payload) w d =
      always b (IsDurable b up) _ ((put-Keeps b up force_write p a f payload).at w d)
  perform-IsDurable (Call.copy p a q context) w d =
      always b (IsDurable b up) _ ((copy-Keeps b up p a q context).at w d)
  perform-IsDurable (Call.obliterate fuel p a) w d =
      always b (IsDurable b up) _ ((obliterate-Keeps b up force_write fuel p a).at w d)

  -- Whatever becomes of the requests: any sequence of `get`, `get_metadata`, `query`, `put`,
  -- `copy` and `obliterate`, successful or not, leaves a metadata row and an object for the hash
  -- of every association, if there were before.
  pub run-IsDurable :
      (calls : List Call) (w : World (Stored b))
      → IsDurable b up w.committed
      → IsDurable b up (run calls w).committed
  unfolding run
  run-IsDurable [] w d = d
  run-IsDurable (call ∷ calls) w d =
      run-IsDurable calls (perform call w) (perform-IsDurable call w d)
