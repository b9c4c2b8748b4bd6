-- ===== src/Immutable/Descend.antt =====
-- What the walk of obliterate of lore-pg/src/store/pg_immutable_store.rs through the sub-fragments
-- keeps.
use Prim.Native.Nat.{bit_and}
use lore_stack.Common.{
  ◌++◌, ℕ, ◌+◌, Bool, false, Option, some, none, List, [], ◌∷◌, Bytes, length, ◌||◌,
}
use lore_stack.Common.Eq.{◌==◌, nat_eq, list_eq}
use lore_stack.Sql.Triple.{Triple-bind}
use lore_stack.Immutable.Types.{Address, slow_down, Fragment, Upstream, Backend, Stored}
use lore_stack.Immutable.Index.{Store}
use lore_stack.Immutable.Payload.{
  get_s3_object_contents, read_payload, read_chunks, get_object, body,
}
use lore_stack.Immutable.Obliterate.{sub_fragments, each_failed, failed}
use lore_stack.Immutable.Keeps.{
  Keeps, Keeps-checkout, Keeps-auto, Keeps-pure, Keeps-raise, Keeps-from_result, Keeps-if,
  Keeps-attempt,
}

module _ (b : Backend) (up : Upstream) (force_write : Bool) (P : Stored b → Type 0) where
  Keeps-read_chunks :
      (buffer : Bytes) (read : ℕ) (cs : List Bytes) → Keeps b P (read_chunks b up buffer read cs)
  unfolding read_chunks
  Keeps-read_chunks buffer read [] = Keeps-pure b P (buffer, read)
  Keeps-read_chunks buffer read (c ∷ cs) =
      Triple-bind (Keeps-checkout b P _) (λ u. Keeps-read_chunks (buffer ++ c) (read + length c) cs)

  Keeps-body : (hash : Bytes) (found : Option Bytes × List Bytes) → Keeps b P (body b up hash found)
  Keeps-body hash (none, cs) = Keeps-raise b P _
  Keeps-body hash (some v, cs) = Keeps-read_chunks [] 0 cs

  Keeps-each_failed :
      (body : Address → Store b (Unit {0}))
      → ((a : Address) → Keeps b P (body a))
      → (context : Bytes) (hashes : List Bytes)
      → Keeps b P (each_failed b up force_write body context hashes)
  unfolding each_failed
  Keeps-each_failed body keeps context [] = Keeps-pure b P false
  Keeps-each_failed body keeps context (h ∷ hs) =
      Triple-bind (Keeps-attempt b P up _ (keeps (record { hash = h; context = context }))) (λ r.
        Triple-bind (Keeps-each_failed body keeps context hs)
          (λ rest. Keeps-pure b P (failed b up force_write r || rest)))

  pub Keeps-contents : (hash : Bytes) → Keeps b P (get_s3_object_contents b up hash)
  unfolding get_s3_object_contents
  Keeps-contents hash =
      Triple-bind (Keeps-auto b P slow_down (get_object b up hash) (λ s h. h))
        (λ found. Keeps-body hash found)

  pub Keeps-sub_fragments :
      (body : Address → Store b (Unit {0}))
      → ((a : Address) → Keeps b P (body a))
      → (address : Address) (original updated : Fragment)
      → Keeps b P (sub_fragments b up force_write body address original updated)
  unfolding sub_fragments
  Keeps-sub_fragments body keeps address original updated =
      Keeps-if b P (bit_and updated.flags up.payload_fragmented == 0) _ _ (Keeps-pure b P tt) (
        Triple-bind (Keeps-contents address.hash) (λ contents.
          Triple-bind (Keeps-from_result b P (read_payload b up force_write contents.0 original))
            (λ payload.
              Triple-bind (Keeps-each_failed body keeps address.context (up.references payload))
                (λ failures. Keeps-if b P failures _ _ (Keeps-raise b P _) (Keeps-pure b P tt)))))
