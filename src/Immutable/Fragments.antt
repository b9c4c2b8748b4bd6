-- ===== src/Immutable/Fragments.antt =====
-- Fragments through the metadata columns, and payloads through the bucket.
use lore_stack.Common.{
  ℕ, zero, suc, ◌+◌, ◌-◌, ◌%◌, ◌++◌, ◌≡◌, ◌<◌, ◌^◌, ap, sym, ◌∙◌, Bool, List, [], ◌∷◌, Bytes,
  length, arith, length-append,
}
use mathlib.Core.List.{append-nil, append_assoc}
use lore_stack.Common.Int.{i64_as_u64-u64_as_i64}
use lore_stack.Sql.World.{ok, checkout}
use lore_stack.Sql.Triple.{world}
use lore_stack.Immutable.Types.{Fragment, Upstream, Backend, Stored, flatten}
use lore_stack.Immutable.Index.{metadata_row, fragment_of_row}
use lore_stack.Immutable.Payload.{drop, read_chunks, read_payload}

-- The values that `Fragment`'s fields hold.
pub record InRange (f : Fragment) : Type 0 where
  pub flags : f.flags < 2 ^ 32
  pub size_payload : f.size_payload < 2 ^ 32
  pub size_content : f.size_content < 2 ^ 64

-- A fragment whose fields are in the range of their types comes back from the BIGINT columns as
-- it was written, sizes of 2^63 and more included.
pub fragment_of_row-metadata_row : (f : Fragment) → InRange f → fragment_of_row (metadata_row f) ≡ f
unfolding fragment_of_row metadata_row
fragment_of_row-metadata_row f r = λ i. record {
  flags = (let e : f.flags % 2 ^ 64 % 2 ^ 32 ≡ f.flags = omega (arith, r.flags) in e) i;
  size_payload =
      (let e : f.size_payload % 2 ^ 64 % 2 ^ 32 ≡ f.size_payload = omega (arith, r.size_payload) in
          e)
        i;
  size_content = i64_as_u64-u64_as_i64 f.size_content r.size_content i;
}

length-drop : (n : ℕ) (bs : Bytes) → length (drop n bs) ≡ length bs - n
length-drop zero bs = omega arith
length-drop (suc n) [] = omega arith
length-drop (suc n) (b ∷ bs) = omega (arith, length-drop n bs)

module _ (b : Backend) (up : Upstream) where
  -- A payload that is returned has the size that the metadata promise.
  length-read_payload :
      (force_write : Bool) (bytes payload : Bytes) (f : Fragment)
      → read_payload b up force_write bytes f ≡ ok payload
      → length payload ≡ f.size_payload
  unfolding read_payload
  length-read_payload force_write bytes payload f h = ground arith

  -- An object of the promised size is returned as it is; one that is longer by a header loses
  -- the header, in migration mode only; any other is an error.
  pub read_payload_exact :
      (force_write : Bool) (bytes : Bytes) (f : Fragment)
      → length bytes ≡ f.size_payload
      → read_payload b up force_write bytes f ≡ ok bytes
  unfolding read_payload
  read_payload_exact force_write bytes f h = ground arith

  -- A body that arrives whole is the concatenation of its chunks.
  pub read_chunks-flatten :
      (buffer : Bytes) (read : ℕ) (cs : List Bytes) (c t : Stored b)
      → read_chunks b up buffer read cs (world c t [])
        ≡ (ok (buffer ++ flatten cs, read + length (flatten cs)), world c t [])
  unfolding read_chunks checkout
  read_chunks-flatten buffer read [] c t =
      ap (λ x. (ok x, world c t []))
        (λ i. (sym (append-nil buffer) i, (let e : read ≡ read + 0 = omega arith in e) i))
  read_chunks-flatten buffer read (d ∷ cs) c t =
      read_chunks-flatten (buffer ++ d) (read + length d) cs c t
      ∙ ap (λ x. (ok x, world c t []))
          (λ i. (
            append_assoc buffer d (flatten cs) i,
            (let e : read + length d + length (flatten cs) ≡ read + length (d ++ flatten cs) =
                    omega (arith, length-append d (flatten cs)) in
                  e)
                i,
          ))
