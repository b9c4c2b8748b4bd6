-- ===== src/Mutable/Keys.antt =====
-- Typed keys: key types never share a key, and the range of a key type is what it means.
use lore_stack.Common.{
  ℕ, zero, suc, ◌≡◌, ◌↔◌, ◌<◌, refl, ap, true, [], ◌∷◌, All, Bytes, length, arith, ◌&&◌,
}
use lore_stack.Mutable.Types.{Upstream}
use lore_stack.Mutable.Store.{fill, bytes_le, typed_key, in_range}

-- The first byte, and the rest.
abbrev pub head_or : ℕ → Bytes → ℕ
head_or d [] = d
head_or d (b ∷ bs) = b

module _ (up : Upstream) where
  open up use {KeyType, code, code-injective}

  -- Typed keys of two hashes of 32 bytes are equal only for one key type.
  pub typed_key-isolates :
      (k k' : Bytes) (s t : KeyType)
      → length k ≡ 32
      → length k' ≡ 32
      → typed_key up k s ≡ typed_key up k' t
      → s ≡ t
  unfolding typed_key
  typed_key-isolates [] k' s t h h' e = absurd (omega arith)
  typed_key-isolates (b ∷ bs) [] s t h h' e = absurd (omega arith)
  typed_key-isolates (b ∷ bs) (b' ∷ bs') s t h h' e = code-injective s t (ap (head_or 0) e)

-- Nothing precedes zeros of the same length, and nothing follows 0xff bytes.
zeros_le : (n : ℕ) (bs : Bytes) → length bs ≡ n → bytes_le (fill n 0) bs ≡ true
unfolding bytes_le
zeros_le zero bs h = refl
zeros_le (suc n) [] h = absurd (omega arith)
zeros_le (suc n) (b ∷ bs) h = ground (arith, zeros_le n bs)

le_full :
    (n : ℕ) (bs : Bytes) → length bs ≡ n → All (λ b. b < 256) bs → bytes_le bs (fill n 0xff) ≡ true
unfolding bytes_le
le_full n [] h small = refl
le_full zero (b ∷ bs) h small = absurd (omega arith)
le_full (suc n) (b ∷ bs) h small = ground (arith, le_full n bs)

range_iff :
    (n c b : ℕ) (bs : Bytes)
    → length bs ≡ n
    → All (λ d. d < 256) bs
    → (bytes_le (c ∷ fill n 0) (b ∷ bs) && bytes_le (b ∷ bs) (c ∷ fill n 0xff) ≡ true) ↔ (b ≡ c)
unfolding bytes_le
range_iff n c b bs h small = ground (arith, zeros_le n bs h, le_full n bs h small)

module _ (up : Upstream) where
  open up use {KeyType, code}

  -- For a key of 32 bytes the range test of `list` is a test of the first byte.
  pub in_range_iff :
      (t : KeyType) (b : ℕ) (bs : Bytes)
      → length (b ∷ bs) ≡ 32
      → All (λ c. c < 256) bs
      → (in_range up t (b ∷ bs) ≡ true) ↔ (b ≡ code t)
  unfolding in_range
  in_range_iff t b bs h small = range_iff 31 (code t) b bs (omega arith) small
