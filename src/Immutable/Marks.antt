-- ===== src/Immutable/Marks.antt =====
-- The rows that obliterate of lore-pg/src/store/pg_immutable_store.rs has not marked.
use Prim.Native.Nat.{bit_and, bit_or}
use lore_stack.Common.Int.{i64_as_u64}
use lore_stack.Sql.Table.{satisfies, affected}
use lore_stack.Common.{
  ◌%◌, ℕ, ◌<◌, ◌≤◌, ◌^◌, ◌≡◌, refl, ap, sym, subst, ◌∙◌, inl, inr, Bool, true, false, some, List,
  [], ◌∷◌, Bytes, length, arith, Bool-cases, if◌then◌else◌, not, ◌||◌,
}
use lore_stack.Common.Eq.{◌==◌, nat_eq, list_eq}
use lore_stack.Immutable.Types.{Fragment, MetadataRow, Upstream, Backend, Stored, bytes_eq}
use lore_stack.Immutable.Index.{metadata_row, fragment_of_row, same_row, is_obliteration}
use lore_stack.Immutable.Obliterate.{obliterating_row}
use lore_stack.Immutable.Requests.{rewritten}

abbrev pub has : List Bytes → Bytes → Bool
has [] h = false
has (x ∷ xs) h = bytes_eq.beq x h || has xs h

-- The list without an element.
abbrev pub without : Bytes → List Bytes → List Bytes
without h [] = []
without h (x ∷ xs) = let rest = without h xs in if bytes_eq.beq h x then rest else x ∷ rest

has-without :
    (h x : Bytes) (xs : List Bytes)
    → has xs x ≡ true
    → bytes_eq.beq h x ≡ false
    → has (without h xs) x ≡ true
has-without h x [] m apart = m
has-without h x (y ∷ ys) m apart =
    ground
      (arith, has-without h x ys, bytes_eq.beq_iff h y, bytes_eq.beq_iff y x, bytes_eq.beq_iff h x)

length-without_le : (h : Bytes) (xs : List Bytes) → length (without h xs) ≤ length xs
length-without_le h [] = omega arith
length-without_le h (x ∷ xs) = ground (arith, length-without_le h xs)

length-without : (h : Bytes) (xs : List Bytes) → has xs h ≡ true → length (without h xs) < length xs
length-without h [] m = absurd cc
length-without h (x ∷ xs) m =
    ground (
      arith,
      length-without h xs,
      length-without_le h xs,
      bytes_eq.beq_iff h x,
      bytes_eq.beq_iff x h,
    )

true-false : {x : Bool} → x ≡ true → x ≡ false → ⊥
true-false h k = cc (h, k)

module _ (b : Backend) (up : Upstream) (force_write : Bool)
    (bounded : (n : ℕ) → n < 2 ^ 32 → bit_or n up.payload_obliterating < 2 ^ 32)
    (marks : (n : ℕ)
      → n < 2 ^ 32
      → (bit_and (bit_or n up.payload_obliterating) up.payload_obliteration == 0) ≡ false) where
  abbrev unmarked : MetadataRow → Bool
  unmarked r = not (is_obliteration b up (fragment_of_row r))

  -- All rows without a mark of an obliteration are those of the hashes.
  abbrev pub Covers : List Bytes → Stored b → Type 0
  Covers hashes s =
      (h : Bytes) (r : MetadataRow)
      → b.metadata.find s.rows h ≡ some r
      → unmarked r ≡ true
      → has hashes h ≡ true

  abbrev pub Alive : ℕ → Stored b → Type 0
  Alive n s = (hashes : List Bytes) × (length hashes ≤ n) × Covers hashes s

  -- A row that is rewritten is one more at most.
  pub Covers-rewritten :
      (hash : Bytes) (updated expected : Fragment) (hashes : List Bytes) (s : Stored b)
      → Covers hashes s
      → Covers (hash ∷ hashes) (rewritten b up force_write hash updated expected s)
  Covers-rewritten hash updated expected hashes s cover h r at alive = ground (
    arith,
    cover h r,
    b.metadata.find-update_if hash h (λ r. same_row r (metadata_row expected))
        (metadata_row updated) s.rows,
  )

  marked_row :
      (f : Fragment)
      → f.flags < 2 ^ 32
      → unmarked (metadata_row (obliterating_row b up force_write f)) ≡ false
  unfolding fragment_of_row metadata_row
  marked_row f small =
      let low : bit_or f.flags up.payload_obliterating % 2 ^ 64 % 2 ^ 32
          ≡ bit_or f.flags up.payload_obliterating =
        omega (arith, bounded f.flags small) in
      rw (low, marks f.flags small) refl

  -- A row that is marked is one less.
  Covers-marked :
      (hash : Bytes) (f : Fragment) (hashes : List Bytes) (s : Stored b)
      → f.flags < 2 ^ 32
      → satisfies (λ r. same_row r (metadata_row f)) (b.metadata.find s.rows hash) ≡ true
      → Covers hashes s
      → Covers
          (without hash hashes)
          (rewritten b up force_write hash (obliterating_row b up force_write f) f s)
  Covers-marked hash f hashes s small there cover h r at alive =
      elim (Bool-cases (bytes_eq.beq hash h)) [
        | inl y ↦ absurd (
            let same = (bytes_eq.beq_iff hash h).0 y in
            let now : b.metadata.find
                  (rewritten b up force_write hash (obliterating_row b up force_write f) f s).rows h
                ≡ some (metadata_row (obliterating_row b up force_write f)) =
              b.metadata.find-update_if hash h (λ r. same_row r (metadata_row f))
                (metadata_row (obliterating_row b up force_write f)) s.rows
              ∙ rw (y, there) refl in
            let e : r ≡ metadata_row (obliterating_row b up force_write f) = cc (now, at) in
            let off = marked_row f small in
            let on : unmarked (metadata_row (obliterating_row b up force_write f)) ≡ true =
              subst (λ x. unmarked x ≡ true) e alive in
            true-false on off)
        | inr z ↦
            has-without hash h hashes
              (cover h r
                (sym (
                    b.metadata.find-update_if hash h (λ r. same_row r (metadata_row f))
                      (metadata_row (obliterating_row b up force_write f)) s.rows
                    ∙ rw z refl)
                  ∙ at)
                alive)
              z
      ]

  -- One hash fewer covers them.
  abbrev pub Fewer : ℕ → Stored b → Type 0
  Fewer n s = (hashes : List Bytes) × (length hashes < n) × Covers hashes s

  pub Fewer-Alive : (n : ℕ) (s : Stored b) → Fewer n s → Alive n s
  Fewer-Alive n s (hashes, short, cover) = (hashes, omega arith, cover)

  -- The row of the hash is the one that the fragment was read from, and carries no mark.
  abbrev pub Read : Bytes → Fragment → Stored b → Type 0
  Read hash f s =
      (r : MetadataRow) × (b.metadata.find s.rows hash ≡ some r) × (f ≡ fragment_of_row r)

  abbrev pub affects : Bytes → Fragment → Fragment → Stored b → ℕ
  affects hash updated expected s =
      (b.metadata.update_if hash (λ r. same_row r (metadata_row expected)) (metadata_row updated)
        s.rows).0

  small_flags : (hash : Bytes) (f : Fragment) (s : Stored b) → Read hash f s → f.flags < 2 ^ 32
  unfolding fragment_of_row
  small_flags hash f s (r, at, e) =
      subst (λ g. g.flags < 2 ^ 32) (sym e)
        (let low : i64_as_u64 r.flags % 2 ^ 32 < 2 ^ 32 = omega arith in low)

  pub marking :
      (n : ℕ) (hash : Bytes) (f : Fragment) (s : Stored b)
      → Alive n s
      → Read hash f s
      → is_obliteration b up f ≡ false
      → let s' = rewritten b up force_write hash (obliterating_row b up force_write f) f s in
        Alive n s'
        × ((affects hash (obliterating_row b up force_write f) f s == 0) ≡ false → Fewer n s')
  marking n hash f s (hashes, short, cover) (r, at, e) alive =
      elim (Bool-cases
        (satisfies (λ r. same_row r (metadata_row f)) (b.metadata.find s.rows hash))) [
          | inl y ↦
              let here = cover hash r at (ap not (ap (is_obliteration b up) (sym e) ∙ alive)) in
              let fewer : Fewer n
                  (rewritten b up force_write hash (obliterating_row b up force_write f) f s) =
                (
                  without hash hashes,
                  omega (arith, length-without hash hashes here),
                  Covers-marked hash f hashes s (small_flags hash f s (r, at, e)) y cover,
                ) in
              (
                Fewer-Alive n
                    (rewritten b up force_write hash (obliterating_row b up force_write f) f s)
                    fewer,
                λ h. fewer,
              )
          | inr z ↦ (
            (hashes, short, λ h q now. cover h q (sym (same_rows h z) ∙ now)),
            λ h. absurd (
                true-false
                  (ap (λ k. k == 0)
                    (b.metadata.update_if_count hash (λ r. same_row r (metadata_row f))
                        (metadata_row (obliterating_row b up force_write f)) s.rows
                      ∙ ap affected z))
                  h),
          )
        ]
    where
      same_rows :
          (h : Bytes)
          → satisfies (λ r. same_row r (metadata_row f)) (b.metadata.find s.rows hash) ≡ false
          → b.metadata.find
              (rewritten b up force_write hash (obliterating_row b up force_write f) f s).rows
              h
            ≡ b.metadata.find s.rows h
      same_rows h z = ground (
        arith,
        b.metadata.find-update_if hash h (λ r. same_row r (metadata_row f))
            (metadata_row (obliterating_row b up force_write f)) s.rows,
      )
