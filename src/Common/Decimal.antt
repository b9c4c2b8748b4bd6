-- ===== src/Common/Decimal.antt =====
-- Numbers in decimal, as Rust's `Display` prints and `FromStr` reads a `usize`.
use Prim.Native.Nat.{ℕ, zero, suc, ◌+◌, ◌-◌, ◌*◌, ◌/◌, ◌%◌, ◌^◌, ◌<◌}
use mathlib.Core.Path.{◌≡◌, refl, sym, ap, ◌∙◌}
use mathlib.Core.Logic.{◌⊎◌, inl, inr}
use mathlib.Core.Bool.{Bool, true, false, ◌&&◌}
use mathlib.Core.Option.{Option, none, some}
use mathlib.Core.List.{[], ◌∷◌, ◌++◌, append_assoc, append-nil}
use native.Mathlib.Omega.{arith}
use lore_stack.Common.Tests.{ltb, leb, nat_beq, if◌then◌else◌, Bool-cases}
use lore_stack.Common.Lists.{Bytes}

abbrev digits : ℕ → ℕ → Bytes
digits zero n = []
digits (suc fuel) n =
    let rest = digits fuel (n / 10) in
    if ltb n 10 then (48 + n) ∷ [] else rest ++ (48 + n % 10) ∷ []

abbrev pub decimal : ℕ → Bytes
decimal n = digits (suc n) n

abbrev is_digit : ℕ → Bool
is_digit c = leb 48 c && leb c 57

-- The number that the digits at the front continue, and what follows them.
abbrev pub number : ℕ → Bytes → ℕ × Bytes
number acc [] = (acc, [])
number acc (c ∷ cs) = if is_digit c then number (acc * 10 + (c - 48)) cs else (acc, c ∷ cs)

abbrev checked : ℕ → Bytes → Option ℕ
checked acc [] = some acc
checked acc (c ∷ cs) =
    if is_digit c && ltb (acc * 10 + (c - 48)) (2 ^ 64)
    then checked (acc * 10 + (c - 48)) cs
    else none

-- `str::parse::<usize>`: an optional plus, then digits, at least one.
abbrev pub parse_usize : Bytes → Option ℕ
parse_usize [] = none
parse_usize (c ∷ []) = checked 0 (c ∷ [])
parse_usize (c ∷ d ∷ cs) = if nat_beq c 43 then checked 0 (d ∷ cs) else checked 0 (c ∷ d ∷ cs)

number_digit :
    (acc d : ℕ) (rest : Bytes) → d < 10 → number acc ((48 + d) ∷ rest) ≡ number (acc * 10 + d) rest
number_digit acc d rest lt = ground arith

number-digits :
    (fuel n : ℕ) (rest : Bytes) → n < fuel → number 0 (digits fuel n ++ rest) ≡ number n rest
number-digits zero n rest lt = absurd (omega arith)
number-digits (suc fuel) n rest lt = elim (Bool-cases (ltb n 10)) [
  | inl small ↦
      rw small (number_digit 0 n rest (ground arith) ∙ ap (λ m. number m rest) (omega arith))
  | inr big ↦ rw big (
      let front : number 0 (digits fuel (n / 10) ++ (48 + n % 10) ∷ rest)
          ≡ number (n / 10) ((48 + n % 10) ∷ rest) =
        number-digits fuel (n / 10) ((48 + n % 10) ∷ rest) (ground arith) in
      ap (number 0) (append_assoc (digits fuel (n / 10)) ((48 + n % 10) ∷ []) rest)
      ∙ front
      ∙ number_digit (n / 10) (n % 10) rest (omega arith)
      ∙ ap (λ m. number m rest) (omega arith))
]

-- Reading back what was printed leaves what follows.
pub number-decimal : (n : ℕ) (rest : Bytes) → number 0 (decimal n ++ rest) ≡ number n rest
number-decimal n rest = number-digits (suc n) n rest (omega arith)

if-some {ℓ} :
    {A : Type ℓ} (b : Bool) (x : Option A) (v : A)
    → (if b then x else none) ≡ some v
    → (b ≡ true) × (x ≡ some v)
if-some true x v e = (refl, e)
if-some false x v e = absurd cc

if_cases {ℓ} : {A : Type ℓ} (b : Bool) (x y z : A) → (if b then x else y) ≡ z → (x ≡ z) ⊎ (y ≡ z)
if_cases true x y z e = inl e
if_cases false x y z e = inr e

checked_bound : (acc : ℕ) (cs : Bytes) (n : ℕ) → acc < 2 ^ 64 → checked acc cs ≡ some n → n < 2 ^ 64
checked_bound acc [] n lt e = ground arith
checked_bound acc (c ∷ cs) n lt e =
    let (fits, rest) = if-some (is_digit c && ltb (acc * 10 + (c - 48)) (2 ^ 64)) _ n e in
    checked_bound (acc * 10 + (c - 48)) cs n (ground arith) rest

pub parse_usize_bound : (cs : Bytes) (n : ℕ) → parse_usize cs ≡ some n → n < 2 ^ 64
parse_usize_bound [] n e = absurd cc
parse_usize_bound (c ∷ []) n e = checked_bound 0 (c ∷ []) n (omega arith) e
parse_usize_bound (c ∷ d ∷ cs) n e = elim (if_cases (nat_beq c 43) _ _ (some n) e) [
  | inl plus ↦ checked_bound 0 (d ∷ cs) n (omega arith) plus
  | inr digit ↦ checked_bound 0 (c ∷ d ∷ cs) n (omega arith) digit
]

checked_digit :
    (acc d : ℕ) (rest : Bytes)
    → d < 10
    → acc * 10 + d < 2 ^ 64
    → checked acc ((48 + d) ∷ rest) ≡ checked (acc * 10 + d) rest
checked_digit acc d rest lt fits = ground arith

checked-digits :
    (fuel n : ℕ) (rest : Bytes)
    → n < fuel
    → n < 2 ^ 64
    → checked 0 (digits fuel n ++ rest) ≡ checked n rest
checked-digits zero n rest lt fits = absurd (omega arith)
checked-digits (suc fuel) n rest lt fits = elim (Bool-cases (ltb n 10)) [
  | inl small ↦
      rw small (
        checked_digit 0 n rest (ground arith) (omega arith)
        ∙ ap (λ m. checked m rest) (omega arith))
  | inr big ↦ rw big (
      ap (checked 0) (append_assoc (digits fuel (n / 10)) ((48 + n % 10) ∷ []) rest)
      ∙ checked-digits fuel (n / 10) ((48 + n % 10) ∷ rest) (ground arith) (omega arith)
      ∙ checked_digit (n / 10) (n % 10) rest (omega arith) (omega arith)
      ∙ ap (λ m. checked m rest) (omega arith))
]

abbrev leads : Bytes → Bool
leads [] = false
leads (c ∷ cs) = is_digit c

leads-append : (cs ds : Bytes) → leads cs ≡ true → leads (cs ++ ds) ≡ true
leads-append [] ds e = absurd cc
leads-append (c ∷ cs) ds e = e

leads-digits : (fuel n : ℕ) → n < fuel → leads (digits fuel n) ≡ true
leads-digits zero n lt = absurd (omega arith)
leads-digits (suc fuel) n lt = elim (Bool-cases (ltb n 10)) [
  | inl small ↦ rw small (ground arith)
  | inr big ↦
      rw big (leads-append (digits fuel (n / 10)) _ (leads-digits fuel (n / 10) (ground arith)))
]

parse_usize-leads : (cs : Bytes) → leads cs ≡ true → parse_usize cs ≡ checked 0 cs
parse_usize-leads [] e = absurd cc
parse_usize-leads (c ∷ []) e = refl
parse_usize-leads (c ∷ d ∷ cs) e = let plain : nat_beq c 43 ≡ false = ground arith in rw plain refl

-- What `Display` prints of a `usize` reads back as it.
pub parse_usize-decimal : (n : ℕ) → n < 2 ^ 64 → parse_usize (decimal n) ≡ some n
parse_usize-decimal n fits =
    parse_usize-leads (decimal n) (leads-digits (suc n) n (omega arith))
    ∙ ap (checked 0) (sym (append-nil (decimal n)))
    ∙ checked-digits (suc n) n [] (omega arith) fits
