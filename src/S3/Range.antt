-- ===== src/S3/Range.antt =====
-- What a service that follows RFC 9110 makes of the range that get_object of lore-pg/src/s3.rs
-- asks for.
use lore_stack.Common.{
  ℕ, zero, suc, String, ◌≡◌, ◌<◌, ◌+◌, ◌-◌, ◌++◌, ap, sym, ◌∙◌, Option, none, some, [], ◌∷◌, Bytes,
  length, ltb, arith, if◌then◌else◌,
}
use lore_stack.Common.Eq.{◌==◌, nat_eq}
use lore_stack.Common.Decimal.{decimal, number, number-decimal}
use lore_stack.Sql.World.{ok}
use lore_stack.Observe.{Telemetry}
use lore_stack.S3.Types.{Request, Sdk}
use lore_stack.S3.Client.{unit_bytes, range_header, map_err, call, get_object}
use mathlib.Core.List.{append-nil}

abbrev pub drop : ℕ → Bytes → Bytes
drop zero bs = bs
drop (suc n) [] = []
drop (suc n) (b ∷ bs) = drop n bs

abbrev pub take : ℕ → Bytes → Bytes
take zero bs = []
take (suc n) [] = []
take (suc n) (b ∷ bs) = b ∷ take n bs

abbrev last_byte : ℕ → ℕ × Bytes → Option (ℕ × ℕ)
last_byte first (last, []) = some (first, last)
last_byte first (last, c ∷ cs) = none

abbrev dash : ℕ × Bytes → Option (ℕ × ℕ)
dash (first, []) = none
dash (first, c ∷ cs) = if c == 45 then last_byte first (number 0 cs) else none

-- What follows the prefix.
abbrev strip_prefix : Bytes → Bytes → Option Bytes
strip_prefix [] cs = some cs
strip_prefix (p ∷ ps) [] = none
strip_prefix (p ∷ ps) (c ∷ cs) = if p == c then strip_prefix ps cs else none

abbrev first_byte : Option Bytes → Option (ℕ × ℕ)
first_byte none = none
first_byte (some cs) = dash (number 0 cs)

-- `bytes=first-last`, both inclusive.
abbrev bytes_range : Bytes → Option (ℕ × ℕ)
bytes_range header = first_byte (strip_prefix (98 ∷ 121 ∷ 116 ∷ 101 ∷ 115 ∷ 61 ∷ []) header)

-- Of a range that it may ignore or refuse, such as one that ends before it begins, nothing is
-- said.
abbrev satisfied : Option (ℕ × ℕ) → Bytes → Option Bytes
satisfied none body = none
satisfied (some (first, last)) body =
    if ltb last first
    then none
    else if ltb first (length body)
    then some (take (last + 1 - first) (drop first body))
    else none

-- What the service has to answer.
abbrev pub served : Option Bytes → Bytes → Option Bytes
served none body = some body
served (some header) body = satisfied (bytes_range header) body

bytes_range-decimal :
    (first last : ℕ)
    → bytes_range (unit_bytes ++ decimal first ++ 45 ∷ decimal last) ≡ some (first, last)
bytes_range-decimal first last =
    ap dash (number-decimal first (45 ∷ decimal last))
    ∙ ap (last_byte first)
        (ap (number 0) (sym (append-nil (decimal last))) ∙ number-decimal last [])

range_header-served :
    (start end : ℕ) (body : Bytes)
    → start < end
    → start < length body
    → served (range_header (some (start, end))) body ≡ some (take (end - start) (drop start body))
range_header-served start end body some_bytes inside =
    ap (λ r. satisfied r body) (bytes_range-decimal start (end - 1))
    ∙ within
    ∙ ap (λ n. some (take n (drop start body))) (omega arith)
  where
    within :
        satisfied (some (start, end - 1)) body ≡ some (take (end - 1 + 1 - start) (drop start body))
    within = ground arith

module _ (sdk : Sdk) (telemetry : Telemetry) (slow_operation_duration : ℕ)
    (contents : (r : Request) → sdk.Output r → Bytes) where
  -- With a service that answers valid ranges as RFC 9110 says, whatever it makes of other ones:
  -- `get_object` of a half-open range that is not empty and begins inside the object returns
  -- exactly its bytes.
  pub get_object-range :
      (bucket key : String) (start end : ℕ) (body : Bytes) (s : sdk.Service)
      → ((header : Option Bytes) (bytes : Bytes)
          → served header body ≡ some bytes
          → (o : sdk.Output (Request.get_object bucket key header)) × ((sdk.send
                (Request.get_object bucket key header)
                s).0.result
              ≡ ok o)
            × (contents (Request.get_object bucket key header) o ≡ bytes))
      → start < end
      → start < length body
      → (o : sdk.Output (Request.get_object bucket key (range_header (some (start, end)))))
        × ((get_object sdk telemetry slow_operation_duration bucket key
              (some (start, end))
              s).0.output
            ≡ ok o)
        × (contents (Request.get_object bucket key (range_header (some (start, end)))) o
            ≡ take (end - start) (drop start body))
  unfolding get_object call
  get_object-range bucket key start end body s serves some_bytes inside =
      let (o, sent, bytes) =
        serves (range_header (some (start, end))) _
          (range_header-served start end body some_bytes inside) in
      (o, ap map_err sent, bytes)
