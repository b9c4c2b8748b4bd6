-- ===== src/Observe/Labels.antt =====
-- What the callback of lore-pg/src/lib.rs records of an operation.
use lore_stack.Common.{
  ℕ, String, ◌≡◌, ap, refl, Bool, true, false, Option, none, some, List, [], ◌∷◌, if◌then◌else◌,
  ◌++◌, ◌||◌, ltb,
}
use lore_stack.Sql.World.{Result, ok, err}
use lore_stack.Observe.{
  SdkError, Telemetry, KeyValue, Value, Warning, DispatchFailure, dispatch_kind, kind_of,
  code_label, slow_warnings, observe_aws_operation_callback,
}

abbrev same_warning : Warning → Warning → Bool
same_warning Warning.non_service_error Warning.non_service_error = true
same_warning Warning.slow_operation Warning.slow_operation = true
same_warning Warning.bucket_check_failed Warning.bucket_check_failed = true
same_warning _ _ = false

abbrev pub logs : Warning → List Warning → Bool
logs w [] = false
logs w (v ∷ vs) = same_warning w v || logs w vs

abbrev pub is_none : Option String → Bool
is_none none = true
is_none (some c) = false

-- The name that an error without a code is recorded by.
pub data IsKind {E : Type 0} : SdkError E → String → Type 0 where
  timeout : IsKind SdkError.timeout_error "SdkTimeoutError"
  io :
      {d : DispatchFailure}
      → d.is_io ≡ true
      → IsKind (SdkError.dispatch_failure d) "DispatchFailure_IO"
  dispatch_timeout :
      {d : DispatchFailure}
      → d.is_io ≡ false
      → d.is_timeout ≡ true
      → IsKind (SdkError.dispatch_failure d) "DispatchFailure_Timeout"
  dispatch_other :
      {d : DispatchFailure}
      → d.is_io ≡ false
      → d.is_timeout ≡ false
      → d.is_other ≡ true
      → IsKind (SdkError.dispatch_failure d) "DispatchFailure_Other"
  dispatch :
      {d : DispatchFailure}
      → d.is_io ≡ false
      → d.is_timeout ≡ false
      → d.is_other ≡ false
      → IsKind (SdkError.dispatch_failure d) "DispatchFailure"
  service : {e : E} → IsKind (SdkError.service_error e) "<unknown>"
  rest : IsKind SdkError.other "<unknown>"

-- The code of the service, or else the kind of the error.
abbrev IsCode : {E : Type 0} → SdkError E → Option String → String → Type 0
IsCode e none v = IsKind e v
IsCode e (some c) v = v ≡ c

abbrev slow_label : Bool → KeyValue
slow_label b = record { key = "slow"; value = Value.flag b }

-- The labels that are pushed for a result, which took too long or not.
abbrev pub IsLabelled :
    {T E : Type 0}
    → (SdkError E → Option String)
    → Result (SdkError E) T
    → Bool
    → List KeyValue
    → Type 0
IsLabelled code (ok output) b pushed = pushed ≡ slow_label b ∷ []
IsLabelled code (err e) b pushed =
    (v : String) × IsCode e (code e) v
    × (pushed ≡ record { key = "aws_code"; value = Value.text v } ∷ slow_label b ∷ [])

dispatch_kind-IsKind :
    {E : Type 0} (d : DispatchFailure)
    → IsKind {E = E} (SdkError.dispatch_failure d) (dispatch_kind d)
dispatch_kind-IsKind {E} d = go d.is_io d.is_timeout d.is_other refl refl refl
  where
    go :
        (x y z : Bool)
        → d.is_io ≡ x
        → d.is_timeout ≡ y
        → d.is_other ≡ z
        → IsKind {E = E} (SdkError.dispatch_failure d) (
            if x
            then "DispatchFailure_IO"
            else if y
            then "DispatchFailure_Timeout"
            else if z
            then "DispatchFailure_Other"
            else "DispatchFailure")
    go true y z a c o = IsKind.io a
    go false true z a c o = IsKind.dispatch_timeout a c
    go false false true a c o = IsKind.dispatch_other a c o
    go false false false a c o = IsKind.dispatch a c o

kind_of-IsKind : {E : Type 0} (e : SdkError E) → IsKind e (kind_of e)
kind_of-IsKind SdkError.timeout_error = IsKind.timeout
kind_of-IsKind (SdkError.dispatch_failure d) = dispatch_kind-IsKind d
kind_of-IsKind (SdkError.service_error e) = IsKind.service
kind_of-IsKind SdkError.other = IsKind.rest

abbrev unnamed : {T E : Type 0} → (SdkError E → Option String) → Result (SdkError E) T → Bool
unnamed code (ok output) = false
unnamed code (err e) = is_none (code e)

logs_slow : (b : Bool) → logs Warning.slow_operation (slow_warnings b) ≡ b
logs_slow true = refl
logs_slow false = refl

other_slow : (b : Bool) → logs Warning.non_service_error (slow_warnings b) ≡ false
other_slow true = refl
other_slow false = refl

-- The label and the warnings of an error.
unnamed_logs :
    {E : Type 0} (e : SdkError E) (o : Option String) (b : Bool)
    → (logs Warning.slow_operation ((code_label e o).1 ++ slow_warnings b) ≡ b)
      × (logs Warning.non_service_error ((code_label e o).1 ++ slow_warnings b) ≡ is_none o)
      × (v : String) × IsCode e o v
      × ((code_label e o).0 ≡ record { key = "aws_code"; value = Value.text v })
unnamed_logs e none b = (logs_slow b, refl, kind_of e, kind_of-IsKind e, refl)
unnamed_logs e (some c) b = (logs_slow b, other_slow b, c, refl, refl)

module _ {T E : Type 0} (telemetry : Telemetry) (code : SdkError E → Option String) where
  -- The callback keeps the labels of `observe_result`. It adds for an error the label aws_code
  -- with its code, or else the name of its kind, and then whether the operation was slow, which
  -- it is exactly if the threshold is passed; it logs a slow operation exactly then, and a
  -- non-service error exactly for an error without a code.
  pub observe_labels :
      (threshold : ℕ) (result : Result (SdkError E) T) (elapsed : ℕ) (labels : List KeyValue)
      → (pushed : List KeyValue) × ((observe_aws_operation_callback telemetry code threshold result
            elapsed labels).0
          ≡ telemetry.observe_result result elapsed labels ++ pushed)
        × IsLabelled code result (ltb threshold elapsed) pushed
        × (logs Warning.slow_operation
              (observe_aws_operation_callback telemetry code threshold result elapsed labels).1
            ≡ ltb threshold elapsed)
        × (logs Warning.non_service_error
              (observe_aws_operation_callback telemetry code threshold result elapsed labels).1
            ≡ unnamed code result)
  unfolding observe_aws_operation_callback
  observe_labels threshold (ok output) elapsed labels = (
    slow_label (ltb threshold elapsed) ∷ [],
    refl,
    refl,
    logs_slow (ltb threshold elapsed),
    other_slow (ltb threshold elapsed),
  )
  observe_labels threshold (err e) elapsed labels =
      let (slow, unnamed, v, coded, label) = unnamed_logs e (code e) (ltb threshold elapsed) in
      (
        (code_label e (code e)).0 ∷ slow_label (ltb threshold elapsed) ∷ [],
        refl,
        (v, coded, ap (λ l. l ∷ slow_label (ltb threshold elapsed) ∷ []) label),
        slow,
        unnamed,
      )
