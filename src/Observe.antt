-- ===== src/Observe.antt =====
-- lore-pg/src/lib.rs and aws_error.rs: the results of the SDK's operations, and the labels and
-- warnings that observe_aws_operation_callback adds for each of them.
pub mod Labels
use lore_stack.Common.{
  ℕ, String, Bool, true, false, Option, none, some, List, [], ◌∷◌, ◌++◌, ltb, if◌then◌else◌,
}
use lore_stack.Sql.World.{Result, ok, err}

pub data AwsError (E : Type 0) : Type 0 where
  aws_sdk_error : E → AwsError E
  missing_keys batch_request_error join_error : AwsError E

-- What the code asks about a request that was not dispatched.
pub record DispatchFailure : Type 0 where
  pub is_io : Bool
  pub is_timeout : Bool
  pub is_other : Bool

-- The kinds of `SdkError` that the code tells apart; `other` is all the rest.
pub data SdkError (E : Type 0) : Type 0 where
  service_error : E → SdkError E
  timeout_error : SdkError E
  dispatch_failure : DispatchFailure → SdkError E
  other : SdkError E

pub data Value : Type 0 where
  text : String → Value
  flag : Bool → Value

pub record KeyValue : Type 0 where
  pub key : String
  pub value : Value

pub data Warning : Type 0 where
  non_service_error slow_operation bucket_check_failed : Warning

-- What an operation of the SDK came to, and how long it took, in nanoseconds.
pub record Reply (T E : Type 0) : Type 0 where
  pub result : Result (SdkError E) T
  pub elapsed : ℕ

-- `observe_result` of lore_telemetry, `code` of aws_smithy_types.
pub record Telemetry : Type 1 where
  pub observe_result : {T E : Type 0} → Result (SdkError E) T → ℕ → List KeyValue → List KeyValue
  pub get_labels_for_operation_context : String → List KeyValue

abbrev pub dispatch_kind : DispatchFailure → String
dispatch_kind d =
    if d.is_io
    then "DispatchFailure_IO"
    else if d.is_timeout
    then "DispatchFailure_Timeout"
    else if d.is_other
    then "DispatchFailure_Other"
    else "DispatchFailure"

abbrev pub kind_of : {E : Type 0} → SdkError E → String
kind_of timeout_error = "SdkTimeoutError"
kind_of (dispatch_failure d) = dispatch_kind d
kind_of (service_error e) = "<unknown>"
kind_of other = "<unknown>"

abbrev pub code_label : {E : Type 0} → SdkError E → Option String → KeyValue × List Warning
code_label e (some c) = (record { key = "aws_code"; value = text c }, [])
code_label e none = (record { key = "aws_code"; value = text (kind_of e) }, non_service_error ∷ [])

abbrev pub error_labels :
    {T E : Type 0}
    → (SdkError E → Option String)
    → Result (SdkError E) T
    → List KeyValue × List Warning
error_labels code (ok output) = ([], [])
error_labels code (err e) = let (label, warnings) = code_label e (code e) in (label ∷ [], warnings)

abbrev pub slow_warnings : Bool → List Warning
slow_warnings true = slow_operation ∷ []
slow_warnings false = []

-- The labels after the callback, and what it logged.
unfoldable pub observe_aws_operation_callback :
    {T E : Type 0}
    → Telemetry
    → (SdkError E → Option String)
    → ℕ
    → Result (SdkError E) T
    → ℕ
    → List KeyValue
    → List KeyValue × List Warning
observe_aws_operation_callback telemetry code slow_threshold result elapsed labels =
    let observed = telemetry.observe_result result elapsed labels in
    let (pushed, warned) = error_labels code result in
    let is_slow = ltb slow_threshold elapsed in
    (
      observed ++ (pushed ++ record { key = "slow"; value = flag is_slow } ∷ []),
      warned ++ slow_warnings is_slow,
    )
