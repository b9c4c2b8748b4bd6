-- ===== src/Examples/ObjectRuns.antt =====
-- A service with one object, of three bytes.
use lore_stack.Common.{ℕ, ◌≡◌, refl, ap, true, Option, none, some, List, [], ◌∷◌, Bytes, arith}
use lore_stack.Common.Eq.{nat_eq}
use lore_stack.Sql.World.{Result, ok, err}
use lore_stack.Observe.{SdkError, Telemetry, KeyValue, Warning, observe_aws_operation_callback}
use lore_stack.Observe.Labels.{logs, IsLabelled, observe_labels}
use lore_stack.S3.Types.{Request, Sdk}
use lore_stack.S3.Client.{get_object}
use lore_stack.S3.Range.{take, drop, served, get_object-range}

abbrev telemetry : Telemetry
telemetry = record {
  observe_result = λ r e labels. labels;
  get_labels_for_operation_context = λ operation. [];
}

abbrev answer : Option Bytes → Result (SdkError (Unit {0})) Bytes
answer none = err (SdkError.service_error tt)
answer (some bytes) = ok bytes

abbrev respond : Request → Bytes → Result (SdkError (Unit {0})) Bytes
respond (Request.get_object bucket key range) body = answer (served range body)
respond _ body = ok []

abbrev sdk : Sdk
sdk = record {
  Service = Bytes;
  Output = λ r. Bytes;
  Error = λ r. Unit {0};
  is_not_found = λ bucket e. true;
  code = λ r e. none;
  send = λ r body. (record { result = respond r body; elapsed = 4 }, body);
}

abbrev body : Bytes
body = 7 ∷ 8 ∷ 9 ∷ []

get_object-range_example :
    (o : Bytes) × ((get_object sdk telemetry 3 "b" "k" (some (1, 3)) body).0.output ≡ ok o)
    × (o ≡ take 2 (drop 1 body))
get_object-range_example =
    get_object-range sdk telemetry 3 (λ r o. o) "b" "k" 1 3 body body
      (λ header bytes h. (bytes, ap answer h, refl)) (omega arith) (omega arith)

observe_labels_example :
    let seen =
      observe_aws_operation_callback {T = Bytes} {E = ℕ} telemetry
        (λ e. none)
        3
        (err (SdkError.timeout_error))
        4
        [] in
    (pushed : List KeyValue) × (seen.0 ≡ pushed)
    × IsLabelled {T = Bytes} {E = ℕ} (λ e. none) (err SdkError.timeout_error) true pushed
    × (logs Warning.slow_operation seen.1 ≡ true)
    × (logs Warning.non_service_error seen.1 ≡ true)
observe_labels_example = observe_labels telemetry (λ e. none) 3 (err SdkError.timeout_error) 4 []
