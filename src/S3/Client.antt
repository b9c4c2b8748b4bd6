-- ===== src/S3/Client.antt =====
-- lore-pg/src/s3.rs: `S3Impl`, the requests that its methods send and what they answer.
use lore_stack.Common.{
  ℕ, String, ◌-◌, ◌++◌, Bool, true, false, Option, none, some, List, [], ◌∷◌, Bytes, if◌then◌else◌,
}
use lore_stack.Common.Int.{ℤ}
use lore_stack.Common.Decimal.{decimal}
use lore_stack.Sql.World.{Result, ok, err}
use lore_stack.S3.Types.{Request, Sdk, operation}
use lore_stack.Observe.{
  AwsError, aws_sdk_error, SdkError, service_error, Reply, Telemetry, KeyValue, Warning,
  bucket_check_failed, observe_aws_operation_callback,
}

-- `bytes=`
abbrev pub unit_bytes : Bytes
unit_bytes = 98 ∷ 121 ∷ 116 ∷ 101 ∷ 115 ∷ 61 ∷ []

-- A half-open range as the inclusive one of HTTP.
abbrev pub range_header : Option (ℕ × ℕ) → Option Bytes
range_header none = none
range_header (some (start, end)) = some (unit_bytes ++ decimal start ++ 45 ∷ decimal (end - 1))

pub record Telemetered (A : Type 0) : Type 0 where
  pub output : A
  pub labels : List KeyValue
  pub logged : List Warning

abbrev pub map_err : {T E : Type 0} → Result E T → Result (AwsError E) T
map_err (ok a) = ok a
map_err (err e) = err (aws_sdk_error e)

module _ (sdk : Sdk) (telemetry : Telemetry) (slow_operation_duration : ℕ) where
  open sdk use {Service, Output, Error}

  abbrev pub Answer : Request → Type 0 → Type 0
  Answer r A = Result (AwsError (SdkError (Error r))) A

  -- `send` under `observe`: the labels that the measurement is recorded with, and the warnings.
  abbrev pub observe :
      (r : Request)
      → Reply (Output r) (Error r)
      → Telemetered (Result (SdkError (Error r)) (Output r))
  observe r reply =
      let (labels, logged) =
        observe_aws_operation_callback telemetry (sdk.code r) slow_operation_duration reply.result
          reply.elapsed (telemetry.get_labels_for_operation_context (operation r)) in
      record { output = reply.result; labels = labels; logged = logged }

  -- What all methods but `bucket_exists` do with their request.
  unfoldable pub call : (r : Request) → Service → Telemetered (Answer r (Output r)) × Service
  call r s =
      let (reply, s') = sdk.send r s in
      let seen = observe r reply in
      (record { output = map_err seen.output; labels = seen.labels; logged = seen.logged }, s')

  -- A bucket that is not found is an answer; any other failure is logged.
  abbrev pub exists :
      (bucket : String)
      → Result (SdkError (Error (Request.head_bucket bucket))) (Output (Request.head_bucket bucket))
      → Answer (Request.head_bucket bucket) Bool × List Warning
  exists bucket (ok output) = (ok true, [])
  exists bucket (err (service_error e)) =
      if sdk.is_not_found bucket e
      then (ok false, [])
      else (err (aws_sdk_error (service_error e)), bucket_check_failed ∷ [])
  exists bucket (err e) = (err (aws_sdk_error e), bucket_check_failed ∷ [])

  unfoldable pub bucket_exists :
      (bucket : String) → Service → Telemetered (Answer (Request.head_bucket bucket) Bool) × Service
  bucket_exists bucket s =
      let (reply, s') = sdk.send (Request.head_bucket bucket) s in
      let seen = observe (Request.head_bucket bucket) reply in
      let (answer, warned) = exists bucket seen.output in
      (record { output = answer; labels = seen.labels; logged = seen.logged ++ warned }, s')

  abbrev pub list_objects :
      (bucket prefix : String) (max_keys : Option ℤ)
      → Service
      → Telemetered (
          Answer
            (Request.list_objects_v2 bucket prefix max_keys)
            (Output (Request.list_objects_v2 bucket prefix max_keys)))
        × Service
  list_objects bucket prefix max_keys = call (Request.list_objects_v2 bucket prefix max_keys)

  abbrev pub head_object :
      (bucket key : String)
      → Service
      → Telemetered
          (Answer (Request.head_object bucket key) (Output (Request.head_object bucket key)))
        × Service
  head_object bucket key = call (Request.head_object bucket key)

  unfoldable pub get_object :
      (bucket key : String) (range : Option (ℕ × ℕ))
      → Service
      → Telemetered (
          Answer
            (Request.get_object bucket key (range_header range))
            (Output (Request.get_object bucket key (range_header range))))
        × Service
  get_object bucket key range = call (Request.get_object bucket key (range_header range))

  abbrev pub put_object :
      (bucket key : String) (body : Bytes)
      → Service
      → Telemetered (
          Answer (Request.put_object bucket key body) (Output (Request.put_object bucket key body)))
        × Service
  put_object bucket key body = call (Request.put_object bucket key body)

  abbrev pub list_versions :
      (bucket key : String)
      → Service
      → Telemetered (
          Answer
            (Request.list_object_versions bucket key)
            (Output (Request.list_object_versions bucket key)))
        × Service
  list_versions bucket key = call (Request.list_object_versions bucket key)

  abbrev pub delete_object :
      (bucket key : String) (version : Option String)
      → Service
      → Telemetered (
          Answer
            (Request.delete_object bucket key version)
            (Output (Request.delete_object bucket key version)))
        × Service
  delete_object bucket key version = call (Request.delete_object bucket key version)
