-- ===== src/S3/Types.antt =====
-- What lore-pg/src/s3.rs uses of aws_sdk_s3: the requests, and the client that sends them.
use lore_stack.Common.{String, Bool, Option, Bytes}
use lore_stack.Common.Int.{ℤ}
use lore_stack.Observe.{SdkError, Reply}

-- What the request builders of aws_sdk_s3 have collected at `send`.
pub data Request : Type 0 where
  head_bucket : (bucket : String) → Request
  list_objects_v2 : (bucket prefix : String) (max_keys : Option ℤ) → Request
  head_object : (bucket key : String) → Request
  get_object : (bucket key : String) (range : Option Bytes) → Request
  put_object : (bucket key : String) (body : Bytes) → Request
  list_object_versions : (bucket prefix : String) → Request
  delete_object : (bucket key : String) (version_id : Option String) → Request

-- The SDK's client over the state of the service.
pub record Sdk : Type 1 where
  pub Service : Type 0
  pub Output : Request → Type 0
  pub Error : Request → Type 0
  pub is_not_found : (bucket : String) → Error (Request.head_bucket bucket) → Bool
  pub code : (r : Request) → SdkError (Error r) → Option String
  pub send : (r : Request) → Service → Reply (Output r) (Error r) × Service

-- The label of each operation.
abbrev pub operation : Request → String
operation (Request.head_bucket bucket) = "head_bucket"
operation (Request.list_objects_v2 bucket prefix max_keys) = "list_objects_v2"
operation (Request.head_object bucket key) = "head_object"
operation (Request.get_object bucket key range) = "get_object"
operation (Request.put_object bucket key body) = "put_object"
operation (Request.list_object_versions bucket prefix) = "list_versions"
operation (Request.delete_object bucket key version) = "delete_object"
