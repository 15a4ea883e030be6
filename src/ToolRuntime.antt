-- ===== src/ToolRuntime.antt =====
-- Tools that an agent calls (apps/api/src/customers_manager_hub/tool_runtime.py): the errors and requests that its
-- parts share, and what they take from Python.
mod Tests
pub mod Text
pub mod Schema
pub mod Url
pub mod Configuration
pub mod Http
pub mod Adapters
pub mod Access
pub mod Executions
pub mod Calls
pub mod Execute
use customers_manager_hub.Prelude.{ℕ, String, Bool, true, false, Option, List}
use customers_manager_hub.Json.{Json, Fields}
use customers_manager_hub.PolicyModels.{ToolOperationType}
use customers_manager_hub.ToolModels.{ToolAuthType}

-- `ToolRuntimeError` and `ToolAdapterError`
pub record ToolError : Type 0 where
  pub code : String
  pub retryable : Bool

abbrev pub denied : String → ToolError
denied code = record { code = code; retryable = false }

abbrev pub temporary : String → ToolError
temporary code = record { code = code; retryable = true }

-- What is raised: either of the two, or any other exception.
pub data ToolFault : Type 0 where
  runtime_error adapter_error : ToolError → ToolFault
  other_error : ToolFault

pub record ResolvedToolCredential : Type 0 where
  pub auth_type : ToolAuthType
  pub secret : String
  pub header_name : Option String

pub record ToolAdapterRequest : Type 0 where
  pub tool_id : ℕ
  pub operation_type : ToolOperationType
  pub configuration : Fields
  pub arguments : Fields
  pub credential : Option ResolvedToolCredential
  pub execution_token : String
  pub timeout_seconds : ℕ

-- What `urlsplit` returns; the port is `none` where it cannot be read.
pub record SplitUrl : Type 0 where
  pub scheme : String
  pub hostname : Option String
  pub username : Option String
  pub password : Option String
  pub port : Option (Option ℕ)
  pub path : String
  pub query : String
  pub fragment : String

-- Python's texts, json, urllib, ipaddress and idna, and the package jsonschema; `none` stands for a
-- `ValueError`. `check_schema` and `is_valid` are whether `Draft202012Validator` raises nothing.
pub record Python : Type 0 where
  pub strip : String → String
  pub casefold : String → String
  pub upper : String → String
  pub str : ℕ → String
  pub uuid_text : ℕ → String
  pub dumps : Json → String
  pub utf8_length : String → ℕ
  pub urlsplit : String → Option SplitUrl
  pub urlunsplit : (scheme netloc path query fragment : String) → String
  pub quote : String → String
  pub is_global : String → Option Bool
  pub idna : String → Option String
  pub check_schema : Fields → Bool
  pub is_valid : (schema payload : Fields) → Bool
