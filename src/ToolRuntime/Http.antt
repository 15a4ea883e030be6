-- ===== src/ToolRuntime/Http.antt =====
-- The requests and replies of the HTTP client, and what a tool makes of a reply.
use Prim.Native.String.{◌++◌ as ◌<>◌}
use text.Mathlib.Text.{◌==◌ as str_eq}
use customers_manager_hub.Prelude.{
  ℕ, String, Bool, ◌&&◌, ◌||◌, ◌==◌, leb, ltb, Option, none, some, [], ◌∷◌, any, if◌then◌else◌,
}
use customers_manager_hub.Prelude.Result.{Result, ok, err}
use customers_manager_hub.Json.{Json, object, Fields, end_fields, field}
use customers_manager_hub.ToolModels.{bearer, header}
use customers_manager_hub.ToolRuntime.{
  ToolFault, adapter_error, other_error, denied, temporary, ResolvedToolCredential,
}
use customers_manager_hub.ToolRuntime.Configuration.{Headers}

-- A request of the HTTP client, which never follows redirects: its arguments are the query or a JSON body.
pub record HttpRequest : Type 0 where
  pub method : String
  pub url : String
  pub headers : Headers
  pub query : Headers
  pub body : Option Fields
  pub timeout_seconds : ℕ

-- `json` is what `response.json()` returns.
pub record HttpResponse : Type 0 where
  pub status_code : ℕ
  pub json : Option Json

pub data HttpReply : Type 0 where
  answered : HttpResponse → HttpReply
  timed_out broken crashed : HttpReply

-- `_http_retryable`
abbrev pub http_retryable : ℕ → Bool
http_retryable status = any (λ n. status == n) (408 ∷ 409 ∷ 425 ∷ 429 ∷ []) || leb 500 status

-- `_credential_headers`
unfoldable pub credential_headers : Option ResolvedToolCredential → Result ToolFault Headers
credential_headers none = ok []
credential_headers (some c) = elim c.auth_type [
  | bearer ↦ ok (("Authorization", "Bearer " <> c.secret) ∷ [])
  | header ↦ elim c.header_name [
    | none ↦ err (adapter_error (denied "tool_credential_invalid"))
    | some name ↦ ok ((name, c.secret) ∷ [])
  ]
]

-- `_response_object`
unfoldable pub response_object : HttpResponse → Result ToolFault Fields
response_object r = elim r.json [
  | none ↦ err (adapter_error (denied "tool_invalid_json_response"))
  | some (object f) ↦ ok f
  | some other ↦ ok (field "data" other end_fields)
]

-- What is made of a reply; the codes of the errors have a prefix.
unfoldable pub response_of : (ℕ → String) → (prefix : String) → HttpReply → Result ToolFault Fields
unfolding response_object
response_of str prefix timed_out = err (adapter_error (temporary (prefix <> "_timeout")))
response_of str prefix broken = err (adapter_error (temporary (prefix <> "_transport_error")))
response_of str prefix crashed = err other_error
response_of str prefix (answered r) =
    if leb 300 r.status_code && ltb r.status_code 400
    then err (adapter_error (denied "tool_http_redirect_denied"))
    else if leb 400 r.status_code
    then err (
        adapter_error (record {
          code =
              (if str_eq prefix "tool_http" then prefix else prefix <> "_http")
              <> "_"
              <> str r.status_code;
          retryable = http_retryable r.status_code;
        }))
    else response_object r
