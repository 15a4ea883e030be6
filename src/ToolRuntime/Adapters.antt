-- ===== src/ToolRuntime/Adapters.antt =====
-- The adapters of tools: `RestToolAdapter`, `GoogleSheetsToolAdapter` and `ToolAdapterRegistry`.
pub mod Public
use Prim.Native.String.{◌++◌ as ◌<>◌}
use text.Mathlib.Text.{◌==◌ as str_eq}
use customers_manager_hub.Prelude.{
  ℕ, String, Bool, true, false, ◌&&◌, ◌||◌, ◌==◌, not, leb, ltb, Option, none, some, List, [], ◌∷◌,
  any, if◌then◌else◌,
}
use customers_manager_hub.Prelude.Result.{Result, ok, err}
use customers_manager_hub.Prelude.Step.{Step, ◌>>=◌, ◌>>◌, pure, raise, returning}
use customers_manager_hub.Prelude.Text.{size}
use customers_manager_hub.Json.{
  Json, null, boolean, number, string, array, object, Fields, end_fields, field, get,
}
use customers_manager_hub.PolicyModels.{
  ToolAdapterKind, generic_rest, business_reference, google_sheets,
}
use customers_manager_hub.ToolModels.{ToolAuthType, bearer, header}
use customers_manager_hub.ToolRuntime.{
  ToolError, ToolFault, runtime_error, adapter_error, other_error, denied, temporary, Python,
  ResolvedToolCredential, ToolAdapterRequest,
}
use customers_manager_hub.ToolRuntime.Url.{ensure_public_destination}
use customers_manager_hub.ToolRuntime.Configuration.{
  Headers, put, put_all, RestConfiguration, SheetsConfiguration, ToolConfiguration, rest, sheets,
  normalize_tool_configuration,
}
use customers_manager_hub.ToolRuntime.Http.{
  HttpReply, HttpRequest, HttpResponse, answered, broken, crashed, credential_headers,
  http_retryable, response_object, response_of, timed_out,
}

module _ (python : Python) where
  open python use {strip, str, dumps, quote}

  abbrev pub query_text : Json → Option String
  query_text null = none
  query_text (boolean b) = some (if b then "true" else "false")
  query_text (number n) = some (str n)
  query_text (string s) = some s
  query_text (array xs) = some (dumps (array xs))
  query_text (object f) = some (dumps (object f))

  -- `_query_params`
  unfoldable pub query_params : Fields → Headers
  query_params end_fields = []
  query_params (field k v others) =
      let more = query_params others in elim (query_text v) [ none ↦ more | some s ↦ (k, s) ∷ more ]

  -- `W` is the world; `client` is the HTTP client.
  module _ {W : Type 0} (client : HttpRequest → W → HttpReply × W)
      (resolver : String → ℕ → Step ToolFault W (List String)) where
    -- A request, and what is made of its reply.
    unfoldable pub send : (prefix : String) → HttpRequest → Step ToolFault W Fields
    send prefix request w =
        let (reply, next) = client request w in (response_of str prefix reply, next)

    abbrev pub with_token : Option String → String → Headers → Headers
    with_token none token headers = headers
    with_token (some name) token headers = put name token headers

    abbrev pub rest_request : RestConfiguration → ToolAdapterRequest → Headers → HttpRequest
    rest_request c request credential = record {
      method = c.method;
      url = c.url;
      headers =
          with_token c.idempotency_header request.execution_token
            (put_all c.static_headers credential);
      query = if str_eq c.argument_location "query" then query_params request.arguments else [];
      body = if str_eq c.argument_location "query" then none else some request.arguments;
      timeout_seconds = request.timeout_seconds;
    }

    unfoldable pub send_rest :
        RestConfiguration → ToolAdapterRequest → Headers → Step ToolFault W Fields
    send_rest c request credential = send "tool_http" (rest_request c request credential)

    -- `RestToolAdapter.execute`
    unfoldable pub rest_execute : ToolAdapterKind → ToolAdapterRequest → Step ToolFault W Fields
    unfolding send_rest
    rest_execute kind request =
        elim (normalize_tool_configuration python kind request.operation_type
          request.configuration) [
            | some (rest c) ↦
                ensure_public_destination python c.url resolver
                >> (returning (credential_headers request.credential) >>= send_rest c request)
            | _ ↦ raise other_error
          ]

    abbrev pub sheets_range : Fields → Option String
    sheets_range arguments = elim (get arguments "range") [
      | some (string s) ↦ if str_eq (strip s) "" || ltb 500 (size s) then none else some (strip s)
      | _ ↦ none
    ]

    abbrev pub render_query : Option String → Headers
    render_query none = []
    render_query (some s) = ("valueRenderOption", s) ∷ []

    abbrev pub sheets_url : SheetsConfiguration → String → String
    sheets_url c range =
        "https://sheets.googleapis.com/v4/spreadsheets/"
        <> quote c.spreadsheet_id
        <> "/values/"
        <> quote range

    unfoldable pub send_sheets :
        SheetsConfiguration → String → ToolAdapterRequest → Headers → Step ToolFault W Fields
    send_sheets c range request credential = send "tool_google_sheets" (record {
      method = "GET";
      url = sheets_url c range;
      headers = credential;
      query = render_query c.value_render_option;
      body = none;
      timeout_seconds = request.timeout_seconds;
    })

    abbrev pub is_bearer : Option ResolvedToolCredential → Bool
    is_bearer none = false
    is_bearer (some c) = elim c.auth_type [ bearer ↦ true | header ↦ false ]

    unfoldable pub read_range :
        SheetsConfiguration → ToolAdapterRequest → String → Step ToolFault W Fields
    unfolding send_sheets
    read_range c request range =
        if is_bearer request.credential
        then (ensure_public_destination python (sheets_url c range) resolver
            >> (returning (credential_headers request.credential) >>= send_sheets c range request))
        else raise (adapter_error (denied "tool_credential_missing"))

    -- `GoogleSheetsToolAdapter.execute`
    unfoldable pub sheets_execute : ToolAdapterRequest → Step ToolFault W Fields
    unfolding read_range
    sheets_execute request =
        elim (normalize_tool_configuration python google_sheets request.operation_type
          request.configuration) [
            | some (sheets c) ↦ elim (sheets_range request.arguments) [
              | none ↦ raise (adapter_error (denied "tool_google_sheets_range_invalid"))
              | some range ↦ read_range c request range
            ]
            | _ ↦ raise other_error
          ]

-- `ToolAdapter`
pub record ToolAdapter (W : Type 0) : Type 0 where
  pub kind : ToolAdapterKind
  pub execute : ToolAdapterRequest → Step ToolFault W Fields

abbrev pub same_kind : ToolAdapterKind → ToolAdapterKind → Bool
same_kind generic_rest generic_rest = true
same_kind business_reference business_reference = true
same_kind google_sheets google_sheets = true
same_kind _ _ = false

module _ {W : Type 0} where
  -- `ToolAdapterRegistry.get`
  unfoldable pub adapter_of :
      List (ToolAdapter W) → ToolAdapterKind → Result ToolFault (ToolAdapter W)
  adapter_of [] kind = err (runtime_error (denied "tool_adapter_unavailable"))
  adapter_of (a ∷ others) kind =
      let found = adapter_of others kind in if same_kind a.kind kind then ok a else found

  -- `ToolAdapterRegistry.register`; `none` stands for a `ValueError`.
  unfoldable pub register_adapter :
      ToolAdapter W → List (ToolAdapter W) → Option (List (ToolAdapter W))
  register_adapter a adapters =
      if any (λ (b : ToolAdapter W). same_kind b.kind a.kind) adapters
      then none
      else some (a ∷ adapters)

  -- `build_tool_adapter_registry`, latest first.
  unfoldable pub build_tool_adapter_registry :
      (python : Python)
      → (client : HttpRequest → W → HttpReply × W)
      → (resolver : String → ℕ → Step ToolFault W (List String)) → List (ToolAdapter W)
  build_tool_adapter_registry python client resolver =
      record { kind = google_sheets; execute = sheets_execute python client resolver }
      ∷ record {
        kind = business_reference;
        execute = rest_execute python client resolver business_reference;
      }
      ∷ record { kind = generic_rest; execute = rest_execute python client resolver generic_rest }
      ∷ []
