-- ===== src/ToolRuntime/Configuration.antt =====
-- The configuration of a tool: `_static_headers` and `normalize_tool_configuration`.
pub mod Plain
pub mod Safe
use text.Mathlib.Text.{◌==◌ as str_eq}
use customers_manager_hub.Prelude.{
  ℕ, String, Bool, true, false, ◌&&◌, ◌||◌, not, leb, Option, none, some, List, [], ◌∷◌, any,
  if◌then◌else◌,
}
use customers_manager_hub.Prelude.Text.{size}
use customers_manager_hub.Json.{Json, null, string, object, Fields, end_fields, field, get}
use customers_manager_hub.PolicyModels.{
  ToolAdapterKind, generic_rest, business_reference, google_sheets, ToolOperationType, read, write,
}
use customers_manager_hub.ToolRuntime.{Python}
use customers_manager_hub.ToolRuntime.Text.{normalize_header_name, matches_spreadsheet_id}
use customers_manager_hub.ToolRuntime.Url.{normalize_fixed_https_url}

-- A dict of texts, in the order of insertion.
abbrev pub Headers : Type 0
Headers = List (String × String)

-- `headers[key] = value`
unfoldable pub put : String → String → Headers → Headers
put key value [] = (key, value) ∷ []
put key value ((k, v) ∷ rest) =
    if str_eq k key then (k, value) ∷ rest else (k, v) ∷ put key value rest

-- `headers.update(others)`
unfoldable pub put_all : Headers → Headers → Headers
unfolding put
put_all headers [] = headers
put_all headers ((k, v) ∷ rest) = put_all (put k v headers) rest

abbrev pub one_of : List String → String → Bool
one_of names s = any (str_eq s) names

-- `set(value) <= allowed`
abbrev pub only_keys : (String → Bool) → Fields → Bool
only_keys allowed end_fields = true
only_keys allowed (field k v others) = allowed k && only_keys allowed others

-- `_FORBIDDEN_STATIC_HEADERS`
abbrev pub is_forbidden_header : String → Bool
is_forbidden_header = one_of (
    "authorization" ∷ "cookie" ∷ "host" ∷ "proxy-authorization" ∷ "proxy-connection"
    ∷ "content-length" ∷ "transfer-encoding" ∷ [])

-- A normal configuration: of a REST tool or of Google Sheets.
pub record RestConfiguration : Type 0 where
  pub url : String
  pub method : String
  pub argument_location : String
  pub static_headers : Headers
  pub idempotency_header : Option String

pub record SheetsConfiguration : Type 0 where
  pub spreadsheet_id : String
  pub value_render_option : Option String

pub data ToolConfiguration : Type 0 where
  rest : RestConfiguration → ToolConfiguration
  sheets : SheetsConfiguration → ToolConfiguration

abbrev pub header_fields : Headers → Fields
header_fields [] = end_fields
header_fields ((k, v) ∷ others) = field k (string v) (header_fields others)

abbrev pub optional_text : String → Option String → Fields
optional_text key none = end_fields
optional_text key (some s) = field key (string s) end_fields

-- The dict of a normal configuration.
unfoldable pub configuration_fields : ToolConfiguration → Fields
configuration_fields (rest c) = field "url" (string c.url) (
    field "method" (string c.method) (
      field "argument_location" (string c.argument_location) (
        field "static_headers" (object (header_fields c.static_headers))
          (optional_text "idempotency_header" c.idempotency_header))))
configuration_fields (sheets c) =
    field "spreadsheet_id" (string c.spreadsheet_id)
      (optional_text "value_render_option" c.value_render_option)

-- `configuration.get(key, default)` where it is a text.
abbrev pub text_or : String → Option Json → Option String
text_or default none = some default
text_or default (some (string s)) = some s
text_or default (some _) = none

module _ (python : Python) where
  open python use {strip, casefold, upper}

  -- A header that is not sensitive, in its normal form.
  unfoldable pub plain_header : String → Option String
  plain_header name = elim (normalize_header_name python name) [
    | none ↦ none
    | some normalized ↦ if is_forbidden_header (casefold normalized) then none else some normalized
  ]

  -- One entry of `static_headers`.
  unfoldable pub static_header : String → Json → Option (String × String)
  unfolding plain_header
  static_header name (string value) = elim (plain_header name) [
    | none ↦ none
    | some normalized ↦ if leb (size value) 1000 then some (normalized, value) else none
  ]
  static_header name _ = none

  -- The loop over the entries.
  unfoldable pub add_headers : Fields → Headers → Option Headers
  unfolding static_header put
  add_headers end_fields headers = some headers
  add_headers (field name value others) headers = elim (static_header name value) [
    | none ↦ none
    | some (k, v) ↦ add_headers others (put k v headers)
  ]

  -- `_static_headers`
  unfoldable pub static_headers : Option Json → Option Headers
  unfolding add_headers
  static_headers none = some []
  static_headers (some null) = some []
  static_headers (some (object f)) = add_headers f []
  static_headers (some _) = none

  -- The header that carries the token of an execution.
  abbrev pub idempotency_header : Option Json → Option (Option String)
  idempotency_header none = some none
  idempotency_header (some null) = some none
  idempotency_header (some (string s)) = elim (plain_header s) [
    | none ↦ none
    | some h ↦ some (some h)
  ]
  idempotency_header (some _) = none

  -- Whether the kind and the operation of a REST tool go with its method and the place of its arguments.
  unfoldable pub is_permitted_method : ToolAdapterKind → ToolOperationType → String → String → Bool
  is_permitted_method business_reference read method location =
      str_eq method "GET" && str_eq location "query"
  is_permitted_method business_reference write method location = false
  is_permitted_method kind read method location = str_eq method "GET"
  is_permitted_method kind write method location =
      one_of ("POST" ∷ "PUT" ∷ "PATCH" ∷ "DELETE" ∷ []) method

  abbrev pub method_of : Fields → Option String
  method_of configuration = elim (text_or "GET" (get configuration "method")) [
    | none ↦ none
    | some s ↦ some (upper (strip s))
  ]

  abbrev pub location_of : Fields → Option String
  location_of configuration = elim (text_or "query" (get configuration "argument_location")) [
    | none ↦ none
    | some s ↦ if one_of ("query" ∷ "json" ∷ []) s then some s else none
  ]

  abbrev pub url_of : Fields → Option String
  url_of configuration = elim (get configuration "url") [
    | some (string s) ↦ normalize_fixed_https_url python s
    | _ ↦ none
  ]

  abbrev pub rest_with :
      (url method location : String)
      → Option Headers
      → Option (Option String)
      → Option ToolConfiguration
  rest_with url method location (some headers) (some header) = some (
      rest (record {
        url = url;
        method = method;
        argument_location = location;
        static_headers = headers;
        idempotency_header = header;
      }))
  rest_with url method location _ _ = none

  abbrev pub rest_parts :
      ToolAdapterKind
      → ToolOperationType
      → Fields
      → (url method location : Option String) → Option ToolConfiguration
  rest_parts kind operation configuration (some url) (some method) (some location) =
      if is_permitted_method kind operation method location
      then rest_with url method location (static_headers (get configuration "static_headers"))
          (idempotency_header (get configuration "idempotency_header"))
      else none
  rest_parts kind operation configuration _ _ _ = none

  -- The first half of `normalize_tool_configuration`.
  unfoldable pub rest_configuration :
      ToolAdapterKind → ToolOperationType → Fields → Option ToolConfiguration
  unfolding is_permitted_method static_headers
  rest_configuration kind operation configuration =
      if only_keys
        (one_of
          ("url" ∷ "method" ∷ "argument_location" ∷ "static_headers" ∷ "idempotency_header" ∷ []))
        configuration
      then rest_parts kind operation configuration (url_of configuration) (method_of configuration)
          (location_of configuration)
      else none

  abbrev pub render_option : Option Json → Option (Option String)
  render_option none = some none
  render_option (some null) = some none
  render_option (some (string s)) =
      if one_of ("FORMATTED_VALUE" ∷ "UNFORMATTED_VALUE" ∷ "FORMULA" ∷ []) s
      then some (some s)
      else none
  render_option (some _) = none

  abbrev pub spreadsheet_of : Option Json → Option String
  spreadsheet_of (some (string s)) =
      if matches_spreadsheet_id (strip s) then some (strip s) else none
  spreadsheet_of _ = none

  abbrev pub sheets_with : Option String → Option (Option String) → Option ToolConfiguration
  sheets_with (some id) (some render) =
      some (sheets (record { spreadsheet_id = id; value_render_option = render }))
  sheets_with _ _ = none

  -- Its second half, for Google Sheets.
  unfoldable pub sheets_configuration : ToolOperationType → Fields → Option ToolConfiguration
  sheets_configuration write configuration = none
  sheets_configuration read configuration =
      if only_keys (one_of ("spreadsheet_id" ∷ "value_render_option" ∷ [])) configuration
      then sheets_with (spreadsheet_of (get configuration "spreadsheet_id"))
          (render_option (get configuration "value_render_option"))
      else none

  -- `normalize_tool_configuration`
  unfoldable pub normalize_tool_configuration :
      ToolAdapterKind → ToolOperationType → Fields → Option ToolConfiguration
  unfolding rest_configuration sheets_configuration
  normalize_tool_configuration google_sheets operation configuration =
      sheets_configuration operation configuration
  normalize_tool_configuration kind operation configuration =
      rest_configuration kind operation configuration
