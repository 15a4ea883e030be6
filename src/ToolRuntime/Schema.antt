-- ===== src/ToolRuntime/Schema.antt =====
-- The schemas and the payloads of tools: `validate_tool_schema` and `validate_tool_payload`.
use text.Mathlib.Text.{◌==◌ as str_eq}
use customers_manager_hub.Prelude.{
  ℕ, String, Bool, false, ◌&&◌, ◌||◌, not, leb, Option, some, if◌then◌else◌,
}
use customers_manager_hub.Prelude.Result.{Result, ok, err}
use customers_manager_hub.Json.{
  Json, null, boolean, number, string, array, object, Items, end_items, item, Fields, end_fields,
  field, get,
}
use customers_manager_hub.ToolRuntime.{ToolFault, runtime_error, other_error, denied, Python}

-- `_SCHEMA_SIZE_LIMIT`, `_INPUT_SIZE_LIMIT` and `_OUTPUT_SIZE_LIMIT`
abbrev pub schema_size_limit : ℕ
schema_size_limit = 32000

abbrev pub input_size_limit : ℕ
input_size_limit = 64000

abbrev pub output_size_limit : ℕ
output_size_limit = 128000

-- `_contains_ref`
unfoldable mutual
  pub contains_ref : Json → Bool
  contains_ref (object f) = fields_contain_ref f
  contains_ref (array xs) = items_contain_ref xs
  contains_ref null = false
  contains_ref (boolean b) = false
  contains_ref (number n) = false
  contains_ref (string s) = false

  pub items_contain_ref : Items → Bool
  items_contain_ref end_items = false
  items_contain_ref (item x rest) = contains_ref x || items_contain_ref rest

  pub fields_contain_ref : Fields → Bool
  fields_contain_ref end_fields = false
  fields_contain_ref (field k v rest) = str_eq k "$ref" || contains_ref v || fields_contain_ref rest

abbrev pub is_string : Option Json → String → Bool
is_string (some (string s)) t = str_eq s t
is_string _ t = false

module _ (python : Python) where
  open python use {dumps, utf8_length, check_schema, is_valid}

  -- `_bounded_json` without its result: the text is not too long.
  abbrev pub is_bounded_json : Fields → ℕ → Bool
  is_bounded_json value limit = leb (utf8_length (dumps (object value))) limit

  -- `validate_tool_schema`, which returns the schema; a `ValueError` is another exception.
  unfoldable pub validate_tool_schema : Fields → Result ToolFault Fields
  validate_tool_schema schema =
      if is_bounded_json schema schema_size_limit
        && not (fields_contain_ref schema)
        && is_string (get schema "type") "object"
        && check_schema schema
      then ok schema
      else err other_error

  -- `validate_tool_payload`
  unfoldable pub validate_tool_payload :
      (schema payload : Fields) → (output : Bool) → Result ToolFault Fields
  validate_tool_payload schema payload output =
      if is_bounded_json payload (if output then output_size_limit else input_size_limit)
      then (if is_valid schema payload
          then ok payload
          else err (
              runtime_error (
                denied
                  (if output then "tool_output_schema_invalid" else "tool_input_schema_invalid"))))
      else err other_error
