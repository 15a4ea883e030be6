-- ===== src/AgentRuntime/Decision.antt =====
-- What a model answers: `validate_customer_response`, `_structured_tool_decision` and the texts that ask for
-- a decision.
pub mod Allowed
use Prim.Native.String.{◌++◌ as ◌<>◌}
use Prim.Native.Char.{Char, code}
use text.Mathlib.Text.{◌==◌ as str_eq}
use customers_manager_hub.Prelude.{
  ℕ, String, Bool, true, false, ◌&&◌, ◌||◌, ◌==◌, not, ltb, Option, none, some, List, [], ◌∷◌, any,
  map, if◌then◌else◌,
}
use customers_manager_hub.Prelude.Result.{Result, ok, err}
use customers_manager_hub.Prelude.Text.{size}
use customers_manager_hub.Json.{
  Json, string, boolean, number, array, object, Items, end_items, item, Fields, end_fields, field,
  get, keys,
}
use customers_manager_hub.Policy.Tools.{risk_text, operation_text}
use customers_manager_hub.ToolModels.{ModelToolDefinition}
use customers_manager_hub.AgentRuntime.{AgentError, permanent, transient}

-- `_TELEGRAM_TEXT_LIMIT`
abbrev pub telegram_text_limit : ℕ
telegram_text_limit = 4096

-- `"\x00" in text`
unfoldable pub has_nul : String → Bool
has_nul String.[] = false
has_nul (String.◌∷◌ c s) = code c == 0 || has_nul s

-- `validate_customer_response`
unfoldable pub validate_customer_response : (String → String) → String → Result AgentError String
validate_customer_response strip text =
    let normalized = strip text in
    if str_eq normalized ""
    then err (permanent "agent_empty_output")
    else if has_nul normalized
    then err (permanent "agent_nul_output")
    else if ltb telegram_text_limit (size normalized)
    then err (permanent "agent_output_too_long")
    else ok normalized

pub data Decision : Type 0 where
  final_answer : String → Decision
  tool_request : String → Fields → Decision

abbrev pub is_decision_key : String → Bool
is_decision_key k =
    str_eq k "action" || str_eq k "text" || str_eq k "tool_name" || str_eq k "arguments"

abbrev pub only_decision_keys : Fields → Bool
only_decision_keys end_fields = true
only_decision_keys (field k v rest) = is_decision_key k && only_decision_keys rest

abbrev pub is_empty : Fields → Bool
is_empty end_fields = true
is_empty (field k v rest) = false

-- `isinstance(value, str)` and `isinstance(value, dict)`
abbrev pub as_string : Option Json → Option String
as_string (some (string s)) = some s
as_string _ = none

abbrev pub as_fields : Option Json → Option Fields
as_fields (some (object f)) = some f
as_fields _ = none

-- The tests on the four values.
unfoldable pub decision_from :
    List String → Option String → Option String → Option String → Option Fields → Option Decision
decision_from names (some action) (some text) (some tool_name) (some arguments) =
    if str_eq action "final"
    then (if str_eq tool_name "" && is_empty arguments then some (final_answer text) else none)
    else if str_eq action "tool_call"
    then (if not (str_eq tool_name "") && any (str_eq tool_name) names && str_eq text ""
        then some (tool_request tool_name arguments)
        else none)
    else none
decision_from names action text tool_name arguments = none

abbrev pub or_invalid : Option Decision → Result AgentError Decision
or_invalid none = err (transient "agent_tool_decision_invalid")
or_invalid (some d) = ok d

-- `_structured_tool_decision`; `names` are the qualified names of the tools.
unfoldable pub structured_tool_decision :
    List String → (structured : Option Fields) → Result AgentError Decision
unfolding decision_from
structured_tool_decision names none = or_invalid none
structured_tool_decision names (some payload) = or_invalid (
    if only_decision_keys payload
    then decision_from names (as_string (get payload "action")) (as_string (get payload "text"))
        (as_string (get payload "tool_name")) (as_fields (get payload "arguments"))
    else none)

abbrev pub qualified_names : List ModelToolDefinition → List String
qualified_names = map (λ t. t.qualified_name)

abbrev pub strings : List String → Items
strings [] = end_items
strings (s ∷ rest) = item (string s) (strings rest)

abbrev pub typed : String → Fields → Json
typed type rest = object (field "type" (string type) rest)

-- `_tool_decision_schema`
unfoldable pub tool_decision_schema : List String → Fields
tool_decision_schema names = field "type" (string "object") (
    field "properties"
      (object (
        field "action"
          (typed "string" (field "enum" (array (strings ("final" ∷ "tool_call" ∷ []))) end_fields))
          (field "text" (typed "string" (field "maxLength" (number 4096) end_fields)) (
            field "tool_name"
              (typed "string" (field "enum" (array (strings ("" ∷ names))) end_fields))
              (field "arguments" (typed "object" end_fields) end_fields)))))
      (field "required" (array (strings ("action" ∷ "text" ∷ "tool_name" ∷ "arguments" ∷ [])))
        (field "additionalProperties" (boolean false) end_fields)))

unfoldable pub catalog_entry : ModelToolDefinition → Json
catalog_entry t = object (
    field "name" (string t.qualified_name) (
      field "description" (string t.description) (
        field "operation_type" (string (operation_text t.operation_type)) (
          field "risk_level" (string (risk_text t.risk_level))
            (field "input_schema" (object t.input_schema) end_fields)))))

abbrev pub catalog : List ModelToolDefinition → Items
unfolding catalog_entry
catalog [] = end_items
catalog (t ∷ rest) = item (catalog_entry t) (catalog rest)

-- `_tool_catalog_instructions`; `dumps` is `json.dumps` with its arguments.
unfoldable pub tool_catalog_instructions : (Json → String) → List ModelToolDefinition → String
unfolding catalog
tool_catalog_instructions dumps tools =
    "[AVAILABLE BUSINESS TOOLS]\n"
    <> dumps (array (catalog tools))
    <> "\n\nReturn exactly one structured decision. For a final answer use action=final, put the customer-facing answer in text, tool_name='', and arguments={}. For a tool request use action=tool_call, text='', an exact listed tool_name, and arguments matching that tool's input schema. A tool request is not authorization. Never invent a tool result or credential."
