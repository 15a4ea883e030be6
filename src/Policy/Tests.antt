-- ===== src/Policy/Tests.antt =====
-- Policies, their decisions and their theorems at concrete inputs.
use Prim.Native.Char.{Char, code}
use customers_manager_hub.Prelude.{
  ℕ, ◌≡◌, ◌⊎◌, ◌-◌, refl, String, true, false, ◌&&◌, leb, Option, none, some, List, [], ◌∷◌, find,
  any, length, if◌then◌else◌,
}
use customers_manager_hub.Prelude.Result.{ok, err}
use customers_manager_hub.Prelude.Sort.{sort, insert}
use customers_manager_hub.Prelude.Text.{size, contains}
use customers_manager_hub.Json.{
  Json, string, array, object, end_items, item, Fields, end_fields, field,
}
use customers_manager_hub.AgentModels.{received}
use customers_manager_hub.Models.{open_status, Message, inbound, customer, text_message}
use customers_manager_hub.PolicyModels.{
  generic_rest, approval_required, handoff, autonomous, handoff_outside, high, write, low,
  TenantPolicy, ToolDefinition,
}
use customers_manager_hub.Policy.Hours.{
  BusinessWindow, overlap, split_colon, number_from, number_of, parse_clock, read_window,
  parse_window, parse_windows, check_overlap, normalize_windows, normalize_weekdays,
  normalize_business_hours, business_window, business_windows, parse_days, parse_business_hours,
  is_within_business_hours,
}
use customers_manager_hub.Policy.Hours.Week.{last_minute_outside}
use customers_manager_hub.Policy.Normalize.{
  normalize_policy_timezone, normalize_message_rules, normalize_each, normalize_handoff_keywords,
}
use customers_manager_hub.Policy.Engine.{
  Environment, EffectiveTenantPolicy, PolicyDb, PolicyDecision, ToolPolicyDecision, add_trace,
  policy_from_row, load_effective_tenant_policy,
}
use customers_manager_hub.Policy.Engine.Loaded.{IsSound, load-IsSound}
use customers_manager_hub.Policy.Decide.{
  decide_autonomy, decide_hours, decide_ai, evaluate_ai_event,
}
use customers_manager_hub.Policy.Decide.Events.{IsPassed, IsDecided, evaluate_ai_event-IsDecided}
use customers_manager_hub.Policy.Tools.{approval_verdict, tool_verdict, tool_trace, evaluate_tool}

abbrev ascii : Char → Option ℕ
ascii c = if leb 48 (code c) && leb (code c) 57 then some (code c - 48) else none

-- Every day is a Monday, and the instant is the minute of the day.
abbrev env : Environment
env = record {
  strip = λ s. s;
  casefold = λ s. s;
  is_zone = λ s. true;
  local_time = λ zone now. ("mon", now);
  digit = ascii;
}

abbrev window : String → String → Json
window a b = object (field "start" (string a) (field "end" (string b) end_fields))

-- The afternoon stands first; it ends as late as a window can.
abbrev monday : Fields
monday =
    field "mon" (array (item (window "13:00" "23:59") (item (window "09:00" "12:30") end_items)))
      end_fields

abbrev hours : List (String × List BusinessWindow)
hours =
    (
      "mon",
      record { start_minute = 540; end_minute = 750 }
          ∷ record { start_minute = 780; end_minute = 1439 }
          ∷ [],
    )
    ∷ []

monday_run : parse_business_hours ascii monday ≡ ok hours
unfolding parse_business_hours normalize_business_hours normalize_weekdays normalize_windows
    parse_windows parse_window read_window parse_clock number_of number_from split_colon
    check_overlap parse_days business_windows business_window size sort insert any
monday_run = refl

last_minute_outside_example : is_within_business_hours hours "mon" 1439 ≡ false
last_minute_outside_example =
    last_minute_outside ascii monday
      (
        "mon",
        record { start_minute = 540; end_minute = 750 }
            ∷ record { start_minute = 780; end_minute = 1439 }
            ∷ [],
      )
      [] "mon" monday_run

-- The minute before is inside.
minute_before : is_within_business_hours hours "mon" 1438 ≡ true
unfolding is_within_business_hours any
minute_before = refl

overlapping :
    parse_business_hours ascii (
      field "tue"
        (array (item (window "09:00" "12:30") (item (window "12:00" "13:00") end_items)))
        end_fields)
    ≡ err overlap
unfolding parse_business_hours normalize_business_hours normalize_weekdays normalize_windows
    parse_windows parse_window read_window parse_clock number_of number_from split_colon
    check_overlap size sort insert any
overlapping = refl

keywords_run :
    normalize_handoff_keywords (λ s. s) (λ s. s) (λ s. true) ("human" ∷ "refund" ∷ "human" ∷ [])
    ≡ ok ("human" ∷ "refund" ∷ [])
unfolding normalize_handoff_keywords normalize_each size any
keywords_run = refl

abbrev row : TenantPolicy
row = record {
  tenant_id = 7;
  enabled = true;
  revision = 4;
  timezone = "UTC";
  business_hours = monday;
  outside_business_hours_action = handoff_outside;
  autonomy_mode = autonomous;
  message_rules = end_fields;
  handoff_keywords = "human" ∷ [];
  handoff_on_tool_approval = true;
  approval_min_risk = high;
  require_approval_for_writes = true;
}

abbrev policy : EffectiveTenantPolicy
policy = record {
  enabled = true;
  revision = 4;
  timezone = "UTC";
  business_hours = hours;
  outside_business_hours_action = handoff_outside;
  autonomy_mode = autonomous;
  message_rules = [];
  handoff_keywords = "human" ∷ [];
  handoff_on_tool_approval = true;
  approval_min_risk = high;
  require_approval_for_writes = true;
}

abbrev message : Message
message = record {
  id = 20;
  tenant_id = 7;
  conversation_id = 3;
  external_identity_id = none;
  direction = inbound;
  author_type = customer;
  message_type = text_message;
  text = some "a human please";
  external_message_id = none;
  idempotency_key = none;
  external_metadata = end_fields;
  occurred_at = 0;
}

abbrev db : PolicyDb
db = record {
  tenant_policies = row ∷ [];
  handoff_policies = [];
  tool_rules = [];
  events =
      record {
        id = 9;
        tenant_id = 7;
        channel_account_id = 6;
        external_event_id = "e-9";
        event_type = "text";
        status = received;
        message_id = some 20;
        error_code = none;
        created_at = 0;
      }
      ∷ [];
  messages = message ∷ [];
  conversations =
      record {
        id = 3;
        tenant_id = 7;
        contact_id = 2;
        status = open_status;
        subject = none;
        last_message_at = none;
      }
      ∷ [];
  traces = [];
}

load_run : load_effective_tenant_policy env db 7 ≡ ok policy
unfolding load_effective_tenant_policy policy_from_row normalize_policy_timezone
    normalize_message_rules normalize_handoff_keywords normalize_each parse_business_hours
    normalize_business_hours normalize_weekdays normalize_windows parse_windows parse_window
    read_window parse_clock number_of number_from split_colon check_overlap parse_days
    business_windows business_window size sort insert any find
load_run = refl

load-IsSound_example : IsSound policy
load-IsSound_example = load-IsSound env db 7 policy load_run

-- At 10:00 the message's keyword hands the conversation over, after a trace of the hours.
abbrev decided : PolicyDecision
decided = record { action = handoff; reason_code = "handoff_keyword"; policy_revision = 4 }

abbrev after_event : PolicyDb
unfolding decide_ai
after_event = (decide_ai message policy "a human please" true db).1

event_run : evaluate_ai_event env 9 600 db ≡ ok (decided, after_event)
unfolding after_event evaluate_ai_event decide_ai decide_hours decide_autonomy contains
    is_within_business_hours any find
event_run = rw (load_run, evaluate_ai_event) refl

two_traces : length after_event.traces ≡ 2
unfolding after_event decide_ai decide_hours decide_autonomy contains add_trace find
two_traces = refl

evaluate_ai_event-IsDecided_example :
    IsPassed 9 db after_event decided ⊎ IsDecided env 9 600 db after_event decided
evaluate_ai_event-IsDecided_example =
    evaluate_ai_event-IsDecided env 9 600 db after_event decided event_run

abbrev tool : ToolDefinition
tool = record {
  id = 30;
  tenant_id = 7;
  name = "refund";
  version = 1;
  description = "Refunds an order";
  adapter_kind = generic_rest;
  operation_type = write;
  risk_level = low;
  input_schema = end_fields;
  output_schema = end_fields;
  configuration = end_fields;
  timeout_seconds = 15;
  max_attempts = 1;
  requires_approval = false;
  is_active = true;
}

abbrev tool_decided : ToolPolicyDecision
tool_decided = record {
  action = approval_required;
  reason_code = "tool_policy_write_approval";
  policy_revision = 4;
  approval_required = true;
}

abbrev after_tool : PolicyDb
unfolding add_trace
after_tool =
    add_trace (tool_trace 7 8 tool policy approval_required "tool_policy_write_approval" none none)
      db

tool_run : evaluate_tool env 7 8 tool true none db ≡ ok (tool_decided, after_tool)
unfolding after_tool evaluate_tool tool_verdict approval_verdict find
tool_run = rw (load_run, evaluate_tool) refl
