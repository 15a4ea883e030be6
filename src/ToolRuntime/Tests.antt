-- ===== src/ToolRuntime/Tests.antt =====
-- The call of a tool and its theorems at concrete inputs.
use text.Mathlib.Text.{◌==◌ as str_eq}
use customers_manager_hub.Prelude.{
  ℕ, ◌+◌, ◌≤◌, ◌≡◌, ◌⊎◌, refl, String, Bool, true, false, none, some, List, [], ◌∷◌, All, any, find,
  filter, if◌then◌else◌,
}
use customers_manager_hub.Prelude.Result.{ok, err, ok_unique}
use customers_manager_hub.Prelude.Step.{Step, Keeps}
use customers_manager_hub.Prelude.Text.{size}
use customers_manager_hub.Json.{string, number, object, Fields, end_fields, field}
use customers_manager_hub.PolicyModels.{
  ToolPolicyRule, allow_tool, required, low, ToolDefinition, generic_rest, write, high,
}
use customers_manager_hub.ToolRuntime.{
  ToolFault, adapter_error, temporary, SplitUrl, Python, ToolAdapterRequest,
}
use customers_manager_hub.ToolRuntime.Text.{matches_header_name, normalize_header_name}
use customers_manager_hub.ToolRuntime.Url.{normalize_fixed_https_url, allowed_host}
use customers_manager_hub.ToolRuntime.Configuration.{
  RestConfiguration, rest, normalize_tool_configuration, put, plain_header, static_header,
  add_headers, static_headers, rest_configuration, is_permitted_method,
}
use customers_manager_hub.ToolRuntime.Configuration.Safe.{IsSafe, configuration-IsSafe}
use customers_manager_hub.ToolRuntime.Adapters.{
  ToolAdapter, build_tool_adapter_registry, adapter_of,
}
use customers_manager_hub.ToolRuntime.Http.{HttpRequest, HttpReply, answered}
use customers_manager_hub.ToolRuntime.Adapters.Public.{IsPublic, adapters-Keep}
use customers_manager_hub.ToolRuntime.Access.{
  ToolDb, ToolState, ToolEnvironment, list_agent_tools, resolve_allowed_tool,
}
use customers_manager_hub.ToolRuntime.Access.Listed.{is_ok, listed_iff}
use customers_manager_hub.ToolRuntime.Execute.{execute_agent_tool, ask_policy, decide}
use customers_manager_hub.ToolRuntime.Calls.{Call}
use customers_manager_hub.Policy.Engine.{Environment, load_effective_tenant_policy}
use customers_manager_hub.Policy.Tools.{evaluate_tool, tool_verdict}
use customers_manager_hub.ToolRuntime.Executions.{Verdict}
use customers_manager_hub.ToolRuntime.Execute.Decided.{IsOwn, IsRuled, decide-IsRuled}
use customers_manager_hub.ToolRuntime.Execute.Approved.{Waiting, approval_first}
use customers_manager_hub.ToolRuntime.Execute.Bounded.{most_attempts, execute-Bounded}

abbrev parts : SplitUrl
parts = record {
  scheme = "https";
  hostname = some "shop.example";
  username = none;
  password = none;
  port = some none;
  path = "/orders";
  query = "";
  fragment = "";
}

abbrev python : Python
python = record {
  strip = λ s. s;
  casefold = λ s. s;
  upper = λ s. s;
  str = λ n. "1";
  uuid_text = λ n. "11";
  dumps = λ j. "{}";
  utf8_length = λ s. 2;
  urlsplit = λ s. some parts;
  urlunsplit = λ scheme netloc path query fragment. "https://shop.example/orders";
  quote = λ s. s;
  is_global = λ s. if str_eq s "shop.example" then none else some true;
  idna = λ s. some s;
  check_schema = λ s. true;
  is_valid = λ schema payload. true;
}

-- The world is the number of requests that were sent.
abbrev ask : ToolAdapterRequest → Step ToolFault ℕ Fields
ask request n = (err (adapter_error (temporary "tool_http_timeout")), n + 1)

abbrev schema : Fields
schema = field "type" (string "object") end_fields

abbrev configuration : Fields
configuration = field "url" (string "https://shop.example/orders") (
    field "method" (string "POST") (
      field "static_headers" (object (field "Accept" (string "application/json") end_fields))
        end_fields))

abbrev refund : ToolDefinition
refund = record {
  id = 70;
  tenant_id = 7;
  name = "shop.refund";
  version = 1;
  description = "Pay an order back.";
  adapter_kind = generic_rest;
  operation_type = write;
  risk_level = high;
  input_schema = schema;
  output_schema = schema;
  configuration = configuration;
  timeout_seconds = 10;
  max_attempts = 3;
  requires_approval = false;
  is_active = true;
}

abbrev rest_accepted : RestConfiguration
rest_accepted = record {
  url = "https://shop.example/orders";
  method = "POST";
  argument_location = "query";
  static_headers = ("Accept", "application/json") ∷ [];
  idempotency_header = none;
}

accepted :
    normalize_tool_configuration python generic_rest write configuration ≡ some (rest rest_accepted)
unfolding normalize_tool_configuration rest_configuration static_headers add_headers static_header
    plain_header normalize_header_name matches_header_name normalize_fixed_https_url allowed_host
    is_permitted_method put any size
accepted = refl

configuration-IsSafe_example : IsSafe python write rest_accepted
configuration-IsSafe_example =
    configuration-IsSafe python generic_rest write configuration rest_accepted accepted

abbrev env : ToolEnvironment ℕ
env = record {
  python = python;
  others = λ s. s;
  now = λ w. 100;
  uuid4 = λ w. (80, w);
  sleep_ms = λ ms w. w;
  elapsed_ms = λ started ended. 0;
  name_before = λ s t. false;
  decrypt = λ c. none;
  policy = none;
  adapters = record { kind = generic_rest; execute = ask } ∷ [];
}

abbrev db : ToolDb
db = record {
  agents =
      record {
        id = 8;
        tenant_id = 7;
        prompt_id = 2;
        name = "Support";
        description = none;
        is_active = true;
      }
      ∷ [];
  tools = refund ∷ [];
  permissions = record { tenant_id = 7; agent_id = 8; tool_id = 70 } ∷ [];
  credentials = [];
  executions = [];
  policy = record {
    tenant_policies = [];
    handoff_policies = [];
    tool_rules = [];
    events = [];
    messages = [];
    conversations = [];
    traces = [];
  };
  audit_events = [];
}

abbrev start : ToolState ℕ
start = record { db = db; world = 0 }

abbrev call : Call
call = record {
  tenant_id = 7;
  agent_id = 8;
  agent_run_id = 11;
  call_ordinal = 1;
  qualified_name = "shop.refund@1";
  arguments = field "order" (number 17) end_fields;
}

abbrev same : Fields → Fields → Bool
same x y = true

resolved : resolve_allowed_tool env db 7 8 "shop.refund@1" ≡ ok refund
unfolding resolve_allowed_tool find filter any
resolved = refl

listed_iff_example :
    any (λ d. str_eq d.qualified_name "shop.refund@1") (list_agent_tools env db 7 8)
    ≡ is_ok (resolve_allowed_tool env db 7 8 "shop.refund@1")
listed_iff_example = listed_iff env db 7 8 "shop.refund@1"

approval_first_example :
    Waiting env same call (λ n. n ≡ 0) (execute_agent_tool env same call start).1
approval_first_example =
    approval_first env same call (λ n. n ≡ 0) (λ s h. h) (λ w h. h) refund refl start (refl, tt)
      resolved

-- The same tool, at a risk that needs no approval.
abbrev small_refund : ToolDefinition
small_refund = record refund { risk_level = low }

abbrev cheap : ToolState ℕ
cheap = record { db = record db { tools = small_refund ∷ [] }; world = 0 }

abbrev Called : ℕ → ToolState ℕ → Type 0
Called k s = s.world ≡ k

small_resolved : resolve_allowed_tool env cheap.db 7 8 "shop.refund@1" ≡ ok small_refund
unfolding resolve_allowed_tool find filter any
small_resolved = refl

asked :
    (adapter : ToolAdapter ℕ) (request : ToolAdapterRequest) (k : ℕ) (s : ToolState ℕ)
    → adapter_of env.adapters generic_rest ≡ ok adapter
    → Called k s
    → Called (k + 1) (record s { world = (adapter.execute request s.world).1 })
unfolding adapter_of
asked adapter request k s found p =
    let only : ToolAdapter ℕ = record { kind = generic_rest; execute = ask } in
    let same_adapter : only ≡ adapter = ok_unique refl found in rw (← same_adapter, p) refl

execute-Bounded_example :
    (k : ℕ) × (k ≤ most_attempts write (rest rest_accepted) small_refund.max_attempts)
    × Called k (execute_agent_tool env same call cheap).1
execute-Bounded_example =
    execute-Bounded Called env same call small_refund (rest rest_accepted) accepted (λ k s p. p)
      (λ k d s p. p) (λ k ms s p. p) (λ s p. p) asked cheap refl small_resolved

-- Here the world is the list of the URLs that were sent to, each with a host.
abbrev HasHost : String → Type 0
HasHost url =
    (p : SplitUrl) × (host : String) × (python.urlsplit url ≡ some p) × (p.hostname ≡ some host)

abbrev HaveHosts : List String → Type 0
HaveHosts = All HasHost

abbrev resolver : String → ℕ → Step ToolFault (List String) (List String)
resolver host port urls = (ok ("203.0.113.9" ∷ []), urls)

abbrev client : HttpRequest → List String → HttpReply × List String
client request urls =
    (answered (record { status_code = 200; json = some (object end_fields) }), request.url ∷ urls)

host_of : (url : String) (urls : List String) → IsPublic python resolver url urls → HasHost url
host_of url urls (p, host, split, named, public) = (p, host, split, named)

adapters-Keep_example :
    All
      (λ (a : ToolAdapter (List String)).
        (request : ToolAdapterRequest) → Keeps HaveHosts (a.execute request))
      (build_tool_adapter_registry python client resolver)
adapters-Keep_example =
    adapters-Keep python resolver HaveHosts (λ host port urls p. p) client
      (λ request urls public p. (host_of request.url urls public, p))

-- Under the tenant's default policy and a rule for the tool, a refund at a low risk needs an approval.
abbrev engine : Environment
engine = record {
  strip = λ s. s;
  casefold = λ s. s;
  is_zone = λ s. true;
  local_time = λ zone now. ("mon", now);
  digit = λ c. none;
}

abbrev ruled : ToolEnvironment ℕ
ruled = record env { policy = some engine }

abbrev rule : ToolPolicyRule
rule = record { tenant_id = 7; tool_id = 70; effect = allow_tool; approval_mode = required }

abbrev ruled_start : ToolState ℕ
ruled_start = record {
  db = record cheap.db { policy = record db.policy { tool_rules = rule ∷ [] } };
  world = 0;
}

abbrev asks : Verdict
asks = record { needs_approval = true; is_denied = false; reason = none }

abbrev after_verdict : ToolState ℕ
unfolding decide
after_verdict = (decide ruled same call small_refund ruled_start).1

verdict_run : decide ruled same call small_refund ruled_start ≡ (ok asks, after_verdict)
unfolding decide ask_policy evaluate_tool after_verdict load_effective_tenant_policy find
    tool_verdict
verdict_run = refl

decide-IsRuled_example :
    IsOwn ruled same call small_refund ruled_start after_verdict asks
    ⊎ ((e : Environment) × (some engine ≡ some e)
        × IsRuled ruled same call small_refund e ruled_start after_verdict asks)
decide-IsRuled_example =
    decide-IsRuled ruled same call small_refund ruled_start after_verdict asks verdict_run
