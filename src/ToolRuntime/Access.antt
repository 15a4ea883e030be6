-- ===== src/ToolRuntime/Access.antt =====
-- Which tools an agent has: `list_agent_tools`, `_resolve_allowed_tool`, `_load_credential` and
-- `_approval_required`.
pub mod Listed
use text.Mathlib.Text.{◌==◌ as str_eq}
use customers_manager_hub.Prelude.{
  ℕ, String, Bool, true, false, ◌&&◌, ◌||◌, ◌==◌, ltb, Option, none, some, is_some, List, [], ◌∷◌,
  any, map, find, filter, if◌then◌else◌,
}
use customers_manager_hub.Prelude.Result.{Result, ok, err}
use customers_manager_hub.Prelude.Sort.{sort}
use customers_manager_hub.Prelude.Step.{Step}
use customers_manager_hub.Models.{AuditEvent}
use customers_manager_hub.AgentModels.{Agent}
use customers_manager_hub.PolicyModels.{ToolDefinition, ToolRiskLevel, low, medium, high, critical}
use customers_manager_hub.ToolModels.{
  ToolCredential, AgentToolPermission, ToolExecution, ModelToolDefinition,
}
use customers_manager_hub.Policy.Engine.{PolicyDb, Environment}
use customers_manager_hub.ToolRuntime.{
  ToolFault, runtime_error, other_error, denied, Python, ResolvedToolCredential,
}
use customers_manager_hub.ToolRuntime.Text.{qualified_tool_name}
use customers_manager_hub.ToolRuntime.Adapters.{ToolAdapter}

-- The tables that the tool runtime reads and writes.
pub record ToolDb : Type 0 where
  pub agents : List Agent
  pub tools : List ToolDefinition
  pub permissions : List AgentToolPermission
  pub credentials : List ToolCredential
  pub executions : List ToolExecution
  pub policy : PolicyDb
  pub audit_events : List AuditEvent

pub record ToolState (W : Type 0) : Type 0 where
  pub db : ToolDb
  pub world : W

-- What the runtime is built with, and what it calls. `others` is what other transactions do before one of the
-- runtime's own; `now` is the time of the database and of the worker; `elapsed_ms` are the rounded milliseconds
-- between two worlds; `name_before` is the database's order of texts; `decrypt` is `decrypt_tool_secret`
-- on a row, and `none` where it raises.
pub record ToolEnvironment (W : Type 0) : Type 0 where
  pub python : Python
  pub others : ToolState W → ToolState W
  pub now : W → ℕ
  pub uuid4 : W → ℕ × W
  pub sleep_ms : ℕ → W → W
  pub elapsed_ms : (started ended : W) → ℕ
  pub name_before : String → String → Bool
  pub decrypt : ToolCredential → Option String
  pub policy : Option Environment
  pub adapters : List (ToolAdapter W)

abbrev pub active_agent : ToolDb → ℕ → ℕ → Option Agent
active_agent db tenant_id agent_id =
    find (λ a. a.id == agent_id && a.tenant_id == tenant_id && a.is_active) db.agents

-- The query for the tools that an agent has, without an order.
abbrev pub is_permitted : ToolDb → ℕ → ℕ → ToolDefinition → Bool
is_permitted db tenant_id agent_id t =
    t.tenant_id == tenant_id
    && t.is_active
    && any (λ p. p.tool_id == t.id && p.tenant_id == t.tenant_id && p.agent_id == agent_id)
        db.permissions

-- `_approval_required`
abbrev pub approval_required : ToolDefinition → Bool
approval_required t =
    t.requires_approval || elim t.risk_level [ high ↦ true | critical ↦ true | _ ↦ false ]

module _ {W : Type 0} (env : ToolEnvironment W) where
  open env use {python, name_before, decrypt}

  -- `ORDER BY name, version, id`
  abbrev pub is_listed_before : ToolDefinition → ToolDefinition → Bool
  is_listed_before x y =
      name_before x.name y.name
      || str_eq x.name y.name
        && (ltb x.version y.version || x.version == y.version && ltb x.id y.id)

  abbrev pub tool_name : ToolDefinition → String
  tool_name t = qualified_tool_name python t.name t.version

  abbrev pub model_definition : ToolDefinition → ModelToolDefinition
  model_definition t = record {
    id = t.id;
    qualified_name = tool_name t;
    description = t.description;
    operation_type = t.operation_type;
    risk_level = t.risk_level;
    input_schema = t.input_schema;
  }

  -- `list_agent_tools`
  unfoldable pub list_agent_tools : ToolDb → ℕ → ℕ → List ModelToolDefinition
  list_agent_tools db tenant_id agent_id =
      if is_some (active_agent db tenant_id agent_id)
      then map model_definition
          (sort is_listed_before (filter (is_permitted db tenant_id agent_id) db.tools))
      else []

  abbrev pub or_unauthorized : Option ToolDefinition → Result ToolFault ToolDefinition
  or_unauthorized none = err (runtime_error (denied "tool_not_authorized"))
  or_unauthorized (some t) = ok t

  -- `_resolve_allowed_tool`
  unfoldable pub resolve_allowed_tool : ToolDb → ℕ → ℕ → String → Result ToolFault ToolDefinition
  resolve_allowed_tool db tenant_id agent_id name =
      if is_some (active_agent db tenant_id agent_id)
      then or_unauthorized (
          find (λ t. str_eq (tool_name t) name)
            (filter (is_permitted db tenant_id agent_id) db.tools))
      else err (runtime_error (denied "tool_agent_unavailable"))

  -- `_load_credential`
  unfoldable pub load_credential :
      ToolDb → ToolDefinition → Result ToolFault (Option ResolvedToolCredential)
  load_credential db t =
      elim (find (λ c. c.tenant_id == t.tenant_id && c.tool_id == t.id) db.credentials) [
        | none ↦ ok none
        | some c ↦ elim (decrypt c) [
          | none ↦ err other_error
          | some secret ↦ ok (
              some
                (record { auth_type = c.auth_type; secret = secret; header_name = c.header_name }))
        ]
      ]
