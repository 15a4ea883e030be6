-- ===== src/PolicyModels.antt =====
-- Policies of a tenant and their traces (apps/api/src/customers_manager_hub/policy_models.py), and what
-- they read of a tool (tool_models.py).
use customers_manager_hub.Prelude.{ℕ, String, Bool, Option, List}
use customers_manager_hub.Json.{Fields}

pub data PolicyAutonomyMode : Type 0 where
  autonomous assist_only human_only : PolicyAutonomyMode

pub data OutsideBusinessHoursAction : Type 0 where
  allow_outside handoff_outside human_only_outside : OutsideBusinessHoursAction

pub data PolicyMessageAction : Type 0 where
  allow_message deny_message handoff_message : PolicyMessageAction

pub data PolicyToolEffect : Type 0 where
  allow_tool deny_tool : PolicyToolEffect

pub data PolicyApprovalMode : Type 0 where
  inherit required : PolicyApprovalMode

pub data PolicyDecisionType : Type 0 where
  message_decision tool_decision autonomy_decision : PolicyDecisionType
  business_hours_decision handoff_decision : PolicyDecisionType

pub data PolicyDecisionAction : Type 0 where
  allow deny approval_required handoff : PolicyDecisionAction

pub data ToolRiskLevel : Type 0 where
  low medium high critical : ToolRiskLevel

pub data ToolOperationType : Type 0 where
  read write : ToolOperationType

-- A row of `tenant_policies`; the checks of the table bound the enumerations.
pub record TenantPolicy : Type 0 where
  pub tenant_id : ℕ
  pub enabled : Bool
  pub revision : ℕ
  pub timezone : String
  pub business_hours : Fields
  pub outside_business_hours_action : OutsideBusinessHoursAction
  pub autonomy_mode : PolicyAutonomyMode
  pub message_rules : Fields
  pub handoff_keywords : List String
  pub handoff_on_tool_approval : Bool
  pub approval_min_risk : ToolRiskLevel
  pub require_approval_for_writes : Bool

pub record ToolPolicyRule : Type 0 where
  pub tenant_id : ℕ
  pub tool_id : ℕ
  pub effect : PolicyToolEffect
  pub approval_mode : PolicyApprovalMode

-- A row of `policy_decision_traces`.
pub record PolicyDecisionTrace : Type 0 where
  pub tenant_id : ℕ
  pub policy_revision : ℕ
  pub decision_type : PolicyDecisionType
  pub action : PolicyDecisionAction
  pub reason_code : String
  pub conversation_id : Option ℕ
  pub message_id : Option ℕ
  pub agent_id : Option ℕ
  pub tool_id : Option ℕ
  pub safe_context : List (String × String)

pub data ToolAdapterKind : Type 0 where
  generic_rest business_reference google_sheets : ToolAdapterKind

-- A row of `tool_definitions`, less its times.
pub record ToolDefinition : Type 0 where
  pub id : ℕ
  pub tenant_id : ℕ
  pub name : String
  pub version : ℕ
  pub description : String
  pub adapter_kind : ToolAdapterKind
  pub operation_type : ToolOperationType
  pub risk_level : ToolRiskLevel
  pub input_schema : Fields
  pub output_schema : Fields
  pub configuration : Fields
  pub timeout_seconds : ℕ
  pub max_attempts : ℕ
  pub requires_approval : Bool
  pub is_active : Bool
