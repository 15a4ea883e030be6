-- ===== src/ToolModels.antt =====
-- Tools of a tenant, their credentials and their executions
-- (apps/api/src/customers_manager_hub/tool_models.py), and what the tool runtime hands to the agent
-- (tool_runtime.py). The definitions of tools stand with the policies.
use customers_manager_hub.Prelude.{ℕ, String, Option}
use customers_manager_hub.Json.{Fields}
use customers_manager_hub.PolicyModels.{ToolOperationType, ToolRiskLevel}

pub data ToolAuthType : Type 0 where
  bearer header : ToolAuthType

pub data ToolExecutionStatus : Type 0 where
  pending approval_required running succeeded failed denied : ToolExecutionStatus

pub data ToolApprovalStatus : Type 0 where
  not_required awaited approved refused : ToolApprovalStatus

-- The ciphertext, the nonce and the version of the key are one text.
pub record ToolCredential : Type 0 where
  pub tenant_id : ℕ
  pub tool_id : ℕ
  pub auth_type : ToolAuthType
  pub header_name : Option String
  pub sealed_secret : String

pub record AgentToolPermission : Type 0 where
  pub tenant_id : ℕ
  pub agent_id : ℕ
  pub tool_id : ℕ

-- A row of `tool_executions`, less created_at.
pub record ToolExecution : Type 0 where
  pub id : ℕ
  pub tenant_id : ℕ
  pub tool_id : ℕ
  pub agent_id : ℕ
  pub agent_run_id : Option ℕ
  pub call_ordinal : Option ℕ
  pub idempotency_key : String
  pub status : ToolExecutionStatus
  pub approval_status : ToolApprovalStatus
  pub input_payload : Fields
  pub output_payload : Option Fields
  pub error_code : Option String
  pub attempt_count : ℕ
  pub duration_ms : Option ℕ
  pub approved_by_user_id : Option ℕ
  pub approved_at : Option ℕ
  pub updated_at : ℕ

pub record ModelToolDefinition : Type 0 where
  pub id : ℕ
  pub qualified_name : String
  pub description : String
  pub operation_type : ToolOperationType
  pub risk_level : ToolRiskLevel
  pub input_schema : Fields

pub record ToolExecutionResult : Type 0 where
  pub execution_id : ℕ
  pub tool_name : String
  pub status : ToolExecutionStatus
  pub output : Option Fields
  pub error_code : Option String
