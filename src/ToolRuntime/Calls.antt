-- ===== src/ToolRuntime/Calls.antt =====
-- What a call of a tool is decided by: its arguments, the verdict of the policy, the number of its attempts and
-- what is left of an attempt.
use customers_manager_hub.Prelude.{
  ℕ, ◌+◌, ◌*◌, max, String, Bool, true, false, ◌&&◌, not, none, some, is_some, if◌then◌else◌,
}
use customers_manager_hub.Prelude.Result.{Result, ok, err}
use customers_manager_hub.Json.{Fields}
use customers_manager_hub.PolicyModels.{ToolDefinition, read, write, deny}
use customers_manager_hub.Policy.Engine.{
  PolicyError, configuration_invalid, event_missing, message_missing, conversation_missing,
  tool_tenant_mismatch, ToolPolicyDecision,
}
use customers_manager_hub.ToolModels.{
  ToolExecutionStatus, pending, running, ToolApprovalStatus, awaited,
}
use customers_manager_hub.ToolRuntime.{
  ToolError, ToolFault, runtime_error, adapter_error, other_error,
}
use customers_manager_hub.ToolRuntime.Configuration.{ToolConfiguration, rest, sheets}
use customers_manager_hub.ToolRuntime.Executions.{Verdict}

-- The arguments of `execute_agent_tool`, less the tenant and the agent.
pub record Call : Type 0 where
  pub tenant_id : ℕ
  pub agent_id : ℕ
  pub agent_run_id : ℕ
  pub call_ordinal : ℕ
  pub qualified_name : String
  pub arguments : Fields

-- The codes of `PolicyRuntimeError`.
abbrev pub policy_code : PolicyError → String
policy_code configuration_invalid = "policy_configuration_invalid"
policy_code event_missing = "policy_event_missing"
policy_code message_missing = "policy_message_missing"
policy_code conversation_missing = "policy_conversation_missing"
policy_code tool_tenant_mismatch = "policy_tool_tenant_mismatch"

abbrev pub verdict_of : ToolPolicyDecision → Verdict
verdict_of d = record {
  needs_approval = d.approval_required;
  is_denied = elim d.action [ deny ↦ true | _ ↦ false ];
  reason = elim d.action [ deny ↦ some d.reason_code | _ ↦ none ];
}

-- A result of an execution that is over or waits; a pending or running one has none.
abbrev pub is_settled : ToolExecutionStatus → Bool
is_settled pending = false
is_settled running = false
is_settled _ = true

abbrev pub is_running : ToolExecutionStatus → Bool
is_running running = true
is_running _ = false

abbrev pub is_awaited : ToolApprovalStatus → Bool
is_awaited awaited = true
is_awaited _ = false

-- `stale_after`, in microseconds.
abbrev pub stale_after : ToolDefinition → ℕ
stale_after tool = max 60 (tool.timeout_seconds * max tool.max_attempts 1 + 30) * 1000000

-- `configuration.get("idempotency_header")` is a text.
abbrev pub has_idempotency_header : ToolConfiguration → Bool
has_idempotency_header (rest c) = is_some c.idempotency_header
has_idempotency_header (sheets c) = false

abbrev pub is_write : ToolDefinition → Bool
is_write tool = elim tool.operation_type [ write ↦ true | read ↦ false ]

abbrev pub attempts_allowed : ToolDefinition → ToolConfiguration → ℕ
attempts_allowed tool c =
    if is_write tool && not (has_idempotency_header c) then 1 else tool.max_attempts

-- What is left of an attempt.
pub data Outcome : Type 0 where
  returned : Fields → Outcome
  adapter_failed runtime_failed : ToolError → Outcome
  crashed : Outcome

abbrev pub outcome_of : Result ToolFault Fields → Outcome
outcome_of (ok output) = returned output
outcome_of (err (adapter_error e)) = adapter_failed e
outcome_of (err (runtime_error e)) = runtime_failed e
outcome_of (err other_error) = crashed
