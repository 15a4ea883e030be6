-- ===== src/Policy/Tools.antt =====
-- Whether a tool may run: `PolicyEngine.evaluate_tool`.
use customers_manager_hub.Prelude.{
  ℕ, String, Bool, true, false, ◌&&◌, ◌||◌, ◌==◌, not, leb, Option, none, some, List, [], ◌∷◌, ◌++◌,
  find, if◌then◌else◌,
}
pub mod Approval
use text.Mathlib.Text.{◌==◌ as str_eq}
use customers_manager_hub.Prelude.Result.{Result, ok, err, ◌>>=◌}
use customers_manager_hub.PolicyModels.{
  PolicyToolEffect, allow_tool, deny_tool, PolicyApprovalMode, inherit, required, tool_decision,
  PolicyDecisionAction, allow, deny, approval_required, ToolRiskLevel, low, medium, high, critical,
  ToolOperationType, read, write, ToolPolicyRule, PolicyDecisionTrace, ToolDefinition,
}
use customers_manager_hub.Policy.Engine.{
  PolicyError, tool_tenant_mismatch, EffectiveTenantPolicy, ToolPolicyDecision, PolicyDb,
  risk_order, add_trace, Environment, load_effective_tenant_policy,
}

abbrev pub is_denied : Option ToolPolicyRule → Bool
is_denied none = false
is_denied (some rule) = elim rule.effect [ deny_tool ↦ true | allow_tool ↦ false ]

abbrev pub is_required : Option ToolPolicyRule → Bool
is_required none = false
is_required (some rule) = elim rule.approval_mode [ required ↦ true | inherit ↦ false ]

abbrev pub is_write : ToolDefinition → Bool
is_write tool = elim tool.operation_type [ write ↦ true | read ↦ false ]

-- `approval_required` and `reason` under a policy that is in force: each test may overwrite both.
abbrev pub by_risk : EffectiveTenantPolicy → ToolDefinition → Bool × String → Bool × String
by_risk policy tool v =
    if leb (risk_order policy.approval_min_risk) (risk_order tool.risk_level)
    then (true, "tool_policy_risk_approval")
    else v

abbrev pub by_write : EffectiveTenantPolicy → ToolDefinition → Bool × String → Bool × String
by_write policy tool v =
    if policy.require_approval_for_writes && is_write tool
    then (true, "tool_policy_write_approval")
    else v

abbrev pub by_rule : Option ToolPolicyRule → Bool × String → Bool × String
by_rule rule v = if is_required rule then (true, "tool_policy_rule_approval") else v

-- Whether an approval is required, and the reason.
unfoldable pub approval_verdict :
    EffectiveTenantPolicy
    → ToolDefinition
    → Option ToolPolicyRule
    → (baseline : Bool) → Bool × String
approval_verdict policy tool rule baseline =
    let start : Bool × String = (baseline, "tool_policy_allowed") in
    if policy.enabled
    then by_rule rule (by_write policy tool (by_risk policy tool start))
    else start

-- Action, reason and `approval_required` of a tool's decision.
unfoldable pub tool_verdict :
    EffectiveTenantPolicy
    → ToolDefinition
    → Option ToolPolicyRule
    → (baseline : Bool) → PolicyDecisionAction × String × Bool
unfolding approval_verdict
tool_verdict policy tool rule baseline =
    if policy.enabled && is_denied rule
    then (deny, "tool_policy_denied", false)
    else (let (needed, reason) = approval_verdict policy tool rule baseline in
        if needed
        then (
          approval_required,
          (if str_eq reason "tool_policy_allowed" then "tool_baseline_approval" else reason),
          true,
        )
        else (allow, reason, false))

pub risk_text : ToolRiskLevel → String
risk_text low = "low"
risk_text medium = "medium"
risk_text high = "high"
risk_text critical = "critical"

pub operation_text : ToolOperationType → String
operation_text read = "read"
operation_text write = "write"

pub rule_context : Option ToolPolicyRule → List (String × String)
rule_context none = []
rule_context (some rule) =
    ("rule_effect", elim rule.effect [ allow_tool ↦ "allow" | deny_tool ↦ "deny" ])
    ∷ ("approval_mode", elim rule.approval_mode [ inherit ↦ "inherit" | required ↦ "required" ])
    ∷ []

abbrev pub tool_rule : PolicyDb → ℕ → ℕ → Option ToolPolicyRule
tool_rule db tenant_id tool_id =
    find (λ r. r.tenant_id == tenant_id && r.tool_id == tool_id) db.tool_rules

pub tool_trace :
    ℕ
    → ℕ
    → ToolDefinition
    → EffectiveTenantPolicy
    → PolicyDecisionAction
    → String
    → Option ℕ
    → Option ToolPolicyRule
    → PolicyDecisionTrace
unfolding risk_text operation_text rule_context
tool_trace tenant_id agent_id tool policy action reason conversation_id rule = record {
  tenant_id = tenant_id;
  policy_revision = policy.revision;
  decision_type = tool_decision;
  action = action;
  reason_code = reason;
  conversation_id = conversation_id;
  message_id = none;
  agent_id = some agent_id;
  tool_id = some tool.id;
  safe_context =
      ("risk_level", risk_text tool.risk_level)
      ∷ ("operation_type", operation_text tool.operation_type)
      ∷ rule_context rule;
}

-- `evaluate_tool`
unfoldable pub evaluate_tool :
    (env : Environment) (tenant_id agent_id : ℕ)
    → ToolDefinition
    → (baseline : Bool) → (conversation_id : Option ℕ) → PolicyDb
    → Result PolicyError (ToolPolicyDecision × PolicyDb)
unfolding tool_trace
evaluate_tool env tenant_id agent_id tool baseline conversation_id db =
    if not (tool.tenant_id == tenant_id)
    then err tool_tenant_mismatch
    else (load_effective_tenant_policy env db tenant_id >>= λ policy.
        let rule = tool_rule db tenant_id tool.id in
        let (action, reason, needed) = tool_verdict policy tool rule baseline in
        ok (
          record {
            action = action;
            reason_code = reason;
            policy_revision = policy.revision;
            approval_required = needed;
          },
          add_trace (tool_trace tenant_id agent_id tool policy action reason conversation_id rule)
              db,
        ))
