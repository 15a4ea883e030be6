-- ===== src/Policy/Tools/Approval.antt =====
-- What the decision on a tool comes to.
use customers_manager_hub.Prelude.{
  ℕ, ◌≡◌, ◌≢◌, refl, sym, ap, ◌∙◌, Bool, true, ◌&&◌, ◌||◌, ◌==◌, not, leb, Option, some, [], ◌∷◌,
  ◌++◌, if◌then◌else◌, arith, Bool-cases, ==_iff, inl, inr,
}
use customers_manager_hub.Prelude.Result.{ok, bind_ok, ok_parts, err≢ok}
use customers_manager_hub.Prelude.Text.{truncate}
use customers_manager_hub.PolicyModels.{
  PolicyDecisionAction, allow, deny, approval_required, ToolPolicyRule, PolicyDecisionTrace,
  ToolDefinition,
}
use customers_manager_hub.Policy.Engine.{
  EffectiveTenantPolicy, ToolPolicyDecision, PolicyDb, risk_order, add_trace, Environment,
  load_effective_tenant_policy,
}
use customers_manager_hub.Policy.Tools.{
  is_denied, is_required, is_write, approval_verdict, tool_verdict, tool_rule, tool_trace,
  evaluate_tool,
}

-- When an approval is needed, with `baseline` the tool's own requirement: the tests of the tenant's policy
-- count while it is enabled only.
abbrev pub needs_approval :
    EffectiveTenantPolicy → ToolDefinition → Option ToolPolicyRule → Bool → Bool
needs_approval policy tool rule baseline =
    baseline
    || (policy.enabled
        && (leb (risk_order policy.approval_min_risk) (risk_order tool.risk_level)
            || (policy.require_approval_for_writes && is_write tool)
            || is_required rule))

abbrev pub expected_action :
    EffectiveTenantPolicy → ToolDefinition → Option ToolPolicyRule → Bool → PolicyDecisionAction
expected_action policy tool rule baseline =
    if policy.enabled && is_denied rule
    then deny
    else if needs_approval policy tool rule baseline
    then approval_required
    else allow

approval_needed :
    (policy : EffectiveTenantPolicy) (tool : ToolDefinition) (rule : Option ToolPolicyRule)
    (baseline : Bool)
    → (approval_verdict policy tool rule baseline).0 ≡ needs_approval policy tool rule baseline
unfolding approval_verdict
approval_needed policy tool rule baseline = ground arith

verdict_action :
    (policy : EffectiveTenantPolicy) (tool : ToolDefinition) (rule : Option ToolPolicyRule)
    (baseline : Bool)
    → (tool_verdict policy tool rule baseline).0 ≡ expected_action policy tool rule baseline
unfolding tool_verdict
verdict_action policy tool rule baseline = ground (arith, approval_needed policy tool rule baseline)

verdict_flag :
    (policy : EffectiveTenantPolicy) (tool : ToolDefinition) (rule : Option ToolPolicyRule)
    (baseline : Bool)
    → (tool_verdict policy tool rule baseline).2
      ≡ (not (policy.enabled && is_denied rule) && needs_approval policy tool rule baseline)
unfolding tool_verdict
verdict_flag policy tool rule baseline = ground (arith, approval_needed policy tool rule baseline)

not_allowed :
    (policy : EffectiveTenantPolicy) (tool : ToolDefinition) (rule : Option ToolPolicyRule)
    (a : PolicyDecisionAction)
    → a ≡ expected_action policy tool rule true
    → a ≢ allow
not_allowed policy tool rule a e = ground arith

-- A decision, the policy and the rule that it follows, and its trace.
pub record IsDecided (env : Environment) (tenant_id : ℕ) (tool : ToolDefinition) (baseline : Bool)
    (db next : PolicyDb) (d : ToolPolicyDecision) : Type 0 where
  pub own_tool : tool.tenant_id ≡ tenant_id
  pub policy : EffectiveTenantPolicy
  pub loaded : load_effective_tenant_policy env db tenant_id ≡ ok policy
  pub action : d.action ≡ expected_action policy tool (tool_rule db tenant_id tool.id) baseline
  pub flag : d.approval_required ≡ (
      not (policy.enabled && is_denied (tool_rule db tenant_id tool.id))
      && needs_approval policy tool (tool_rule db tenant_id tool.id) baseline)
  pub trace : PolicyDecisionTrace
  pub traced : next ≡ record db { traces = db.traces ++ trace ∷ [] }
  pub same_action : trace.action ≡ d.action
  pub same_reason : trace.reason_code ≡ truncate 100 d.reason_code
  pub same_tool : trace.tool_id ≡ some tool.id

-- A decision on a tool of the tenant follows the policy in force as `expected_action` says, for any
-- requirement of the tool itself (`baseline`), and leaves one trace.
pub evaluate_tool-IsDecided :
    (env : Environment) (tenant_id agent_id : ℕ) (tool : ToolDefinition) (baseline : Bool)
    (conversation_id : Option ℕ) (db next : PolicyDb) (d : ToolPolicyDecision)
    → evaluate_tool env tenant_id agent_id tool baseline conversation_id db ≡ ok (d, next)
    → IsDecided env tenant_id tool baseline db next d
unfolding evaluate_tool add_trace tool_trace
evaluate_tool-IsDecided env t agent_id tool baseline conversation_id db next d e =
    elim (Bool-cases (tool.tenant_id == t)) [
      | inr other ↦ absurd (err≢ok (rw (other, evaluate_tool) at e))
      | inl own ↦
          let e' = rw (own, evaluate_tool) at e in
          let (policy, loaded, last) =
            bind_ok (load_effective_tenant_policy env db t) _ (d, next) e' in
          let rule = tool_rule db t tool.id in
          let v = tool_verdict policy tool rule baseline in
          let (same, after) = ok_parts refl last in
          record {
            own_tool = (==_iff tool.tenant_id t).0 own;
            policy = policy;
            loaded = loaded;
            action = ap (λ x. x.action) (sym same) ∙ verdict_action policy tool rule baseline;
            flag =
                ap (λ x. x.approval_required) (sym same) ∙ verdict_flag policy tool rule baseline;
            trace = record (tool_trace t agent_id tool policy v.0 v.1 conversation_id rule) {
              reason_code = truncate 100 v.1;
            };
            traced = sym after;
            same_action = ap (λ x. x.action) same;
            same_reason = ap (λ x. truncate 100 x.reason_code) same;
            same_tool = refl;
          }
    ]

-- Where the tool itself requires an approval, no policy takes that away: the tool is not simply
-- allowed.
pub baseline_kept :
    (env : Environment) (tenant_id agent_id : ℕ) (tool : ToolDefinition)
    (conversation_id : Option ℕ) (db next : PolicyDb) (d : ToolPolicyDecision)
    → evaluate_tool env tenant_id agent_id tool true conversation_id db ≡ ok (d, next)
    → d.action ≢ allow
baseline_kept env t agent_id tool conversation_id db next d e =
    let decided = evaluate_tool-IsDecided env t agent_id tool true conversation_id db next d e in
    not_allowed decided.policy tool (tool_rule db t tool.id) d.action decided.action
