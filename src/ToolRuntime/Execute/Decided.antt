-- ===== src/ToolRuntime/Execute/Decided.antt =====
-- What the tool runtime makes of the tool's own requirement and of the tenant's policy: `decide`, the
-- part of `execute_agent_tool` between the arguments and the new execution.
use customers_manager_hub.Prelude.{
  ◌≡◌, ◌⊎◌, refl, sym, ap, ◌∙◌, Bool, true, false, ◌&&◌, ◌||◌, not, leb, Option, none, some, [],
  ◌∷◌, ◌++◌, arith, Option-cases, inl, inr,
}
use customers_manager_hub.Prelude.Result.{ok, err≢ok, ok_unique, Result-cases}
use customers_manager_hub.Json.{Fields}
use customers_manager_hub.PolicyModels.{
  ToolDefinition, ToolPolicyRule, PolicyDecisionTrace, ToolRiskLevel, low, medium, high, critical,
}
use customers_manager_hub.Policy.Engine.{
  EffectiveTenantPolicy, Environment, risk_order, load_effective_tenant_policy,
}
use customers_manager_hub.Policy.Tools.{tool_rule, is_denied, is_required, is_write, evaluate_tool}
use customers_manager_hub.Policy.Tools.Approval.{
  needs_approval, expected_action, evaluate_tool-IsDecided,
}
use customers_manager_hub.ToolRuntime.{ToolFault}
use customers_manager_hub.ToolRuntime.Access.{ToolDb, ToolState, ToolEnvironment}
use customers_manager_hub.ToolRuntime.Executions.{Verdict}
use customers_manager_hub.ToolRuntime.Execute.{ask_policy, decide}
use customers_manager_hub.ToolRuntime.Calls.{Call, verdict_of}
use customers_manager_hub.ToolRuntime.Execute.Verdicts.{denies, verdict_denies}

-- The levels of risk, as the specification orders them: whether a level reaches a floor.
abbrev pub reaches : (floor level : ToolRiskLevel) → Bool
reaches low _ = true
reaches medium low = false
reaches medium _ = true
reaches high high = true
reaches high critical = true
reaches high _ = false
reaches critical critical = true
reaches critical _ = false

order-reaches :
    (floor level : ToolRiskLevel) → leb (risk_order floor) (risk_order level) ≡ reaches floor level
order-reaches low low = refl
order-reaches low medium = refl
order-reaches low high = refl
order-reaches low critical = refl
order-reaches medium low = refl
order-reaches medium medium = refl
order-reaches medium high = refl
order-reaches medium critical = refl
order-reaches high low = refl
order-reaches high medium = refl
order-reaches high high = refl
order-reaches high critical = refl
order-reaches critical low = refl
order-reaches critical medium = refl
order-reaches critical high = refl
order-reaches critical critical = refl

-- The tool itself requires an approval: by its definition, or by a high or critical risk.
abbrev pub asks_itself : ToolDefinition → Bool
asks_itself tool = tool.requires_approval || reaches high tool.risk_level

-- The tenant's policy requires one, while it is enabled: by its floor of risk, for a tool that writes, or
-- by the rule of the tool.
abbrev pub policy_asks : EffectiveTenantPolicy → ToolDefinition → Option ToolPolicyRule → Bool
policy_asks policy tool rule =
    policy.enabled
    && (reaches policy.approval_min_risk tool.risk_level
        || (policy.require_approval_for_writes && is_write tool)
        || is_required rule)

own-asks :
    (tool : ToolDefinition)
    → customers_manager_hub.ToolRuntime.Access.approval_required tool ≡ asks_itself tool
own-asks tool = ground arith

needs-asks :
    (policy : EffectiveTenantPolicy) (tool : ToolDefinition) (rule : Option ToolPolicyRule)
    → needs_approval policy tool rule
        (customers_manager_hub.ToolRuntime.Access.approval_required tool)
      ≡ (asks_itself tool || policy_asks policy tool rule)
needs-asks policy tool rule =
    rw (own-asks tool, order-reaches policy.approval_min_risk tool.risk_level) refl

action-denies :
    (policy : EffectiveTenantPolicy) (tool : ToolDefinition) (rule : Option ToolPolicyRule)
    (baseline : Bool)
    → denies (expected_action policy tool rule baseline) ≡ (policy.enabled && is_denied rule)
unfolding denies
action-denies policy tool rule baseline = ground arith

module _ {W : Type 0} (env : ToolEnvironment W) (same_payload : Fields → Fields → Bool)
    (call : Call) (tool : ToolDefinition) where
  -- The verdict by the policy in force of the tenant, and its trace, which is all that is written.
  pub record IsRuled (engine : Environment) (s next : ToolState W) (v : Verdict) : Type 0 where
    pub policy : EffectiveTenantPolicy
    pub loaded :
        load_effective_tenant_policy engine (env.others s).db.policy call.tenant_id ≡ ok policy
    pub denied :
        v.is_denied
        ≡ (policy.enabled && is_denied (tool_rule (env.others s).db.policy call.tenant_id tool.id))
    pub approval : v.needs_approval ≡ (
        not v.is_denied
        && (asks_itself tool
            || policy_asks policy tool (tool_rule (env.others s).db.policy call.tenant_id tool.id)))
    pub trace : PolicyDecisionTrace
    pub traced : next ≡ record (env.others s) {
      db = record (env.others s).db {
        policy = record (env.others s).db.policy {
          traces = (env.others s).db.policy.traces ++ trace ∷ [];
        };
      };
    }

  -- The verdict without a policy engine: the tool's own requirement, and nothing is written.
  abbrev pub IsOwn : (s next : ToolState W) → Verdict → Type 0
  IsOwn s next v =
      (env.policy ≡ none)
      × (v.is_denied ≡ false)
      × (v.needs_approval ≡ asks_itself tool)
      × (next ≡ s)

  ask-IsRuled :
      (engine : Environment) (s next : ToolState W) (v : Verdict)
      → ask_policy env same_payload call tool engine
          (customers_manager_hub.ToolRuntime.Access.approval_required tool)
          s
        ≡ (ok v, next)
      → IsRuled engine s next v
  unfolding ask_policy
  ask-IsRuled engine s next v e =
      let s' = env.others s in
      let baseline = customers_manager_hub.ToolRuntime.Access.approval_required tool in
      let rule = tool_rule s'.db.policy call.tenant_id tool.id in
      elim (Result-cases
        (evaluate_tool engine call.tenant_id call.agent_id tool baseline none s'.db.policy)) [
          | inr (x, f) ↦ absurd (err≢ok (ap (λ p. p.0) (rw (f, ask_policy) at e)))
          | inl ((d, after), f) ↦
              let e' = rw (f, ask_policy) at e in
              let is_v : verdict_of d ≡ v = ok_unique refl (ap (λ p. p.0) e') in
              let is_next = ap (λ p. p.1) e' in
              let x =
                evaluate_tool-IsDecided engine call.tenant_id call.agent_id tool baseline none
                  s'.db.policy after d f in
              let by_rule : (verdict_of d).is_denied ≡ (x.policy.enabled && is_denied rule) =
                verdict_denies d ∙ ap denies x.action ∙ action-denies x.policy tool rule baseline in
              record {
                policy = x.policy;
                loaded = x.loaded;
                denied = rw (← is_v) by_rule;
                approval =
                    rw (← is_v, by_rule)
                      (x.flag
                        ∙ ap (λ b. not (x.policy.enabled && is_denied rule) && b)
                            (needs-asks x.policy tool rule));
                trace = x.trace;
                traced =
                    sym is_next ∙ ap (λ p. record s' { db = record s'.db { policy = p } }) x.traced;
              }
        ]

  -- Where there is no policy engine, the verdict on a new call of a tool is the tool's own
  -- requirement. Else the policy in force of the tenant rules: the call is denied exactly where
  -- the policy is enabled and the tool's rule denies it; where it is not denied, it needs an
  -- approval exactly where the tool's definition requires one, its risk is high or critical, or
  -- the policy is enabled and the tool's risk reaches the policy's floor, the tool writes and the
  -- policy asks for approvals of writes, or the tool's rule requires one. One trace is added, and
  -- nothing else is written.
  pub decide-IsRuled :
      (s next : ToolState W) (v : Verdict)
      → decide env same_payload call tool s ≡ (ok v, next)
      → IsOwn s next v
        ⊎ ((engine : Environment) × (env.policy ≡ some engine) × IsRuled engine s next v)
  unfolding decide
  decide-IsRuled s next v e = elim (Option-cases env.policy) [
    | inl n ↦
        let e' = rw (n, decide) at e in
        let is_v = ok_unique refl (ap (λ p. p.0) e') in
        inl (
          n,
          sym (ap (λ x. x.is_denied) is_v),
          sym (ap (λ x. x.needs_approval) is_v) ∙ own-asks tool,
          sym (ap (λ p. p.1) e'),
        )
    | inr (engine, n) ↦ inr (engine, n, ask-IsRuled engine s next v (rw (n, decide) at e))
  ]
