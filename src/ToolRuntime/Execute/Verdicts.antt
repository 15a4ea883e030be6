-- ===== src/ToolRuntime/Execute/Verdicts.antt =====
-- A tool that requires an approval: every verdict on it asks for one or denies it.
use customers_manager_hub.Prelude.{
  ℕ, ◌≡◌, String, Bool, true, false, ◌&&◌, ◌||◌, not, none, some, List, [], ◌∷◌, All, find, arith,
  if◌then◌else◌, Bool-cases, inl, inr,
}
use customers_manager_hub.Prelude.Result.{ok}
use customers_manager_hub.PolicyModels.{ToolDefinition, PolicyDecisionAction, deny}
use customers_manager_hub.Policy.Engine.{EffectiveTenantPolicy, ToolPolicyDecision, Environment}
use customers_manager_hub.Policy.Tools.{tool_rule, is_denied, evaluate_tool}
use customers_manager_hub.Policy.Tools.Approval.{evaluate_tool-IsDecided}
use customers_manager_hub.ToolModels.{ToolExecution}
use customers_manager_hub.ToolRuntime.Executions.{is_of_key, Verdict, first_status}
use customers_manager_hub.ToolRuntime.Calls.{verdict_of, is_settled}

abbrev pub forbids : Verdict → Bool
forbids v = v.is_denied || v.needs_approval

pub first-settled : (v : Verdict) → forbids v ≡ true → is_settled (first_status v) ≡ true
first-settled v h = ground arith

unfoldable pub denies : PolicyDecisionAction → Bool
denies deny = true
denies _ = false

pub verdict_denies : (d : ToolPolicyDecision) → (verdict_of d).is_denied ≡ denies d.action
unfolding denies
verdict_denies d = ground arith

action_denies :
    (policy : EffectiveTenantPolicy) (tool : ToolDefinition) (denied_by_rule : Bool)
    (a : PolicyDecisionAction) (flag : Bool)
    → a ≡ (if denied_by_rule then deny else PolicyDecisionAction.approval_required)
    → flag ≡ not denied_by_rule
    → (denies a || flag) ≡ true
unfolding denies
action_denies policy tool denied_by_rule a flag e f = ground arith

-- Where the tool itself requires an approval, a decision denies it or requires one.
pub decision-forbids :
    (engine : Environment) (t agent_id : ℕ) (tool : ToolDefinition)
    (db next : customers_manager_hub.Policy.Engine.PolicyDb) (d : ToolPolicyDecision)
    → evaluate_tool engine t agent_id tool true none db ≡ ok (d, next)
    → forbids (verdict_of d) ≡ true
decision-forbids engine t agent_id tool db next d e =
    let x = evaluate_tool-IsDecided engine t agent_id tool true none db next d e in
    let by_rule = x.policy.enabled && is_denied (tool_rule db t tool.id) in
    let action : d.action ≡ (if by_rule then deny else PolicyDecisionAction.approval_required) =
      ground (arith, x.action) in
    let flag : d.approval_required ≡ not by_rule = ground (arith, x.flag) in
    rw (verdict_denies d)
      (action_denies x.policy tool by_rule d.action d.approval_required action flag)

-- The row is of another call, or it is settled: it waits for its approval, was denied or is over, and is
-- neither pending nor running.
abbrev pub is_quiet : ℕ → String → ToolExecution → Bool
is_quiet tenant_id key x = not (is_of_key tenant_id key x) || is_settled x.status

pub All-found :
    {A : Type 0} (P : A → Type 0) (p : A → Bool) (xs : List A) (x : A)
    → All P xs
    → find p xs ≡ some x
    → P x
unfolding find
All-found P p [] x h e = ground arith
All-found P p (y ∷ ys) x h e = elim (Bool-cases (p y)) [
  | inl first ↦ let same : y ≡ x = ground (arith, first) in rw (← same) h.0
  | inr other ↦ All-found P p ys x h.1 (rw (other, find) at e)
]

pub settled_of_quiet :
    (t : ℕ) (key : String) (x : ToolExecution)
    → is_quiet t key x ≡ true
    → is_of_key t key x ≡ true
    → is_settled x.status ≡ true
settled_of_quiet t key x h e = ground (arith, e)
