-- ===== src/Policy/Engine.antt =====
-- The policy in force and the decisions: `_policy_from_row`, `_default_policy`,
-- `load_effective_tenant_policy` and `PolicyEngine`.
pub mod Loaded
use Prim.Native.Char.{Char}
use mathlib.Core.Option
use customers_manager_hub.Prelude.{
  ℕ, String, Bool, true, false, ◌&&◌, ◌||◌, ◌==◌, not, leb, Option, none, some, List, [], ◌∷◌, ◌++◌,
  find, if◌then◌else◌,
}
use customers_manager_hub.Prelude.Result.{Result, ok, err, ◌>>=◌}
use customers_manager_hub.Prelude.Text.{truncate, contains}
use customers_manager_hub.Models.{
  MessageType, text_message, voice, audio, image, video, document, location, other, Conversation,
  Message,
}
use customers_manager_hub.AgentModels.{ChannelInboundEvent}
use customers_manager_hub.HandoffModels.{HandoffPolicy}
use customers_manager_hub.PolicyModels.{
  PolicyAutonomyMode, autonomous, assist_only, human_only, OutsideBusinessHoursAction,
  allow_outside, handoff_outside, human_only_outside, PolicyMessageAction, allow_message,
  deny_message, handoff_message, PolicyToolEffect, allow_tool, deny_tool, PolicyApprovalMode,
  inherit, required, PolicyDecisionType, message_decision, tool_decision, autonomy_decision,
  business_hours_decision, handoff_decision, PolicyDecisionAction, allow, deny, approval_required,
  handoff, ToolRiskLevel, low, medium, high, critical, ToolOperationType, read, write, TenantPolicy,
  ToolPolicyRule, PolicyDecisionTrace, ToolDefinition,
}
use customers_manager_hub.Policy.Hours.{
  HoursError, BusinessWindow, parse_business_hours, is_within_business_hours,
}
use customers_manager_hub.Policy.Normalize.{
  RowError, normalize_policy_timezone, normalize_message_rules, normalize_handoff_keywords,
}

-- `PolicyRuntimeError`
pub data PolicyError : Type 0 where
  configuration_invalid event_missing message_missing conversation_missing : PolicyError
  tool_tenant_mismatch : PolicyError

pub record EffectiveTenantPolicy : Type 0 where
  pub enabled : Bool
  pub revision : ℕ
  pub timezone : String
  pub business_hours : List (String × List BusinessWindow)
  pub outside_business_hours_action : OutsideBusinessHoursAction
  pub autonomy_mode : PolicyAutonomyMode
  pub message_rules : List (MessageType × PolicyMessageAction)
  pub handoff_keywords : List String
  pub handoff_on_tool_approval : Bool
  pub approval_min_risk : ToolRiskLevel
  pub require_approval_for_writes : Bool

pub record PolicyDecision : Type 0 where
  pub action : PolicyDecisionAction
  pub reason_code : String
  pub policy_revision : ℕ

pub record ToolPolicyDecision : Type 0 where
  pub action : PolicyDecisionAction
  pub reason_code : String
  pub policy_revision : ℕ
  pub approval_required : Bool

pub record PolicyDb : Type 0 where
  pub tenant_policies : List TenantPolicy
  pub handoff_policies : List HandoffPolicy
  pub tool_rules : List ToolPolicyRule
  pub events : List ChannelInboundEvent
  pub messages : List Message
  pub conversations : List Conversation
  pub traces : List PolicyDecisionTrace

-- `_RISK_ORDER`
abbrev pub risk_order : ToolRiskLevel → ℕ
risk_order low = 0
risk_order medium = 1
risk_order high = 2
risk_order critical = 3

-- Any `ValueError` of a row is a `policy_configuration_invalid`.
abbrev pub or_invalid {ℓ κ} : {E : Type ℓ} {A : Type κ} → Result E A → Result PolicyError A
or_invalid (ok a) = ok a
or_invalid (err e) = err configuration_invalid

-- `PolicyEngine._trace`: one row of the decision.
unfoldable pub add_trace : PolicyDecisionTrace → PolicyDb → PolicyDb
add_trace t db = record db {
  traces = db.traces ++ record t { reason_code = truncate 100 t.reason_code } ∷ [];
}

-- The time zone's clock: the weekday's name and the minute of the day at an instant.
pub record Environment : Type 0 where
  pub strip : String → String
  pub casefold : String → String
  pub is_zone : String → Bool
  pub local_time : String → ℕ → String × ℕ
  pub digit : Char → Option ℕ

module _ (env : Environment) where
  open env use {strip, casefold, is_zone, local_time, digit}

  -- `_policy_from_row`
  unfoldable pub policy_from_row : TenantPolicy → Result PolicyError EffectiveTenantPolicy
  policy_from_row row =
      or_invalid (normalize_policy_timezone strip casefold is_zone row.timezone) >>= λ timezone.
      or_invalid (parse_business_hours digit row.business_hours) >>= λ business_hours.
      or_invalid (normalize_message_rules row.message_rules) >>= λ message_rules.
      or_invalid (normalize_handoff_keywords strip casefold is_zone row.handoff_keywords)
      >>= λ keywords. ok (record {
        enabled = row.enabled;
        revision = row.revision;
        timezone = timezone;
        business_hours = business_hours;
        outside_business_hours_action = row.outside_business_hours_action;
        autonomy_mode = row.autonomy_mode;
        message_rules = message_rules;
        handoff_keywords = keywords;
        handoff_on_tool_approval = row.handoff_on_tool_approval;
        approval_min_risk = row.approval_min_risk;
        require_approval_for_writes = row.require_approval_for_writes;
      })

  -- The default, with what a row of the older `handoff_policies` says.
  abbrev pub default_with : Bool → List String → Bool → EffectiveTenantPolicy
  default_with enabled keywords on_tool_approval = record {
    enabled = enabled;
    revision = 0;
    timezone = "UTC";
    business_hours = [];
    outside_business_hours_action = allow_outside;
    autonomy_mode = autonomous;
    message_rules = [];
    handoff_keywords = keywords;
    handoff_on_tool_approval = on_tool_approval;
    approval_min_risk = high;
    require_approval_for_writes = false;
  }

  -- `_default_policy`
  unfoldable pub default_policy : Option HandoffPolicy → Result PolicyError EffectiveTenantPolicy
  default_policy none = ok (default_with true [] true)
  default_policy (some legacy) =
      or_invalid (normalize_handoff_keywords strip casefold is_zone legacy.customer_keywords)
      >>= λ ks. ok (default_with legacy.enabled ks legacy.pause_on_tool_approval)

  -- `load_effective_tenant_policy`
  unfoldable pub load_effective_tenant_policy :
      PolicyDb → ℕ → Result PolicyError EffectiveTenantPolicy
  unfolding policy_from_row default_policy
  load_effective_tenant_policy db tenant_id =
      elim (find (λ p. p.tenant_id == tenant_id) db.tenant_policies) [
        | some row ↦ policy_from_row row
        | none ↦ default_policy (find (λ p. p.tenant_id == tenant_id) db.handoff_policies)
      ]
