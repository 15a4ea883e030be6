-- ===== src/Policy/Decide.antt =====
-- The decisions of `PolicyEngine`: `evaluate_message_event`, `evaluate_ai_event` and `evaluate_tool`.
pub mod Autonomy
pub mod Events
use customers_manager_hub.Prelude.{
  ℕ, String, Bool, true, false, ◌&&◌, ◌||◌, ◌==◌, not, leb, Option, none, some, List, [], ◌∷◌, ◌++◌,
  find, if◌then◌else◌, is_some,
}
use customers_manager_hub.Prelude.Result.{Result, ok, err, ◌>>=◌}
use customers_manager_hub.Prelude.Text.{contains}
use customers_manager_hub.Models.{
  MessageType, text_message, voice, audio, image, video, document, location, other, Conversation,
  Message,
}
use customers_manager_hub.AgentModels.{ChannelInboundEvent}
use customers_manager_hub.PolicyModels.{
  PolicyAutonomyMode, autonomous, assist_only, human_only, OutsideBusinessHoursAction,
  allow_outside, handoff_outside, human_only_outside, PolicyMessageAction, allow_message,
  deny_message, handoff_message, PolicyToolEffect, allow_tool, deny_tool, PolicyApprovalMode,
  inherit, required, PolicyDecisionType, message_decision, tool_decision, autonomy_decision,
  business_hours_decision, handoff_decision, PolicyDecisionAction, allow, deny, approval_required,
  handoff, ToolRiskLevel, low, medium, high, critical, ToolOperationType, read, write,
  ToolPolicyRule, PolicyDecisionTrace, ToolDefinition,
}
use customers_manager_hub.Policy.Hours.{is_within_business_hours}
use customers_manager_hub.Policy.Engine.{
  PolicyError, event_missing, message_missing, conversation_missing, tool_tenant_mismatch,
  EffectiveTenantPolicy, PolicyDecision, ToolPolicyDecision, PolicyDb, risk_order, add_trace,
  Environment, load_effective_tenant_policy,
}

abbrev pub same_type : MessageType → MessageType → Bool
same_type text_message text_message = true
same_type voice voice = true
same_type audio audio = true
same_type image image = true
same_type video video = true
same_type document document = true
same_type location location = true
same_type other other = true
same_type _ _ = false

pub type_text : MessageType → String
type_text text_message = "text"
type_text voice = "voice"
type_text audio = "audio"
type_text image = "image"
type_text video = "video"
type_text document = "document"
type_text location = "location"
type_text other = "other"

-- `policy.message_rules.get(message_type, PolicyMessageAction.ALLOW)`
abbrev pub rule_of : List (MessageType × PolicyMessageAction) → MessageType → PolicyMessageAction
rule_of [] t = allow_message
rule_of (r ∷ rs) t = if same_type r.0 t then r.1 else rule_of rs t

abbrev pub decision : EffectiveTenantPolicy → PolicyDecisionAction → String → PolicyDecision
decision policy action reason = record {
  action = action;
  reason_code = reason;
  policy_revision = policy.revision;
}

-- A trace of a decision on a message.
abbrev pub message_trace :
    Message
    → EffectiveTenantPolicy
    → PolicyDecisionType
    → PolicyDecisionAction
    → String
    → List (String × String)
    → PolicyDecisionTrace
message_trace m policy decision_type action reason context = record {
  tenant_id = m.tenant_id;
  policy_revision = policy.revision;
  decision_type = decision_type;
  action = action;
  reason_code = reason;
  conversation_id = some m.conversation_id;
  message_id = some m.id;
  agent_id = none;
  tool_id = none;
  safe_context = context;
}

-- The event, and the message of its tenant that it names.
abbrev pub event_of : PolicyDb → ℕ → Option ChannelInboundEvent
event_of db event_id = find (λ e. e.id == event_id) db.events

abbrev pub message_of : PolicyDb → ChannelInboundEvent → ℕ → Option Message
message_of db event message_id =
    find (λ m. m.id == message_id && m.tenant_id == event.tenant_id) db.messages

abbrev pub no_message : PolicyDecision
no_message = record { action = allow; reason_code = "event_has_no_message"; policy_revision = 0 }

-- Action and reason of `evaluate_message_event`.
abbrev pub message_verdict : EffectiveTenantPolicy → MessageType → PolicyDecisionAction × String
message_verdict policy t =
    if not policy.enabled
    then (allow, "policy_disabled")
    else elim (rule_of policy.message_rules t) [
      | deny_message ↦ (deny, "message_policy_denied")
      | handoff_message ↦ (handoff, "message_policy_handoff")
      | allow_message ↦ (allow, "message_policy_allowed")
    ]

-- A decision whose trace is the last thing written.
abbrev pub traced :
    Message
    → EffectiveTenantPolicy
    → PolicyDecisionType
    → PolicyDecisionAction
    → String
    → List (String × String)
    → PolicyDb
    → PolicyDecision × PolicyDb
traced m policy decision_type action reason context db = (
  decision policy action reason,
  add_trace (message_trace m policy decision_type action reason context) db,
)

abbrev pub mode_text : PolicyAutonomyMode → String
mode_text autonomous = "autonomous"
mode_text assist_only = "assist_only"
mode_text human_only = "human_only"

-- `reason`, where the tenant's agent may not answer by itself.
abbrev pub autonomy_stop : PolicyAutonomyMode → Option String
autonomy_stop autonomous = none
autonomy_stop assist_only = some "autonomy_assist_only"
autonomy_stop human_only = some "autonomy_human_only"

-- `reason`, where an agent may not answer outside business hours.
abbrev pub hours_stop : OutsideBusinessHoursAction → Option String
hours_stop allow_outside = none
hours_stop handoff_outside = some "outside_business_hours_handoff"
hours_stop human_only_outside = some "outside_business_hours_human_only"

-- The last part of `evaluate_ai_event`: autonomy and keywords; `text` is casefolded.
unfoldable pub decide_autonomy :
    Message → EffectiveTenantPolicy → String → PolicyDb → PolicyDecision × PolicyDb
decide_autonomy m policy text db =
    let mode = ("autonomy_mode", mode_text policy.autonomy_mode) ∷ [] in
    elim (autonomy_stop policy.autonomy_mode) [
      | some reason ↦ traced m policy autonomy_decision handoff reason mode db
      | none ↦ elim (find (λ keyword. contains keyword text) policy.handoff_keywords) [
        | some keyword ↦
            traced m policy handoff_decision handoff "handoff_keyword"
              (("matched_keyword", keyword) ∷ []) db
        | none ↦ traced m policy autonomy_decision allow "autonomous_ai_allowed" mode db
      ]
    ]

-- The part about business hours, before the rest.
unfoldable pub decide_hours :
    Message
    → EffectiveTenantPolicy
    → String
    → (within : Bool) → PolicyDb
    → PolicyDecision × PolicyDb
unfolding decide_autonomy
decide_hours m policy text within db =
    let zone = ("timezone", policy.timezone) ∷ [] in
    let go : String → PolicyDecision × PolicyDb = λ reason.
      decide_autonomy m policy text
        (add_trace (message_trace m policy business_hours_decision allow reason zone) db) in
    if within
    then go "within_business_hours"
    else elim (hours_stop policy.outside_business_hours_action) [
      | some reason ↦ traced m policy business_hours_decision handoff reason zone db
      | none ↦ go "outside_business_hours_allowed"
    ]

-- `evaluate_ai_event` from the loaded policy on.
unfoldable pub decide_ai :
    Message
    → EffectiveTenantPolicy
    → String
    → (within : Bool) → PolicyDb
    → PolicyDecision × PolicyDb
unfolding decide_autonomy decide_hours
decide_ai m policy text within db =
    if not policy.enabled
    then traced m policy autonomy_decision allow "policy_disabled" [] db
    else elim policy.business_hours [
      | [] ↦ decide_autonomy m policy text db
      | _ ∷ _ ↦ decide_hours m policy text within db
    ]

-- `(message.text or "")`
abbrev pub text_or_empty : Option String → String
text_or_empty none = ""
text_or_empty (some s) = s

module _ (env : Environment) where
  -- `evaluate_message_event`
  unfoldable pub evaluate_message_event :
      ℕ → PolicyDb → Result PolicyError (PolicyDecision × PolicyDb)
  unfolding type_text
  evaluate_message_event event_id db = elim (event_of db event_id) [
    | none ↦ err event_missing
    | some event ↦ elim event.message_id [
      | none ↦ ok (no_message, db)
      | some message_id ↦ elim (message_of db event message_id) [
        | none ↦ err message_missing
        | some m ↦ load_effective_tenant_policy env db event.tenant_id >>= λ policy.
            let (action, reason) = message_verdict policy m.message_type in
            ok (
              traced m policy message_decision action reason
                (("message_type", type_text m.message_type) ∷ []) db)
      ]
    ]
  ]

  -- `evaluate_ai_event`, at the instant `now`
  unfoldable pub evaluate_ai_event :
      ℕ → ℕ → PolicyDb → Result PolicyError (PolicyDecision × PolicyDb)
  unfolding decide_ai
  evaluate_ai_event event_id now db = elim (event_of db event_id) [
    | none ↦ err event_missing
    | some event ↦ elim event.message_id [
      | none ↦ ok (no_message, db)
      | some message_id ↦ elim (message_of db event message_id) [
        | none ↦ err message_missing
        | some m ↦
            elim (find (λ c. c.id == m.conversation_id && c.tenant_id == event.tenant_id)
              db.conversations) [
                | none ↦ err conversation_missing
                | some _ ↦ load_effective_tenant_policy env db event.tenant_id >>= λ policy.
                    let (day, minute) = env.local_time policy.timezone now in
                    ok (
                      decide_ai m policy (env.casefold (text_or_empty m.text))
                        (is_within_business_hours policy.business_hours day minute) db)
              ]
      ]
    ]
  ]
