-- ===== src/Handoff.antt =====
-- Handing a conversation over to a human (apps/api/src/customers_manager_hub/handoff_runtime.py):
-- the tables and the queries that the operations share.
pub mod Request
pub mod Escalation
pub mod Claim
pub mod WellFormed
pub mod Steps
pub mod Outcomes
pub mod Kept
mod Tests
pub mod Pausing
pub mod Ownership
pub mod Reachable
use text.Mathlib.Text.{◌==◌ as str_eq}
use customers_manager_hub.Prelude.{
  ℕ, String, Bool, true, false, ◌&&◌, ◌||◌, ◌==◌, not, Option, none, some, List, find, filter, map,
  equals_some, is_none, is_some, any, [], ◌∷◌, ◌++◌, if◌then◌else◌,
}
use customers_manager_hub.Models.{AuditEvent, Detail, Conversation, Message}
use customers_manager_hub.AgentModels.{
  AgentRun, AgentRunStatus, pending, generated, paused, ChannelInboundEvent,
}
use customers_manager_hub.HandoffModels.{
  HandoffStatus, queued, claimed, resolved, cancelled, HandoffRequestSource, from_human,
  from_system, from_tool, ConversationHandoff, HandoffPolicy,
}

pub record HandoffDb : Type 0 where
  pub conversations : List Conversation
  pub messages : List Message
  pub events : List ChannelInboundEvent
  pub agent_runs : List AgentRun
  pub handoffs : List ConversationHandoff
  pub policies : List HandoffPolicy
  pub audit_events : List AuditEvent

-- `HandoffRuntimeError`, and the `IntegrityError` that a second failed attempt raises again.
pub data HandoffError : Type 0 where
  conversation_missing event_missing event_message_missing agent_run_missing : HandoffError
  agent_run_lease_lost active_missing already_claimed state_invalid not_claimed : HandoffError
  not_owner request_race tool_pause_race integrity_error : HandoffError

abbrev pub is_active : ConversationHandoff → Bool
is_active h = elim h.status [
  | queued ↦ true
  | claimed ↦ true
  | resolved ↦ false
  | cancelled ↦ false
]

-- The condition of the query in `_active_handoff`.
abbrev pub is_active_of : ℕ → ℕ → ConversationHandoff → Bool
is_active_of tenant_id conversation_id h =
    h.tenant_id == tenant_id && h.conversation_id == conversation_id && is_active h

-- `_active_handoff`
abbrev pub active_handoff : HandoffDb → ℕ → ℕ → Option ConversationHandoff
active_handoff db tenant_id conversation_id =
    find (is_active_of tenant_id conversation_id) db.handoffs

-- What the partial index `uq_conversation_handoffs_one_active` counts.
abbrev pub is_active_in : ℕ → ConversationHandoff → Bool
is_active_in conversation_id h = h.conversation_id == conversation_id && is_active h

-- `INSERT` of a queued handoff: nothing where the primary key or the partial unique index refuses it.
unfoldable pub insert_handoff :
    ConversationHandoff → List ConversationHandoff → Option (List ConversationHandoff)
insert_handoff h handoffs =
    if any (λ x. x.id == h.id) handoffs || any (is_active_in h.conversation_id) handoffs
    then none
    else some (handoffs ++ h ∷ [])

-- The query for a conversation of a tenant.
abbrev pub conversation_of : HandoffDb → ℕ → ℕ → Option Conversation
conversation_of db tenant_id conversation_id =
    find (λ c. c.id == conversation_id && c.tenant_id == tenant_id) db.conversations

-- The query for a run of a tenant's conversation.
abbrev pub run_of : HandoffDb → ℕ → ℕ → ℕ → Option AgentRun
run_of db tenant_id conversation_id agent_run_id =
    find
      (λ r.
        r.id == agent_run_id && r.tenant_id == tenant_id && r.conversation_id == conversation_id)
      db.agent_runs

-- The event and its message, by the two queries of an event's handlers.
abbrev pub event_of : HandoffDb → ℕ → Option ChannelInboundEvent
event_of db event_id = find (λ e. e.id == event_id) db.events

abbrev pub message_of : HandoffDb → ChannelInboundEvent → ℕ → Option Message
message_of db event message_id =
    find (λ m. m.id == message_id && m.tenant_id == event.tenant_id) db.messages

-- `is_conversation_ai_paused`
abbrev pub is_conversation_ai_paused : HandoffDb → ℕ → ℕ → Bool
is_conversation_ai_paused db tenant_id conversation_id =
    is_some (active_handoff db tenant_id conversation_id)

-- `is_event_ai_paused`
abbrev pub is_event_ai_paused : HandoffDb → ℕ → Bool
is_event_ai_paused db event_id = elim (event_of db event_id) [
  | none ↦ false
  | some event ↦ elim event.message_id [
    | none ↦ false
    | some message_id ↦ elim (message_of db event message_id) [
      | none ↦ false
      | some message ↦ is_some (active_handoff db event.tenant_id message.conversation_id)
    ]
  ]
]

-- A run that stops: its text and its lease are gone.
abbrev pub stopped_run : AgentRunStatus → Option String → AgentRun → AgentRun
stopped_run status error_code run = record run {
  status = status;
  generated_text = none;
  error_code = error_code;
  lease_token = none;
  lease_until = none;
}

-- A source fills an empty column only.
abbrev pub fill : Option ℕ → Option ℕ → Option ℕ
fill none value = value
fill (some a) value = some a

-- An audit event of a handoff.
abbrev pub handoff_event : ℕ → Option ℕ → String → ℕ → List (String × Detail) → AuditEvent
handoff_event tenant_id actor action handoff_id details = record {
  tenant_id = some tenant_id;
  actor_user_id = actor;
  action = action;
  target_type = "conversation_handoff";
  target_id = some handoff_id;
  details = details;
}
