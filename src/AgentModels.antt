-- ===== src/AgentModels.antt =====
-- Agents, their prompts and runs (apps/api/src/customers_manager_hub/agent_models.py) and the events of
-- a channel that start the runs (channel_models.py).
use customers_manager_hub.Prelude.{ℕ, String, Bool, Option}

pub data PromptVersionStatus : Type 0 where
  draft published archived : PromptVersionStatus

pub data AgentRunStatus : Type 0 where
  pending generated paused succeeded failed : AgentRunStatus

pub record AgentPromptVersion : Type 0 where
  pub id : ℕ
  pub tenant_id : ℕ
  pub prompt_id : ℕ
  pub version : ℕ
  pub status : PromptVersionStatus
  pub content : String

pub record Agent : Type 0 where
  pub id : ℕ
  pub tenant_id : ℕ
  pub prompt_id : ℕ
  pub name : String
  pub description : Option String
  pub is_active : Bool

pub record AgentChannelAssignment : Type 0 where
  pub id : ℕ
  pub tenant_id : ℕ
  pub agent_id : ℕ
  pub channel_account_id : ℕ

-- A row of `agent_runs`, less the times of the row.
pub record AgentRun : Type 0 where
  pub id : ℕ
  pub tenant_id : ℕ
  pub agent_id : ℕ
  pub prompt_version_id : ℕ
  pub channel_account_id : ℕ
  pub conversation_id : ℕ
  pub inbound_message_id : ℕ
  pub outbound_message_id : Option ℕ
  pub status : AgentRunStatus
  pub generated_text : Option String
  pub error_code : Option String
  pub lease_token : Option ℕ
  pub lease_until : Option ℕ

pub data ChannelInboundEventStatus : Type 0 where
  received enqueued processed ignored : ChannelInboundEventStatus

-- A row of `channel_inbound_events`, less updated_at.
pub record ChannelInboundEvent : Type 0 where
  pub id : ℕ
  pub tenant_id : ℕ
  pub channel_account_id : ℕ
  pub external_event_id : String
  pub event_type : String
  pub status : ChannelInboundEventStatus
  pub message_id : Option ℕ
  pub error_code : Option String
  pub created_at : ℕ
