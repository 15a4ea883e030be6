-- ===== src/AgentRuntime.antt =====
-- Answering a message (apps/api/src/customers_manager_hub/agent_runtime.py): the errors and the records that
-- the parts of a run share.
mod Tests
pub mod Lease
pub mod Resolve
pub mod Context
pub mod Decision
pub mod Environment
pub mod Rounds
pub mod Answer
pub mod Process
use customers_manager_hub.Prelude.{ℕ, String, Bool, true, false, Option, List}
use customers_manager_hub.ChannelModels.{ChannelType, ChannelAccount}
use customers_manager_hub.AgentModels.{
  Agent, AgentChannelAssignment, AgentPromptVersion, AgentRun, AgentRunStatus,
}
use customers_manager_hub.Handoff.{HandoffDb}

-- `AgentRuntimeError`
pub record AgentError : Type 0 where
  pub code : String
  pub retryable : Bool

abbrev pub permanent : String → AgentError
permanent code = record { code = code; retryable = false }

abbrev pub transient : String → AgentError
transient code = record { code = code; retryable = true }

pub record AgentRunSnapshot : Type 0 where
  pub run_id : ℕ
  pub tenant_id : ℕ
  pub agent_id : ℕ
  pub prompt_version_id : ℕ
  pub channel_account_id : ℕ
  pub channel_type : ChannelType
  pub conversation_id : ℕ
  pub inbound_message_id : ℕ
  pub current_text : String
  pub prompt_content : String
  pub status : AgentRunStatus
  pub generated_text : Option String

pub record AgentRunClaim : Type 0 where
  pub run_id : ℕ
  pub lease_token : ℕ

-- The exceptions of a run: the runtime's own; those of the gateway, the tools and the knowledge (each has a
-- code and says whether to try again); those of a channel's provider and of the channel runtime; any other.
pub data AgentFault : Type 0 where
  coded runtime_fault provider_fault : AgentError → AgentFault
  channel_fault : String → AgentFault
  other_fault : AgentFault

-- The tables that the agent runtime shares with the handoff runtime, its runs among them, and those that
-- only it reads.
pub record AgentDb : Type 0 where
  pub handoff : HandoffDb
  pub agents : List Agent
  pub assignments : List AgentChannelAssignment
  pub prompt_versions : List AgentPromptVersion
  pub accounts : List ChannelAccount

abbrev pub with_runs : List AgentRun → AgentDb → AgentDb
with_runs runs db = record db { handoff = record db.handoff { agent_runs = runs } }

abbrev pub runs_of : AgentDb → List AgentRun
runs_of db = db.handoff.agent_runs
