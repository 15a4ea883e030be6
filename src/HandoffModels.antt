-- ===== src/HandoffModels.antt =====
-- Handoffs of a conversation to a human (apps/api/src/customers_manager_hub/handoff_models.py).
use customers_manager_hub.Prelude.{ℕ, String, Bool, Option, List}

pub data HandoffStatus : Type 0 where
  queued claimed resolved cancelled : HandoffStatus

pub data HandoffRequestSource : Type 0 where
  from_human from_system from_tool : HandoffRequestSource

-- A row of `conversation_handoffs`, less the times that the server writes.
pub record ConversationHandoff : Type 0 where
  pub id : ℕ
  pub tenant_id : ℕ
  pub conversation_id : ℕ
  pub status : HandoffStatus
  pub request_source : HandoffRequestSource
  pub reason_code : String
  pub reason_text : Option String
  pub requested_by_user_id : Option ℕ
  pub claimed_by_user_id : Option ℕ
  pub source_agent_run_id : Option ℕ
  pub source_tool_execution_id : Option ℕ
  pub claimed_at : Option ℕ
  pub closed_at : Option ℕ

pub record HandoffPolicy : Type 0 where
  pub tenant_id : ℕ
  pub enabled : Bool
  pub customer_keywords : List String
  pub pause_on_tool_approval : Bool
