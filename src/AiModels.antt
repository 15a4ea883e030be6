-- ===== src/AiModels.antt =====
-- The tables of AI routing and their enumerations
-- (apps/api/src/customers_manager_hub/ai_models.py and platform_ai_models.py).
use customers_manager_hub.Prelude.{ℕ, String, Option, List}
use customers_manager_hub.Decimal.{Decimal}

pub data AiTaskType : Type 0 where
  customer_response voice_transcription intent_classification conversation_summary : AiTaskType
  customer_memory_extraction embedding : AiTaskType

pub data AiExecutionStatus : Type 0 where
  succeeded failed : AiExecutionStatus

-- The JSON object of a route's parameters, as its entries; only providers read it.
abbrev pub Parameters : Type 0
Parameters = List (String × String)

-- A row of `ai_task_profiles`.
pub record AiTaskProfile : Type 0 where
  pub id : ℕ
  pub tenant_id : ℕ
  pub task_type : AiTaskType
  pub timeout_seconds : ℕ
  pub attempts_per_route : ℕ

-- A row of `ai_task_routes`.
pub record AiTaskRoute : Type 0 where
  pub id : ℕ
  pub tenant_id : ℕ
  pub profile_id : ℕ
  pub provider : String
  pub model_id : String
  pub priority : ℕ
  pub parameters : Parameters

-- A row of `platform_ai_task_profiles`.
pub record PlatformAiTaskProfile : Type 0 where
  pub id : ℕ
  pub task_type : AiTaskType
  pub timeout_seconds : ℕ
  pub attempts_per_route : ℕ

-- A row of `platform_ai_task_routes`.
pub record PlatformAiTaskRoute : Type 0 where
  pub id : ℕ
  pub profile_id : ℕ
  pub provider : String
  pub model_id : String
  pub priority : ℕ
  pub parameters : Parameters

-- A row of `ai_execution_traces`. Seconds of audio are the decimal that `str` prints of the float.
pub record AiExecutionTrace : Type 0 where
  pub id : ℕ
  pub tenant_id : ℕ
  pub task_profile_id : ℕ
  pub task_type : AiTaskType
  pub message_id : Option ℕ
  pub provider : String
  pub model_id : String
  pub route_priority : ℕ
  pub attempt_number : ℕ
  pub status : AiExecutionStatus
  pub provider_request_id : Option String
  pub latency_ms : ℕ
  pub input_tokens : Option ℕ
  pub output_tokens : Option ℕ
  pub total_tokens : Option ℕ
  pub audio_seconds : Option Decimal
  pub error_code : Option String
  pub created_at : ℕ
