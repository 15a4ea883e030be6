-- ===== src/AiGateway/State.antt =====
-- What the gateway reads and writes: profiles, routes, traces and the billing tables; the providers.
pub mod Routes
use customers_manager_hub.Prelude.{
  ℕ, String, Bool, true, false, ◌&&◌, ◌||◌, Option, none, some, List, [], ◌∷◌, map, ltb, ◌==◌, find,
  filter,
}
use customers_manager_hub.Prelude.Sort.{sort}
use customers_manager_hub.Prelude.Result.{Result, ok, err}
use customers_manager_hub.Decimal.{Decimal}
use customers_manager_hub.AiModels.{
  AiTaskType, AiTaskProfile, AiTaskRoute, PlatformAiTaskProfile, PlatformAiTaskRoute,
  AiExecutionTrace, Parameters, customer_response, voice_transcription, intent_classification,
  conversation_summary, customer_memory_extraction, embedding,
}
use customers_manager_hub.Billing.{
  BillingDb, BillingError, model_pricing_not_configured, insufficient_business_balance,
  business_wallet_missing, business_not_found,
}

pub data AiOperation : Type 0 where
  generation embedding_operation transcription : AiOperation

-- `TASK_OPERATION`
pub task_operation : AiTaskType → AiOperation
task_operation customer_response = generation
task_operation voice_transcription = transcription
task_operation intent_classification = generation
task_operation conversation_summary = generation
task_operation customer_memory_extraction = generation
task_operation embedding = embedding_operation

pub record AiUsage : Type 0 where
  pub input_tokens : Option ℕ
  pub output_tokens : Option ℕ
  pub total_tokens : Option ℕ
  pub audio_seconds : Option Decimal

-- `AIUsage()`
abbrev pub no_usage : AiUsage
no_usage = record {
  input_tokens = none;
  output_tokens = none;
  total_tokens = none;
  audio_seconds = none;
}

-- The codes that the gateway raises or records; a provider's own code is a text.
pub data ErrorCode : Type 0 where
  task_profile_not_configured task_profile_has_no_routes all_routes_failed : ErrorCode
  provider_unavailable provider_capability_unavailable provider_timeout : ErrorCode
  billing : BillingError → ErrorCode
  provider_code : String → ErrorCode

billing_text : BillingError → String
billing_text model_pricing_not_configured = "model_pricing_not_configured"
billing_text insufficient_business_balance = "insufficient_business_balance"
billing_text business_wallet_missing = "business_wallet_missing"
billing_text business_not_found = "business_not_found"

-- The text of a code, as a trace holds it.
pub code_text : ErrorCode → String
unfolding billing_text
code_text task_profile_not_configured = "task_profile_not_configured"
code_text task_profile_has_no_routes = "task_profile_has_no_routes"
code_text all_routes_failed = "all_routes_failed"
code_text provider_unavailable = "provider_unavailable"
code_text provider_capability_unavailable = "provider_capability_unavailable"
code_text provider_timeout = "provider_timeout"
code_text (billing b) = billing_text b
code_text (provider_code s) = s

-- What leaves the gateway: its own `AIRoutingError`, or a `BillingError` from recording a charge.
pub data AiError : Type 0 where
  routing_error : (code : ErrorCode) (retryable : Bool) → AiError
  billing_error : BillingError → AiError

pub record ResolvedRoute : Type 0 where
  pub provider : String
  pub model_id : String
  pub priority : ℕ
  pub parameters : Parameters

pub record ResolvedTaskProfile : Type 0 where
  pub id : ℕ
  pub task_type : AiTaskType
  pub timeout_seconds : ℕ
  pub attempts_per_route : ℕ
  pub is_platform_profile : Bool
  pub routes : List ResolvedRoute

-- An entry of `AIProviderRegistry`: the adapter's key and the operations that it supports.
pub record Adapter : Type 0 where
  pub key : String
  pub supports : AiOperation → Bool

pub record GatewayDb : Type 0 where
  pub platform_profiles : List PlatformAiTaskProfile
  pub platform_routes : List PlatformAiTaskRoute
  pub profiles : List AiTaskProfile
  pub routes : List AiTaskRoute
  pub traces : List AiExecutionTrace
  pub billing : BillingDb

-- What a call of a provider brings back, after `elapsed_ms` milliseconds: a result, an
-- `AIProviderError`, or nothing before the timeout.
pub data Reply (R : Type 0) : Type 0 where
  returned : (result : R) (elapsed_ms : ℕ) → Reply R
  raised : (code : String) (retryable : Bool) (elapsed_ms : ℕ) → Reply R
  timed_out : (elapsed_ms : ℕ) → Reply R

-- What the gateway does not implement: the providers, the clock, uuid4, `asyncio.sleep` and
-- `str.casefold`. The world `W` is whatever these depend on and change.
pub record Environment (W R : Type 0) : Type 0 where
  pub call : Adapter → ResolvedRoute → ℕ → W → Reply R × W
  pub now : W → ℕ × W
  pub uuid4 : W → ℕ × W
  pub sleep_ms : ℕ → W → W
  pub casefold : String → String
  pub usage : R → AiUsage
  pub provider_request_id : R → Option String

-- The database and the world.
pub record State (W : Type 0) : Type 0 where
  pub db : GatewayDb
  pub world : W

abbrev pub same_task : AiTaskType → AiTaskType → Bool
same_task customer_response customer_response = true
same_task voice_transcription voice_transcription = true
same_task intent_classification intent_classification = true
same_task conversation_summary conversation_summary = true
same_task customer_memory_extraction customer_memory_extraction = true
same_task embedding embedding = true
same_task _ _ = false

-- `order_by(priority, id)`
unfoldable pub platform_route_before : PlatformAiTaskRoute → PlatformAiTaskRoute → Bool
platform_route_before r s = ltb r.priority s.priority || (r.priority == s.priority && ltb r.id s.id)

pub route_before : AiTaskRoute → AiTaskRoute → Bool
route_before r s = ltb r.priority s.priority || (r.priority == s.priority && ltb r.id s.id)

unfoldable pub resolve_platform_route : PlatformAiTaskRoute → ResolvedRoute
resolve_platform_route r = record {
  provider = r.provider;
  model_id = r.model_id;
  priority = r.priority;
  parameters = r.parameters;
}

resolve_route : AiTaskRoute → ResolvedRoute
resolve_route r = record {
  provider = r.provider;
  model_id = r.model_id;
  priority = r.priority;
  parameters = r.parameters;
}

-- The end of `_load_profile`: a profile without routes is an error.
unfoldable pub with_routes : ResolvedTaskProfile → Result AiError ResolvedTaskProfile
with_routes p = elim p.routes [
  | [] ↦ err (routing_error task_profile_has_no_routes false)
  | _ ∷ _ ↦ ok p
]

-- The platform's profile of a task, with its routes in order.
unfoldable pub platform_profile :
    GatewayDb → AiTaskType → PlatformAiTaskProfile → ResolvedTaskProfile
unfolding platform_route_before resolve_platform_route
platform_profile db task_type p = record {
  id = p.id;
  task_type = task_type;
  timeout_seconds = p.timeout_seconds;
  attempts_per_route = p.attempts_per_route;
  is_platform_profile = true;
  routes =
      map resolve_platform_route
        (sort platform_route_before (filter (λ r. r.profile_id == p.id) db.platform_routes));
}

-- A tenant's own profile of a task, with its routes in order.
tenant_profile : GatewayDb → ℕ → AiTaskType → AiTaskProfile → ResolvedTaskProfile
unfolding route_before resolve_route
tenant_profile db tenant_id task_type p = record {
  id = p.id;
  task_type = task_type;
  timeout_seconds = p.timeout_seconds;
  attempts_per_route = p.attempts_per_route;
  is_platform_profile = false;
  routes = map resolve_route (
      sort route_before (filter (λ r. r.tenant_id == tenant_id && r.profile_id == p.id) db.routes));
}

-- `AIGateway._load_profile`: the platform's profile of a task comes before the tenant's own.
unfoldable pub load_profile : GatewayDb → ℕ → AiTaskType → Result AiError ResolvedTaskProfile
unfolding with_routes platform_profile tenant_profile
load_profile db tenant_id task_type =
    elim (find (λ p. same_task p.task_type task_type) db.platform_profiles) [
      | some p ↦ with_routes (platform_profile db task_type p)
      | none ↦
          elim (find (λ p. p.tenant_id == tenant_id && same_task p.task_type task_type)
            db.profiles) [
              | none ↦ err (routing_error task_profile_not_configured false)
              | some p ↦ with_routes (tenant_profile db tenant_id task_type p)
            ]
    ]
