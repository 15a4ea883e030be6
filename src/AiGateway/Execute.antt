-- ===== src/AiGateway/Execute.antt =====
-- Trying the routes of a profile: `AIGateway._execute`, `_invoke_with_timeout` and `_record_trace`.
mod Recorded
mod Tests
pub mod Traces
pub mod Success
pub mod Funds
use customers_manager_hub.Prelude.{
  ℕ, zero, suc, ◌+◌, ◌-◌, ◌*◌, ◌^◌, min, String, Bool, true, false, ◌&&◌, ◌||◌, Option, none, some,
  List, [], ◌∷◌, ◌++◌, ltb, if◌then◌else◌, find,
}
use mathlib.Core.Option
use text.Mathlib.Text.{◌==◌ as str_eq}
use customers_manager_hub.Prelude.Result.{Result, ok, err, ◌>>=◌}
use customers_manager_hub.AiModels.{
  AiTaskType, AiExecutionTrace, AiExecutionStatus, succeeded, failed,
}
use customers_manager_hub.Billing.{BillingError, record_charge, ensure_can_execute}
use customers_manager_hub.AiGateway.State.{
  AiOperation, AiUsage, no_usage, ErrorCode, all_routes_failed, provider_unavailable,
  provider_capability_unavailable, provider_timeout, billing, provider_code, AiError, routing_error,
  billing_error, ResolvedRoute, ResolvedTaskProfile, Adapter, GatewayDb, Reply, returned, raised,
  timed_out, Environment, State, load_profile, code_text,
}

-- A failure of a provider: its code, and whether another try may help.
pub record ProviderError : Type 0 where
  pub code : ErrorCode
  pub retryable : Bool

-- What trying a route ended with. `exhausted` carries the loop's `last_error_code` and
-- `any_retryable_failure`; `aborted` is an exception that leaves `_execute`.
pub data Outcome (R : Type 0) : Type 0 where
  result : R → Outcome R
  exhausted : (last : ErrorCode) (any_retryable : Bool) → Outcome R
  aborted : AiError → Outcome R

-- What one try ended with: the end of its route, or the next try.
pub data Step (R : Type 0) : Type 0 where
  stop : Outcome R → Step R
  again : (last : ErrorCode) (any_retryable : Bool) → Step R

-- What a trace records of one try.
pub record Attempt : Type 0 where
  pub number : ℕ
  pub status : AiExecutionStatus
  pub latency_ms : ℕ
  pub usage : AiUsage
  pub request_id : Option String
  pub error_code : Option ErrorCode

-- `_invoke_with_timeout`: a timeout is a retryable provider error.
pub invoke_with_timeout : {R : Type 0} → Reply R → Result ProviderError R × ℕ
invoke_with_timeout (returned r ms) = (ok r, ms)
invoke_with_timeout (raised code retryable ms) =
    (err (record { code = provider_code code; retryable = retryable }), ms)
invoke_with_timeout (timed_out ms) =
    (err (record { code = provider_timeout; retryable = true }), ms)

-- A try that failed with `code`.
abbrev failed_attempt : ℕ → ErrorCode → ℕ → Attempt
failed_attempt number code ms = record {
  number = number;
  status = failed;
  latency_ms = ms;
  usage = no_usage;
  request_id = none;
  error_code = some code;
}

-- An error from recording a trace takes the place of what the try ended with.
abbrev unless_raised : {R : Type 0} → Option BillingError → Outcome R → Outcome R
unless_raised none o = o
unless_raised (some b) o = aborted (billing_error b)

-- The gateway (`_registry`, `_billing_service`, its environment) with the arguments of one `_execute`
-- and the profile that it loaded.
pub record Task (W R : Type 0) : Type 0 where
  pub env : Environment W R
  pub registry : List Adapter
  pub has_billing : Bool
  pub tenant_id : ℕ
  pub operation : AiOperation
  pub message_id : Option ℕ
  pub profile : ResolvedTaskProfile

module _ {W R : Type 0} (task : Task W R) where
  open task use {env, registry, has_billing, tenant_id, operation, message_id, profile}

  succeeded_attempt : ℕ → R → ℕ → Attempt
  succeeded_attempt number r ms = record {
    number = number;
    status = succeeded;
    latency_ms = ms;
    usage = env.usage r;
    request_id = env.provider_request_id r;
    error_code = none;
  }

  pub trace_of : ℕ → ℕ → ResolvedRoute → Attempt → AiExecutionTrace
  trace_of id created_at route a = record {
    id = id;
    tenant_id = tenant_id;
    task_profile_id = profile.id;
    task_type = profile.task_type;
    message_id = message_id;
    provider = route.provider;
    model_id = route.model_id;
    route_priority = route.priority;
    attempt_number = a.number;
    status = a.status;
    provider_request_id = a.request_id;
    latency_ms = a.latency_ms;
    input_tokens = a.usage.input_tokens;
    output_tokens = a.usage.output_tokens;
    total_tokens = a.usage.total_tokens;
    audio_seconds = a.usage.audio_seconds;
    error_code = Option.map code_text a.error_code;
    created_at = created_at;
  }

  -- The trace and the charge of one session: both are written, or neither is.
  pub commit_trace : AiExecutionTrace → ℕ → GatewayDb → Result BillingError GatewayDb
  commit_trace t transaction_id db =
      let db' : GatewayDb = record db { traces = db.traces ++ t ∷ [] } in
      if has_billing
      then (record_charge transaction_id t db.billing >>= λ r. ok (record db' { billing = r.1 }))
      else ok db'

  -- `_record_trace`; an error of the charge leaves the tables alone.
  pub record_trace : ResolvedRoute → Attempt → State W → Option BillingError × State W
  record_trace route a s =
      let (created_at, w₁) = env.now s.world in
      let (id, w₂) = env.uuid4 w₁ in
      let (transaction_id, w₃) = env.uuid4 w₂ in
      elim (commit_trace (trace_of id created_at route a) transaction_id s.db) [
        | ok db ↦ (none, record { db = db; world = w₃ })
        | err b ↦ (some b, record { db = s.db; world = w₃ })
      ]

  -- `ensure_can_execute`, where there is a billing service.
  pub check_billing : ResolvedRoute → State W → Result BillingError (Unit {0}) × State W
  check_billing route s =
      let (now, w) = env.now s.world in
      (
        if has_billing
            then ensure_can_execute s.db.billing now tenant_id route.provider route.model_id
                profile.is_platform_profile
            else ok tt,
        record s { world = w },
      )

  -- `min(0.25 * 2 ** (attempt_number - 1), 1.0)` seconds
  backoff_ms : ℕ → ℕ
  backoff_ms attempt_number = min (250 * 2 ^ (attempt_number - 1)) 1000

  -- After a call: the trace, and the loop's decision.
  after_call : ResolvedRoute → ℕ → Bool → Result ProviderError R → ℕ → State W → Step R × State W
  unfolding backoff_ms
  after_call route attempt any_retryable (ok r) ms s =
      let (failure, s') = record_trace route (succeeded_attempt attempt r ms) s in
      (stop (unless_raised failure (result r)), s')
  after_call route attempt any_retryable (err e) ms s =
      let any = any_retryable || e.retryable in
      let (failure, s') = record_trace route (failed_attempt attempt e.code ms) s in
      elim failure [
        | some b ↦ (stop (aborted (billing_error b)), s')
        | none ↦
            if e.retryable && ltb attempt profile.attempts_per_route
            then (
              again e.code any,
              record s' { world = env.sleep_ms (backoff_ms attempt) s'.world },
            )
            else (stop (exhausted e.code any), s')
      ]

  -- One try of a route: the balance, the call and its trace.
  pub try_once : Adapter → ResolvedRoute → ℕ → Bool → State W → Step R × State W
  unfolding after_call succeeded_attempt
  try_once adapter route attempt any_retryable s =
      let (checked, s₁) = check_billing route s in
      elim checked [
        | err b ↦
            let (failure, s₂) = record_trace route (failed_attempt attempt (billing b) 0) s₁ in
            (stop (unless_raised failure (aborted (routing_error (billing b) false))), s₂)
        | ok _ ↦
            let (reply, w) = env.call adapter route profile.timeout_seconds s₁.world in
            let (r, ms) = invoke_with_timeout reply in
            after_call route attempt any_retryable r ms (record s₁ { world = w })
      ]

  -- `for attempt_number in range(1, attempts_per_route + 1)`, with `left` tries to come.
  pub try_route :
      Adapter
      → ResolvedRoute
      → (left attempt : ℕ) → ErrorCode
      → Bool
      → State W
      → Outcome R × State W
  try_route adapter route zero attempt last any s = (exhausted last any, s)
  try_route adapter route (suc left) attempt last any s =
      let (step, s') = try_once adapter route attempt any s in
      elim step [
        | stop o ↦ (o, s')
        | again last' any' ↦ try_route adapter route left (attempt + 1) last' any' s'
      ]

  -- A route that cannot be called leaves one trace.
  unavailable : ResolvedRoute → ErrorCode → Bool → State W → Outcome R × State W
  unavailable route code any s =
      let (failure, s') = record_trace route (failed_attempt 1 code 0) s in
      (unless_raised failure (exhausted code any), s')

  -- `self._registry.get(route.provider)`
  pub adapter_of : ResolvedRoute → Option Adapter
  adapter_of route = find (λ a. str_eq a.key (env.casefold route.provider)) registry

  -- One round of the loop over the routes.
  pub run_route : ResolvedRoute → ErrorCode → Bool → State W → Outcome R × State W
  run_route route last any s = elim (adapter_of route) [
    | none ↦ unavailable route provider_unavailable any s
    | some adapter ↦
        if adapter.supports operation
        then try_route adapter route profile.attempts_per_route 1 last any s
        else unavailable route provider_capability_unavailable any s
  ]

  pub try_routes : List ResolvedRoute → ErrorCode → Bool → State W → Result AiError R × State W
  try_routes [] last any s = (err (routing_error last any), s)
  try_routes (route ∷ routes) last any s =
      let (o, s') = run_route route last any s in
      elim o [
        | result r ↦ (ok r, s')
        | aborted e ↦ (err e, s')
        | exhausted last' any' ↦ try_routes routes last' any' s'
      ]

-- `AIGateway._execute`
pub execute :
    {W R : Type 0}
    → Environment W R
    → Bool
    → List Adapter
    → ℕ
    → AiTaskType
    → AiOperation
    → Option ℕ
    → State W
    → Result AiError R × State W
unfolding try_routes
execute env has_billing registry tenant_id task_type operation message_id s =
    elim (load_profile s.db tenant_id task_type) [
      | err e ↦ (err e, s)
      | ok profile ↦
          try_routes
            (record {
              env = env;
              registry = registry;
              has_billing = has_billing;
              tenant_id = tenant_id;
              operation = operation;
              message_id = message_id;
              profile = profile;
            })
            profile.routes all_routes_failed false s
    ]
