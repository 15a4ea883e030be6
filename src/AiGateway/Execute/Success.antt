-- ===== src/AiGateway/Execute/Success.antt =====
-- Which traces are successes: a result is returned exactly where one is recorded.
use customers_manager_hub.Prelude.{
  ℕ, zero, suc, ◌+◌, ◌≢◌, ◌≡◌, refl, sym, ◌∙◌, Bool, true, false, Option, none, some, List, [], ◌∷◌,
  arith, count, count-append, bit, Option-cases, inl, inr,
}
use customers_manager_hub.Prelude.Result.{Result, ok, err, Result-cases}
use customers_manager_hub.AiModels.{
  AiTaskType, AiExecutionTrace, AiExecutionStatus, succeeded, failed,
}
use customers_manager_hub.Billing.{BillingError}
use customers_manager_hub.AiGateway.State.{
  AiOperation, AiError, ErrorCode, billing, all_routes_failed, provider_unavailable,
  provider_capability_unavailable, ResolvedRoute, Adapter, Environment, State, load_profile,
}
use customers_manager_hub.AiGateway.Execute.Recorded.{Step-cases, Outcome-cases, record_trace-cases}
use customers_manager_hub.AiGateway.Execute.{
  Task, Attempt, Outcome, result, exhausted, aborted, Step, stop, again, trace_of, record_trace,
  check_billing, try_once, try_route, run_route, try_routes, execute, after_call, adapter_of,
  unavailable, succeeded_attempt, failed_attempt, invoke_with_timeout, ProviderError,
}

abbrev pub is_success : AiExecutionTrace → Bool
is_success t = elim t.status [ succeeded ↦ true | failed ↦ false ]

-- 1 where the outcome is a result.
abbrev pub result_count : {R : Type 0} → Outcome R → ℕ
result_count (result r) = 1
result_count (exhausted l a) = 0
result_count (aborted e) = 0

abbrev step_count : {R : Type 0} → Step R → ℕ
step_count (stop o) = result_count o
step_count (again l a) = 0

abbrev pub ok_count : {R : Type 0} → Result AiError R → ℕ
ok_count (ok r) = 1
ok_count (err e) = 0

-- 1 where a success was recorded.
abbrev recorded_count : Option BillingError → AiExecutionStatus → ℕ
recorded_count none succeeded = 1
recorded_count none failed = 0
recorded_count (some b) status = 0

succeeded≢failed : succeeded ≢ failed
succeeded≢failed h = cc

status_count :
    (s : AiExecutionStatus)
    → bit (elim s [ succeeded ↦ true | failed ↦ false ]) + 0 ≡ recorded_count none s
status_count succeeded = refl
status_count failed = refl

module _ {W R : Type 0} (task : Task W R) where
  trace-count :
      (id at : ℕ) (route : ResolvedRoute) (a : Attempt)
      → count is_success (trace_of task id at route a ∷ []) ≡ recorded_count none a.status
  unfolding trace_of count
  trace-count id at route a = status_count a.status

  record_trace-count :
      (route : ResolvedRoute) (a : Attempt) (s : State W)
      → count is_success (record_trace task route a s).1.db.traces
        ≡ count is_success s.db.traces + recorded_count (record_trace task route a s).0 a.status
  record_trace-count route a s = elim (record_trace-cases task route a s) [
    | inl (id, at, n, g) ↦ rw (n, g, count-append, trace-count id at route a) refl
    | inr (b, f, same, done) ↦ rw (f, same) (omega arith)
  ]

  pub record_trace_failed :
      (route : ResolvedRoute) (a : Attempt) (s : State W)
      → a.status ≡ failed
      → (record_trace task route a s).0 ≡ none
  record_trace_failed route a s e = elim (record_trace-cases task route a s) [
    | inl (id, at, n, g) ↦ n
    | inr (b, f, same, done) ↦ absurd (succeeded≢failed (sym done ∙ e))
  ]

  after_call-count :
      (route : ResolvedRoute) (attempt : ℕ) (any : Bool) (r : Result ProviderError R) (ms : ℕ)
      (s : State W)
      → count is_success (after_call task route attempt any r ms s).1.db.traces
        ≡ count is_success s.db.traces + step_count (after_call task route attempt any r ms s).0
  unfolding after_call succeeded_attempt
  after_call-count route attempt any (ok r) ms s =
      let a = succeeded_attempt task attempt r ms in ground (arith, record_trace-count route a s)
  after_call-count route attempt any (err e) ms s =
      let a = failed_attempt attempt e.code ms in
      ground (arith, record_trace-count route a s, record_trace_failed route a s refl)

  try_once-count :
      (adapter : Adapter) (route : ResolvedRoute) (attempt : ℕ) (any : Bool) (s : State W)
      → count is_success (try_once task adapter route attempt any s).1.db.traces
        ≡ count is_success s.db.traces + step_count (try_once task adapter route attempt any s).0
  unfolding try_once check_billing
  try_once-count adapter route attempt any s =
      let s₁ = (check_billing task route s).1 in
      elim (Result-cases (check_billing task route s).0) [
        | inl (t, e) ↦
            let (reply, w) = task.env.call adapter route task.profile.timeout_seconds s₁.world in
            let (r, ms) = invoke_with_timeout reply in
            rw (e, try_once) (after_call-count route attempt any r ms (record s₁ { world = w }))
        | inr (b, e) ↦
            let a = failed_attempt attempt (billing b) 0 in
            rw (e, try_once, record_trace_failed route a s₁ refl)
              (record_trace-count route a s₁ ∙ rw (record_trace_failed route a s₁ refl) refl)
      ]

  try_route-count :
      (adapter : Adapter) (route : ResolvedRoute) (left attempt : ℕ) (last : ErrorCode) (any : Bool)
      (s : State W)
      → count is_success (try_route task adapter route left attempt last any s).1.db.traces
        ≡ count is_success s.db.traces
          + result_count (try_route task adapter route left attempt last any s).0
  unfolding try_route
  try_route-count adapter route zero attempt last any s = omega arith
  try_route-count adapter route (suc left) attempt last any s =
      let first = try_once-count adapter route attempt any s in
      let s' = (try_once task adapter route attempt any s).1 in
      elim (Step-cases (try_once task adapter route attempt any s).0) [
        | inl (o, e) ↦ ground (arith, first)
        | inr (l, a, e) ↦
            ground (arith, first, try_route-count adapter route left (attempt + 1) l a s')
      ]

  unavailable-count :
      (route : ResolvedRoute) (code : ErrorCode) (any : Bool) (s : State W)
      → count is_success (unavailable task route code any s).1.db.traces
        ≡ count is_success s.db.traces + result_count (unavailable task route code any s).0
  unfolding unavailable
  unavailable-count route code any s =
      let a = failed_attempt 1 code 0 in
      ground (arith, record_trace-count route a s, record_trace_failed route a s refl)

  run_route-count :
      (route : ResolvedRoute) (last : ErrorCode) (any : Bool) (s : State W)
      → count is_success (run_route task route last any s).1.db.traces
        ≡ count is_success s.db.traces + result_count (run_route task route last any s).0
  unfolding run_route
  run_route-count route last any s = elim (Option-cases (adapter_of task route)) [
    | inl n ↦ ground (arith, unavailable-count route provider_unavailable any s)
    | inr (a, f) ↦ ground (
      arith,
      try_route-count a route task.profile.attempts_per_route 1 last any s,
      unavailable-count route provider_capability_unavailable any s,
    )
  ]

  try_routes-count :
      (routes : List ResolvedRoute) (last : ErrorCode) (any : Bool) (s : State W)
      → count is_success (try_routes task routes last any s).1.db.traces
        ≡ count is_success s.db.traces + ok_count (try_routes task routes last any s).0
  unfolding try_routes
  try_routes-count [] last any s = omega arith
  try_routes-count (route ∷ routes) last any s =
      let first = run_route-count route last any s in
      let s' = (run_route task route last any s).1 in
      elim (Outcome-cases (run_route task route last any s).0) [
        | inl (r, e) ↦ ground (arith, first)
        | inr (inl (x, e)) ↦ ground (arith, first)
        | inr (inr (l, a, e)) ↦ ground (arith, first, try_routes-count routes l a s')
      ]

-- `_execute` records one success where it returns a result, and none where it raises.
pub execute-count :
    {W R : Type 0} (env : Environment W R) (has_billing : Bool) (registry : List Adapter)
    (tenant_id : ℕ) (task_type : AiTaskType) (operation : AiOperation) (message_id : Option ℕ)
    (s : State W)
    → let (r, s') = execute env has_billing registry tenant_id task_type operation message_id s in
      count is_success s'.db.traces ≡ count is_success s.db.traces + ok_count r
unfolding execute
execute-count env has_billing registry tenant_id task_type operation message_id s =
    elim (Result-cases (load_profile s.db tenant_id task_type)) [
      | inl (profile, e) ↦
          rw (e, execute)
            (try_routes-count
              (record {
                env = env;
                registry = registry;
                has_billing = has_billing;
                tenant_id = tenant_id;
                operation = operation;
                message_id = message_id;
                profile = profile;
              })
              profile.routes all_routes_failed false s)
      | inr (x, e) ↦ rw (e, execute) (omega arith)
    ]
