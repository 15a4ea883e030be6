-- ===== src/AiGateway/Execute/Funds.antt =====
-- A tenant without funds reaches no provider through the platform's profile.
use customers_manager_hub.Prelude.{
  ℕ, zero, suc, ◌≢◌, ◌≡◌, refl, ◌∙◌, Bool, true, false, Option, List, [], ◌∷◌, arith, Option-cases,
  Bool-cases, inl, inr,
}
use customers_manager_hub.Prelude.Result.{ok, err, Result-cases}
use customers_manager_hub.AiModels.{AiTaskType, failed}
use customers_manager_hub.Billing.{BillingError}
use customers_manager_hub.Prelude.Int.{pos, ◌≤ℤ◌}
use customers_manager_hub.Billing.{wallet_of}
use customers_manager_hub.Billing.Ledger.{balance_of}
use customers_manager_hub.Billing.Funds.{ensure_can_execute_broke}
use customers_manager_hub.AiGateway.State.{
  AiOperation, AiError, routing_error, ErrorCode, billing, all_routes_failed, provider_unavailable,
  provider_capability_unavailable, ResolvedRoute, Adapter, Environment, State, load_profile,
  ResolvedTaskProfile,
}
use customers_manager_hub.AiGateway.Execute.Recorded.{commit_failed, trace_of-status, Outcome-cases}
use customers_manager_hub.AiGateway.Execute.Success.{record_trace_failed, result_count, ok_count}
use customers_manager_hub.AiGateway.Execute.{
  commit_trace, Task, Attempt, aborted, stop, trace_of, record_trace, check_billing, try_once,
  try_route, run_route, try_routes, execute, adapter_of, unavailable, failed_attempt,
}

-- What every reading of the clock and every new id keeps, and a call of a provider need not.
pub record Unmoved {W R : Type 0} (env : Environment W R) (P : W → Type 0) : Type 0 where
  pub by_now : (w : W) → P w → P (env.now w).1
  pub by_uuid4 : (w : W) → P w → P (env.uuid4 w).1

one≢zero : 1 ≢ zero
one≢zero h = absurd (omega arith)

module _ {W R : Type 0} (task : Task W R) (P : W → Type 0) (unmoved : Unmoved task.env P) where
  record_trace-world :
      (route : ResolvedRoute) (a : Attempt) (s : State W)
      → P s.world
      → P (record_trace task route a s).1.world
  unfolding record_trace
  record_trace-world route a s h =
      let (at, w₁) = task.env.now s.world in
      let (id, w₂) = task.env.uuid4 w₁ in
      let kept = unmoved.by_uuid4 w₂ (unmoved.by_uuid4 w₁ (unmoved.by_now s.world h)) in
      elim (Result-cases
        (commit_trace task (trace_of task id at route a) (task.env.uuid4 w₂).0 s.db)) [
          | inl (db, e) ↦ rw (e, record_trace) kept
          | inr (b, e) ↦ rw (e, record_trace) kept
        ]

  record_trace-billing :
      (route : ResolvedRoute) (a : Attempt) (s : State W)
      → a.status ≡ failed
      → (record_trace task route a s).1.db.billing ≡ s.db.billing
  unfolding record_trace
  record_trace-billing route a s e =
      let (at, w₁) = task.env.now s.world in
      let (id, w₂) = task.env.uuid4 w₁ in
      let t = trace_of task id at route a in
      rw
        (
          commit_failed task t (task.env.uuid4 w₂).0 s.db (trace_of-status task id at route a ∙ e),
          record_trace,
        )
        refl

  -- The tenant has no money, and nothing has moved the world.
  record Idle (s : State W) : Type 0 where
    still : P s.world
    broke : balance_of (wallet_of s.db.billing task.tenant_id) ≤ℤ pos 0

  record_trace-Idle :
      (route : ResolvedRoute) (a : Attempt) (s : State W)
      → a.status ≡ failed
      → Idle s
      → Idle (record_trace task route a s).1
  record_trace-Idle route a s e h = record {
    still = record_trace-world route a s h.still;
    broke = rw (record_trace-billing route a s e) h.broke;
  }

  check_billing_broke :
      (route : ResolvedRoute) (s : State W)
      → task.has_billing ≡ true
      → task.profile.is_platform_profile ≡ true
      → Idle s
      → (b : BillingError) × ((check_billing task route s).0 ≡ err b)
  unfolding check_billing
  check_billing_broke route s h k idle =
      let now = (task.env.now s.world).0 in
      let (b, e) =
        ensure_can_execute_broke s.db.billing now task.tenant_id route.provider route.model_id
          idle.broke in
      (b, rw (h, k) e)

  check_billing-Idle :
      (route : ResolvedRoute) (s : State W) → Idle s → Idle (check_billing task route s).1
  unfolding check_billing
  check_billing-Idle route s idle = record {
    still = unmoved.by_now s.world idle.still;
    broke = idle.broke;
  }

  unavailable-none :
      (route : ResolvedRoute) (code : ErrorCode) (any : Bool) (s : State W)
      → result_count (unavailable task route code any s).0 ≡ 0
  unfolding unavailable
  unavailable-none route code any s =
      rw (record_trace_failed task route (failed_attempt 1 code 0) s refl, unavailable) refl

  -- Whatever comes out of a route, no provider was called.
  unavailable-Idle :
      (route : ResolvedRoute) (code : ErrorCode) (any : Bool) (s : State W)
      → Idle s
      → Idle (unavailable task route code any s).1
  unfolding unavailable
  unavailable-Idle route code any s h = record_trace-Idle route (failed_attempt 1 code 0) s refl h

  -- A try ends at the balance: the task is aborted.
  try_once-Idle :
      (adapter : Adapter) (route : ResolvedRoute) (attempt : ℕ) (any : Bool) (s : State W)
      → task.has_billing ≡ true
      → task.profile.is_platform_profile ≡ true
      → Idle s
      → Idle (try_once task adapter route attempt any s).1
        × ((e : AiError) × ((try_once task adapter route attempt any s).0 ≡ stop (aborted e)))
  unfolding try_once
  try_once-Idle adapter route attempt any s h k idle =
      let (b, refused) = check_billing_broke route s h k idle in
      let s₁ = (check_billing task route s).1 in
      let a = failed_attempt attempt (billing b) 0 in
      let idle₁ = check_billing-Idle route s idle in
      rw (refused, try_once, record_trace_failed task route a s₁ refl)
        (record_trace-Idle route a s₁ refl idle₁, (routing_error (billing b) false, refl))

  try_route-Idle :
      (adapter : Adapter) (route : ResolvedRoute) (left attempt : ℕ) (last : ErrorCode) (any : Bool)
      (s : State W)
      → task.has_billing ≡ true
      → task.profile.is_platform_profile ≡ true
      → Idle s
      → Idle (try_route task adapter route left attempt last any s).1
        × (result_count (try_route task adapter route left attempt last any s).0 ≡ 0)
  unfolding try_route
  try_route-Idle adapter route zero attempt last any s h k idle = (idle, refl)
  try_route-Idle adapter route (suc left) attempt last any s h k idle =
      let r = try_once-Idle adapter route attempt any s h k idle in
      rw (r.1.1, try_route) (r.0, refl)

  run_route-Idle :
      (route : ResolvedRoute) (last : ErrorCode) (any : Bool) (s : State W)
      → task.has_billing ≡ true
      → task.profile.is_platform_profile ≡ true
      → Idle s
      → Idle (run_route task route last any s).1
        × (result_count (run_route task route last any s).0 ≡ 0)
  unfolding run_route
  run_route-Idle route last any s h k idle = elim (Option-cases (adapter_of task route)) [
    | inl n ↦
        rw (n, run_route)
          (
            unavailable-Idle route provider_unavailable any s idle,
            unavailable-none route provider_unavailable any s,
          )
    | inr (a, f) ↦ elim (Bool-cases (a.supports task.operation)) [
      | inl able ↦
          rw (f, run_route, able)
            (try_route-Idle a route task.profile.attempts_per_route 1 last any s h k idle)
      | inr unable ↦
          rw (f, run_route, unable)
            (
              unavailable-Idle route provider_capability_unavailable any s idle,
              unavailable-none route provider_capability_unavailable any s,
            )
    ]
  ]

  try_routes-Idle :
      (routes : List ResolvedRoute) (last : ErrorCode) (any : Bool) (s : State W)
      → task.has_billing ≡ true
      → task.profile.is_platform_profile ≡ true
      → Idle s
      → Idle (try_routes task routes last any s).1
        × (ok_count (try_routes task routes last any s).0 ≡ 0)
  unfolding try_routes
  try_routes-Idle [] last any s h k idle = (idle, refl)
  try_routes-Idle (route ∷ routes) last any s h k idle =
      let (idle', none_yet) = run_route-Idle route last any s h k idle in
      let s' = (run_route task route last any s).1 in
      elim (Outcome-cases (run_route task route last any s).0) [
        | inl (r, e) ↦ absurd (one≢zero (rw e at none_yet))
        | inr (inl (x, e)) ↦ rw (e, try_routes) (idle', refl)
        | inr (inr (l, a, e)) ↦ rw (e, try_routes) (try_routes-Idle routes l a s' h k idle')
      ]

-- Where the platform's profile serves a task, the balance of its tenant is not above 0, and the
-- clock and `uuid4` keep a property of the world, `_execute` raises, and the world keeps the
-- property: no provider was called and nothing was slept on. The balance is still not above 0.
pub execute-Idle :
    {W R : Type 0} (env : Environment W R) (P : W → Type 0) (registry : List Adapter)
    (tenant_id : ℕ) (task_type : AiTaskType) (operation : AiOperation) (message_id : Option ℕ)
    (s : State W) (profile : ResolvedTaskProfile)
    → Unmoved env P
    → load_profile s.db tenant_id task_type ≡ ok profile
    → profile.is_platform_profile ≡ true
    → balance_of (wallet_of s.db.billing tenant_id) ≤ℤ pos 0
    → P s.world
    → let (r, s') = execute env true registry tenant_id task_type operation message_id s in
      P s'.world × (balance_of (wallet_of s'.db.billing tenant_id) ≤ℤ pos 0) × (ok_count r ≡ 0)
unfolding execute
execute-Idle {W} {R} env P registry tenant_id task_type operation message_id s profile unmoved e k
      broke h =
    let task : Task W R = record {
      env = env;
      registry = registry;
      has_billing = true;
      tenant_id = tenant_id;
      operation = operation;
      message_id = message_id;
      profile = profile;
    } in
    let r =
      try_routes-Idle task P unmoved profile.routes all_routes_failed false s refl k
        (record { still = h; broke = broke }) in
    rw (e, execute) (r.0.still, r.0.broke, r.1)
