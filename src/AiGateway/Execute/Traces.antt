-- ===== src/AiGateway/Execute/Traces.antt =====
-- The traces that a task leaves: how many, of what, and which of them are successes.
use mathlib.Core.List.{append-nil, append_assoc}
use customers_manager_hub.Prelude.{
  ℕ, zero, suc, ◌+◌, ◌*◌, max, ◌≤◌, ◌≡◌, refl, sym, ap, ◌∙◌, ◌&&◌, Bool, false, Option, List, [],
  ◌∷◌, ◌++◌, arith, length, length-append, All, All-append, ltb, Option-cases, Bool-cases, inl, inr,
}
use customers_manager_hub.Prelude.Result.{Result, ok, err, Result-cases}
use customers_manager_hub.AiModels.{AiTaskType, AiExecutionTrace}
use customers_manager_hub.AiGateway.State.{
  AiOperation, ErrorCode, billing, all_routes_failed, provider_unavailable,
  provider_capability_unavailable, ResolvedRoute, ResolvedTaskProfile, Adapter, GatewayDb,
  Environment, State, load_profile,
}
use customers_manager_hub.AiGateway.Execute.Recorded.{Step-cases, Outcome-cases, record_trace-cases}
use customers_manager_hub.AiGateway.Execute.{
  Task, Attempt, trace_of, record_trace, check_billing, try_once, try_route, run_route, try_routes,
  execute, after_call, adapter_of, unavailable, succeeded_attempt, failed_attempt,
  invoke_with_timeout, ProviderError,
}

-- A trace of the tenant's task, of a try that the profile allows.
pub record IsTraceOf (tenant_id : ℕ) (profile : ResolvedTaskProfile) (t : AiExecutionTrace)
    : Type 0 where
  pub tenant : t.tenant_id ≡ tenant_id
  pub task_profile : t.task_profile_id ≡ profile.id
  pub first_try : 1 ≤ t.attempt_number
  pub last_try : t.attempt_number ≤ max 1 profile.attempts_per_route

-- The traces of `db'` are those of `db` and at most `k` new ones of the task.
pub record Grows (tenant_id : ℕ) (profile : ResolvedTaskProfile) (k : ℕ) (db db' : GatewayDb)
    : Type 0 where
  pub new : List AiExecutionTrace
  pub traces : db'.traces ≡ db.traces ++ new
  pub few : length new ≤ k
  pub each : All (IsTraceOf tenant_id profile) new

module _ (tenant_id : ℕ) (profile : ResolvedTaskProfile) where
  Grows-refl : (s : GatewayDb) → Grows tenant_id profile 0 s s
  Grows-refl s = record {
    new = [];
    traces = sym (append-nil s.traces);
    few = omega arith;
    each = tt;
  }

  Grows-trans :
      (j k n : ℕ) (s t u : GatewayDb)
      → j + k ≤ n
      → Grows tenant_id profile j s t
      → Grows tenant_id profile k t u
      → Grows tenant_id profile n s u
  Grows-trans j k n s t u le g h = record {
    new = g.new ++ h.new;
    traces = h.traces ∙ ap (λ l. l ++ h.new) g.traces ∙ append_assoc s.traces g.new h.new;
    few = omega (arith, length-append g.new h.new, g.few, h.few);
    each = All-append (IsTraceOf tenant_id profile) g.new h.new g.each h.each;
  }

  Grows-le :
      (j k : ℕ) (s t : GatewayDb)
      → j ≤ k
      → Grows tenant_id profile j s t
      → Grows tenant_id profile k s t
  Grows-le j k s t le g = record {
    new = g.new;
    traces = g.traces;
    few = omega (arith, g.few);
    each = g.each;
  }

module _ {W R : Type 0} (task : Task W R) where
  open task use {tenant_id, profile}

  record_trace-Grows :
      (route : ResolvedRoute) (a : Attempt) (s : State W)
      → 1 ≤ a.number
      → a.number ≤ max 1 profile.attempts_per_route
      → Grows tenant_id profile 1 s.db (record_trace task route a s).1.db
  unfolding trace_of
  record_trace-Grows route a s h k = elim (record_trace-cases task route a s) [
    | inl (id, at, none_raised, grown) ↦ record {
      new = trace_of task id at route a ∷ [];
      traces = grown;
      few = omega arith;
      each = (record { tenant = refl; task_profile = refl; first_try = h; last_try = k }, tt);
    }
    | inr (b, failure, same, done) ↦ record {
      new = [];
      traces = ap (λ (d : GatewayDb). d.traces) same ∙ sym (append-nil s.db.traces);
      few = omega arith;
      each = tt;
    }
  ]

  after_call-Grows :
      (route : ResolvedRoute) (attempt : ℕ) (any : Bool) (r : Result ProviderError R) (ms : ℕ)
      (s : State W)
      → 1 ≤ attempt
      → attempt ≤ max 1 profile.attempts_per_route
      → Grows tenant_id profile 1 s.db (after_call task route attempt any r ms s).1.db
  unfolding after_call succeeded_attempt
  after_call-Grows route attempt any (ok r) ms s h k =
      record_trace-Grows route (succeeded_attempt task attempt r ms) s h k
  after_call-Grows route attempt any (err e) ms s h k =
      let a = failed_attempt attempt e.code ms in
      let grown = record_trace-Grows route a s h k in
      elim (Option-cases (record_trace task route a s).0) [
        | inl n ↦
            rw (n, after_call)
              (elim (Bool-cases (e.retryable && ltb attempt profile.attempts_per_route)) [
                | inl more ↦ rw (more, after_call) grown
                | inr enough ↦ rw (enough, after_call) grown
              ])
        | inr (b, f) ↦ rw (f, after_call) grown
      ]

  -- One try leaves one trace at most.
  try_once-Grows :
      (adapter : Adapter) (route : ResolvedRoute) (attempt : ℕ) (any : Bool) (s : State W)
      → 1 ≤ attempt
      → attempt ≤ max 1 profile.attempts_per_route
      → Grows tenant_id profile 1 s.db (try_once task adapter route attempt any s).1.db
  unfolding try_once check_billing
  try_once-Grows adapter route attempt any s h k =
      elim (Result-cases (check_billing task route s).0) [
        | inl (t, e) ↦
            let s₁ = (check_billing task route s).1 in
            let (reply, w) = task.env.call adapter route profile.timeout_seconds s₁.world in
            let (r, ms) = invoke_with_timeout reply in
            rw (e, try_once) (after_call-Grows route attempt any r ms (record s₁ { world = w }) h k)
        | inr (b, e) ↦
            rw (e, try_once)
              (record_trace-Grows route (failed_attempt attempt (billing b) 0)
                (check_billing task route s).1 h k)
      ]

  -- The tries of a route leave one trace each.
  try_route-Grows :
      (adapter : Adapter) (route : ResolvedRoute) (left attempt : ℕ) (last : ErrorCode) (any : Bool)
      (s : State W)
      → 1 ≤ attempt
      → attempt + left ≤ profile.attempts_per_route + 1
      → Grows tenant_id profile left s.db
          (try_route task adapter route left attempt last any s).1.db
  unfolding try_route
  try_route-Grows adapter route zero attempt last any s h k = Grows-refl tenant_id profile s.db
  try_route-Grows adapter route (suc left) attempt last any s h k =
      let first = try_once-Grows adapter route attempt any s h (omega arith) in
      let s' = (try_once task adapter route attempt any s).1 in
      elim (Step-cases (try_once task adapter route attempt any s).0) [
        | inl (o, e) ↦
            rw (e, try_route)
              (Grows-le tenant_id profile 1 (suc left) s.db s'.db (omega arith) first)
        | inr (l, a, e) ↦
            rw (e, try_route)
              (Grows-trans tenant_id profile 1 left (suc left) s.db s'.db _ (omega arith) first (
                try_route-Grows adapter route left (attempt + 1) l a s' (omega arith)
                  (omega arith)))
      ]

  unavailable-Grows :
      (route : ResolvedRoute) (code : ErrorCode) (any : Bool) (s : State W)
      → Grows tenant_id profile 1 s.db (unavailable task route code any s).1.db
  unfolding unavailable
  unavailable-Grows route code any s =
      record_trace-Grows route (failed_attempt 1 code 0) s (omega arith) (omega arith)

  run_route-Grows :
      (route : ResolvedRoute) (last : ErrorCode) (any : Bool) (s : State W)
      → Grows tenant_id profile
          (max 1 profile.attempts_per_route)
          s.db
          (run_route task route last any s).1.db
  unfolding run_route
  run_route-Grows route last any s =
      let k = max 1 profile.attempts_per_route in
      let le : 1 ≤ k = omega arith in
      elim (Option-cases (adapter_of task route)) [
        | inl n ↦
            rw (n, run_route)
              (Grows-le tenant_id profile 1 k s.db _ le
                (unavailable-Grows route provider_unavailable any s))
        | inr (a, f) ↦ elim (Bool-cases (a.supports task.operation)) [
          | inl yes_ ↦
              rw (f, run_route, yes_)
                (Grows-le tenant_id profile profile.attempts_per_route k s.db _ (omega arith) (
                  try_route-Grows a route profile.attempts_per_route 1 last any s (omega arith)
                    (omega arith)))
          | inr no_ ↦
              rw (f, run_route, no_)
                (Grows-le tenant_id profile 1 k s.db _ le
                  (unavailable-Grows route provider_capability_unavailable any s))
        ]
      ]

  -- Every route leaves at most as many traces as it has tries, and one if it cannot be called.
  pub try_routes-Grows :
      (routes : List ResolvedRoute) (last : ErrorCode) (any : Bool) (s : State W)
      → Grows tenant_id profile
          (length routes * max 1 profile.attempts_per_route)
          s.db
          (try_routes task routes last any s).1.db
  unfolding try_routes
  try_routes-Grows [] last any s =
      Grows-le tenant_id profile 0 (0 * max 1 profile.attempts_per_route) s.db s.db (omega arith)
        (Grows-refl tenant_id profile s.db)
  try_routes-Grows (route ∷ routes) last any s =
      let k = max 1 profile.attempts_per_route in
      let first = run_route-Grows route last any s in
      let s' = (run_route task route last any s).1 in
      let one =
        Grows-le tenant_id profile k (suc (length routes) * k) s.db s'.db (omega arith) first in
      elim (Outcome-cases (run_route task route last any s).0) [
        | inl (r, e) ↦ rw (e, try_routes) one
        | inr (inl (x, e)) ↦ rw (e, try_routes) one
        | inr (inr (l, a, e)) ↦
            rw (e, try_routes)
              (Grows-trans tenant_id profile k (length routes * k) (suc (length routes) * k) s.db
                s'.db _ (omega arith) first (try_routes-Grows routes l a s'))
      ]

-- With the profile that it loads, `_execute` adds traces of the tenant and the profile only: at
-- most one for each try of each of its routes, or one for a route with no try allowed, each
-- numbered as a try that the profile allows.
pub execute-Grows :
    {W R : Type 0} (env : Environment W R) (has_billing : Bool) (registry : List Adapter)
    (tenant_id : ℕ) (task_type : AiTaskType) (operation : AiOperation) (message_id : Option ℕ)
    (s : State W) (profile : ResolvedTaskProfile)
    → load_profile s.db tenant_id task_type ≡ ok profile
    → Grows tenant_id profile
        (length profile.routes * max 1 profile.attempts_per_route)
        s.db
        (execute env has_billing registry tenant_id task_type operation message_id s).1.db
unfolding execute
execute-Grows env has_billing registry tenant_id task_type operation message_id s profile e =
    rw (e, execute)
      (try_routes-Grows
        (record {
          env = env;
          registry = registry;
          has_billing = has_billing;
          tenant_id = tenant_id;
          operation = operation;
          message_id = message_id;
          profile = profile;
        })
        profile.routes all_routes_failed false s)
