-- ===== src/ToolRuntime/Execute/Attempts.antt =====
-- How often the adapter of a tool is called.
use customers_manager_hub.Prelude.{
  ℕ, zero, suc, ◌+◌, ◌≤◌, String, Bool, ◌&&◌, ltb, Option, none, some, arith, Bool-cases,
  Option-cases, inl, inr,
}
use customers_manager_hub.Prelude.Step.{Step, Keeps, >>=-Keeps, pure, bind-keeps}
use customers_manager_hub.Json.{Fields}
use customers_manager_hub.PolicyModels.{ToolDefinition}
use customers_manager_hub.ToolModels.{
  ToolExecutionStatus, succeeded, failed, ToolExecution, ToolExecutionResult,
}
use customers_manager_hub.ToolRuntime.{ToolFault, ResolvedToolCredential}
use customers_manager_hub.ToolRuntime.Configuration.{ToolConfiguration}
use customers_manager_hub.ToolRuntime.Adapters.{ToolAdapter}
use customers_manager_hub.ToolRuntime.Access.{ToolDb, ToolState, ToolEnvironment}
use customers_manager_hub.ToolRuntime.Executions.{Ending, finish_execution, result_of, is_execution}
use customers_manager_hub.ToolRuntime.Execute.{
  finish, adapter_request, attempt_once, after_attempt, run_attempts, attempts_with,
}
use customers_manager_hub.ToolRuntime.Calls.{
  Call, Outcome, returned, adapter_failed, runtime_failed, crashed, attempts_allowed,
}
use customers_manager_hub.Prelude.{find}

-- `P k` says of a state that the adapter has been called `k` times.
module _ {W : Type 0} (P : ℕ → ToolState W → Type 0) (env : ToolEnvironment W)
    (same_payload : Fields → Fields → Bool) (call : Call) (tool : ToolDefinition)
    (arguments : Fields) (e : ToolExecution) (c : ToolConfiguration)
    (credential : Option ResolvedToolCredential) (adapter : ToolAdapter W)
    (others : (k : ℕ) (s : ToolState W) → P k s → P k (env.others s))
    (writes : (k : ℕ) (db : ToolDb) (s : ToolState W) → P k s → P k (record s { db = db }))
    (sleeps : (k ms : ℕ) (s : ToolState W)
      → P k s
      → P k (record s { world = env.sleep_ms ms s.world }))
    (calls : (k : ℕ) (s : ToolState W)
      → P k s
      → P (k + 1) (record s {
        world =
            (adapter.execute
              (adapter_request env same_payload call tool arguments e c credential adapter s.world)
              s.world).1;
      })) where
  finish_execution-Keeps :
      (k id tenant_id : ℕ) (x : Ending) → Keeps (P k) (finish_execution env id tenant_id x)
  unfolding finish_execution
  finish_execution-Keeps k id tenant_id x s p =
      let s' = env.others s in
      elim (Option-cases (find (is_execution id tenant_id) s'.db.executions)) [
        | inl n ↦ rw (n, finish_execution) (others k s p)
        | inr (row, f) ↦ rw (f, finish_execution) (writes k _ s' (others k s p))
      ]

  finish-Keeps :
      (k : ℕ) (status : ToolExecutionStatus) (output : Option Fields) (code : Option String)
      (attempt : ℕ) (started : W)
      → Keeps
          (P k)
          (finish env same_payload call tool arguments e status output code attempt started)
  finish-Keeps k status output code attempt started s =
      >>=-Keeps (P k) (finish_execution env e.id call.tenant_id _)
        (λ row. pure (result_of call.qualified_name row))
        (finish_execution-Keeps k e.id call.tenant_id _) (λ row s p. p) s

  module _ (started : W) where
    -- The end of a call after at most `bound` calls of the adapter.
    abbrev Within : ℕ → ToolState W → Type 0
    Within bound s = (k : ℕ) × (k ≤ bound) × P k s

    after-Within :
        (left k attempt : ℕ) (next : Step ToolFault (ToolState W) ToolExecutionResult) (o : Outcome)
        (s : ToolState W)
        → P (k + 1) s
        → ((s' : ToolState W) → P (k + 1) s' → Within (k + suc left) (next s').1)
        → Within
            (k + suc left)
            (after_attempt env same_payload call tool arguments e c credential adapter started
              attempt next o s).1
    unfolding after_attempt
    after-Within left k attempt next (returned output) s p h =
        (k + 1, omega arith, finish-Keeps (k + 1) succeeded (some output) none attempt started s p)
    after-Within left k attempt next (adapter_failed x) s p h =
        elim (Bool-cases (x.retryable && ltb attempt (attempts_allowed tool c))) [
          | inl again ↦ rw (again, after_attempt) (h _ (sleeps (k + 1) _ s p))
          | inr done ↦
              rw (done, after_attempt)
                (
                  k + 1,
                  omega arith,
                  finish-Keeps (k + 1) failed none (some x.code) attempt started s p,
                )
        ]
    after-Within left k attempt next (runtime_failed x) s p h =
        (k + 1, omega arith, finish-Keeps (k + 1) failed none (some x.code) attempt started s p)
    after-Within left k attempt next crashed s p h = (k + 1, omega arith, p)

    attempts-Within :
        (left k attempt : ℕ) (s : ToolState W)
        → P k s
        → Within
            (k + left)
            (run_attempts env same_payload call tool arguments e c credential adapter started left
              attempt s).1
    unfolding run_attempts attempt_once
    attempts-Within zero k attempt s p = (k, omega arith, p)
    attempts-Within (suc left) k attempt s p =
        let next =
          run_attempts env same_payload call tool arguments e c credential adapter started left
            (attempt + 1) in
        bind-keeps (Within (k + suc left))
          (attempt_once env same_payload call tool arguments e c credential adapter started)
          (after_attempt env same_payload call tool arguments e c credential adapter started attempt
            next)
          s (k + 1, omega arith, calls k s p)
          (λ o _. after-Within left k attempt next o _ (calls k s p) (λ s' q.
            let (n, few, r) = attempts-Within left (k + 1) (attempt + 1) s' q in
            (n, omega arith, r)))

  -- The loop over the attempts, from its start.
  pub attempts_bounded :
      (s : ToolState W)
      → P 0 s
      → (k : ℕ) × (k ≤ attempts_allowed tool c)
        × P k (attempts_with env same_payload call tool arguments e c credential adapter s).1
  attempts_bounded s p =
      let (k, few, q) = attempts-Within s.world (attempts_allowed tool c) 0 1 s p in
      (k, omega (arith, few), q)
