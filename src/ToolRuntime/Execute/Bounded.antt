-- ===== src/ToolRuntime/Execute/Bounded.antt =====
-- How often a whole call of a tool calls an adapter.
use customers_manager_hub.Prelude.{
  ℕ, ◌+◌, ◌≤◌, ◌≡◌, refl, Bool, ◌&&◌, ◌||◌, ◌==◌, ltb, leb, Option, none, some, find, arith,
  Bool-cases, Option-cases, inl, inr,
}
use customers_manager_hub.Prelude.Result.{ok, Result-cases}
use customers_manager_hub.Prelude.Step.{Step, ◌>>=◌, returning, Keeps, >>=-Keeps, bind-keeps}
use customers_manager_hub.Json.{Fields}
use customers_manager_hub.PolicyModels.{ToolDefinition, ToolOperationType, read, write}
use customers_manager_hub.Policy.Engine.{Environment}
use customers_manager_hub.Policy.Tools.{evaluate_tool}
use customers_manager_hub.ToolModels.{
  ToolExecution, ToolExecutionStatus, pending, approval_required, running, succeeded, failed,
  denied,
}
use customers_manager_hub.ToolRuntime.{ToolFault, ToolAdapterRequest}
use customers_manager_hub.ToolRuntime.Configuration.{
  ToolConfiguration, rest, sheets, normalize_tool_configuration,
}
use customers_manager_hub.ToolRuntime.Adapters.{ToolAdapter, adapter_of}
use customers_manager_hub.ToolRuntime.Access.{
  ToolDb, ToolState, ToolEnvironment, resolve_allowed_tool, load_credential,
}
use customers_manager_hub.ToolRuntime.Executions.{
  Verdict, is_execution, insert_execution, insert_or_join_execution, create_execution,
  load_execution, start, mark_running, new_execution,
}
use customers_manager_hub.ToolRuntime.Calls.{
  Call, attempts_allowed, is_settled, is_running, is_awaited, stale_after,
}
use customers_manager_hub.ToolRuntime.Execute.{
  begin, call_key, ask_policy, decide, execution_of, run_configured, run_tool, run_approved,
  take_over, run_stale, run_execution, call_tool, call_resolved, call_if_allowed,
  execute_agent_tool,
}
use customers_manager_hub.ToolRuntime.Execute.Attempts.{attempts_bounded}

-- The bound, apart from the code's: a tool that writes runs once if the other side cannot tell a second
-- attempt from the first, for want of a header with the token of the execution.
abbrev pub most_attempts : ToolOperationType → ToolConfiguration → (max_attempts : ℕ) → ℕ
most_attempts read c n = n
most_attempts write (sheets c) n = 1
most_attempts write (rest c) n = elim c.idempotency_header [ none ↦ 1 | some header ↦ n ]

allowed-most :
    (operation : ToolOperationType) (tool : ToolDefinition) (c : ToolConfiguration)
    → tool.operation_type ≡ operation
    → attempts_allowed tool c ≡ most_attempts operation c tool.max_attempts
allowed-most read tool c e = ground arith
allowed-most write tool (sheets c) e = ground arith
allowed-most write tool (rest c) e = ground arith

module _ {W : Type 0} (P : ℕ → ToolState W → Type 0) (env : ToolEnvironment W)
    (same_payload : Fields → Fields → Bool) (call : Call) (tool : ToolDefinition)
    (c : ToolConfiguration)
    (configured : normalize_tool_configuration env.python tool.adapter_kind tool.operation_type
        tool.configuration
      ≡ some c)
    (others : (k : ℕ) (s : ToolState W) → P k s → P k (env.others s))
    (writes : (k : ℕ) (db : ToolDb) (s : ToolState W) → P k s → P k (record s { db = db }))
    (sleeps : (k ms : ℕ) (s : ToolState W)
      → P k s
      → P k (record s { world = env.sleep_ms ms s.world }))
    (draws : (s : ToolState W) → P 0 s → P 0 (record s { world = (env.uuid4 s.world).1 }))
    (calls : (adapter : ToolAdapter W) (request : ToolAdapterRequest) (k : ℕ) (s : ToolState W)
      → adapter_of env.adapters tool.adapter_kind ≡ ok adapter
      → P k s
      → P (k + 1) (record s { world = (adapter.execute request s.world).1 })) where
  -- The end of a call after as many calls of the adapter as the bound allows, at most.
  abbrev pub Bounded : ToolState W → Type 0
  Bounded s = (k : ℕ) × (k ≤ most_attempts tool.operation_type c tool.max_attempts) × P k s

  abbrev Ends : {A : Type 0} → Step ToolFault (ToolState W) A → Type 0
  Ends m = (s : ToolState W) → P 0 s → Bounded (m s).1

  unused : (s : ToolState W) → P 0 s → Bounded s
  unused s p = (0, omega arith, p)

  bind-Ends :
      {A B : Type 0} (m : Step ToolFault (ToolState W) A) (f : A → Step ToolFault (ToolState W) B)
      → Keeps (P 0) m
      → ((a : A) → Ends (f a))
      → Ends (m >>= f)
  bind-Ends m f hm hf s p =
      bind-keeps Bounded m f s (unused (m s).1 (hm s p)) (λ a e. hf a (m s).1 (hm s p))

  begin-Keeps : Keeps (P 0) (begin env same_payload)
  begin-Keeps s p = others 0 s p

  start-Keeps : (x : ToolExecutionStatus) (e : ToolExecution) → Keeps (P 0) (start env x e)
  start-Keeps pending e s p = writes 0 _ s p
  start-Keeps approval_required e s p = p
  start-Keeps running e s p = p
  start-Keeps succeeded e s p = p
  start-Keeps failed e s p = p
  start-Keeps denied e s p = p

  mark-Keeps : (id tenant_id : ℕ) → Keeps (P 0) (mark_running env id tenant_id)
  unfolding mark_running
  mark-Keeps id tenant_id s p =
      let s' = env.others s in
      elim (Option-cases (find (is_execution id tenant_id) s'.db.executions)) [
        | inl n ↦ rw (n, mark_running) (others 0 s p)
        | inr (e, n) ↦ rw (n, mark_running) (start-Keeps e.status e s' (others 0 s p))
      ]

  module _ (arguments : Fields) (e : ToolExecution) where
    configured-Ends : Ends (run_configured env same_payload call tool arguments e (some c))
    unfolding run_configured
    configured-Ends s p =
        let s' = env.others s in
        let q = others 0 s p in
        elim (Result-cases (load_credential env s'.db tool)) [
          | inr (x, l) ↦ rw (l, run_configured, ◌>>=◌) (unused s' q)
          | inl (credential, l) ↦ elim (Result-cases (adapter_of env.adapters tool.adapter_kind)) [
            | inr (x, a) ↦ rw (l, run_configured, ◌>>=◌, a) (unused s' q)
            | inl (adapter, a) ↦
                let (k, few, r) =
                  (attempts_bounded P env same_payload call tool arguments e c credential adapter
                    others writes sleeps (λ k s'' r. calls adapter _ k s'' a r) s' q) in
                let bound = allowed-most tool.operation_type tool c refl in
                rw (l, run_configured, ◌>>=◌, a) (k, omega (arith, few, bound), r)
          ]
        ]

    tool-Ends : Ends (run_tool env same_payload call tool arguments e)
    unfolding run_tool
    tool-Ends =
        bind-Ends (mark_running env e.id call.tenant_id)
          (λ _. run_configured env same_payload call tool arguments e (
            normalize_tool_configuration env.python tool.adapter_kind tool.operation_type
              tool.configuration))
          (mark-Keeps e.id call.tenant_id) (λ _. rw configured configured-Ends)

    approved-Ends :
        (x : ToolExecution) → Ends (run_approved env same_payload call tool arguments e x)
    unfolding run_approved
    approved-Ends x s p = elim (Bool-cases (is_awaited x.approval_status)) [
      | inl waits ↦ rw (waits, run_approved) (unused s p)
      | inr free ↦ rw (free, run_approved) (tool-Ends s p)
    ]

    over-Keeps : Keeps (P 0) (take_over env same_payload call tool arguments e)
    unfolding take_over
    over-Keeps s p =
        let s' = env.others s in
        elim (Option-cases (find (is_execution e.id call.tenant_id) s'.db.executions)) [
          | inl n ↦ rw (n, take_over) (others 0 s p)
          | inr (x, n) ↦ rw (n, take_over) (writes 0 _ s' (others 0 s p))
        ]

    stale-Ends : Ends (run_stale env same_payload call tool arguments e)
    unfolding run_stale
    stale-Ends s p = elim (Bool-cases (leb (env.now s.world) (e.updated_at + stale_after tool))) [
      | inl fresh ↦ rw (fresh, run_stale) (unused s p)
      | inr stale ↦
          rw (stale, run_stale)
            (bind-Ends (take_over env same_payload call tool arguments e)
              (run_approved env same_payload call tool arguments e) over-Keeps approved-Ends s p)
    ]

    execution-Ends : Ends (run_execution env same_payload call tool arguments e)
    unfolding run_execution
    execution-Ends s p = elim (Bool-cases (e.tool_id == tool.id && e.agent_id == call.agent_id)) [
      | inr other ↦ rw (other, run_execution) (unused s p)
      | inl own ↦ elim (Bool-cases (same_payload e.input_payload arguments)) [
        | inr other ↦ rw (own, run_execution, other) (unused s p)
        | inl same ↦ elim (Bool-cases (is_settled e.status)) [
          | inl settled ↦ rw (own, run_execution, same, settled) (unused s p)
          | inr unsettled ↦ elim (Bool-cases (is_running e.status)) [
            | inl runs ↦ rw (own, run_execution, same, unsettled, runs) (stale-Ends s p)
            | inr rests ↦ rw (own, run_execution, same, unsettled, rests) (approved-Ends e s p)
          ]
        ]
      ]
    ]

  insert-Keeps : (x : ToolExecution) → Keeps (P 0) (insert_or_join_execution x)
  unfolding insert_or_join_execution
  insert-Keeps x s p = elim (Option-cases (insert_execution x s.db.executions)) [
    | inr (rows, i) ↦ rw (i, insert_or_join_execution) (writes 0 _ s p)
    | inl i ↦ elim (Option-cases (load_execution s.db x.tenant_id x.idempotency_key)) [
      | inl n ↦ rw (i, insert_or_join_execution, n) p
      | inr (raced, n) ↦ rw (i, insert_or_join_execution, n) p
    ]
  ]

  create-Keeps :
      (arguments : Fields) (v : Verdict)
      → Keeps (P 0) (
          create_execution env tool call.agent_id call.agent_run_id call.call_ordinal
            (call_key env same_payload call)
            arguments
            v)
  unfolding create_execution
  create-Keeps arguments v s p =
      let (id, w) = env.uuid4 s.world in
      let s' = env.others (record s { world = w }) in
      insert-Keeps
        (new_execution id (env.now s'.world) tool call.agent_id call.agent_run_id call.call_ordinal
          (call_key env same_payload call) arguments v)
        s' (others 0 (record s { world = w }) (draws s p))

  ask-Keeps :
      (engine : Environment) (baseline : Bool)
      → Keeps (P 0) (ask_policy env same_payload call tool engine baseline)
  unfolding ask_policy
  ask-Keeps engine baseline s p =
      let s' = env.others s in
      elim (Result-cases
        (evaluate_tool engine call.tenant_id call.agent_id tool baseline none s'.db.policy)) [
          | inr (x, e) ↦ rw (e, ask_policy) (others 0 s p)
          | inl ((d, next), e) ↦ rw (e, ask_policy) (writes 0 _ s' (others 0 s p))
        ]

  decide-Keeps : Keeps (P 0) (decide env same_payload call tool)
  unfolding decide
  decide-Keeps s p = elim (Option-cases env.policy) [
    | inl n ↦ rw (n, decide) p
    | inr (engine, n) ↦ rw (n, decide) (ask-Keeps engine _ s p)
  ]

  found-Keeps :
      (arguments : Fields) (o : Option ToolExecution)
      → Keeps (P 0) (execution_of env same_payload call tool arguments o)
  unfolding execution_of
  found-Keeps arguments (some e) s p = p
  found-Keeps arguments none s p =
      >>=-Keeps (P 0) (decide env same_payload call tool)
        (create_execution env tool call.agent_id call.agent_run_id call.call_ordinal
          (call_key env same_payload call) arguments)
        decide-Keeps (create-Keeps arguments) s p

  call-Ends : (arguments : Fields) → Ends (call_tool env same_payload call tool arguments)
  unfolding call_tool
  call-Ends arguments s p =
      let s' = env.others s in
      let o = load_execution s'.db call.tenant_id (call_key env same_payload call) in
      bind-Ends (execution_of env same_payload call tool arguments o)
        (run_execution env same_payload call tool arguments) (found-Keeps arguments o)
        (execution-Ends arguments) s' (others 0 s p)

  -- A call of a tool calls the tool's adapter `max_attempts` times at most, and once at most
  -- where the tool writes and its configuration has no header for the token of the execution: `P
  -- k` of a state, where a call of the adapter leads from `P k` to `P (k + 1)` and all else keeps
  -- it, holds at the end for such a k.
  pub execute-Bounded :
      (s : ToolState W)
      → P 0 s
      → resolve_allowed_tool env (env.others s).db call.tenant_id call.agent_id call.qualified_name
        ≡ ok tool
      → Bounded (execute_agent_tool env same_payload call s).1
  unfolding execute_agent_tool call_if_allowed call_resolved
  execute-Bounded s p e = elim (Bool-cases (ltb call.call_ordinal 1 || ltb 20 call.call_ordinal)) [
    | inl bad ↦ rw (bad, execute_agent_tool) (unused s p)
    | inr good ↦
        rw (good, execute_agent_tool, e)
          (bind-Ends (returning _) (call_tool env same_payload call tool) (λ s p. p) call-Ends
            (env.others s) (others 0 s p))
  ]
