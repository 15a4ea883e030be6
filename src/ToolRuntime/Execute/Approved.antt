-- ===== src/ToolRuntime/Execute/Approved.antt =====
-- A tool that requires an approval waits for it.
use customers_manager_hub.Prelude.{
  ◌≡◌, refl, String, Bool, true, ◌&&◌, ◌||◌, ◌==◌, ltb, Option, none, some, [], ◌∷◌, ◌++◌, All,
  All-append, find-holds, arith, ==_iff, Bool-cases, Option-cases, inl, inr,
}
use customers_manager_hub.Prelude.Result.{ok, err≢ok, ok_unique, Result-cases}
use customers_manager_hub.Prelude.Step.{
  returning, Keeps, >>=-Keeps, Returns, >>=-Returns, bind-keeps,
}
use customers_manager_hub.Json.{Fields}
use customers_manager_hub.PolicyModels.{ToolDefinition}
use customers_manager_hub.Policy.Engine.{Environment}
use customers_manager_hub.Policy.Tools.{evaluate_tool}
use customers_manager_hub.ToolModels.{ToolExecution}
use customers_manager_hub.ToolRuntime.{ToolFault}
use customers_manager_hub.ToolRuntime.Access.{
  ToolDb, ToolState, ToolEnvironment, resolve_allowed_tool,
}
use customers_manager_hub.ToolRuntime.Access.Listed.{resolved-permitted}
use customers_manager_hub.ToolRuntime.Executions.{
  is_of_key, Verdict, new_execution, insert_execution, insert_or_join_execution, create_execution,
  load_execution,
}
use customers_manager_hub.ToolRuntime.Execute.{
  call_key, ask_policy, decide, execution_of, run_execution, call_tool, call_resolved,
  call_if_allowed, execute_agent_tool,
}
use customers_manager_hub.ToolRuntime.Calls.{Call, verdict_of, is_settled}
use customers_manager_hub.ToolRuntime.Execute.Verdicts.{
  All-found, decision-forbids, first-settled, forbids, is_quiet, settled_of_quiet,
}

module _ {W : Type 0} (env : ToolEnvironment W) (same_payload : Fields → Fields → Bool)
    (call : Call) (Idle : W → Type 0) where
  abbrev key : String
  key = call_key env same_payload call

  -- Nothing was called, and every stored execution of the call waits for its approval, was denied or is
  -- over: none is pending or running.
  abbrev pub Waiting : ToolState W → Type 0
  Waiting s = Idle s.world × All (λ x. is_quiet call.tenant_id key x ≡ true) s.db.executions

  found_settled :
      (s : ToolState W) (x : ToolExecution)
      → Waiting s
      → load_execution s.db call.tenant_id key ≡ some x
      → is_settled x.status ≡ true
  found_settled s x h e =
      settled_of_quiet call.tenant_id key x
        (All-found (λ x. is_quiet call.tenant_id key x ≡ true) _ s.db.executions x h.1 e)
        (find-holds (is_of_key call.tenant_id key) s.db.executions x e)

  run_settled :
      (tool : ToolDefinition) (arguments : Fields) (e : ToolExecution)
      → is_settled e.status ≡ true
      → Keeps Waiting (run_execution env same_payload call tool arguments e)
  unfolding run_execution
  run_settled tool arguments e settled s h =
      elim (Bool-cases (e.tool_id == tool.id && e.agent_id == call.agent_id)) [
        | inr other ↦ rw (other, run_execution) h
        | inl own ↦ elim (Bool-cases (same_payload e.input_payload arguments)) [
          | inr other ↦ rw (own, run_execution, other) h
          | inl same ↦ rw (own, run_execution, same, settled) h
        ]
      ]

  module _ (others : (s : ToolState W) → Waiting s → Waiting (env.others s))
      (drawn : (w : W) → Idle w → Idle (env.uuid4 w).1) (tool : ToolDefinition)
      (required : customers_manager_hub.ToolRuntime.Access.approval_required tool ≡ true) where
    abbrev Forbids : Verdict → Type 0
    Forbids v = forbids v ≡ true

    abbrev Settled : ToolExecution → Type 0
    Settled e = is_settled e.status ≡ true

    ask-Returns :
        (engine : Environment)
        → Returns Waiting Forbids (ask_policy env same_payload call tool engine true)
    unfolding ask_policy
    ask-Returns engine s h =
        let s' = env.others s in
        elim (Result-cases
          (evaluate_tool engine call.tenant_id call.agent_id tool true none s'.db.policy)) [
            | inr (x, e) ↦ rw (e, ask_policy) (others s h, λ v f. absurd (err≢ok f))
            | inl ((d, next), e) ↦
                let forbidden =
                  decision-forbids engine call.tenant_id call.agent_id tool s'.db.policy next d e in
                rw (e, ask_policy)
                  (
                    others s h,
                    λ v f. let same : verdict_of d ≡ v = ok_unique refl f in rw (← same) forbidden,
                  )
          ]

    decide-Returns : Returns Waiting Forbids (decide env same_payload call tool)
    unfolding decide
    decide-Returns s h = elim (Option-cases env.policy) [
      | inl e ↦ rw (e, decide, required) (h, λ v f. let same = ok_unique refl f in rw (← same) refl)
      | inr (engine, e) ↦ rw (e, decide, required) (ask-Returns engine s h)
    ]

    insert-Returns :
        (x : ToolExecution)
        → x.tenant_id ≡ call.tenant_id
        → x.idempotency_key ≡ key
        → Settled x
        → Returns Waiting Settled (insert_or_join_execution x)
    unfolding insert_or_join_execution insert_execution
    insert-Returns x own keyed settled s h =
        elim (Option-cases (insert_execution x s.db.executions)) [
          | inr (rows, e) ↦
              let quiet : is_quiet call.tenant_id key x ≡ true = ground (arith, settled) in
              let all_rows =
                All-append (λ y. is_quiet call.tenant_id key y ≡ true) s.db.executions (x ∷ []) h.1
                  (quiet, tt) in
              let same : s.db.executions ++ x ∷ [] ≡ rows = ground (arith, e) in
              rw (e, insert_or_join_execution)
                (
                  (h.0, rw (← same) all_rows),
                  λ y f. let is_x : x ≡ y = ok_unique refl f in rw (← is_x) settled,
                )
          | inl e ↦ elim (Option-cases (load_execution s.db x.tenant_id x.idempotency_key)) [
            | inl n ↦ rw (e, insert_or_join_execution, n) (h, λ y f. absurd (err≢ok f))
            | inr (raced, f) ↦
                rw (e, insert_or_join_execution, f)
                  (
                    h,
                    λ y g.
                        let is_raced : raced ≡ y = ok_unique refl g in
                        rw (← is_raced) (found_settled s raced h (rw (own, keyed) at f)),
                  )
          ]
        ]

    create-Returns :
        (arguments : Fields)
        → tool.tenant_id ≡ call.tenant_id
        → (v : Verdict) → Forbids v
        → Returns Waiting Settled (
            create_execution env tool call.agent_id call.agent_run_id call.call_ordinal key
              arguments v)
    unfolding create_execution
    create-Returns arguments own v forbidden s h =
        let (id, w) = env.uuid4 s.world in
        let s' = env.others (record s { world = w }) in
        insert-Returns
          (new_execution id (env.now s'.world) tool call.agent_id call.agent_run_id
            call.call_ordinal key arguments v)
          own refl (first-settled v forbidden) s'
          (others (record s { world = w }) (drawn s.world h.0, h.1))

    execution-Returns :
        (arguments : Fields)
        → tool.tenant_id ≡ call.tenant_id
        → (o : Option ToolExecution) (s : ToolState W) → Waiting s
        → load_execution s.db call.tenant_id key ≡ o
        → Waiting (execution_of env same_payload call tool arguments o s).1
          × ((e : ToolExecution)
              → (execution_of env same_payload call tool arguments o s).0 ≡ ok e
              → Settled e)
    unfolding execution_of
    execution-Returns arguments own (some e) s h f =
        (h, λ x g. let same : e ≡ x = ok_unique refl g in rw (← same) (found_settled s e h f))
    execution-Returns arguments own none s h f =
        >>=-Returns Waiting Forbids Settled (decide env same_payload call tool)
          (λ v.
            create_execution env tool call.agent_id call.agent_run_id call.call_ordinal key
              arguments v)
          decide-Returns (λ v q. create-Returns arguments own v q) s h

    call-Keeps :
        tool.tenant_id ≡ call.tenant_id
        → (arguments : Fields) → Keeps Waiting (call_tool env same_payload call tool arguments)
    unfolding call_tool
    call-Keeps own arguments s h =
        let s' = env.others s in
        let o = load_execution s'.db call.tenant_id key in
        let (kept, settled) = execution-Returns arguments own o s' (others s h) refl in
        bind-keeps Waiting (execution_of env same_payload call tool arguments o)
          (run_execution env same_payload call tool arguments) s' kept
          (λ row e. run_settled tool arguments row (settled row e) _ kept)

    own_tenant :
        (db : ToolDb)
        → resolve_allowed_tool env db call.tenant_id call.agent_id call.qualified_name ≡ ok tool
        → tool.tenant_id ≡ call.tenant_id
    own_tenant db e =
        let granted =
          resolved-permitted env db call.tenant_id call.agent_id call.qualified_name tool e in
        ground (arith, granted, ==_iff tool.tenant_id call.tenant_id)

    -- Where every stored execution of a call waits for its approval, was denied or is over (none
    -- is pending or running), and other transactions leave it so, a tool that requires an
    -- approval is not called, whatever the policy in force says: `execute_agent_tool`, where the
    -- tool that it resolves requires an approval, keeps what other transactions and the drawing
    -- of ids keep of the world, and leaves the executions so.
    pub approval_first :
        (s : ToolState W)
        → Waiting s
        → resolve_allowed_tool env
            (env.others s).db
            call.tenant_id
            call.agent_id
            call.qualified_name
          ≡ ok tool
        → Waiting (execute_agent_tool env same_payload call s).1
    unfolding execute_agent_tool call_if_allowed call_resolved
    approval_first s h e = elim (Bool-cases (ltb call.call_ordinal 1 || ltb 20 call.call_ordinal)) [
      | inl bad ↦ rw (bad, execute_agent_tool) h
      | inr good ↦
          rw (good, execute_agent_tool, e)
            (>>=-Keeps Waiting (returning _) (call_tool env same_payload call tool) (λ s p. p)
              (call-Keeps (own_tenant (env.others s).db e)) (env.others s) (others s h))
    ]
