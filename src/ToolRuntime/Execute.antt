-- ===== src/ToolRuntime/Execute.antt =====
-- The call of a tool: `execute_agent_tool`.
pub mod Verdicts
pub mod Decided
pub mod Approved
pub mod Attempts
pub mod Bounded
use Prim.Native.String.{◌++◌ as ◌<>◌}
use text.Mathlib.Text.{◌==◌ as str_eq}
use customers_manager_hub.Prelude.{
  ℕ, zero, suc, ◌+◌, ◌-◌, ◌*◌, ◌^◌, min, max, String, Bool, true, false, ◌&&◌, ◌||◌, ◌==◌, not, ltb,
  leb, Option, none, some, is_some, List, [], ◌∷◌, find, if◌then◌else◌,
}
use customers_manager_hub.Prelude.Result.{Result, ok, err}
use customers_manager_hub.Prelude.Step.{Step, ◌>>=◌, ◌>>◌, pure, raise, returning}
use customers_manager_hub.Prelude.Table.{update_row}
use customers_manager_hub.Json.{Fields}
use customers_manager_hub.PolicyModels.{
  ToolDefinition, ToolAdapterKind, ToolOperationType, read, write, PolicyDecisionAction, allow,
  deny,
}
use customers_manager_hub.Policy.Engine.{
  PolicyError, configuration_invalid, event_missing, message_missing, conversation_missing,
  tool_tenant_mismatch, ToolPolicyDecision, Environment,
}
use customers_manager_hub.Policy.Tools.{evaluate_tool}
use customers_manager_hub.ToolModels.{
  ToolExecutionStatus, pending, approval_required, running, succeeded, failed, denied,
  ToolApprovalStatus, awaited, ToolExecution, ToolExecutionResult,
}
use customers_manager_hub.ToolRuntime.{
  ToolError, ToolFault, runtime_error, adapter_error, other_error, ResolvedToolCredential,
  ToolAdapterRequest,
}
use customers_manager_hub.ToolRuntime.Schema.{validate_tool_schema, validate_tool_payload}
use customers_manager_hub.ToolRuntime.Configuration.{
  ToolConfiguration, rest, sheets, configuration_fields, normalize_tool_configuration,
}
use customers_manager_hub.ToolRuntime.Adapters.{ToolAdapter, adapter_of}
use customers_manager_hub.ToolRuntime.Access.{
  ToolDb, ToolState, ToolEnvironment, resolve_allowed_tool, load_credential,
}
use customers_manager_hub.ToolRuntime.Executions.{
  refusal, busy, execution_key, load_execution, result_of, Verdict, is_execution, with_executions,
  create_execution, mark_running, Ending, finish_execution,
}
use customers_manager_hub.ToolRuntime.Calls.{
  Call, Outcome, adapter_failed, attempts_allowed, crashed, has_idempotency_header, is_awaited,
  is_running, is_settled, is_write, outcome_of, policy_code, returned, runtime_failed, stale_after,
  verdict_of,
}

-- `same_payload` is the equality of two dicts.
module _ {W : Type 0} (env : ToolEnvironment W) (same_payload : Fields → Fields → Bool) where
  open env use {python, others, now, sleep_ms, elapsed_ms, policy, adapters}

  -- A new transaction, after what others have done.
  abbrev pub begin : Step ToolFault (ToolState W) ToolDb
  begin s = let s' = others s in (ok s'.db, s')

  module _ (call : Call) where
    abbrev pub call_key : String
    call_key =
        "agent:" <> python.uuid_text call.agent_run_id <> ":tool:" <> python.str call.call_ordinal

    module _ (tool : ToolDefinition) where
      -- The decision of the policy engine, in its own transaction.
      unfoldable pub ask_policy :
          Environment → (baseline : Bool) → Step ToolFault (ToolState W) Verdict
      ask_policy engine baseline s =
          let s' = others s in
          elim (evaluate_tool engine call.tenant_id call.agent_id tool baseline none s'.db.policy) [
            | err e ↦ (err (runtime_error (record { code = policy_code e; retryable = true })), s')
            | ok (d, next) ↦ (ok (verdict_of d), record s' { db = record s'.db { policy = next } })
          ]

      unfoldable pub decide : Step ToolFault (ToolState W) Verdict
      unfolding ask_policy
      decide =
          let baseline = customers_manager_hub.ToolRuntime.Access.approval_required tool in
          elim policy [
            | none ↦ pure (record { needs_approval = baseline; is_denied = false; reason = none })
            | some engine ↦ ask_policy engine baseline
          ]

      -- The execution of the call, new or as it is.
      unfoldable pub execution_of :
          Fields → Option ToolExecution → Step ToolFault (ToolState W) ToolExecution
      unfolding decide
      execution_of arguments (some e) = pure e
      execution_of arguments none =
          decide
          >>= create_execution env tool call.agent_id call.agent_run_id call.call_ordinal call_key
              arguments

      module _ (arguments : Fields) (e : ToolExecution) where
        abbrev pub finish :
            ToolExecutionStatus
            → (output : Option Fields) → (code : Option String) → (attempt : ℕ) → (started : W)
            → Step ToolFault (ToolState W) ToolExecutionResult
        finish status output code attempt started s =
            (finish_execution env e.id call.tenant_id (record {
              status = status;
              output = output;
              error_code = code;
              attempts = attempt;
              duration_ms = elapsed_ms started s.world;
              write_audit = is_write tool;
            })
                >>= λ row. pure (result_of call.qualified_name row))
              s

        abbrev pub sleeping : ℕ → Step ToolFault (ToolState W) (Unit {0})
        sleeping attempt s =
            (ok tt, record s { world = sleep_ms (min (250 * 2 ^ (attempt - 1)) 1000) s.world })

        module _ (c : ToolConfiguration) (credential : Option ResolvedToolCredential)
            (adapter : ToolAdapter W) (started : W) where
          abbrev pub adapter_request : ToolAdapterRequest
          adapter_request = record {
            tool_id = tool.id;
            operation_type = tool.operation_type;
            configuration = configuration_fields c;
            arguments = arguments;
            credential = credential;
            execution_token = python.uuid_text e.id;
            timeout_seconds = tool.timeout_seconds;
          }

          abbrev pub checked_output : Result ToolFault Fields → Result ToolFault Fields
          checked_output (err f) = err f
          checked_output (ok output) = elim (validate_tool_schema python tool.output_schema) [
            | err f ↦ err f
            | ok schema ↦ validate_tool_payload python schema output true
          ]

          -- One call of the adapter.
          unfoldable pub attempt_once : Step ToolFault (ToolState W) Outcome
          attempt_once s =
              let (r, w) = adapter.execute adapter_request s.world in
              (ok (outcome_of (checked_output r)), record s { world = w })

          -- What follows an attempt; `next` are the attempts after it.
          unfoldable pub after_attempt :
              (attempt : ℕ)
              → Step ToolFault (ToolState W) ToolExecutionResult
              → Outcome
              → Step ToolFault (ToolState W) ToolExecutionResult
          after_attempt attempt next (returned output) =
              finish succeeded (some output) none attempt started
          after_attempt attempt next (adapter_failed x) =
              if x.retryable && ltb attempt (attempts_allowed tool c)
              then (sleeping attempt >> next)
              else finish failed none (some x.code) attempt started
          after_attempt attempt next (runtime_failed x) =
              finish failed none (some x.code) attempt started
          after_attempt attempt next crashed = raise other_error

          -- The loop, with `left` attempts to come, the next of them the `attempt`-th. An attempt that
          -- is followed by another has left an error, so the end of the loop is only reached where no
          -- attempt is allowed.
          unfoldable pub run_attempts :
              (left attempt : ℕ) → Step ToolFault (ToolState W) ToolExecutionResult
          unfolding attempt_once after_attempt
          run_attempts zero attempt = raise (refusal "tool_execution_failed")
          run_attempts (suc left) attempt =
              attempt_once >>= after_attempt attempt (run_attempts left (attempt + 1))

        abbrev pub attempts_with :
            ToolConfiguration
            → Option ResolvedToolCredential
            → ToolAdapter W
            → Step ToolFault (ToolState W) ToolExecutionResult
        attempts_with c credential adapter s =
            run_attempts c credential adapter s.world (attempts_allowed tool c) 1 s

        -- A configuration, a credential and an adapter.
        unfoldable pub run_configured :
            Option ToolConfiguration → Step ToolFault (ToolState W) ToolExecutionResult
        unfolding run_attempts
        run_configured none = raise other_error
        run_configured (some c) = begin >>= λ db.
            returning (load_credential env db tool) >>= λ credential.
            returning (adapter_of adapters tool.adapter_kind) >>= attempts_with c credential

        -- The execution, once it is pending and approved.
        unfoldable pub run_tool : Step ToolFault (ToolState W) ToolExecutionResult
        unfolding run_configured
        run_tool =
            mark_running env e.id call.tenant_id
            >> run_configured (
                normalize_tool_configuration python tool.adapter_kind tool.operation_type
                  tool.configuration)

        -- `x` is the row of the execution as it is now.
        unfoldable pub run_approved :
            ToolExecution → Step ToolFault (ToolState W) ToolExecutionResult
        unfolding run_tool
        run_approved x =
            if is_awaited x.approval_status
            then pure (result_of call.qualified_name x)
            else run_tool

        abbrev pub as_pending : ℕ → ToolExecution → ToolExecution
        as_pending at x = record x { status = pending; updated_at = at }

        -- An execution that runs for too long is taken over.
        unfoldable pub take_over : Step ToolFault (ToolState W) ToolExecution
        take_over s =
            let s' = others s in
            elim (find (is_execution e.id call.tenant_id) s'.db.executions) [
              | none ↦ (err (refusal "tool_execution_missing"), s')
              | some x ↦ (
                ok (as_pending (now s'.world) x),
                with_executions
                    (update_row execution_key x.id (as_pending (now s'.world)) s'.db.executions) s',
              )
            ]

        unfoldable pub run_stale : Step ToolFault (ToolState W) ToolExecutionResult
        unfolding take_over run_approved
        run_stale s =
            if leb (now s.world) (e.updated_at + stale_after tool)
            then (err busy, s)
            else (take_over >>= run_approved) s

        -- What is done with the execution in its status.
        unfoldable pub run_execution : Step ToolFault (ToolState W) ToolExecutionResult
        unfolding run_stale run_approved
        run_execution =
            if not (e.tool_id == tool.id && e.agent_id == call.agent_id)
            then raise (refusal "tool_call_replay_mismatch")
            else if not (same_payload e.input_payload arguments)
            then raise (refusal "tool_call_replay_mismatch")
            else if is_settled e.status
            then pure (result_of call.qualified_name e)
            else if is_running e.status
            then run_stale
            else run_approved e

      -- The call of a tool that the agent has, with arguments of its schema.
      unfoldable pub call_tool : Fields → Step ToolFault (ToolState W) ToolExecutionResult
      unfolding execution_of run_execution
      call_tool arguments = begin >>= λ db.
          execution_of arguments (load_execution db call.tenant_id call_key)
          >>= run_execution arguments

      abbrev pub checked_arguments : Result ToolFault Fields
      checked_arguments = elim (validate_tool_schema python tool.input_schema) [
        | err f ↦ err f
        | ok schema ↦ validate_tool_payload python schema call.arguments false
      ]

      unfoldable pub call_resolved : Step ToolFault (ToolState W) ToolExecutionResult
      unfolding call_tool
      call_resolved = returning checked_arguments >>= call_tool

    unfoldable pub call_if_allowed : ToolDb → Step ToolFault (ToolState W) ToolExecutionResult
    unfolding call_resolved
    call_if_allowed db =
        returning (resolve_allowed_tool env db call.tenant_id call.agent_id call.qualified_name)
        >>= call_resolved

    -- `execute_agent_tool`
    unfoldable pub execute_agent_tool : Step ToolFault (ToolState W) ToolExecutionResult
    unfolding call_if_allowed
    execute_agent_tool =
        if ltb call.call_ordinal 1 || ltb 20 call.call_ordinal
        then raise (refusal "tool_call_ordinal_invalid")
        else (begin >>= call_if_allowed)
