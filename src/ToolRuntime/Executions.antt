-- ===== src/ToolRuntime/Executions.antt =====
-- The rows of executions: `_load_execution`, `_result`, `_create_execution`, `_mark_running` and
-- `_finish_execution`.
use Prim.Native.String.{◌++◌ as ◌<>◌}
use package.text.Mathlib.Text.{◌==◌ as str_eq}
use customers_manager_hub.Prelude.{
  ℕ, String, Bool, true, false, ◌&&◌, ◌||◌, ◌==◌, Option, none, some, List, [], ◌∷◌, ◌++◌, any,
  find, equals_some, if◌then◌else◌,
}
use customers_manager_hub.Prelude.Result.{Result, ok, err}
use customers_manager_hub.Prelude.Step.{Step}
use customers_manager_hub.Prelude.Table.{update_row}
use customers_manager_hub.Prelude.Text.{truncate}
use customers_manager_hub.Json.{Fields}
use customers_manager_hub.Models.{AuditEvent, Detail, text, number, ident, nothing}
use customers_manager_hub.PolicyModels.{ToolDefinition}
use customers_manager_hub.ToolModels.{
  ToolExecutionStatus, pending, approval_required, running, denied, ToolApprovalStatus,
  not_required, awaited, refused, ToolExecution, ToolExecutionResult,
}
use customers_manager_hub.ToolRuntime.{ToolFault, runtime_error, other_error}
use customers_manager_hub.ToolRuntime.Access.{ToolDb, ToolState, ToolEnvironment}
use customers_manager_hub.AgentRuntime.Rounds.{status_text}

abbrev pub refusal : String → ToolFault
refusal code = runtime_error (record { code = code; retryable = false })

abbrev pub busy : ToolFault
busy = runtime_error (record { code = "tool_execution_busy"; retryable = true })

abbrev pub execution_key : ToolExecution → ℕ
execution_key e = e.id

-- The query by the idempotency key, which is unique for a tenant.
abbrev pub is_of_key : ℕ → String → ToolExecution → Bool
is_of_key tenant_id key e = e.tenant_id == tenant_id && str_eq e.idempotency_key key

-- `_load_execution`
abbrev pub load_execution : ToolDb → ℕ → String → Option ToolExecution
load_execution db tenant_id key = find (is_of_key tenant_id key) db.executions

-- `_result`
abbrev pub result_of : String → ToolExecution → ToolExecutionResult
result_of tool_name e = record {
  execution_id = e.id;
  tool_name = tool_name;
  status = e.status;
  output = e.output_payload;
  error_code = e.error_code;
}

-- What decides the status of a new row.
pub record Verdict : Type 0 where
  pub needs_approval : Bool
  pub is_denied : Bool
  pub reason : Option String

abbrev pub first_status : Verdict → ToolExecutionStatus
first_status v =
    if v.is_denied then denied else if v.needs_approval then approval_required else pending

abbrev pub first_approval : Verdict → ToolApprovalStatus
first_approval v =
    if v.is_denied then refused else if v.needs_approval then awaited else not_required

abbrev pub cut_code : Option String → Option String
cut_code none = none
cut_code (some code) = some (truncate 100 code)

-- A new row of `tool_executions`.
abbrev pub new_execution :
    (id now : ℕ)
    → ToolDefinition
    → (agent_id run_id ordinal : ℕ) → String
    → Fields
    → Verdict
    → ToolExecution
new_execution id now tool agent_id run_id ordinal key arguments v = record {
  id = id;
  tenant_id = tool.tenant_id;
  tool_id = tool.id;
  agent_id = agent_id;
  agent_run_id = some run_id;
  call_ordinal = some ordinal;
  idempotency_key = key;
  status = first_status v;
  approval_status = first_approval v;
  input_payload = arguments;
  output_payload = none;
  error_code = cut_code v.reason;
  attempt_count = 0;
  duration_ms = none;
  approved_by_user_id = none;
  approved_at = none;
  updated_at = now;
}

-- `uq_tool_executions_agent_run_ordinal`
abbrev pub is_call_of : Option ℕ → Option ℕ → ToolExecution → Bool
is_call_of (some run_id) (some ordinal) e =
    equals_some e.agent_run_id run_id && equals_some e.call_ordinal ordinal
is_call_of run_id ordinal e = false

-- `INSERT`: nothing where the primary key or a unique constraint refuses the row.
unfoldable pub insert_execution : ToolExecution → List ToolExecution → Option (List ToolExecution)
insert_execution e rows =
    if any (λ x. x.id == e.id) rows
      || any (is_of_key e.tenant_id e.idempotency_key) rows
      || any (is_call_of e.agent_run_id e.call_ordinal) rows
    then none
    else some (rows ++ e ∷ [])

abbrev pub with_executions : {W : Type 0} → List ToolExecution → ToolState W → ToolState W
with_executions rows s = record s { db = record s.db { executions = rows } }

-- The insertion of a row, or the row that another transaction has inserted.
unfoldable pub insert_or_join_execution :
    {W : Type 0} → ToolExecution → Step ToolFault (ToolState W) ToolExecution
unfolding insert_execution
insert_or_join_execution e s = elim (insert_execution e s.db.executions) [
  | some rows ↦ (ok e, with_executions rows s)
  | none ↦ elim (load_execution s.db e.tenant_id e.idempotency_key) [
    | none ↦ (err other_error, s)
    | some raced ↦ (ok raced, s)
  ]
]

-- The end of an execution.
pub record Ending : Type 0 where
  pub status : ToolExecutionStatus
  pub output : Option Fields
  pub error_code : Option String
  pub attempts : ℕ
  pub duration_ms : ℕ
  pub write_audit : Bool

abbrev pub text_or_nothing : Option String → Detail
text_or_nothing none = nothing
text_or_nothing (some s) = text s

abbrev pub ended : Ending → ℕ → ToolExecution → ToolExecution
ended x at e = record e {
  status = x.status;
  output_payload = x.output;
  error_code = cut_code x.error_code;
  attempt_count = x.attempts;
  duration_ms = some x.duration_ms;
  updated_at = at;
}

abbrev pub ending_event : Ending → ToolExecution → AuditEvent
ending_event x e = record {
  tenant_id = some e.tenant_id;
  actor_user_id = none;
  action = "tool.execution." <> status_text x.status;
  target_type = "tool_execution";
  target_id = some e.id;
  details =
      ("tool_id", ident e.tool_id)
      ∷ ("agent_id", ident e.agent_id)
      ∷ ("attempt_count", number x.attempts)
      ∷ ("error_code", text_or_nothing (cut_code x.error_code))
      ∷ [];
}

abbrev pub is_execution : ℕ → ℕ → ToolExecution → Bool
is_execution id tenant_id e = e.id == id && e.tenant_id == tenant_id

module _ {W : Type 0} (env : ToolEnvironment W) where
  open env use {others, now, uuid4}

  -- `_create_execution`
  unfoldable pub create_execution :
      ToolDefinition
      → (agent_id run_id ordinal : ℕ) → String
      → Fields
      → Verdict
      → Step ToolFault (ToolState W) ToolExecution
  unfolding insert_or_join_execution
  create_execution tool agent_id run_id ordinal key arguments v s =
      let (id, w) = uuid4 s.world in
      let s' = others (record s { world = w }) in
      insert_or_join_execution
        (new_execution id (now s'.world) tool agent_id run_id ordinal key arguments v) s'

  abbrev pub as_running : ℕ → ToolExecution → ToolExecution
  as_running at e = record e { status = running; error_code = none; updated_at = at }

  abbrev pub start :
      ToolExecutionStatus → ToolExecution → ToolState W → Result ToolFault (Unit {0}) × ToolState W
  start pending e s = (
    ok tt,
    with_executions (update_row execution_key e.id (as_running (now s.world)) s.db.executions) s,
  )
  start running e s = (err busy, s)
  start _ e s = (err (refusal "tool_execution_state_invalid"), s)

  -- `_mark_running`
  unfoldable pub mark_running : (id tenant_id : ℕ) → Step ToolFault (ToolState W) (Unit {0})
  mark_running id tenant_id s =
      let s' = others s in
      elim (find (is_execution id tenant_id) s'.db.executions) [
        | none ↦ (err (refusal "tool_execution_missing"), s')
        | some e ↦ start e.status e s'
      ]

  -- `_finish_execution`
  unfoldable pub finish_execution :
      (id tenant_id : ℕ) → Ending → Step ToolFault (ToolState W) ToolExecution
  finish_execution id tenant_id x s =
      let s' = others s in
      elim (find (is_execution id tenant_id) s'.db.executions) [
        | none ↦ (err (refusal "tool_execution_missing"), s')
        | some e ↦
            let at = now s'.world in
            let events = s'.db.audit_events in
            (
              ok (ended x at e),
              record s' {
                db = record s'.db {
                  executions = update_row execution_key e.id (ended x at) s'.db.executions;
                  audit_events = if x.write_audit then events ++ ending_event x e ∷ [] else events;
                };
              },
            )
      ]
