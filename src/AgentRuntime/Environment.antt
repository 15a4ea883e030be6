-- ===== src/AgentRuntime/Environment.antt =====
-- The state of a worker that answers an event, what it calls, and the steps that the parts of a run share.
pub mod Keeps
use customers_manager_hub.Prelude.{
  ℕ, zero, suc, String, Bool, true, false, Option, none, some, List, [], ◌∷◌, if◌then◌else◌,
}
use customers_manager_hub.Prelude.Result.{Result, ok, err}
pub use customers_manager_hub.Prelude.Step.{Step, ◌>>=◌, ◌>>◌, pure, raise}
use customers_manager_hub.Json.{Json, Fields}
use customers_manager_hub.Models.{Message, MessageAuthorType}
use customers_manager_hub.AgentModels.{AgentRun}
use customers_manager_hub.Handoff.{HandoffDb}
use customers_manager_hub.ToolModels.{ModelToolDefinition, ToolExecutionResult}
use customers_manager_hub.AgentRuntime.{
  AgentError, AgentFault, coded, AgentDb, with_runs, runs_of, AgentRunClaim,
}
use customers_manager_hub.AgentRuntime.Lease.{renew_run_lease}

-- The tables, and everything else outside of the worker.
pub record State (W : Type 0) : Type 0 where
  pub db : AgentDb
  pub world : W

-- A step of a worker.
abbrev pub M : Type 0 → Type 0 → Type 0
M W A = Step AgentFault (State W) A

-- A computation without a state that may raise the runtime's own error.
abbrev pub lift : {W A : Type 0} → Result AgentError A → M W A
lift (ok a) = pure a
lift (err e) = raise (coded e)

pub record GenerationRequest : Type 0 where
  pub input_text : String
  pub instructions : String
  pub json_schema : Option Fields
  pub schema_name : Option String
  pub message_id : ℕ

pub record GenerationResult : Type 0 where
  pub text : String
  pub structured : Option Fields

pub record ToolCall : Type 0 where
  pub tenant_id : ℕ
  pub agent_id : ℕ
  pub agent_run_id : ℕ
  pub call_ordinal : ℕ
  pub qualified_name : String
  pub arguments : Fields

pub record OutboundText : Type 0 where
  pub tenant_id : ℕ
  pub channel_account_id : ℕ
  pub conversation_id : ℕ
  pub text : String
  pub idempotency_key : String
  pub author_type : MessageAuthorType

pub record ToolService (W : Type 0) : Type 0 where
  pub list_agent_tools : (tenant_id agent_id : ℕ) → M W (List ModelToolDefinition)
  pub execute_agent_tool : ToolCall → M W ToolExecutionResult

-- What a worker calls. `others` is what other transactions do before one of the worker's own;
-- `intervals` is how many waits of `renew_interval_seconds` a call lasts; `is_late` is whether a task has done its work when it is cancelled; `pause_uuid` and `pause_others`
-- are the arguments of `pause_for_tool_approval`. `strip`, `casefold`, `dumps` and `str` are Python's.
pub record Environment (W : Type 0) : Type 0 where
  pub strip : String → String
  pub casefold : String → String
  pub dumps : Json → String
  pub str : ℕ → String
  pub created_at : Message → ℕ
  pub platform_policy : String
  pub others : State W → State W
  pub now : W → ℕ
  pub uuid4 : W → ℕ × W
  pub intervals : State W → ℕ
  pub is_late : State W → Bool
  pub generate : ℕ → GenerationRequest → M W GenerationResult
  pub memory_context : (tenant_id conversation_id : ℕ) → M W String
  pub knowledge : Option ((tenant_id agent_id : ℕ) → String → ℕ → M W String)
  pub tools : Option (ToolService W)
  pub dispatch_text : OutboundText → M W ℕ
  pub pause_uuid : State W → ℕ → ℕ
  pub pause_others : State W → ℕ → HandoffDb → HandoffDb

module _ {W : Type 0} (env : Environment W) where
  -- A new transaction, after what others have done.
  abbrev pub begin : M W AgentDb
  begin s = let s' = env.others s in (ok s'.db, s')

  -- One transaction on the table of runs: what it writes is committed, or its error is raised.
  unfoldable pub on_runs : (List AgentRun → Result AgentError (List AgentRun)) → M W (Unit {0})
  on_runs f s =
      let s' = env.others s in
      elim (f (runs_of s'.db)) [
        | ok runs ↦ (ok tt, record s' { db = with_runs runs s'.db })
        | err e ↦ (err (coded e), s')
      ]

  -- `_renew_run_lease` at the present time.
  unfoldable pub renew : AgentRunClaim → M W (Unit {0})
  unfolding on_runs
  renew claim s = on_runs (renew_run_lease claim (env.now s.world)) s

  -- A task that is cancelled after its lease is lost: what it did before stands, all of it or nothing, and
  -- its result is dropped.
  unfoldable pub cancelled : {A : Type 0} → M W A → AgentFault → M W A
  cancelled task e s = if env.is_late s then (err e, (task s).1) else (err e, s)

  -- The loops of the three functions `…_with_lease_renewal`, for a task of `n` intervals: the lease is
  -- renewed after each, and a lost lease cancels the task.
  unfoldable pub renewing : {A : Type 0} → ℕ → AgentRunClaim → M W A → M W A
  unfolding cancelled
  renewing zero claim task s = task s
  renewing (suc n) claim task s =
      let rest = renewing n claim task in
      let (r, s') = renew claim s in elim r [ ok done ↦ rest s' | err e ↦ cancelled task e s' ]

  unfoldable pub with_lease_renewal : {A : Type 0} → AgentRunClaim → M W A → M W A
  with_lease_renewal claim task s = renewing (env.intervals s) claim task s
