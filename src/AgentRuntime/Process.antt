-- ===== src/AgentRuntime/Process.antt =====
-- A worker's whole answer to an event: `process_agent_event`.
mod Tests
pub mod Kept
pub mod Unpaused
pub mod Released
use Prim.Native.String.{◌++◌ as ◌<>◌}
use text.Mathlib.Text.{◌==◌ as str_eq}
use customers_manager_hub.Prelude.{
  ℕ, String, Bool, true, false, ◌||◌, not, Option, none, some, List, [], ◌∷◌, if◌then◌else◌,
}
use customers_manager_hub.Prelude.Result.{Result, ok, err}
use customers_manager_hub.Models.{ai}
use customers_manager_hub.AgentModels.{AgentRunStatus, pending, generated}
use customers_manager_hub.Handoff.{HandoffError, agent_run_lease_lost, is_event_ai_paused}
use customers_manager_hub.Handoff.Escalation.{guard_ai_dispatch}
use customers_manager_hub.ToolModels.{ModelToolDefinition}
use customers_manager_hub.AgentRuntime.{
  AgentError, permanent, transient, AgentFault, coded, runtime_fault, provider_fault, channel_fault,
  other_fault, AgentDb, with_runs, runs_of, AgentRunSnapshot, AgentRunClaim,
}
use customers_manager_hub.AgentRuntime.Lease.{
  try_claim, claim_refused, persist_generated_text, complete_run, release_run_error,
}
use customers_manager_hub.AgentRuntime.Resolve.{resolve_or_create_run, load_run_snapshot}
use customers_manager_hub.AgentRuntime.Context.{
  build_conversation_input, context_history_char_budget, compose_instructions,
}
use customers_manager_hub.AgentRuntime.Decision.{validate_customer_response}
use customers_manager_hub.AgentRuntime.Environment.{
  State, M, ◌>>=◌, ◌>>◌, pure, raise, lift, GenerationRequest, OutboundText, ToolService,
  Environment, begin, on_runs, with_lease_renewal,
}
use customers_manager_hub.AgentRuntime.Rounds.{handoff_code, generate_tool_aware_response}
use customers_manager_hub.AgentRuntime.Answer.{produce_text}

-- The codes after which a run's lease is left alone.
abbrev pub is_exempt : String → Bool
is_exempt code =
    str_eq code "agent_run_busy"
    || str_eq code "agent_run_lease_lost"
    || str_eq code "agent_handoff_paused"

-- What a `HandoffRuntimeError` of the guard becomes.
abbrev pub guard_fault : HandoffError → AgentFault
guard_fault e = elim (handoff_code e) [
  | none ↦ other_fault
  | some code ↦ coded (record { code = code; retryable = str_eq code "agent_run_lease_lost" })
]

module _ {W : Type 0} (env : Environment W) where
  open env use {
    strip, str, created_at, platform_policy, others, now, uuid4, generate, memory_context,
    knowledge,
  }

  -- `_claim_run`
  unfoldable pub claim_run : ℕ → M W (Option AgentRunClaim)
  claim_run run_id s =
      let at = now s.world in
      let (token, w) = uuid4 s.world in
      let s' = others (record s { world = w }) in
      elim (try_claim run_id at token (runs_of s'.db)) [
        | some runs ↦ (
          ok (some (record { run_id = run_id; lease_token = token })),
          record s' { db = with_runs runs s'.db },
        )
        | none ↦ (begin env >>= λ db. lift (claim_refused run_id (runs_of db))) s'
      ]

  module _ (claim : AgentRunClaim) where
    abbrev pub outbound : AgentRunSnapshot → String → OutboundText
    outbound snapshot text = record {
      tenant_id = snapshot.tenant_id;
      channel_account_id = snapshot.channel_account_id;
      conversation_id = snapshot.conversation_id;
      text = text;
      idempotency_key = "agent:" <> str snapshot.run_id;
      author_type = ai;
    }

    -- The dispatch, in the transaction of its guard, and the end of the run.
    unfoldable pub send_text : AgentRunSnapshot → String → M W (Unit {0})
    send_text snapshot text s =
        let s' = others s in
        elim (guard_ai_dispatch snapshot.tenant_id snapshot.conversation_id snapshot.run_id
          claim.lease_token s'.db.handoff) [
            | err e ↦ (err (guard_fault e), s')
            | ok (may, h) ↦ elim may [
              | false ↦ (ok tt, record s' { db = record s'.db { handoff = h } })
              | true ↦
                  (env.dispatch_text (outbound snapshot text) >>= λ message_id.
                  on_runs env (complete_run claim message_id))
                    s'
            ]
          ]

    unfoldable pub persist_and_send : AgentRunSnapshot → String → M W (Unit {0})
    unfolding send_text
    persist_and_send snapshot text =
        on_runs env (persist_generated_text claim text) >> send_text snapshot text

    unfoldable pub send_generated : AgentRunSnapshot → Option String → M W (Unit {0})
    unfolding send_text
    send_generated snapshot none = raise (coded (permanent "agent_generated_text_missing"))
    send_generated snapshot (some text) =
        lift (validate_customer_response strip text) >>= send_text snapshot

    -- What is done with a run in its state.
    unfoldable pub answer_in : AgentRunStatus → AgentRunSnapshot → M W (Unit {0})
    unfolding produce_text persist_and_send send_generated
    answer_in pending snapshot = produce_text env claim snapshot >>= persist_and_send snapshot
    answer_in generated snapshot = send_generated snapshot snapshot.generated_text
    answer_in _ snapshot = pure tt

    unfoldable pub answer_run : AgentRunSnapshot → M W (Unit {0})
    unfolding answer_in
    answer_run snapshot = answer_in snapshot.status snapshot

    -- The body of the `try` statement.
    unfoldable pub answer_loaded : AgentDb → M W (Unit {0})
    unfolding answer_run
    answer_loaded db = lift (load_run_snapshot strip db claim) >>= answer_run

    unfoldable pub attempt_answer : M W (Unit {0})
    unfolding answer_loaded
    attempt_answer = begin env >>= answer_loaded

    -- `_release_run_error`
    unfoldable pub release : String → Bool → M W (Unit {0})
    release code terminal = on_runs env (λ runs. ok (release_run_error claim code terminal runs))

    -- The lease is released with a code, and an error is raised.
    unfoldable pub give_up : String → (terminal : Bool) → AgentError → M W (Unit {0})
    unfolding release
    give_up code terminal e = release code terminal >> raise (coded e)

    -- The handler of an `AgentRuntimeError`.
    unfoldable pub recover_coded : AgentError → M W (Unit {0})
    unfolding give_up
    recover_coded e =
        if is_exempt e.code then raise (coded e) else give_up e.code (not e.retryable) e

    -- The handlers. That of a gateway's, tool's or knowledge's error raises an `AgentRuntimeError`, which
    -- the outer handler sees again.
    unfoldable pub recover : AgentFault → M W (Unit {0})
    unfolding release give_up recover_coded
    recover (coded e) = recover_coded e
    recover (runtime_fault e) = release e.code (not e.retryable) >> recover_coded e
    recover (provider_fault e) = give_up e.code (not e.retryable) e
    recover (channel_fault code) = give_up code true (permanent code)
    recover other_fault = give_up "agent_internal_error" false (transient "agent_internal_error")

    -- The `try` statement.
    unfoldable pub answer_claimed : M W (Unit {0})
    unfolding attempt_answer recover
    answer_claimed s =
        let (r, s') = attempt_answer s in elim r [ ok done ↦ (ok tt, s') | err e ↦ recover e s' ]

  -- The run of an event; the id of a new row is drawn beforehand.
  unfoldable pub resolve_run : ℕ → M W (Option ℕ)
  resolve_run event_id s =
      let s' = others s in
      let (id, w) = uuid4 s'.world in
      let before = λ (db : AgentDb). (others (record { db = db; world = w })).db in
      let (r, db) = resolve_or_create_run strip id before event_id s'.db in
      (r, record { db = db; world = w })

  unfoldable pub answer_if_claimed : Option AgentRunClaim → M W (Unit {0})
  unfolding answer_claimed
  answer_if_claimed none = pure tt
  answer_if_claimed (some claim) = answer_claimed claim

  unfoldable pub answer_if_found : Option ℕ → M W (Unit {0})
  unfolding claim_run answer_if_claimed
  answer_if_found none = pure tt
  answer_if_found (some run_id) = claim_run run_id >>= answer_if_claimed

  -- `process_agent_event`
  unfoldable pub process_agent_event : ℕ → M W (Unit {0})
  unfolding answer_if_found resolve_run
  process_agent_event event_id = begin env >>= λ db.
      if is_event_ai_paused db.handoff event_id
      then pure tt
      else (resolve_run event_id >>= answer_if_found)
