-- ===== src/AgentRuntime/Process/Kept.antt =====
-- What the making of an answer keeps, where all that it calls keeps it.
use customers_manager_hub.Prelude.{ℕ, ◌≡◌, String, some, List, [], ◌∷◌, Option-cases, inl, inr}
use customers_manager_hub.Prelude.Result.{Result}
use customers_manager_hub.AgentModels.{AgentRun}
use customers_manager_hub.ToolModels.{ModelToolDefinition}
use customers_manager_hub.AgentRuntime.{
  AgentError, AgentDb, with_runs, runs_of, AgentRunSnapshot, AgentRunClaim,
}
use customers_manager_hub.AgentRuntime.Lease.{try_claim, claim_refused}
use customers_manager_hub.AgentRuntime.Decision.{validate_customer_response}
use customers_manager_hub.AgentRuntime.Environment.{
  State, M, lift, GenerationRequest, ToolCall, ToolService, Environment, begin, on_runs,
  with_lease_renewal,
}
use customers_manager_hub.AgentRuntime.Environment.Keeps.{
  Keeps, >>=-Keeps, lift-Keeps, on_runs-Keeps, with_lease_renewal-Keeps,
}
use customers_manager_hub.AgentRuntime.Rounds.{generate_tool_aware_response}
use customers_manager_hub.AgentRuntime.Rounds.Offered.{answer-Ended}
use customers_manager_hub.AgentRuntime.Process.{claim_run, resolve_run}
use customers_manager_hub.AgentRuntime.Answer.{
  knowledge_context, plain_answer, listed_answer, answer_input, with_context, conversation_input,
  answer_with_memory, answer_with_messages, produce_text,
}

-- What a worker's environment keeps of `P`: what other transactions do, what the worker writes to the tables and
-- draws as ids, and each call but the dispatch.
pub record IsKept {W : Type 0} (P : State W → Type 0) (env : Environment W) : Type 0 where
  pub others : (s : State W) → P s → P (env.others s)
  pub written : (db : AgentDb) (s : State W) → P s → P (record s { db = db })
  pub drawn : (s : State W) → P s → P (record s { world = (env.uuid4 s.world).1 })
  pub generates : (t : ℕ) (request : GenerationRequest) → Keeps P (env.generate t request)
  pub remembers : (t c : ℕ) → Keeps P (env.memory_context t c)
  pub retrieves :
      (retrieve : (tenant_id agent_id : ℕ) → String → ℕ → M W String) (t a : ℕ) (text : String)
      (run : ℕ)
      → env.knowledge ≡ some retrieve
      → Keeps P (retrieve t a text run)
  pub lists :
      (service : ToolService W) (t a : ℕ)
      → env.tools ≡ some service
      → Keeps P (service.list_agent_tools t a)
  pub executes :
      (service : ToolService W) (call : ToolCall)
      → env.tools ≡ some service
      → Keeps P (service.execute_agent_tool call)

module _ {W : Type 0} (P : State W → Type 0) (env : Environment W) (kept : IsKept P env) where
  runs : (next : List AgentRun) (s : State W) → P s → P (record s { db = with_runs next s.db })
  runs next s p = kept.written (with_runs next s.db) s p

  pub begin-Keeps : Keeps P (begin env)
  begin-Keeps s p = kept.others s p

  renewal-Keeps :
      {A : Type 0} (claim : AgentRunClaim) (task : M W A)
      → Keeps P task
      → Keeps P (with_lease_renewal env claim task)
  renewal-Keeps claim task h = with_lease_renewal-Keeps P env kept.others runs claim task h

  pub updates-Keeps :
      (f : List AgentRun → Result AgentError (List AgentRun)) → Keeps P (on_runs env f)
  updates-Keeps f = on_runs-Keeps P env kept.others runs f

  pub claim-Keeps : (run_id : ℕ) → Keeps P (claim_run env run_id)
  unfolding claim_run
  claim-Keeps run_id s p =
      let drawn = record s { world = (env.uuid4 s.world).1 } in
      let s' = env.others drawn in
      let q = kept.others drawn (kept.drawn s p) in
      elim (Option-cases
        (try_claim run_id (env.now s.world) (env.uuid4 s.world).0 (runs_of s'.db))) [
          | inr (next, e) ↦ rw (e, claim_run) (runs next s' q)
          | inl n ↦
              rw (n, claim_run)
                (>>=-Keeps P (begin env) (λ db. lift (claim_refused run_id (runs_of db)))
                  begin-Keeps (λ db. lift-Keeps P (claim_refused run_id (runs_of db))) s' q)
        ]

  pub resolve-Keeps : (event_id : ℕ) → Keeps P (resolve_run env event_id)
  unfolding resolve_run
  resolve-Keeps event_id s p =
      let s' = env.others s in
      kept.written _ (record s' { world = (env.uuid4 s'.world).1 })
        (kept.drawn s' (kept.others s p))

  module _ (claim : AgentRunClaim) where
    knowledge-Keeps : (snapshot : AgentRunSnapshot) → Keeps P (knowledge_context env claim snapshot)
    unfolding knowledge_context
    knowledge-Keeps snapshot = elim (Option-cases env.knowledge) [
      | inl n ↦ λ s p. rw (n, knowledge_context) p
      | inr (retrieve, e) ↦ λ s p.
          rw (e, knowledge_context)
            (renewal-Keeps claim _
              (kept.retrieves retrieve snapshot.tenant_id snapshot.agent_id snapshot.current_text
                snapshot.run_id e)
              s p)
    ]

    plain-Keeps :
        (snapshot : AgentRunSnapshot) (input : String)
        → Keeps P (plain_answer env claim snapshot input)
    unfolding plain_answer
    plain-Keeps snapshot input =
        >>=-Keeps P _ (λ r. lift (validate_customer_response env.strip r.text))
          (renewal-Keeps claim _ (kept.generates snapshot.tenant_id _))
          (λ r. lift-Keeps P (validate_customer_response env.strip r.text))

    tools-Keeps :
        (service : ToolService W) (snapshot : AgentRunSnapshot) (tools : List ModelToolDefinition)
        (input : String)
        → env.tools ≡ some service
        → Keeps P (generate_tool_aware_response env service claim snapshot tools input)
    tools-Keeps service snapshot tools input e s p =
        (answer-Ended (λ k. P) env service claim snapshot tools (λ k. kept.others)
          (λ k h s' q. kept.written (record s'.db { handoff = h }) s' q)
          (λ k i. kept.generates snapshot.tenant_id _)
          (λ k name arguments s' few fits q. kept.executes service _ e s' q) input s p).2

    listed-Keeps :
        (service : ToolService W) (snapshot : AgentRunSnapshot) (input : String)
        (tools : List ModelToolDefinition)
        → env.tools ≡ some service
        → Keeps P (listed_answer env claim service snapshot input tools)
    unfolding listed_answer
    listed-Keeps service snapshot input [] e = plain-Keeps snapshot input
    listed-Keeps service snapshot input (t ∷ ts) e = tools-Keeps service snapshot (t ∷ ts) input e

    answer-Keeps :
        (snapshot : AgentRunSnapshot) (input : String)
        → Keeps P (answer_input env claim snapshot input)
    unfolding answer_input
    answer-Keeps snapshot input = elim (Option-cases env.tools) [
      | inl n ↦ λ s p. rw (n, answer_input) (plain-Keeps snapshot input s p)
      | inr (service, e) ↦ λ s p.
          rw (e, answer_input)
            (>>=-Keeps P (service.list_agent_tools snapshot.tenant_id snapshot.agent_id)
              (listed_answer env claim service snapshot input)
              (kept.lists service snapshot.tenant_id snapshot.agent_id e)
              (λ tools. listed-Keeps service snapshot input tools e) s p)
    ]

    memory-Keeps :
        (snapshot : AgentRunSnapshot) (db : AgentDb) (memory : String)
        → Keeps P (answer_with_memory env claim snapshot db memory)
    unfolding answer_with_memory
    memory-Keeps snapshot db memory =
        >>=-Keeps P (knowledge_context env claim snapshot)
          (λ context.
            answer_input env claim snapshot
              (with_context (with_context (conversation_input env snapshot db) memory) context))
          (knowledge-Keeps snapshot)
          (λ context.
            answer-Keeps snapshot
              (with_context (with_context (conversation_input env snapshot db) memory) context))

    pub produce-Keeps : (snapshot : AgentRunSnapshot) → Keeps P (produce_text env claim snapshot)
    unfolding produce_text answer_with_messages
    produce-Keeps snapshot =
        >>=-Keeps P (begin env) (answer_with_messages env claim snapshot) begin-Keeps (λ db.
          >>=-Keeps P (env.memory_context snapshot.tenant_id snapshot.conversation_id)
            (answer_with_memory env claim snapshot db)
            (kept.remembers snapshot.tenant_id snapshot.conversation_id) (memory-Keeps snapshot db))
