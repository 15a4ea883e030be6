-- ===== src/AgentRuntime/Rounds/Offered.antt =====
-- The tools that an answer can use, and how often.
use text.Mathlib.Text.{◌==◌ as str_eq}
use customers_manager_hub.Prelude.{
  ℕ, zero, suc, ◌+◌, ◌≤◌, ◌<◌, ◌≡◌, ◌⊎◌, ◌∙◌, sym, Bool, String, true, false, ltb, List, any, arith,
  Bool-cases, inl, inr,
}
use customers_manager_hub.Prelude.Result.{Result, ok, err, err≢ok, Result-cases}
use customers_manager_hub.Json.{Fields}
use customers_manager_hub.AgentModels.{AgentRun}
use customers_manager_hub.Handoff.{HandoffDb}
use customers_manager_hub.ToolModels.{
  ModelToolDefinition, ToolExecutionResult, ToolExecutionStatus, approval_required,
}
use customers_manager_hub.AgentRuntime.{AgentError, AgentRunSnapshot, AgentRunClaim, with_runs}
use customers_manager_hub.AgentRuntime.Decision.{
  Decision, final_answer, tool_request, qualified_names, structured_tool_decision,
  validate_customer_response,
}
use customers_manager_hub.AgentRuntime.Decision.Allowed.{is_allowed_decision, decision-allowed}
use customers_manager_hub.AgentRuntime.Environment.{
  State, M, ◌>>=◌, lift, ToolService, Environment, with_lease_renewal,
}
use customers_manager_hub.AgentRuntime.Environment.Keeps.{
  Keeps, >>=-Keeps, lift-Keeps, with_lease_renewal-Keeps, with_lease_renewal-Leads,
}
use customers_manager_hub.AgentRuntime.Rounds.{
  pause_if_needed, ask, tool_call, use_tool, follow, run_rounds, decision_request,
  generate_tool_aware_response, max_tool_calls,
}

is_awaiting : ToolExecutionStatus → Bool
is_awaiting approval_required = true
is_awaiting _ = false

is_awaiting-cases : (x : ToolExecutionStatus) → (x ≡ approval_required) ⊎ (is_awaiting x ≡ false)
unfolding is_awaiting
is_awaiting-cases x = ground arith

pause_idle :
    {W : Type 0} (env : Environment W) (service : ToolService W) (claim : AgentRunClaim)
    (snapshot : AgentRunSnapshot) (tools : List ModelToolDefinition) (r : ToolExecutionResult)
    (s : State W)
    → is_awaiting r.status ≡ false
    → pause_if_needed env service claim snapshot tools r s ≡ (ok tt, s)
unfolding pause_if_needed is_awaiting
pause_idle env service claim snapshot tools r s e = ground arith

lift_ok :
    {W : Type 0} (r : Result AgentError Decision) (d : Decision) (s : State W)
    → (lift r s).0 ≡ ok d
    → r ≡ ok d
lift_ok (ok a) d s e = cc
lift_ok (err x) d s e = absurd (err≢ok e)

-- `P k` says of a state that the tools have been used `k` times. The hypotheses say what the calls of an
-- answer do to it.
module _ {W : Type 0} (P : ℕ → State W → Type 0) (env : Environment W) (service : ToolService W)
    (claim : AgentRunClaim) (snapshot : AgentRunSnapshot) (tools : List ModelToolDefinition)
    (others : (k : ℕ) (s : State W) → P k s → P k (env.others s))
    (writes : (k : ℕ) (h : HandoffDb) (s : State W)
      → P k s
      → P k (record s { db = record s.db { handoff = h } }))
    (generates : (k : ℕ) (input : String)
      → Keeps (P k) (
          env.generate snapshot.tenant_id
            (decision_request env service claim snapshot tools input)))
    (offered : (k : ℕ) (name : String) (arguments : Fields) (s : State W)
      → k < max_tool_calls
      → any (str_eq name) (qualified_names tools) ≡ true
      → P k s
      → P
          (k + 1)
          (service.execute_agent_tool
            (tool_call env service claim snapshot tools (k + 1) name arguments)
            s).1) where
  runs_written :
      (k : ℕ) (next : List AgentRun) (s : State W)
      → P k s
      → P k (record s { db = with_runs next s.db })
  runs_written k next s p = writes k (record s.db.handoff { agent_runs = next }) s p

  -- The end of an answer that used the tools three times at most.
  abbrev pub Ended : State W → Type 0
  Ended s = (k : ℕ) × (k ≤ max_tool_calls) × P k s

  pause-Keeps :
      (k : ℕ) (r : ToolExecutionResult)
      → Keeps (P k) (pause_if_needed env service claim snapshot tools r)
  unfolding pause_if_needed
  pause-Keeps k r s p = elim (is_awaiting-cases r.status) [
    | inl e ↦ rw (e, pause_if_needed) (writes k _ (env.others s) (others k s p))
    | inr e ↦ rw (pause_idle env service claim snapshot tools r s e) p
  ]

  use_tool-Ended :
      (k : ℕ) (name : String) (arguments : Fields) (input : String) (next : String → M W String)
      (s : State W)
      → k < max_tool_calls
      → any (str_eq name) (qualified_names tools) ≡ true
      → ((i : String) (s' : State W) → P (k + 1) s' → Ended (next i s').1)
      → P k s
      → Ended (use_tool env service claim snapshot tools (k + 1) name arguments input next s).1
  unfolding use_tool
  use_tool-Ended k name arguments input next s few fits h p =
      let task =
        service.execute_agent_tool
          (tool_call env service claim snapshot tools (k + 1) name arguments) in
      let m = with_lease_renewal env claim task in
      let led =
        with_lease_renewal-Leads (P k) (P (k + 1)) env (others k) (runs_written k) claim task
          (λ s' p'. inl (offered k name arguments s' few fits p')) s p in
      elim (Result-cases (m s).0) [
        | inr (x, e) ↦
            rw (e, ◌>>=◌)
              (elim led [ inl q ↦ (k + 1, omega arith, q) | inr (q, y, f) ↦ (k, omega arith, q) ])
        | inl (r, e) ↦ elim led [
          | inr (q, y, f) ↦ absurd (err≢ok (sym f ∙ e))
          | inl q ↦
              let kept = pause-Keeps (k + 1) r (m s).1 q in
              let paused = pause_if_needed env service claim snapshot tools r (m s).1 in
              elim (Result-cases paused.0) [
                | inl (t, f) ↦ rw (e, ◌>>=◌, f) (h _ paused.1 kept)
                | inr (x, f) ↦ rw (e, ◌>>=◌, f) (k + 1, omega arith, kept)
              ]
        ]
      ]

  follow-Ended :
      (k : ℕ) (input : String) (next : String → M W String) (d : Decision) (s : State W)
      → k ≤ max_tool_calls
      → is_allowed_decision (qualified_names tools) d ≡ true
      → ((i : String) (s' : State W) → k < max_tool_calls → P (k + 1) s' → Ended (next i s').1)
      → P k s
      → Ended (follow env service claim snapshot tools k input next d s).1
  unfolding follow
  follow-Ended k input next (final_answer text) s few fits h p =
      (k, few, lift-Keeps (P k) (validate_customer_response env.strip text) s p)
  follow-Ended k input next (tool_request name arguments) s few fits h p =
      elim (Bool-cases (ltb k max_tool_calls)) [
        | inl more ↦
            let left : k < max_tool_calls = ground arith in
            rw (more, follow)
              (use_tool-Ended k name arguments input next s left fits (λ i s'. h i s' left) p)
        | inr full ↦ rw (full, follow) (k, few, p)
      ]

  ask-Keeps : (k : ℕ) (input : String) → Keeps (P k) (ask env service claim snapshot tools input)
  unfolding ask
  ask-Keeps k input =
      >>=-Keeps (P k)
        (with_lease_renewal env claim (
          env.generate snapshot.tenant_id
            (decision_request env service claim snapshot tools input)))
        (λ r. lift (structured_tool_decision (qualified_names tools) r.structured))
        (with_lease_renewal-Keeps (P k) env (others k) (runs_written k) claim _ (generates k input))
        (λ r. lift-Keeps (P k) (structured_tool_decision (qualified_names tools) r.structured))

  ask_allowed :
      (input : String) (s : State W) (d : Decision)
      → (ask env service claim snapshot tools input s).0 ≡ ok d
      → is_allowed_decision (qualified_names tools) d ≡ true
  unfolding ask
  ask_allowed input s d e =
      let m = with_lease_renewal env claim (
        env.generate snapshot.tenant_id
          (decision_request env service claim snapshot tools input)) in
      elim (Result-cases (m s).0) [
        | inr (x, f) ↦ absurd (err≢ok (rw (f, ◌>>=◌) at e))
        | inl (r, f) ↦ decision-allowed (qualified_names tools) r.structured d (
            lift_ok (structured_tool_decision (qualified_names tools) r.structured) d (m s).1
              (rw (f, ◌>>=◌) at e))
      ]

  rounds-Ended :
      (left k : ℕ) (input : String) (s : State W)
      → k ≤ max_tool_calls
      → P k s
      → Ended (run_rounds env service claim snapshot tools left k input s).1
  unfolding run_rounds
  rounds-Ended zero k input s few p = (k, few, p)
  rounds-Ended (suc left) k input s few p =
      let next = λ (i : String). run_rounds env service claim snapshot tools left (k + 1) i in
      let asked = ask env service claim snapshot tools input s in
      let kept = ask-Keeps k input s p in
      elim (Result-cases asked.0) [
        | inr (x, e) ↦ rw (e, ◌>>=◌) (k, few, kept)
        | inl (d, e) ↦
            rw (e, ◌>>=◌)
              (follow-Ended k input next d asked.1 few (ask_allowed input s d e)
                (λ i s' more q. rounds-Ended left (k + 1) i s' (omega arith) q) kept)
      ]

  -- An answer with tools ends after at most three calls of tools, each of a tool that was
  -- offered, numbered 1, 2 and 3 in this order: `P k` of a state, where the k-th call leads from
  -- `P (k - 1)` to `P k` and the other calls keep it, holds at the end for a k of at most 3.
  pub answer-Ended :
      (input : String) (s : State W)
      → P 0 s
      → Ended (generate_tool_aware_response env service claim snapshot tools input s).1
  unfolding generate_tool_aware_response
  answer-Ended input s p = rounds-Ended 4 0 input s (omega arith) p
