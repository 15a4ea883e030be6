-- ===== src/AgentRuntime/Process/Unpaused.antt =====
-- An answer is dispatched only while no handoff of its conversation is active.
use customers_manager_hub.Prelude.{
  ℕ, ◌≡◌, ◌≢◌, refl, String, Bool, true, false, not, Option, none, some, if◌then◌else◌, Bool-cases,
  inl, inr,
}
use customers_manager_hub.Prelude.Result.{ok, Result-cases}
use customers_manager_hub.AgentModels.{
  AgentRunStatus, pending, generated, paused, succeeded, failed,
}
use customers_manager_hub.Handoff.{is_conversation_ai_paused, is_event_ai_paused}
use customers_manager_hub.Handoff.Escalation.{guard_ai_dispatch}
use customers_manager_hub.Handoff.Outcomes.{guard_cases}
use customers_manager_hub.AgentRuntime.{
  AgentError, AgentFault, coded, runtime_fault, provider_fault, channel_fault, other_fault,
  AgentRunSnapshot, AgentRunClaim, permanent, transient,
}
use customers_manager_hub.AgentRuntime.Lease.{
  persist_generated_text, complete_run, release_run_error,
}
use customers_manager_hub.AgentRuntime.Resolve.{load_run_snapshot}
use customers_manager_hub.AgentRuntime.Decision.{validate_customer_response}
use customers_manager_hub.AgentRuntime.Environment.{
  State, ◌>>=◌, pure, raise, lift, OutboundText, Environment, begin, on_runs,
}
use customers_manager_hub.AgentRuntime.Environment.Keeps.{Keeps, >>=-Keeps, lift-Keeps}
use customers_manager_hub.AgentRuntime.Process.{
  is_exempt, claim_run, outbound, send_text, persist_and_send, send_generated, answer_in,
  answer_loaded, answer_run, attempt_answer, release, give_up, recover_coded, recover,
  answer_claimed, answer_if_claimed, answer_if_found, resolve_run, process_agent_event,
}
use customers_manager_hub.AgentRuntime.Answer.{produce_text}
use customers_manager_hub.AgentRuntime.Process.Kept.{
  IsKept, begin-Keeps, updates-Keeps, claim-Keeps, resolve-Keeps, produce-Keeps,
}

true≢false : true ≢ false
true≢false h = cc

module _ {W : Type 0} (P : State W → Type 0) (env : Environment W) (kept : IsKept P env)
    (dispatches : (o : OutboundText) (s : State W)
      → is_conversation_ai_paused s.db.handoff o.tenant_id o.conversation_id ≡ false
      → P s
      → P (env.dispatch_text o s).1) where
  module _ (claim : AgentRunClaim) where
    send-Keeps :
        (snapshot : AgentRunSnapshot) (text : String) → Keeps P (send_text env claim snapshot text)
    unfolding send_text
    send-Keeps snapshot text s p =
        let s' = env.others s in
        let q = kept.others s p in
        let t = snapshot.tenant_id in
        let c = snapshot.conversation_id in
        elim (Result-cases
          (guard_ai_dispatch t c snapshot.run_id claim.lease_token s'.db.handoff)) [
            | inr (x, e) ↦ rw (e, send_text) q
            | inl ((false, h), e) ↦
                rw (e, send_text) (kept.written (record s'.db { handoff = h }) s' q)
            | inl ((true, h), e) ↦
                elim (guard_cases t c snapshot.run_id claim.lease_token s'.db.handoff h true e) [
                  | inr other ↦ absurd (true≢false other.0)
                  | inl (is_true, same, n) ↦
                      let free : is_conversation_ai_paused s'.db.handoff t c ≡ false = rw n refl in
                      let o = outbound env claim snapshot text in
                      let sent = dispatches o s' free q in
                      elim (Result-cases (env.dispatch_text o s').0) [
                        | inr (x, f) ↦ rw (e, send_text, ◌>>=◌, f) sent
                        | inl (id, f) ↦
                            rw (e, send_text, ◌>>=◌, f)
                              ((updates-Keeps P env kept) (complete_run claim id)
                                (env.dispatch_text o s').1 sent)
                      ]
                ]
          ]

    persist-Keeps :
        (snapshot : AgentRunSnapshot) (text : String)
        → Keeps P (persist_and_send env claim snapshot text)
    unfolding persist_and_send
    persist-Keeps snapshot text =
        >>=-Keeps P (on_runs env (persist_generated_text claim text))
          (λ _. send_text env claim snapshot text)
          (updates-Keeps P env kept (persist_generated_text claim text))
          (λ _. send-Keeps snapshot text)

    generated-Keeps :
        (snapshot : AgentRunSnapshot) (o : Option String)
        → Keeps P (send_generated env claim snapshot o)
    unfolding send_generated
    generated-Keeps snapshot none s p = p
    generated-Keeps snapshot (some text) s p =
        >>=-Keeps P (lift (validate_customer_response env.strip text))
          (send_text env claim snapshot) (lift-Keeps P (validate_customer_response env.strip text))
          (send-Keeps snapshot) s p

    in-Keeps :
        (status : AgentRunStatus) (snapshot : AgentRunSnapshot)
        → Keeps P (answer_in env claim status snapshot)
    unfolding answer_in
    in-Keeps pending snapshot s p =
        >>=-Keeps P (produce_text env claim snapshot) (persist_and_send env claim snapshot)
          (produce-Keeps P env kept claim snapshot) (persist-Keeps snapshot) s p
    in-Keeps generated snapshot s p = generated-Keeps snapshot snapshot.generated_text s p
    in-Keeps paused snapshot s p = p
    in-Keeps succeeded snapshot s p = p
    in-Keeps failed snapshot s p = p

    attempt-Keeps : Keeps P (attempt_answer env claim)
    unfolding attempt_answer answer_loaded answer_run
    attempt-Keeps =
        >>=-Keeps P (begin env) (answer_loaded env claim) (begin-Keeps P env kept) (λ db.
          >>=-Keeps P (lift (load_run_snapshot env.strip db claim)) (answer_run env claim)
            (lift-Keeps P (load_run_snapshot env.strip db claim))
            (λ snapshot. in-Keeps snapshot.status snapshot))

    release-Keeps : (code : String) (terminal : Bool) → Keeps P (release env claim code terminal)
    unfolding release
    release-Keeps code terminal =
        (updates-Keeps P env kept) (λ r. ok (release_run_error claim code terminal r))

    give_up-Keeps :
        (code : String) (terminal : Bool) (e : AgentError)
        → Keeps P (give_up env claim code terminal e)
    unfolding give_up
    give_up-Keeps code terminal e =
        >>=-Keeps P (release env claim code terminal) (λ _. raise (coded e))
          (release-Keeps code terminal) (λ _ s p. p)

    coded-Keeps : (e : AgentError) → Keeps P (recover_coded env claim e)
    unfolding recover_coded
    coded-Keeps e s p = elim (Bool-cases (is_exempt e.code)) [
      | inl exempt ↦ rw (exempt, recover_coded) p
      | inr handled ↦ rw (handled, recover_coded) (give_up-Keeps e.code (not e.retryable) e s p)
    ]

    recover-Keeps : (f : AgentFault) → Keeps P (recover env claim f)
    unfolding recover
    recover-Keeps (coded e) = coded-Keeps e
    recover-Keeps (runtime_fault e) =
        >>=-Keeps P (release env claim e.code (not e.retryable)) (λ _. recover_coded env claim e)
          (release-Keeps e.code (not e.retryable)) (λ _. coded-Keeps e)
    recover-Keeps (provider_fault e) = give_up-Keeps e.code (not e.retryable) e
    recover-Keeps (channel_fault code) = give_up-Keeps code true (permanent code)
    recover-Keeps other_fault =
        give_up-Keeps "agent_internal_error" false (transient "agent_internal_error")

    claimed-Keeps : Keeps P (answer_claimed env claim)
    unfolding answer_claimed
    claimed-Keeps s p = elim (Result-cases (attempt_answer env claim s).0) [
      | inl (t, e) ↦ rw (e, answer_claimed) (attempt-Keeps s p)
      | inr (x, e) ↦
          rw (e, answer_claimed)
            (recover-Keeps x (attempt_answer env claim s).1 (attempt-Keeps s p))
    ]

  for_claim-Keeps : (claimed : Option AgentRunClaim) → Keeps P (answer_if_claimed env claimed)
  unfolding answer_if_claimed
  for_claim-Keeps none s p = p
  for_claim-Keeps (some claim) s p = claimed-Keeps claim s p

  for_run-Keeps : (found : Option ℕ) → Keeps P (answer_if_found env found)
  unfolding answer_if_found
  for_run-Keeps none s p = p
  for_run-Keeps (some run_id) s p =
      >>=-Keeps P (claim_run env run_id) (answer_if_claimed env) (claim-Keeps P env kept run_id)
        for_claim-Keeps s p

  -- An agent never sends into a conversation that is in human hands: what every other call and
  -- transaction keeps, `process_agent_event` keeps, if a dispatch keeps it while no handoff of
  -- the conversation is active.
  pub process-Keeps : (event_id : ℕ) (s : State W) → P s → P (process_agent_event env event_id s).1
  unfolding process_agent_event
  process-Keeps event_id =
      >>=-Keeps P (begin env)
        (λ db.
          if is_event_ai_paused db.handoff event_id
          then pure tt
          else (resolve_run env event_id >>= answer_if_found env))
        (begin-Keeps P env kept)
        (λ db s p. elim (Bool-cases (is_event_ai_paused db.handoff event_id)) [
          | inl waits ↦ rw waits p
          | inr free ↦ rw free (
              >>=-Keeps P (resolve_run env event_id) (answer_if_found env)
                (resolve-Keeps P env kept event_id) for_run-Keeps s p)
        ])
