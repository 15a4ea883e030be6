-- ===== src/Handoff/Pausing.antt =====
-- What a request for a human brings about: the agent is paused, a second request joins the first one,
-- and the loop of attempts never runs out.
use customers_manager_hub.Prelude.{
  ℕ, zero, suc, ◌+◌, ◌≡◌, ◌≢◌, ◌⊎◌, refl, ap, ◌∙◌, Bool, true, false, ◌==◌, Option, none, some, [],
  ◌∷◌, find, find-holds, length, arith, Option-cases, Bool-cases, inl, inr, ==_iff,
}
use customers_manager_hub.Prelude.Result.{ok, err, ok_unique, err≢ok}
use customers_manager_hub.Prelude.Table.{HasKeys, has_key}
use customers_manager_hub.Prelude.Table.Laws.{
  count_zero_of_any, find-update_found, none_found, find_key, find-append_none, length-update_row,
}
use customers_manager_hub.AgentModels.{AgentRun, paused}
use customers_manager_hub.Models.{AuditEvent, Conversation}
use customers_manager_hub.HandoffModels.{ConversationHandoff}
use customers_manager_hub.Handoff.{
  HandoffDb, request_race, is_active, is_active_in, is_active_of, active_handoff, conversation_of,
  insert_handoff, is_conversation_ai_paused, stopped_run,
}
use customers_manager_hub.Handoff.WellFormed.{IsWellFormed, handoff_id, insert_lem}
use customers_manager_hub.Handoff.Outcomes.{guard_cases}
use customers_manager_hub.Handoff.Steps.{IsGood}
use customers_manager_hub.Handoff.Request.{
  HandoffRequest, new_handoff, requested_event, link, links, commit_request, request_attempts,
  request_handoff,
}
use customers_manager_hub.Handoff.Escalation.{guard_ai_dispatch, dispatches}

-- Where a new handoff could be written, it is the active one.
commit-active :
    (h : ConversationHandoff) (event : AuditEvent) (db next : HandoffDb)
    → is_active h ≡ true
    → commit_request h event db ≡ some next
    → active_handoff next h.tenant_id h.conversation_id ≡ some h
unfolding commit_request find
commit-active h event db next still e = elim (Option-cases (insert_handoff h db.handoffs)) [
  | inl n ↦ absurd (ground arith)
  | inr (handoffs, f) ↦
      let (same, new_id, free) = insert_lem h db.handoffs handoffs f in
      let rows : handoffs ≡ next.handoffs = ground arith in
      let unseen =
        none_found (is_active_of h.tenant_id h.conversation_id) (is_active_in h.conversation_id)
          db.handoffs (λ y k. ground arith)
          (count_zero_of_any (is_active_in h.conversation_id) db.handoffs free) in
      let p = is_active_of h.tenant_id h.conversation_id in
      let itself : p h ≡ true = ground arith in
      rw (← rows, ← same) (find-append_none p db.handoffs (h ∷ []) unseen ∙ rw itself refl)
]

module _ (uuid4 : ℕ → ℕ) (others : ℕ → HandoffDb → HandoffDb)
    (keeps : (n : ℕ) (db : HandoffDb) → IsGood db → IsGood (others n db)) where
  attempts-active :
      (r : HandoffRequest) (left attempt : ℕ) (db : HandoffDb) (h : ConversationHandoff)
      → IsGood db
      → (request_attempts uuid4 others r left attempt db).0 ≡ ok h
      → active_handoff
          (request_attempts uuid4 others r left attempt db).1
          r.tenant_id
          r.conversation_id
        ≡ some h
  unfolding request_attempts
  attempts-active r zero attempt db h good e = absurd (err≢ok e)
  attempts-active r (suc left) attempt db h good e =
      let t = r.tenant_id in
      let c = r.conversation_id in
      let run = r.source_agent_run_id in
      let execution = r.source_tool_execution_id in
      let new = new_handoff (uuid4 attempt) r in
      let committed = others attempt db in
      elim (Option-cases (conversation_of db t c)) [
        | inl n ↦ absurd (err≢ok (rw (n, request_attempts) at e))
        | inr (z, f) ↦ elim (Option-cases (active_handoff db t c)) [
          | inr (x, g) ↦
              let still = find-holds (is_active_of t c) db.handoffs x g in
              elim (Bool-cases (links run execution x)) [
                | inl l ↦
                    let same = ok_unique refl (rw (f, request_attempts, g, l) at e) in
                    rw (f, request_attempts, g, l)
                      (find-update_found handoff_id (is_active_of t c) (link run execution)
                          db.handoffs x good.keys g still
                        ∙ ap some same)
                | inr l ↦
                    let same = ok_unique refl (rw (f, request_attempts, g, l) at e) in
                    rw (f, request_attempts, g, l) (g ∙ ap some same)
              ]
          | inl m ↦ elim (Option-cases (commit_request new (requested_event r new) committed)) [
            | inr (next, k) ↦
                let same = ok_unique refl (rw (f, request_attempts, m, k) at e) in
                rw (f, request_attempts, m, k)
                  (commit-active new (requested_event r new) committed next refl k ∙ ap some same)
            | inl k ↦ elim (Bool-cases (attempt == 0)) [
              | inl first ↦
                  rw (f, request_attempts, m, k, first)
                    (attempts-active r left (attempt + 1) committed h (keeps attempt db good)
                      (rw (f, request_attempts, m, k, first) at e))
              | inr second ↦ absurd (err≢ok (rw (f, request_attempts, m, k, second) at e))
            ]
          ]
        ]
      ]

  -- Where the tables are well formed and stay so in other transactions, a request that succeeds
  -- returns the active handoff of its conversation.
  pub request_pauses :
      (r : HandoffRequest) (db : HandoffDb) (h : ConversationHandoff)
      → IsWellFormed db.handoffs
      → (request_handoff uuid4 others r db).0 ≡ ok h
      → active_handoff (request_handoff uuid4 others r db).1 r.tenant_id r.conversation_id ≡ some h
  unfolding request_handoff
  request_pauses r db h good e = attempts-active r 2 0 db h good e

link_idle :
    (run execution : Option ℕ) (h : ConversationHandoff)
    → links run execution h ≡ false
    → h ≡ link run execution h
link_idle run execution h e = ground arith

-- A request for a conversation that has an active handoff joins it: it returns it, with the
-- sources that it lacked, and adds no handoff and no audit event.
pub request_joins :
    (uuid4 : ℕ → ℕ) (others : ℕ → HandoffDb → HandoffDb) (r : HandoffRequest) (db : HandoffDb)
    (z : Conversation) (h : ConversationHandoff)
    → conversation_of db r.tenant_id r.conversation_id ≡ some z
    → active_handoff db r.tenant_id r.conversation_id ≡ some h
    → let (result, next) = request_handoff uuid4 others r db in
      (result ≡ ok (link r.source_agent_run_id r.source_tool_execution_id h))
      × (length next.handoffs ≡ length db.handoffs)
      × (next.audit_events ≡ db.audit_events)
unfolding request_handoff request_attempts
request_joins uuid4 others r db z h f g =
    let run = r.source_agent_run_id in
    let execution = r.source_tool_execution_id in
    elim (Bool-cases (links run execution h)) [
      | inl l ↦
          rw (f, request_attempts, g, l)
            (refl, length-update_row handoff_id h.id (link run execution) db.handoffs, refl)
      | inr l ↦ rw (f, request_attempts, g, l) (ap ok (link_idle run execution h l), refl, refl)
    ]

second_no_race :
    (uuid4 : ℕ → ℕ) (others : ℕ → HandoffDb → HandoffDb) (r : HandoffRequest) (left n : ℕ)
    (db : HandoffDb)
    → (request_attempts uuid4 others r (suc left) (suc n) db).0 ≢ err request_race
unfolding request_attempts
second_no_race uuid4 others r left n db = ground arith

-- The loop of attempts always ends in a handoff or in another error: `handoff_request_race` is
-- never raised.
pub request_no_race :
    (uuid4 : ℕ → ℕ) (others : ℕ → HandoffDb → HandoffDb) (r : HandoffRequest) (db : HandoffDb)
    → (request_handoff uuid4 others r db).0 ≢ err request_race
unfolding request_handoff request_attempts
request_no_race uuid4 others r db = ground (arith, second_no_race uuid4 others r 0 0 (others 0 db))

-- Where an agent is kept from answering, a handoff of the conversation is active and the agent's
-- run is paused, without a text and without a lease; where it may answer, no handoff is active
-- and nothing is written.
pub guard_pauses :
    (t c run token : ℕ) (db next : HandoffDb) (b : Bool)
    → HasKeys (λ r. r.id) db.agent_runs
    → guard_ai_dispatch t c run token db ≡ ok (b, next)
    → ((b ≡ true) × (is_conversation_ai_paused db t c ≡ false) × (next ≡ db))
      ⊎ ((b ≡ false)
          × (is_conversation_ai_paused db t c ≡ true)
          × (y : AgentRun) × (find (has_key (λ r. r.id) run) next.agent_runs ≡ some y)
          × (y.status ≡ paused)
          × (y.generated_text ≡ none)
          × (y.lease_token ≡ none))
guard_pauses t c run token db next b keys e = elim (guard_cases t c run token db next b e) [
  | inl (is_b, same, n) ↦ inl (is_b, rw n refl, same)
  | inr (is_b, x, r, k, runs, w) ↦
      let asked = find-holds (dispatches t c run token) db.agent_runs r k in
      let loaded = find_key (λ y. y.id) (dispatches t c run token) db.agent_runs r keys k in
      let named : r.id ≡ run = ground arith in
      let stopped =
        find-update_found (λ y. y.id) (has_key (λ y. y.id) run) (stopped_run paused none)
          db.agent_runs r keys (rw (← named) loaded) ((==_iff r.id run).1 named) in
      inr (is_b, rw w.found refl, stopped_run paused none r, rw runs stopped, refl, refl, refl)
]
