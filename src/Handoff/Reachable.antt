-- ===== src/Handoff/Reachable.antt =====
-- The operations on handoffs as the steps of a machine, and what holds in every state it reaches.
use customers_manager_hub.Prelude.{
  ℕ, ◌≤◌, ◌≡◌, Bool, ◌&&◌, none, count, String, Option-cases, Bool-cases, inl, inr,
}
use customers_manager_hub.Prelude.Result.{ok}
use customers_manager_hub.HandoffModels.{ConversationHandoff}
use customers_manager_hub.Models.{Message}
use customers_manager_hub.AgentModels.{ChannelInboundEvent}
use customers_manager_hub.Handoff.{HandoffDb, is_active_in, active_handoff, event_of, message_of}
use customers_manager_hub.Handoff.WellFormed.{IsWellFormed}
use customers_manager_hub.Handoff.Kept.{claim-IsGood, release-IsGood, resolve-IsGood, guard-IsGood}
use customers_manager_hub.Handoff.Steps.{IsGood, request-IsWellFormed, pause-IsWellFormed}
use customers_manager_hub.Handoff.Request.{
  HandoffRequest, request_handoff, request_event_handoff, system_request,
}
use customers_manager_hub.Handoff.Escalation.{
  evaluate_event_escalation, escalate_message, keyword_request, customer_text, matched_keyword,
  load_effective_policy, pause_for_tool_approval, guard_ai_dispatch,
}
use customers_manager_hub.Handoff.Claim.{
  claim_handoff, release_handoff, resolve_handoff, HandoffResolution,
}

-- What one operation meets: the ids that it draws and what other transactions commit, by the number of
-- the attempt. They keep the tables well formed.
pub record Surroundings : Type 0 where
  pub uuid4 : ℕ → ℕ
  pub others : ℕ → HandoffDb → HandoffDb
  pub keeps : (n : ℕ) (db : HandoffDb) → IsGood db → IsGood (others n db)

module _ (strip casefold : String → String) where
  -- One operation in surroundings of its own, run to its end, or a transaction of others between two
  -- operations (`commits`). An operation that raises writes nothing of its
  -- own, but what other transactions committed in between stays.
  pub data HandoffStep : HandoffDb → HandoffDb → Type 0 where
    requests :
        (w : Surroundings) (r : HandoffRequest) (db : HandoffDb)
        → HandoffStep db (request_handoff w.uuid4 w.others r db).1
    requests_for_event :
        (w : Surroundings) (event_id : ℕ) (reason_code : String) (db : HandoffDb)
        → HandoffStep db (request_event_handoff w.uuid4 w.others event_id reason_code db).1
    escalates :
        (w : Surroundings) (event_id : ℕ) (db : HandoffDb)
        → HandoffStep db (evaluate_event_escalation strip casefold w.uuid4 w.others event_id db).1
    waits_for_tool :
        (w : Surroundings) (t c run execution : ℕ) (db : HandoffDb)
        → HandoffStep db
            (pause_for_tool_approval strip casefold w.uuid4 w.others t c run execution db).1
    commits : (w : Surroundings) (n : ℕ) (db : HandoffDb) → HandoffStep db (w.others n db)
    guards :
        (t c run token : ℕ) (db next : HandoffDb) (b : Bool)
        → guard_ai_dispatch t c run token db ≡ ok (b, next)
        → HandoffStep db next
    claims :
        (t c actor now : ℕ) (db next : HandoffDb) (h : ConversationHandoff)
        → claim_handoff t c actor now db ≡ ok (h, next)
        → HandoffStep db next
    releases :
        (t c actor : ℕ) (allow : Bool) (db next : HandoffDb) (h : ConversationHandoff)
        → release_handoff t c actor allow db ≡ ok (h, next)
        → HandoffStep db next
    resolves :
        (t c actor now : ℕ) (allow resume_ai cancel : Bool) (db next : HandoffDb)
        (r : HandoffResolution)
        → resolve_handoff t c actor now allow resume_ai cancel db ≡ ok (r, next)
        → HandoffStep db next

  pub data HandoffSteps : HandoffDb → HandoffDb → Type 0 where
    done : (db : HandoffDb) → HandoffSteps db db
    then_step :
        (db mid next : HandoffDb)
        → HandoffSteps db mid
        → HandoffStep mid next
        → HandoffSteps db next

  module _ (w : Surroundings) where
    event-IsGood :
        (event_id : ℕ) (reason_code : String) (db : HandoffDb)
        → IsGood db
        → IsGood (request_event_handoff w.uuid4 w.others event_id reason_code db).1
    unfolding request_event_handoff request_handoff
    event-IsGood event_id reason_code db good = elim (Option-cases (event_of db event_id)) [
      | inl n ↦ rw (n, request_event_handoff) good
      | inr (event, f) ↦ elim (Option-cases event.message_id) [
        | inl n ↦ rw (f, request_event_handoff, n) good
        | inr (m, g) ↦ elim (Option-cases (message_of db event m)) [
          | inl n ↦ rw (f, request_event_handoff, g, n) good
          | inr (message, h) ↦
              rw (f, request_event_handoff, g, h)
                (request-IsWellFormed w.uuid4 w.others w.keeps
                  (system_request event.tenant_id message.conversation_id reason_code none) 2 0 db
                  good)
        ]
      ]
    ]

    message-IsGood :
        (event : ChannelInboundEvent) (message : Message) (db : HandoffDb)
        → IsGood db
        → IsGood (escalate_message strip casefold w.uuid4 w.others event message db).1
    unfolding escalate_message request_handoff
    message-IsGood event message db good =
        elim (Option-cases (active_handoff db event.tenant_id message.conversation_id)) [
          | inr (existing, f) ↦ rw (f, escalate_message) good
          | inl n ↦ elim (Option-cases (customer_text strip casefold message)) [
            | inl m ↦ rw (n, escalate_message, m) good
            | inr (s, f) ↦
                let policy = load_effective_policy strip casefold db event.tenant_id in
                elim (Option-cases (matched_keyword strip casefold policy s)) [
                  | inl m ↦ rw (n, escalate_message, f, m) good
                  | inr (keyword, g) ↦
                      rw (n, escalate_message, f, g)
                        (request-IsWellFormed w.uuid4 w.others w.keeps
                          (keyword_request event.tenant_id message.conversation_id keyword) 2 0 db
                          good)
                ]
          ]
        ]

    escalation-IsGood :
        (event_id : ℕ) (db : HandoffDb)
        → IsGood db
        → IsGood (evaluate_event_escalation strip casefold w.uuid4 w.others event_id db).1
    unfolding evaluate_event_escalation
    escalation-IsGood event_id db good = elim (Option-cases (event_of db event_id)) [
      | inl n ↦ rw (n, evaluate_event_escalation) good
      | inr (event, f) ↦ elim (Option-cases event.message_id) [
        | inl n ↦ rw (f, evaluate_event_escalation, n) good
        | inr (m, g) ↦ elim (Option-cases (message_of db event m)) [
          | inl n ↦ rw (f, evaluate_event_escalation, g, n) good
          | inr (message, h) ↦
              rw (f, evaluate_event_escalation, g, h) (message-IsGood event message db good)
        ]
      ]
    ]

  step-IsGood : (db next : HandoffDb) → HandoffStep db next → IsGood db → IsGood next
  unfolding request_handoff pause_for_tool_approval
  step-IsGood _ _ (requests w r db) good =
      request-IsWellFormed w.uuid4 w.others w.keeps r 2 0 db good
  step-IsGood _ _ (requests_for_event w event_id reason_code db) good =
      event-IsGood w event_id reason_code db good
  step-IsGood _ _ (escalates w event_id db) good = escalation-IsGood w event_id db good
  step-IsGood _ _ (waits_for_tool w t c run execution db) good =
      let policy = load_effective_policy strip casefold db t in
      elim (Bool-cases (policy.enabled && policy.pause_on_tool_approval)) [
        | inl on ↦
            rw (on, pause_for_tool_approval)
              (pause-IsWellFormed w.uuid4 w.others w.keeps t c run execution 2 0 db good)
        | inr off ↦ rw (off, pause_for_tool_approval) good
      ]
  step-IsGood _ _ (commits w n db) good = w.keeps n db good
  step-IsGood _ _ (guards t c run token db next b e) good =
      guard-IsGood t c run token db next b e good
  step-IsGood _ _ (claims t c actor now db next h e) good =
      claim-IsGood t c actor now db next h e good
  step-IsGood _ _ (releases t c actor allow db next h e) good =
      release-IsGood t c actor allow db next h e good
  step-IsGood _ _ (resolves t c actor now allow resume_ai cancel db next r e) good =
      resolve-IsGood t c actor now allow resume_ai cancel db next r e good

  steps-IsGood : (db next : HandoffDb) → HandoffSteps db next → IsGood db → IsGood next
  steps-IsGood _ _ (done db) good = good
  steps-IsGood _ _ (then_step db mid next before step) good =
      step-IsGood mid next step (steps-IsGood db mid before good)

  -- After any sequence of operations on handoffs, each with any ids that it draws and with
  -- whatever other transactions commit in between that keeps the tables well formed, a
  -- conversation has at most one active handoff, if the tables were well formed at the start.
  pub one_active_handoff :
      (db next : HandoffDb) (c : ℕ)
      → HandoffSteps db next
      → IsWellFormed db.handoffs
      → count (is_active_in c) next.handoffs ≤ 1
  one_active_handoff db next c steps good = (steps-IsGood db next steps good).one_active c
