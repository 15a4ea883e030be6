-- ===== src/Handoff/Escalation.antt =====
-- A handoff that the program asks for by itself: `load_effective_policy`,
-- `evaluate_event_escalation`, `pause_for_tool_approval` and `guard_ai_dispatch`.
use Prim.Native.String.{◌++◌ as ◌<>◌}
use text.Mathlib.Text.{◌==◌ as str_eq}
use customers_manager_hub.Prelude.{
  ℕ, zero, suc, ◌+◌, String, Bool, true, false, ◌&&◌, ◌==◌, not, Option, none, some, List, find,
  filter, map, equals_some, [], ◌∷◌, if◌then◌else◌,
}
use customers_manager_hub.Prelude.Result.{Result, ok, err}
use customers_manager_hub.Prelude.Text.{contains}
use customers_manager_hub.Models.{Detail, ident, AuditEvent, Message, inbound, customer}
use customers_manager_hub.AgentModels.{AgentRun, ChannelInboundEvent, pending, generated, paused}
use customers_manager_hub.HandoffModels.{queued, from_tool, ConversationHandoff}
use customers_manager_hub.Handoff.{
  HandoffDb, HandoffError, conversation_missing, agent_run_missing, agent_run_lease_lost,
  tool_pause_race, integrity_error, active_handoff, conversation_of, run_of, event_of, message_of,
  stopped_run, handoff_event,
}
use customers_manager_hub.Handoff.Request.{
  HandoffRequest, commit_request, link, update_handoff, update_run, request_handoff, system_request,
  id_of,
}

pub record EffectiveHandoffPolicy : Type 0 where
  pub enabled : Bool
  pub customer_keywords : List String
  pub pause_on_tool_approval : Bool

-- `default_handoff_policy`
abbrev pub default_handoff_policy : EffectiveHandoffPolicy
default_handoff_policy = record {
  enabled = true;
  customer_keywords = [];
  pause_on_tool_approval = true;
}

abbrev pub some_id : Result HandoffError ℕ → Result HandoffError (Option ℕ)
some_id (ok id) = ok (some id)
some_id (err e) = err e

-- The handoff that waits for the approval of a tool.
abbrev pub tool_handoff : ℕ → ℕ → ℕ → ℕ → ℕ → ConversationHandoff
tool_handoff id tenant_id conversation_id agent_run_id tool_execution_id = record {
  id = id;
  tenant_id = tenant_id;
  conversation_id = conversation_id;
  status = queued;
  request_source = from_tool;
  reason_code = "tool_approval_required";
  reason_text = none;
  requested_by_user_id = none;
  claimed_by_user_id = none;
  source_agent_run_id = some agent_run_id;
  source_tool_execution_id = some tool_execution_id;
  claimed_at = none;
  closed_at = none;
}

pub tool_event : ℕ → ℕ → ℕ → ℕ → AuditEvent
tool_event id tenant_id conversation_id tool_execution_id =
    handoff_event tenant_id none "handoff.requested" id (
      ("conversation_id", ident conversation_id)
      ∷ ("request_source", Detail.text "tool")
      ∷ ("reason_code", Detail.text "tool_approval_required")
      ∷ ("tool_execution_id", ident tool_execution_id)
      ∷ [])

abbrev pub pause_run : ℕ → HandoffDb → HandoffDb
pause_run id db = update_run id (stopped_run paused (some "handoff_tool_approval_required")) db

module _ (uuid4 : ℕ → ℕ) (others : ℕ → HandoffDb → HandoffDb) where
  -- The attempts of `pause_for_tool_approval`, with `left` to come.
  unfoldable pub pause_attempts :
      (tenant_id conversation_id agent_run_id tool_execution_id left attempt : ℕ)
      → HandoffDb
      → Result HandoffError ℕ × HandoffDb
  unfolding tool_event
  pause_attempts t c run execution zero attempt db = (err tool_pause_race, db)
  pause_attempts t c run execution (suc left) attempt db =
      let committed = others attempt db in
      let next = pause_attempts t c run execution left (attempt + 1) committed in
      let h = tool_handoff (uuid4 attempt) t c run execution in
      elim (conversation_of db t c) [
        | none ↦ (err conversation_missing, db)
        | some _ ↦ elim (run_of db t c run) [
          | none ↦ (err agent_run_missing, db)
          | some r ↦ elim (active_handoff db t c) [
            | some existing ↦ (
              ok existing.id,
              pause_run r.id (update_handoff existing.id (link (some run) (some execution)) db),
            )
            | none ↦
                elim (commit_request h (tool_event h.id t c execution) (pause_run r.id committed)) [
                  | some db' ↦ (ok h.id, db')
                  | none ↦ if attempt == 0 then next else (err integrity_error, committed)
                ]
          ]
        ]
      ]

-- The request of a keyword that a policy lists.
abbrev pub keyword_request : ℕ → ℕ → String → HandoffRequest
keyword_request tenant_id conversation_id keyword =
    system_request tenant_id conversation_id "customer_keyword"
      (some ("Matched escalation keyword: " <> keyword))

module _ (strip casefold : String → String) where
  -- `item.strip()` as a test
  abbrev pub is_filled : String → Bool
  is_filled s = not (str_eq (strip s) "")

  -- `load_effective_policy`
  unfoldable pub load_effective_policy : HandoffDb → ℕ → EffectiveHandoffPolicy
  load_effective_policy db tenant_id = elim (find (λ p. p.tenant_id == tenant_id) db.policies) [
    | none ↦ default_handoff_policy
    | some row ↦ record {
      enabled = row.enabled;
      customer_keywords = map (λ s. casefold (strip s)) (filter is_filled row.customer_keywords);
      pause_on_tool_approval = row.pause_on_tool_approval;
    }
  ]

  -- The text of a message that a customer sent.
  unfoldable pub customer_text : Message → Option String
  customer_text m = elim m.direction [
    | inbound ↦ elim m.author_type [
      | customer ↦ elim m.text [
        | none ↦ none
        | some s ↦ if is_filled s then some (casefold s) else none
      ]
      | _ ↦ none
    ]
    | _ ↦ none
  ]

  -- The first keyword of a policy that the text has, where the policy is in force.
  unfoldable pub matched_keyword : EffectiveHandoffPolicy → String → Option String
  matched_keyword policy s =
      if policy.enabled then find (λ keyword. contains keyword s) policy.customer_keywords else none

  module _ (uuid4 : ℕ → ℕ) (others : ℕ → HandoffDb → HandoffDb) where
    -- What `evaluate_event_escalation` does with the message that it loaded.
    unfoldable pub escalate_message :
        ChannelInboundEvent → Message → HandoffDb → Result HandoffError (Option ℕ) × HandoffDb
    unfolding load_effective_policy customer_text matched_keyword request_handoff
    escalate_message event message db =
        elim (active_handoff db event.tenant_id message.conversation_id) [
          | some existing ↦ (ok (some existing.id), db)
          | none ↦ elim (customer_text message) [
            | none ↦ (ok none, db)
            | some s ↦ elim (matched_keyword (load_effective_policy db event.tenant_id) s) [
              | none ↦ (ok none, db)
              | some keyword ↦
                  let request = keyword_request event.tenant_id message.conversation_id keyword in
                  let r = request_handoff uuid4 others request db in (some_id (id_of r.0), r.1)
            ]
          ]
        ]

    -- `evaluate_event_escalation`
    unfoldable pub evaluate_event_escalation :
        ℕ → HandoffDb → Result HandoffError (Option ℕ) × HandoffDb
    unfolding escalate_message
    evaluate_event_escalation event_id db = elim (event_of db event_id) [
      | none ↦ (ok none, db)
      | some event ↦ elim event.message_id [
        | none ↦ (ok none, db)
        | some message_id ↦ elim (message_of db event message_id) [
          | none ↦ (ok none, db)
          | some message ↦ escalate_message event message db
        ]
      ]
    ]

    -- `pause_for_tool_approval`
    unfoldable pub pause_for_tool_approval :
        (tenant_id conversation_id agent_run_id tool_execution_id : ℕ)
        → HandoffDb
        → Result HandoffError (Option ℕ) × HandoffDb
    unfolding pause_attempts
    pause_for_tool_approval t c run execution db =
        let policy = load_effective_policy db t in
        let r = pause_attempts uuid4 others t c run execution 2 0 db in
        if policy.enabled && policy.pause_on_tool_approval
        then (some_id r.0, r.1)
        else (ok none, db)

-- The status of a run that has its lease and may still dispatch.
abbrev pub may_dispatch : AgentRun → Bool
may_dispatch r = elim r.status [ pending ↦ true | generated ↦ true | _ ↦ false ]

-- The run that asks, with its lease.
abbrev pub dispatches : ℕ → ℕ → ℕ → ℕ → AgentRun → Bool
dispatches t c run lease_token r =
    r.id == run
    && r.tenant_id == t
    && r.conversation_id == c
    && equals_some r.lease_token lease_token
    && may_dispatch r

-- `guard_ai_dispatch`: whether the agent may answer; where a handoff is active, its run pauses.
unfoldable pub guard_ai_dispatch :
    (tenant_id conversation_id agent_run_id lease_token : ℕ)
    → HandoffDb
    → Result HandoffError (Bool × HandoffDb)
guard_ai_dispatch t c run lease_token db = elim (conversation_of db t c) [
  | none ↦ err conversation_missing
  | some _ ↦ elim (active_handoff db t c) [
    | none ↦ ok (true, db)
    | some handoff ↦ elim (find (dispatches t c run lease_token) db.agent_runs) [
      | none ↦ err agent_run_lease_lost
      | some r ↦ ok (
        false,
        update_handoff handoff.id (link (some r.id) none)
            (update_run r.id (stopped_run paused none) db),
      )
    ]
  ]
]
