-- ===== src/Handoff/Request.antt =====
-- Asking for a human: `request_handoff`, `request_event_handoff`, `evaluate_event_escalation`,
-- `pause_for_tool_approval` and `guard_ai_dispatch`.
use customers_manager_hub.Prelude.{
  ℕ, zero, suc, ◌+◌, String, Bool, ◌&&◌, ◌||◌, ◌==◌, Option, none, some, is_none, is_some, [], ◌∷◌,
  ◌++◌, if◌then◌else◌,
}
use mathlib.Core.Option
use customers_manager_hub.Prelude.Result.{Result, ok, err}
use customers_manager_hub.Prelude.Table.{update_row}
use customers_manager_hub.Prelude.Text.{truncate}
use customers_manager_hub.Models.{AuditEvent, Detail, ident}
use customers_manager_hub.AgentModels.{AgentRun}
use customers_manager_hub.HandoffModels.{
  queued, HandoffRequestSource, from_human, from_system, from_tool, ConversationHandoff,
}
use customers_manager_hub.Handoff.{
  HandoffDb, HandoffError, conversation_missing, event_missing, event_message_missing, request_race,
  integrity_error, active_handoff, insert_handoff, conversation_of, event_of, message_of, fill,
  handoff_event,
}

-- The keyword arguments of `request_handoff`.
pub record HandoffRequest : Type 0 where
  pub tenant_id : ℕ
  pub conversation_id : ℕ
  pub request_source : HandoffRequestSource
  pub reason_code : String
  pub reason_text : Option String
  pub requested_by_user_id : Option ℕ
  pub source_agent_run_id : Option ℕ
  pub source_tool_execution_id : Option ℕ

pub source_text : HandoffRequestSource → String
source_text from_human = "human"
source_text from_system = "system"
source_text from_tool = "tool"

-- The handoff that a request creates, under the id `id`.
abbrev pub new_handoff : ℕ → HandoffRequest → ConversationHandoff
new_handoff id r = record {
  id = id;
  tenant_id = r.tenant_id;
  conversation_id = r.conversation_id;
  status = queued;
  request_source = r.request_source;
  reason_code = truncate 100 r.reason_code;
  reason_text = Option.map (truncate 1000) r.reason_text;
  requested_by_user_id = r.requested_by_user_id;
  claimed_by_user_id = none;
  source_agent_run_id = r.source_agent_run_id;
  source_tool_execution_id = r.source_tool_execution_id;
  claimed_at = none;
  closed_at = none;
}

-- An active handoff takes on the sources of a request that it lacks.
abbrev pub link : Option ℕ → Option ℕ → ConversationHandoff → ConversationHandoff
link run execution h = record h {
  source_agent_run_id = fill h.source_agent_run_id run;
  source_tool_execution_id = fill h.source_tool_execution_id execution;
}

-- `changed`
abbrev pub links : Option ℕ → Option ℕ → ConversationHandoff → Bool
links run execution h =
    (is_none h.source_agent_run_id && is_some run)
    || (is_none h.source_tool_execution_id && is_some execution)

pub requested_event : HandoffRequest → ConversationHandoff → AuditEvent
unfolding source_text
requested_event r h = handoff_event r.tenant_id r.requested_by_user_id "handoff.requested" h.id (
    ("conversation_id", ident r.conversation_id)
    ∷ ("request_source", Detail.text (source_text r.request_source))
    ∷ ("reason_code", Detail.text h.reason_code)
    ∷ [])

-- `UPDATE` of one handoff.
abbrev pub update_handoff : ℕ → (ConversationHandoff → ConversationHandoff) → HandoffDb → HandoffDb
update_handoff id f db = record db { handoffs = update_row (λ h. h.id) id f db.handoffs }

abbrev pub update_run : ℕ → (AgentRun → AgentRun) → HandoffDb → HandoffDb
update_run id f db = record db { agent_runs = update_row (λ r. r.id) id f db.agent_runs }

-- `flush` and `commit` of a new handoff and its audit event: `none` is an `IntegrityError`, which
-- rolls both back.
unfoldable pub commit_request : ConversationHandoff → AuditEvent → HandoffDb → Option HandoffDb
unfolding insert_handoff
commit_request h event db =
    Option.map
      (λ handoffs. record db { handoffs = handoffs; audit_events = db.audit_events ++ event ∷ [] })
      (insert_handoff h db.handoffs)

-- The request that the program itself makes.
abbrev pub system_request : ℕ → ℕ → String → Option String → HandoffRequest
system_request tenant_id conversation_id reason_code reason_text = record {
  tenant_id = tenant_id;
  conversation_id = conversation_id;
  request_source = from_system;
  reason_code = reason_code;
  reason_text = reason_text;
  requested_by_user_id = none;
  source_agent_run_id = none;
  source_tool_execution_id = none;
}

-- `handoff.id` of a request.
abbrev pub id_of : Result HandoffError ConversationHandoff → Result HandoffError ℕ
id_of (ok h) = ok h.id
id_of (err e) = err e

-- In attempt `n`, `uuid4 n` is the new id, and `others n` is what other transactions commit between
-- the reads of the attempt and its `flush`.
module _ (uuid4 : ℕ → ℕ) (others : ℕ → HandoffDb → HandoffDb) where
  -- `for attempt in range(2)`, with `left` attempts to come.
  unfoldable pub request_attempts :
      HandoffRequest
      → (left attempt : ℕ) → HandoffDb
      → Result HandoffError ConversationHandoff × HandoffDb
  unfolding requested_event
  request_attempts r zero attempt db = (err request_race, db)
  request_attempts r (suc left) attempt db =
      let committed = others attempt db in
      let next = request_attempts r left (attempt + 1) committed in
      let h = new_handoff (uuid4 attempt) r in
      elim (conversation_of db r.tenant_id r.conversation_id) [
        | none ↦ (err conversation_missing, db)
        | some _ ↦ elim (active_handoff db r.tenant_id r.conversation_id) [
          | some existing ↦
              if links r.source_agent_run_id r.source_tool_execution_id existing
              then (
                ok (link r.source_agent_run_id r.source_tool_execution_id existing),
                update_handoff existing.id (link r.source_agent_run_id r.source_tool_execution_id)
                    db,
              )
              else (ok existing, db)
          | none ↦ elim (commit_request h (requested_event r h) committed) [
            | some db' ↦ (ok h, db')
            | none ↦ if attempt == 0 then next else (err integrity_error, committed)
          ]
        ]
      ]

  -- `request_handoff`
  unfoldable pub request_handoff :
      HandoffRequest → HandoffDb → Result HandoffError ConversationHandoff × HandoffDb
  unfolding request_attempts
  request_handoff r db = request_attempts r 2 0 db

  -- `request_event_handoff`
  unfoldable pub request_event_handoff : ℕ → String → HandoffDb → Result HandoffError ℕ × HandoffDb
  unfolding request_handoff
  request_event_handoff event_id reason_code db = elim (event_of db event_id) [
    | none ↦ (err event_missing, db)
    | some event ↦ elim event.message_id [
      | none ↦ (err event_missing, db)
      | some message_id ↦ elim (message_of db event message_id) [
        | none ↦ (err event_message_missing, db)
        | some message ↦
            let r =
              request_handoff
                (system_request event.tenant_id message.conversation_id reason_code none) db in
            (id_of r.0, r.1)
      ]
    ]
  ]
