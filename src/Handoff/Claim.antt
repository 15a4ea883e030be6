-- ===== src/Handoff/Claim.antt =====
-- What an operator does with a handoff: `claim_handoff`, `release_handoff` and `resolve_handoff`.
use mathlib.Core.Option
use customers_manager_hub.Prelude.{
  ℕ, Bool, true, false, ◌&&◌, ◌||◌, ◌==◌, not, ltb, Option, none, some, List, filter, equals_some,
  [], ◌∷◌, ◌++◌, if◌then◌else◌,
}
use customers_manager_hub.Prelude.Result.{Result, ok, err}
use customers_manager_hub.Prelude.Sort.{sort}
use customers_manager_hub.Models.{flag, ident, AuditEvent}
use customers_manager_hub.AgentModels.{AgentRun, pending, paused, ChannelInboundEvent}
use customers_manager_hub.HandoffModels.{queued, claimed, resolved, cancelled, ConversationHandoff}
use customers_manager_hub.Handoff.{
  HandoffDb, HandoffError, active_missing, already_claimed, state_invalid, not_claimed, not_owner,
  active_handoff, run_of, stopped_run, handoff_event,
}
use customers_manager_hub.Handoff.Request.{update_handoff, update_run}

abbrev pub add_event : AuditEvent → HandoffDb → HandoffDb
add_event e db = record db { audit_events = db.audit_events ++ e ∷ [] }

abbrev pub claimed_by : ℕ → ℕ → ConversationHandoff → ConversationHandoff
claimed_by actor now h = record h {
  status = claimed;
  claimed_by_user_id = some actor;
  claimed_at = some now;
}

abbrev pub back_in_queue : ConversationHandoff → ConversationHandoff
back_in_queue h = record h { status = queued; claimed_by_user_id = none; claimed_at = none }

-- The handoff `h` claimed, and the audit event.
abbrev pub with_claim : (t c actor now : ℕ) → ConversationHandoff → HandoffDb → HandoffDb
with_claim t c actor now h db =
    add_event
      (handoff_event t (some actor) "handoff.claimed" h.id (("conversation_id", ident c) ∷ []))
      (update_handoff h.id (claimed_by actor now) db)

-- `claim_handoff`
unfoldable pub claim_handoff :
    (tenant_id conversation_id actor now : ℕ)
    → HandoffDb
    → Result HandoffError (ConversationHandoff × HandoffDb)
claim_handoff t c actor now db = elim (active_handoff db t c) [
  | none ↦ err active_missing
  | some h ↦ elim h.status [
    | claimed ↦ if equals_some h.claimed_by_user_id actor then ok (h, db) else err already_claimed
    | queued ↦ ok (claimed_by actor now h, with_claim t c actor now h db)
    | _ ↦ err state_invalid
  ]
]

-- `release_handoff`
unfoldable pub release_handoff :
    (tenant_id conversation_id actor : ℕ) (allow_override : Bool)
    → HandoffDb
    → Result HandoffError (ConversationHandoff × HandoffDb)
release_handoff t c actor allow_override db = elim (active_handoff db t c) [
  | none ↦ err active_missing
  | some h ↦ elim h.status [
    | claimed ↦
        if not (equals_some h.claimed_by_user_id actor) && not allow_override
        then err not_owner
        else ok (
          back_in_queue h,
          add_event
              (handoff_event t (some actor) "handoff.released" h.id
                (("conversation_id", ident c) ∷ []))
              (update_handoff h.id back_in_queue db),
        )
    | _ ↦ err not_claimed
  ]
]

pub record HandoffResolution : Type 0 where
  pub handoff_id : ℕ
  pub event_id_to_resume : Option ℕ

-- `ORDER BY closed_at DESC, id DESC`, in which a missing time comes first.
abbrev pub closed_later : ConversationHandoff → ConversationHandoff → Bool
closed_later x y = elim x.closed_at [
  | none ↦ elim y.closed_at [ none ↦ ltb y.id x.id | some _ ↦ true ]
  | some a ↦ elim y.closed_at [ none ↦ false | some b ↦ ltb b a || (a == b && ltb y.id x.id) ]
]

abbrev pub came_later : ChannelInboundEvent → ChannelInboundEvent → Bool
came_later x y = ltb y.created_at x.created_at || (x.created_at == y.created_at && ltb y.id x.id)

abbrev pub first_of : {A : Type 0} → List A → Option A
first_of [] = none
first_of (x ∷ xs) = some x

abbrev pub is_resolved : ConversationHandoff → Bool
is_resolved h = elim h.status [ resolved ↦ true | _ ↦ false ]

-- The last resolved handoff of a conversation.
unfoldable pub last_resolved : HandoffDb → ℕ → ℕ → Option ConversationHandoff
last_resolved db t c = first_of (
    sort closed_later
      (filter (λ h. h.tenant_id == t && h.conversation_id == c && is_resolved h) db.handoffs))

-- The last event of a message.
unfoldable pub last_event : HandoffDb → ℕ → ℕ → Option ChannelInboundEvent
last_event db t message_id = first_of (
    sort came_later
      (filter (λ e. e.tenant_id == t && equals_some e.message_id message_id) db.events))

abbrev pub closed : Bool → ℕ → ConversationHandoff → ConversationHandoff
closed cancel now h = record h {
  status = if cancel then cancelled else resolved;
  closed_at = some now;
}

abbrev pub may_resume : AgentRun → Bool
may_resume r = elim r.status [ paused ↦ true | pending ↦ true | _ ↦ false ]

abbrev pub is_claimed_by_another : ℕ → ConversationHandoff → Bool
is_claimed_by_another actor h = elim h.status [
  | claimed ↦ not (equals_some h.claimed_by_user_id actor)
  | _ ↦ false
]

-- The end of `resolve_handoff`: the run that the handoff stopped is pending again.
unfoldable pub resume :
    Bool → ℕ → ℕ → ConversationHandoff → HandoffDb → HandoffResolution × HandoffDb
unfolding last_event
resume resume_ai t c h db =
    let nothing : HandoffResolution × HandoffDb =
      (record { handoff_id = h.id; event_id_to_resume = none }, db) in
    if resume_ai
    then (elim h.source_agent_run_id [
      | none ↦ nothing
      | some run_id ↦ elim (run_of db t c run_id) [
        | none ↦ nothing
        | some run ↦
            if may_resume run
            then (
              record {
                handoff_id = h.id;
                event_id_to_resume =
                    Option.map (λ e. e.id) (last_event db t run.inbound_message_id);
              },
              update_run run.id (stopped_run pending none) db,
            )
            else nothing
      ]
    ])
    else nothing

-- `resolve_handoff`; a retry finds the handoff that it resolved before.
unfoldable pub resolve_handoff :
    (tenant_id conversation_id actor now : ℕ) (allow_override resume_ai cancel : Bool)
    → HandoffDb
    → Result HandoffError (HandoffResolution × HandoffDb)
unfolding resume last_resolved
resolve_handoff t c actor now allow_override resume_ai cancel db = elim (active_handoff db t c) [
  | none ↦ elim (last_resolved db t c) [
    | none ↦ err active_missing
    | some h ↦ if resume_ai then ok (resume resume_ai t c h db) else err active_missing
  ]
  | some h ↦
      if is_claimed_by_another actor h && not allow_override
      then err not_owner
      else ok (
          resume resume_ai t c h (
            add_event
              (handoff_event t (some actor)
                (if cancel then "handoff.cancelled" else "handoff.resolved") h.id
                (("conversation_id", ident c) ∷ ("resume_ai", flag resume_ai) ∷ []))
              (update_handoff h.id (closed cancel now) db)))
]
