-- ===== src/AgentRuntime/Resolve.antt =====
-- The run of an event: `_resolve_or_create_run`, and `_load_run_snapshot` of a claimed run.
pub mod Once
use text.Mathlib.Text.{◌==◌ as str_eq}
use customers_manager_hub.Prelude.{
  ℕ, String, Bool, true, false, ◌&&◌, ◌||◌, ◌==◌, not, Option, none, some, List, [], ◌∷◌, ◌++◌, any,
  find, equals_some, if◌then◌else◌,
}
use customers_manager_hub.Prelude.Result.{Result, ok, err}
use customers_manager_hub.Models.{Message, inbound, customer, text_message, voice}
use customers_manager_hub.AgentModels.{
  Agent, AgentChannelAssignment, AgentPromptVersion, published, AgentRun, pending,
  ChannelInboundEvent,
}
use customers_manager_hub.ChannelModels.{ChannelAccount}
use customers_manager_hub.Handoff.{event_of, message_of}
use customers_manager_hub.AgentRuntime.{
  AgentError, permanent, transient, AgentFault, coded, other_fault, AgentDb, with_runs, runs_of,
  AgentRunSnapshot, AgentRunClaim,
}

-- A new row of `agent_runs`.
abbrev pub new_run :
    (id tenant_id agent_id prompt_version_id channel_account_id conversation_id message_id : ℕ)
    → AgentRun
new_run id tenant_id agent_id prompt_version_id channel_account_id conversation_id message_id =
    record {
      id = id;
      tenant_id = tenant_id;
      agent_id = agent_id;
      prompt_version_id = prompt_version_id;
      channel_account_id = channel_account_id;
      conversation_id = conversation_id;
      inbound_message_id = message_id;
      outbound_message_id = none;
      status = pending;
      generated_text = none;
      error_code = none;
      lease_token = none;
      lease_until = none;
    }

-- The query for the run of a tenant's message, which is what `uq_agent_runs_tenant_inbound_message`
-- counts too.
abbrev pub is_run_of : ℕ → ℕ → AgentRun → Bool
is_run_of tenant_id message_id r = r.tenant_id == tenant_id && r.inbound_message_id == message_id

-- `INSERT` of a run: nothing where the primary key or the unique constraint refuses it.
unfoldable pub insert_run : AgentRun → List AgentRun → Option (List AgentRun)
insert_run r runs =
    if any (λ x. x.id == r.id) runs || any (is_run_of r.tenant_id r.inbound_message_id) runs
    then none
    else some (runs ++ r ∷ [])

abbrev pub assignment_of : AgentDb → ℕ → ℕ → Option AgentChannelAssignment
assignment_of db tenant_id account_id =
    find (λ a. a.tenant_id == tenant_id && a.channel_account_id == account_id) db.assignments

abbrev pub agent_of : AgentDb → ℕ → ℕ → Option Agent
agent_of db tenant_id agent_id = find (λ a. a.id == agent_id && a.tenant_id == tenant_id) db.agents

abbrev pub is_published : AgentPromptVersion → Bool
is_published v = elim v.status [ published ↦ true | _ ↦ false ]

abbrev pub published_version : AgentDb → ℕ → ℕ → Option AgentPromptVersion
published_version db tenant_id prompt_id =
    find (λ v. v.tenant_id == tenant_id && v.prompt_id == prompt_id && is_published v)
      db.prompt_versions

-- What the answer of a run is decided by, before its row is written.
pub data Assigned : Type 0 where
  nobody : Assigned
  invalid : AgentError → Assigned
  assigned : Agent → AgentPromptVersion → Assigned

-- The agent of the event's channel, and its prompt.
unfoldable pub assigned_agent : AgentDb → ChannelInboundEvent → Assigned
assigned_agent db event = elim (assignment_of db event.tenant_id event.channel_account_id) [
  | none ↦ nobody
  | some assignment ↦ elim (agent_of db event.tenant_id assignment.agent_id) [
    | none ↦ invalid (permanent "agent_assignment_invalid")
    | some agent ↦
        if agent.is_active
        then (elim (published_version db event.tenant_id agent.prompt_id) [
          | none ↦ invalid (permanent "agent_prompt_not_published")
          | some version ↦ assigned agent version
        ])
        else nobody
  ]
]

-- The insertion, after which the run is there or the session is rolled back. `committed` is what other
-- transactions have made of the tables since the queries before.
unfoldable pub insert_or_join_run :
    (id : ℕ)
    → ChannelInboundEvent
    → Message
    → Agent
    → AgentPromptVersion
    → (committed : AgentDb) → Result AgentFault (Option ℕ) × AgentDb
unfolding insert_run
insert_or_join_run id event message agent version committed =
    let r =
      new_run id event.tenant_id agent.id version.id event.channel_account_id
        message.conversation_id message.id in
    elim (insert_run r (runs_of committed)) [
      | some runs ↦ (ok (some id), with_runs runs committed)
      | none ↦ elim (find (is_run_of event.tenant_id message.id) (runs_of committed)) [
        | none ↦ (err other_fault, committed)
        | some raced ↦ (ok (some raced.id), committed)
      ]
    ]

module _ (strip : String → String) where
  -- A text with more than white space.
  abbrev pub is_filled_text : Option String → Bool
  is_filled_text none = false
  is_filled_text (some s) = not (str_eq (strip s) "")

  -- A message that an agent answers: a customer's text, or a voice message with its text.
  unfoldable pub is_answerable : Message → Bool
  is_answerable m =
      elim m.direction [ inbound ↦ true | _ ↦ false ]
      && elim m.author_type [ customer ↦ true | _ ↦ false ]
      && elim m.message_type [ text_message ↦ true | voice ↦ true | _ ↦ false ]
      && is_filled_text m.text

  -- `_resolve_or_create_run`
  unfoldable pub resolve_or_create_run :
      (id : ℕ) (others : AgentDb → AgentDb) (event_id : ℕ)
      → AgentDb
      → Result AgentFault (Option ℕ) × AgentDb
  unfolding assigned_agent insert_or_join_run
  resolve_or_create_run id others event_id db = elim (event_of db.handoff event_id) [
    | none ↦ (err (coded (permanent "agent_channel_event_missing")), db)
    | some event ↦ elim event.message_id [
      | none ↦ (ok none, db)
      | some message_id ↦ elim (message_of db.handoff event message_id) [
        | none ↦ (err (coded (permanent "agent_inbound_message_missing")), db)
        | some message ↦
            if is_answerable message
            then (elim (find (is_run_of event.tenant_id message.id) (runs_of db)) [
              | some existing ↦ (ok (some existing.id), db)
              | none ↦ elim (assigned_agent db event) [
                | nobody ↦ (ok none, db)
                | invalid e ↦ (err (coded e), db)
                | assigned agent version ↦
                    insert_or_join_run id event message agent version (others db)
              ]
            ])
            else (ok none, db)
      ]
    ]
  ]

  -- The row that a claim holds, and what an answer needs of it.
  abbrev pub claimed_run : AgentDb → AgentRunClaim → Option AgentRun
  claimed_run db claim =
      find (λ r. r.id == claim.run_id && equals_some r.lease_token claim.lease_token) (runs_of db)

  abbrev pub account_of : AgentDb → AgentRun → Option ChannelAccount
  account_of db run =
      find (λ a. a.id == run.channel_account_id && a.tenant_id == run.tenant_id) db.accounts

  abbrev pub inbound_of : AgentDb → AgentRun → Option Message
  inbound_of db run =
      find
        (λ m.
          m.id == run.inbound_message_id
          && m.tenant_id == run.tenant_id
          && m.conversation_id == run.conversation_id)
        db.handoff.messages

  -- `inbound.text`, where the message is there and has a text.
  abbrev pub filled_text : Option Message → Option String
  filled_text none = none
  filled_text (some m) = if is_filled_text m.text then m.text else none

  abbrev pub snapshot_of :
      AgentRun → AgentPromptVersion → ChannelAccount → String → AgentRunSnapshot
  snapshot_of run version account text = record {
    run_id = run.id;
    tenant_id = run.tenant_id;
    agent_id = run.agent_id;
    prompt_version_id = version.id;
    channel_account_id = run.channel_account_id;
    channel_type = account.channel_type;
    conversation_id = run.conversation_id;
    inbound_message_id = run.inbound_message_id;
    current_text = text;
    prompt_content = version.content;
    status = run.status;
    generated_text = run.generated_text;
  }

  -- `_load_run_snapshot`
  unfoldable pub load_run_snapshot : AgentDb → AgentRunClaim → Result AgentError AgentRunSnapshot
  load_run_snapshot db claim = elim (claimed_run db claim) [
    | none ↦ err (transient "agent_run_lease_lost")
    | some run ↦
        elim (find (λ v. v.id == run.prompt_version_id && v.tenant_id == run.tenant_id)
          db.prompt_versions) [
            | none ↦ err (permanent "agent_prompt_version_missing")
            | some version ↦ elim (account_of db run) [
              | none ↦ err (permanent "agent_channel_unavailable")
              | some account ↦
                  if account.is_active
                  then (elim (filled_text (inbound_of db run)) [
                    | none ↦ err (permanent "agent_inbound_message_missing")
                    | some text ↦ ok (snapshot_of run version account text)
                  ])
                  else err (permanent "agent_channel_unavailable")
            ]
          ]
  ]
