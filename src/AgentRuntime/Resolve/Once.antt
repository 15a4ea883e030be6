-- ===== src/AgentRuntime/Resolve/Once.antt =====
-- A message that is delivered again is answered by the same run.
use customers_manager_hub.Prelude.{
  ℕ, ◌≡◌, ◌≢◌, refl, String, Bool, true, false, Option, none, some, List, [], ◌∷◌, ◌++◌, any, find,
  arith, Bool-cases, Option-cases, ==_iff, inl, inr,
}
use customers_manager_hub.Prelude.Result.{Result, ok, err}
use customers_manager_hub.Models.{Message}
use customers_manager_hub.AgentModels.{Agent, AgentPromptVersion, AgentRun, ChannelInboundEvent}
use customers_manager_hub.Handoff.{event_of, message_of}
use customers_manager_hub.AgentRuntime.{AgentFault, AgentDb, with_runs, runs_of}
use customers_manager_hub.AgentRuntime.Resolve.{
  new_run, is_run_of, insert_run, Assigned, assigned_agent, nobody, invalid, assigned,
  insert_or_join_run, is_answerable, resolve_or_create_run,
}

-- The table has a run of the event's message, and it is the run `r`.
record HasRun (strip : String → String) (event_id r : ℕ) (db : AgentDb) : Type 0 where
  event : ChannelInboundEvent
  message_id : ℕ
  message : Message
  run : AgentRun
  event_found : event_of db.handoff event_id ≡ some event
  linked : event.message_id ≡ some message_id
  message_found : message_of db.handoff event message_id ≡ some message
  answerable : is_answerable strip message ≡ true
  run_found : find (is_run_of event.tenant_id message.id) (runs_of db) ≡ some run
  same : run.id ≡ r

found_run :
    {A : Type 0} (p : A → Bool) (xs : List A) (x : A)
    → any p xs ≡ false
    → p x ≡ true
    → find p (xs ++ x ∷ []) ≡ some x
unfolding find any
found_run p [] x h e = rw e refl
found_run p (y ∷ ys) x h e = elim (Bool-cases (p y)) [
  | inl first ↦ absurd (ground (arith, first))
  | inr other ↦ rw other (found_run p ys x (ground arith) e)
]

insert_found :
    (r : AgentRun) (runs next : List AgentRun)
    → insert_run r runs ≡ some next
    → find (is_run_of r.tenant_id r.inbound_message_id) next ≡ some r
unfolding insert_run
insert_found r runs next e =
    let rows : runs ++ r ∷ [] ≡ next = ground arith in
    let alone : any (is_run_of r.tenant_id r.inbound_message_id) runs ≡ false = ground arith in
    let own : is_run_of r.tenant_id r.inbound_message_id r ≡ true =
      rw
        (
          (==_iff r.tenant_id r.tenant_id).1 refl,
          (==_iff r.inbound_message_id r.inbound_message_id).1 refl,
        )
        refl in
    rw (← rows) (found_run (is_run_of r.tenant_id r.inbound_message_id) runs r alone own)

module _ (strip : String → String) (id : ℕ) (others : AgentDb → AgentDb) (event_id : ℕ) where
  found_again :
      (r : ℕ) (db : AgentDb)
      → HasRun strip event_id r db
      → resolve_or_create_run strip id others event_id db ≡ (ok (some r), db)
  unfolding resolve_or_create_run
  found_again r db h =
      rw
        (
          h.event_found, resolve_or_create_run, h.linked, h.message_found, h.answerable,
          h.run_found, h.same,
        )
        refl

abbrev Outcome : Type 0
Outcome = Result AgentFault (Option ℕ) × AgentDb

abbrev found : ℕ → AgentDb → Outcome
found r next = (ok (some r), next)

module _ {r : ℕ} {next : AgentDb} where
  err≢found : (e : AgentFault) (db : AgentDb) → (err e, db) ≢ found r next
  err≢found e db h = cc

  none≢found : (db : AgentDb) → (ok none, db) ≢ found r next
  none≢found db h = cc

  found_same : (x : ℕ) (db : AgentDb) → found x db ≡ found r next → (x ≡ r) × (db ≡ next)
  found_same x db h = (cc, cc)

  -- The insertion, or the run that another transaction has inserted, is in the table afterwards.
  joined_found :
      (id : ℕ) (event : ChannelInboundEvent) (message : Message) (agent : Agent)
      (version : AgentPromptVersion) (committed : AgentDb)
      → insert_or_join_run id event message agent version committed ≡ found r next
      → (run : AgentRun) × (find (is_run_of event.tenant_id message.id) (runs_of next) ≡ some run)
        × (run.id ≡ r)
        × (next.handoff.events ≡ committed.handoff.events)
        × (next.handoff.messages ≡ committed.handoff.messages)
  unfolding insert_or_join_run
  joined_found id event message agent version committed e =
      let row =
        new_run id event.tenant_id agent.id version.id event.channel_account_id
          message.conversation_id message.id in
      elim (Option-cases (insert_run row (runs_of committed))) [
        | inr (runs, i) ↦
            let (same, written) =
              found_same id (with_runs runs committed) (rw (i, insert_or_join_run) at e) in
            (
              row,
              rw (← written) (insert_found row (runs_of committed) runs i),
              same,
              rw (← written) refl,
              rw (← written) refl,
            )
        | inl i ↦
            elim (Option-cases (find (is_run_of event.tenant_id message.id) (runs_of committed))) [
              | inl f ↦ absurd (err≢found _ _ (rw (i, insert_or_join_run, f) at e))
              | inr (raced, f) ↦
                  let (same, kept) =
                    found_same raced.id committed (rw (i, insert_or_join_run, f) at e) in
                  (raced, rw (← kept) f, same, rw (← kept) refl, rw (← kept) refl)
            ]
      ]

module _ (strip : String → String) (id : ℕ) (others : AgentDb → AgentDb) (event_id : ℕ)
    (events_kept : (d : AgentDb) → (others d).handoff.events ≡ d.handoff.events)
    (messages_kept : (d : AgentDb) → (others d).handoff.messages ≡ d.handoff.messages) (r : ℕ)
    (db next : AgentDb)
    (first : resolve_or_create_run strip id others event_id db ≡ (ok (some r), next)) where
  module _ (event : ChannelInboundEvent) (message_id : ℕ) (message : Message)
      (event_found : event_of db.handoff event_id ≡ some event)
      (linked : event.message_id ≡ some message_id)
      (message_found : message_of db.handoff event message_id ≡ some message)
      (answerable : is_answerable strip message ≡ true) where
    inserted_run :
        (agent : Agent) (version : AgentPromptVersion)
        → insert_or_join_run id event message agent version (others db) ≡ found r next
        → HasRun strip event_id r next
    inserted_run agent version e =
        let (run, there, same, events, messages) =
          joined_found id event message agent version (others db) e in
        record {
          event = event;
          message_id = message_id;
          message = message;
          run = run;
          event_found = rw (events, events_kept db) event_found;
          linked = linked;
          message_found = rw (messages, messages_kept db) message_found;
          answerable = answerable;
          run_found = there;
          same = same;
        }

    assigned_run :
        (a : Assigned)
        → assigned_agent db event ≡ a
        → find (is_run_of event.tenant_id message.id) (runs_of db) ≡ none
        → HasRun strip event_id r next
    unfolding resolve_or_create_run
    assigned_run nobody e f = absurd (
        none≢found db (
          rw (event_found, resolve_or_create_run, linked, message_found, answerable, f, e) at
            first))
    assigned_run (invalid x) e f = absurd (
        err≢found _ db (
          rw (event_found, resolve_or_create_run, linked, message_found, answerable, f, e) at
            first))
    assigned_run (assigned agent version) e f =
        inserted_run agent version (
          rw (event_found, resolve_or_create_run, linked, message_found, answerable, f, e) at first)

    message_run : HasRun strip event_id r next
    unfolding resolve_or_create_run
    message_run = elim (Option-cases (find (is_run_of event.tenant_id message.id) (runs_of db))) [
      | inl f ↦ assigned_run (assigned_agent db event) refl f
      | inr (run, f) ↦
          let (same, kept) = found_same run.id db (
            rw (event_found, resolve_or_create_run, linked, message_found, answerable, f) at
              first) in
          record {
            event = event;
            message_id = message_id;
            message = message;
            run = run;
            event_found = rw (← kept) event_found;
            linked = linked;
            message_found = rw (← kept) message_found;
            answerable = answerable;
            run_found = rw (← kept) f;
            same = same;
          }
    ]

  resolved_run : HasRun strip event_id r next
  unfolding resolve_or_create_run
  resolved_run = elim (Option-cases (event_of db.handoff event_id)) [
    | inl e ↦ absurd (err≢found _ db (rw (e, resolve_or_create_run) at first))
    | inr (event, e) ↦ elim (Option-cases event.message_id) [
      | inl l ↦ absurd (none≢found db (rw (e, resolve_or_create_run, l) at first))
      | inr (message_id, l) ↦ elim (Option-cases (message_of db.handoff event message_id)) [
        | inl m ↦ absurd (err≢found _ db (rw (e, resolve_or_create_run, l, m) at first))
        | inr (message, m) ↦ elim (Bool-cases (is_answerable strip message)) [
          | inl a ↦ message_run event message_id message e l m a
          | inr a ↦ absurd (none≢found db (rw (e, resolve_or_create_run, l, m, a) at first))
        ]
      ]
    ]
  ]

  -- Where other transactions keep the events and the messages, an event that is resolved again
  -- after it got a run gets the same run, and no run is added, whatever ids were drawn.
  pub resolve_again :
      (id' : ℕ) (others' : AgentDb → AgentDb)
      → resolve_or_create_run strip id' others' event_id next ≡ (ok (some r), next)
  resolve_again id' others' = found_again strip id' others' event_id r next resolved_run
