-- ===== src/Policy/Decide/Events.antt =====
-- `evaluate_ai_event` as a whole: which policy it follows, what it decides and what it writes.
use customers_manager_hub.Prelude.{
  ℕ, ◌≡◌, ◌⊎◌, refl, sym, ap, ◌∙◌, ◌&&◌, ◌==◌, none, some, find, if◌then◌else◌, Option-cases, inl,
  inr,
}
use customers_manager_hub.Prelude.Result.{ok, bind_ok, ok_parts, err≢ok}
use customers_manager_hub.Models.{Message}
use customers_manager_hub.AgentModels.{ChannelInboundEvent}
use customers_manager_hub.PolicyModels.{allow, handoff}
use customers_manager_hub.Policy.Hours.{is_within_business_hours}
use customers_manager_hub.Policy.Engine.{
  EffectiveTenantPolicy, PolicyDecision, PolicyDb, Environment, load_effective_tenant_policy,
}
use customers_manager_hub.Policy.Decide.{
  evaluate_ai_event, event_of, message_of, no_message, text_or_empty,
}
use customers_manager_hub.Policy.Decide.Autonomy.{IsTraced, is_stopped, ai_action, ai-IsTraced}

IsTraced-of :
    (m : Message) (db y y' : PolicyDb) (d d' : PolicyDecision)
    → d ≡ d'
    → y ≡ y'
    → IsTraced 1 m db y d
    → IsTraced 1 m db y' d'
IsTraced-of m db y y' d d' e f h = rw (← e, ← f) h

-- The decision on the message of an event, by the policy of the event's tenant at the instant `now`.
pub record IsDecided (env : Environment) (event_id now : ℕ) (db next : PolicyDb)
    (d : PolicyDecision) : Type 0 where
  pub event : ChannelInboundEvent
  pub message_id : ℕ
  pub message : Message
  pub policy : EffectiveTenantPolicy
  pub found : event_of db event_id ≡ some event
  pub linked : event.message_id ≡ some message_id
  pub message_found : message_of db event message_id ≡ some message
  pub loaded : load_effective_tenant_policy env db event.tenant_id ≡ ok policy
  pub action : d.action ≡ (
      if is_stopped policy (env.casefold (text_or_empty message.text)) (
        is_within_business_hours policy.business_hours
          (env.local_time policy.timezone now).0
          (env.local_time policy.timezone now).1)
      then handoff
      else allow)
  pub traces : IsTraced 1 message db next d

-- The decision on an event without a message: nothing is written.
abbrev pub IsPassed : ℕ → (db next : PolicyDb) → PolicyDecision → Type 0
IsPassed event_id db next d =
    (event : ChannelInboundEvent) × (event_of db event_id ≡ some event)
    × (event.message_id ≡ none)
    × (d ≡ no_message)
    × (next ≡ db)

-- A decision on an event without a message is to allow, and nothing is written. For any other
-- event, the policy in force of its tenant decides on its message: the agent may answer unless
-- the policy is enabled and the hours, the mode or a keyword of the message hands the
-- conversation over. The decision leaves a trace of its own as the last one, after at most one
-- other of the same message, and changes nothing else.
pub evaluate_ai_event-IsDecided :
    (env : Environment) (event_id now : ℕ) (db next : PolicyDb) (d : PolicyDecision)
    → evaluate_ai_event env event_id now db ≡ ok (d, next)
    → IsPassed event_id db next d ⊎ IsDecided env event_id now db next d
unfolding evaluate_ai_event
evaluate_ai_event-IsDecided env event_id now db next d e =
    elim (Option-cases (event_of db event_id)) [
      | inl n ↦ absurd (err≢ok (rw (n, evaluate_ai_event) at e))
      | inr (event, f) ↦ elim (Option-cases event.message_id) [
        | inl n ↦
            let (same, after) = ok_parts refl (rw (f, evaluate_ai_event, n) at e) in
            inl (event, f, n, sym same, sym after)
        | inr (i, g) ↦ elim (Option-cases (message_of db event i)) [
          | inl n ↦ absurd (err≢ok (rw (f, evaluate_ai_event, g, n) at e))
          | inr (m, h) ↦
              elim (Option-cases (
                find (λ c. c.id == m.conversation_id && c.tenant_id == event.tenant_id)
                  db.conversations)) [
                    | inl n ↦ absurd (err≢ok (rw (f, evaluate_ai_event, g, h, n) at e))
                    | inr (c, k) ↦
                        let (policy, loaded, last) =
                          bind_ok (load_effective_tenant_policy env db event.tenant_id) _ (d, next)
                            (rw (f, evaluate_ai_event, g, h, k) at e) in
                        let (same, after) = ok_parts refl last in
                        let text = env.casefold (text_or_empty m.text) in
                        let at = env.local_time policy.timezone now in
                        let within = is_within_business_hours policy.business_hours at.0 at.1 in
                        inr (record {
                          event = event;
                          message_id = i;
                          message = m;
                          policy = policy;
                          found = f;
                          linked = g;
                          message_found = h;
                          loaded = loaded;
                          action =
                              ap (λ x. x.action) (sym same) ∙ ai_action m policy text within db;
                          traces =
                              IsTraced-of m db _ next _ d same after
                                (ai-IsTraced m policy text within db);
                        })
                  ]
        ]
      ]
    ]
