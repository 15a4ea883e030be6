-- ===== src/AgentRuntime/Process/Tests.antt =====
-- An answer with a tool, and a whole event, in a small environment.
use customers_manager_hub.Prelude.{
  ℕ, zero, suc, ◌+◌, ◌≤◌, ◌≡◌, ◌≢◌, refl, Bool, true, false, Option, none, some, List, [], ◌∷◌, All,
  arith, find, any,
}
use customers_manager_hub.Prelude.Result.{ok}
use customers_manager_hub.Prelude.Table.{update_if, update_row}
use customers_manager_hub.Json.{string, object, Fields, end_fields, field}
use customers_manager_hub.Models.{
  Message, Conversation, open_status, inbound, customer, text_message,
}
use customers_manager_hub.AgentModels.{
  Agent, AgentChannelAssignment, AgentPromptVersion, published, AgentRun, ChannelInboundEvent,
  received,
}
use customers_manager_hub.ChannelModels.{telegram}
use customers_manager_hub.PolicyModels.{read, low}
use customers_manager_hub.ToolModels.{ModelToolDefinition, succeeded}
use customers_manager_hub.Handoff.{is_conversation_ai_paused}
use customers_manager_hub.AgentRuntime.{permanent, AgentDb, AgentRunSnapshot, AgentRunClaim}
use customers_manager_hub.AgentRuntime.Lease.{
  try_claim, renew_run_lease, persist_generated_text, complete_run, with_lease, is_held, failed_run,
  release_run_error,
}
use customers_manager_hub.AgentRuntime.Resolve.{
  new_run, load_run_snapshot, insert_run, assigned_agent, insert_or_join_run, is_answerable,
  resolve_or_create_run,
}
use customers_manager_hub.AgentRuntime.Resolve.Once.{resolve_again}
use customers_manager_hub.AgentRuntime.Environment.{
  with_lease_renewal, renewing, renew, State, GenerationResult, ToolService, Environment, on_runs,
}
use customers_manager_hub.AgentRuntime.Rounds.{generate_tool_aware_response, max_tool_calls}
use customers_manager_hub.AgentRuntime.Rounds.Offered.{answer-Ended}
use customers_manager_hub.AgentRuntime.Process.{answer_claimed, process_agent_event}
use customers_manager_hub.AgentRuntime.Process.Kept.{IsKept}
use customers_manager_hub.AgentRuntime.Process.Unpaused.{process-Keeps}
use customers_manager_hub.AgentRuntime.Process.Released.{answer_released}
use customers_manager_hub.Handoff.Escalation.{guard_ai_dispatch}
use customers_manager_hub.AgentRuntime.Decision.{validate_customer_response, has_nul}
use customers_manager_hub.Prelude.Text.{size}

-- What the worker has sent, each time with the state of the conversation, the numbers of the tools that
-- it has used, latest first, and the next id.
record World : Type 0 where
  sent : List Bool
  used : List ℕ
  next_id : ℕ

abbrev payload : Fields
payload = field "action" (string "tool_call") (
    field "text" (string "")
      (field "tool_name" (string "shop.lookup") (field "arguments" (object end_fields) end_fields)))

abbrev reply : GenerationResult
reply = record { text = "It is on its way."; structured = some payload }

abbrev env : Environment World
env = record {
  strip = λ s. s;
  casefold = λ s. s;
  dumps = λ j. "{}";
  str = λ n. "11";
  created_at = λ m. 0;
  platform_policy = "Be brief.";
  others = λ s. s;
  now = λ w. 100;
  uuid4 = λ w. (w.next_id, record w { next_id = w.next_id + 1 });
  intervals = λ s. 1;
  is_late = λ s. false;
  generate = λ t request s. (ok reply, s);
  memory_context = λ t c s. (ok "", s);
  knowledge = none;
  tools = none;
  dispatch_text = λ o s. (
    ok 60,
    record s {
      world = record s.world {
        sent = is_conversation_ai_paused s.db.handoff o.tenant_id o.conversation_id ∷ s.world.sent;
      };
    },
  );
  pause_uuid = λ s n. n;
  pause_others = λ s n h. h;
}

abbrev question : Message
question = record {
  id = 20;
  tenant_id = 7;
  conversation_id = 3;
  external_identity_id = none;
  direction = inbound;
  author_type = customer;
  message_type = text_message;
  text = some "Where is my order?";
  external_message_id = none;
  idempotency_key = none;
  external_metadata = end_fields;
  occurred_at = 50;
}

abbrev conversation : Conversation
conversation = record {
  id = 3;
  tenant_id = 7;
  contact_id = 2;
  status = open_status;
  subject = none;
  last_message_at = none;
}

abbrev event : ChannelInboundEvent
event = record {
  id = 30;
  tenant_id = 7;
  channel_account_id = 6;
  external_event_id = "1";
  event_type = "message";
  status = received;
  message_id = some 20;
  error_code = none;
  created_at = 50;
}

abbrev tables : AgentDb
tables = record {
  handoff = record {
    conversations = conversation ∷ [];
    messages = question ∷ [];
    events = event ∷ [];
    agent_runs = [];
    handoffs = [];
    policies = [];
    audit_events = [];
  };
  agents =
      record {
        id = 8;
        tenant_id = 7;
        prompt_id = 2;
        name = "Support";
        description = none;
        is_active = true;
      }
      ∷ [];
  assignments = record { id = 1; tenant_id = 7; agent_id = 8; channel_account_id = 6 } ∷ [];
  prompt_versions =
      record {
        id = 9;
        tenant_id = 7;
        prompt_id = 2;
        version = 1;
        status = published;
        content = "Help the customer.";
      }
      ∷ [];
  accounts =
      record {
        id = 6;
        tenant_id = 7;
        channel_type = telegram;
        name = "Bot";
        external_account_id = "55";
        external_username = none;
        is_active = true;
      }
      ∷ [];
}

abbrev start : State World
start = record { db = tables; world = record { sent = []; used = []; next_id = 11 } }

abbrev IsUnpaused : State World → Type 0
IsUnpaused s = All (λ b. b ≡ false) s.world.sent

none≢some : {A : Type 0} {a : A} → Option.none ≢ some a
none≢some h = cc

env-IsKept : IsKept IsUnpaused env
env-IsKept = record {
  others = λ s p. p;
  written = λ db s p. p;
  drawn = λ s p. p;
  generates = λ t request s p. p;
  remembers = λ t c s p. p;
  retrieves = λ retrieve t a text r e s p. absurd (none≢some e);
  lists = λ service t a e s p. absurd (none≢some e);
  executes = λ service call e s p. absurd (none≢some e);
}

-- The event is answered: one text is sent, while no human has the conversation.
sent_one : (process_agent_event env 30 start).1.world.sent ≡ false ∷ []
unfolding process_agent_event find resolve_or_create_run is_answerable any update_if
    load_run_snapshot update_row guard_ai_dispatch with_lease_renewal renewing renew try_claim
    renew_run_lease persist_generated_text complete_run validate_customer_response has_nul size
sent_one = refl

process-Keeps_example : IsUnpaused (process_agent_event env 30 start).1
process-Keeps_example =
    process-Keeps IsUnpaused env env-IsKept (λ o s free p. (free, p)) 30 start tt

-- The event is delivered twice.
abbrev joined : AgentDb
joined = record tables {
  handoff = record tables.handoff { agent_runs = new_run 11 7 8 9 6 3 20 ∷ [] };
}

resolved_once : resolve_or_create_run (λ s. s) 11 (λ d. d) 30 tables ≡ (ok (some 11), joined)
unfolding resolve_or_create_run is_answerable insert_or_join_run insert_run assigned_agent find any
resolved_once = refl

resolve_again_example :
    resolve_or_create_run (λ s. s) 12 (λ d. d) 30 joined ≡ (ok (some 11), joined)
resolve_again_example =
    resolve_again (λ s. s) 11 (λ d. d) 30 (λ d. refl) (λ d. refl) 11 tables joined resolved_once 12
      (λ d. d)

-- The run under a lease, of a channel that is gone.
abbrev claim : AgentRunClaim
claim = record { run_id = 11; lease_token = 5 }

abbrev gone : State World
gone = record start {
  db = record tables {
    accounts = [];
    handoff = record tables.handoff {
      agent_runs = with_lease 5 100 (new_run 11 7 8 9 6 3 20) ∷ [];
    };
  };
}

abbrev ended : AgentRun
ended = failed_run "agent_channel_unavailable" (new_run 11 7 8 9 6 3 20)

answer_released_example : is_held claim ended ≡ false
unfolding answer_claimed find load_run_snapshot on_runs release_run_error update_if update_row
answer_released_example =
    answer_released env claim gone (permanent "agent_channel_unavailable") ended refl refl refl

abbrev tool : ModelToolDefinition
tool = record {
  id = 70;
  qualified_name = "shop.lookup";
  description = "The state of an order.";
  operation_type = read;
  risk_level = low;
  input_schema = end_fields;
}

abbrev service : ToolService World
service = record {
  list_agent_tools = λ t a s. (ok (tool ∷ []), s);
  execute_agent_tool = λ call s. (
    ok (record {
      execution_id = 90;
      tool_name = call.qualified_name;
      status = succeeded;
      output = none;
      error_code = none;
    }),
    record s { world = record s.world { used = call.call_ordinal ∷ s.world.used } },
  );
}

abbrev snapshot : AgentRunSnapshot
snapshot = record {
  run_id = 11;
  tenant_id = 7;
  agent_id = 8;
  prompt_version_id = 9;
  channel_account_id = 6;
  channel_type = telegram;
  conversation_id = 3;
  inbound_message_id = 20;
  current_text = "Where is my order?";
  prompt_content = "Help the customer.";
  status = customers_manager_hub.AgentModels.pending;
  generated_text = none;
}

-- `k`, …, 2, 1
abbrev numbers : ℕ → List ℕ
numbers zero = []
numbers (suc k) = suc k ∷ numbers k

abbrev HasUsed : ℕ → State World → Type 0
HasUsed k s = s.world.used ≡ numbers k

next_number : (k : ℕ) (xs : List ℕ) → xs ≡ numbers k → (k + 1) ∷ xs ≡ numbers (k + 1)
next_number k xs h = let e : k + 1 ≡ suc k = omega arith in rw (e, h) refl

answer-Ended_example :
    (k : ℕ) × (k ≤ max_tool_calls)
    × HasUsed k
        (generate_tool_aware_response env service claim snapshot (tool ∷ []) "Hello" start).1
answer-Ended_example =
    answer-Ended HasUsed env service claim snapshot (tool ∷ []) (λ k s p. p) (λ k h s p. p)
      (λ k input s p. p) (λ k name arguments s few fits p. next_number k s.world.used p) "Hello"
      start refl
