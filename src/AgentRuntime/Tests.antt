-- ===== src/AgentRuntime/Tests.antt =====
-- The answering of a message and its theorems at concrete inputs.
use customers_manager_hub.Prelude.{
  ◌≤◌, ◌≡◌, refl, String, none, some, List, [], ◌∷◌, All, arith, find, any,
}
use customers_manager_hub.Prelude.Result.{ok, err}
use customers_manager_hub.Prelude.Table.{has_key, update_row, update_if}
use customers_manager_hub.Prelude.Text.{size}
use customers_manager_hub.Json.{string, object, Fields, end_fields, field}
use customers_manager_hub.Models.{Message, inbound, customer, text_message}
use customers_manager_hub.AgentModels.{AgentRun}
use customers_manager_hub.AgentRuntime.{transient, AgentRunClaim}
use customers_manager_hub.AgentRuntime.Lease.{
  run_key, with_lease, try_claim, claim_refused, complete_run, completed,
}
use customers_manager_hub.AgentRuntime.Lease.Fencing.{
  IsFenced, old_claim-IsFenced, lease_exclusive, lease_expires,
}
use customers_manager_hub.AgentRuntime.Lease.Reachable.{
  IsSound, claimed, leasing, created, Reached, empty, then_step, reached-IsSound,
}
use customers_manager_hub.AgentRuntime.Lease.Refined.{Follows, leases_refine}
use customers_manager_hub.Prelude.Table.Pointwise.{Pointwise}
use customers_manager_hub.AgentRuntime.Resolve.{new_run, insert_run}
use customers_manager_hub.AgentRuntime.Context.{history_text}
use customers_manager_hub.AgentRuntime.Context.Budget.{history_text-le}
use customers_manager_hub.AgentRuntime.Decision.{
  tool_request, structured_tool_decision, decision_from,
}

abbrev run : AgentRun
run = new_run 11 7 8 9 6 3 20

abbrev old : AgentRunClaim
old = record { run_id = 11; lease_token = 4 }

abbrev held : List AgentRun
held = with_lease 5 1000000 run ∷ []

claimed_run : try_claim 11 1000000 5 (run ∷ []) ≡ some held
unfolding try_claim find update_row update_if
claimed_run = refl

old_claim-IsFenced_example : IsFenced old held
old_claim-IsFenced_example =
    old_claim-IsFenced old 1000000 5 (run ∷ []) held claimed_run (λ h. absurd (omega arith))

lease_exclusive_example :
    (try_claim 11 2000000 6 held ≡ none)
    × (claim_refused 11 held ≡ err (transient "agent_run_busy"))
lease_exclusive_example =
    lease_exclusive 11 5 1000000 2000000 6 (run ∷ []) held claimed_run (omega arith)

abbrev dead : AgentRun
dead = with_lease 4 1000000 run

lease_expires_example :
    (next : List AgentRun) × (done : List AgentRun) × (try_claim 11 200000000 5 (dead ∷ [])
      ≡ some next)
    × (complete_run (record { run_id = 11; lease_token = 5 }) 21 next ≡ ok done)
    × (find (has_key run_key 11) done ≡ some (completed 21 dead))
unfolding find
lease_expires_example = lease_expires 11 200000000 5 21 (dead ∷ []) dead refl refl refl

steps : Reached held
unfolding insert_run any try_claim find update_row
steps =
    then_step (then_step empty (created 11 7 8 9 6 3 20 refl))
      (leasing (claimed 11 1000000 5 claimed_run))

reached-IsSound_example : All IsSound held
reached-IsSound_example = reached-IsSound held steps

leases_refine_example : Pointwise Follows (run ∷ []) held
unfolding insert_run any
leases_refine_example =
    leases_refine (run ∷ []) held (then_step empty (created 11 7 8 9 6 3 20 refl))
      (claimed 11 1000000 5 claimed_run)

abbrev question : Message
question = record {
  id = 20;
  tenant_id = 7;
  conversation_id = 3;
  external_identity_id = none;
  direction = inbound;
  author_type = customer;
  message_type = text_message;
  text = some "Where is my order?";
  external_message_id = none;
  idempotency_key = none;
  external_metadata = end_fields;
  occurred_at = 50;
}

history_text-le_example : size (history_text (λ s. s) (λ m. 0) 30 (question ∷ question ∷ [])) ≤ 30
history_text-le_example = history_text-le (λ s. s) (λ m. 0) 30 (question ∷ question ∷ [])

abbrev names : List String
names = "shop.lookup" ∷ []

abbrev arguments : Fields
arguments = field "order" (string "17") end_fields

abbrev payload : Fields
payload = field "action" (string "tool_call") (
    field "text" (string "")
      (field "tool_name" (string "shop.lookup") (field "arguments" (object arguments) end_fields)))

decided : structured_tool_decision names (some payload) ≡ ok (tool_request "shop.lookup" arguments)
unfolding structured_tool_decision decision_from any
decided = refl
