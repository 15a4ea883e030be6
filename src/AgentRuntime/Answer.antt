-- ===== src/AgentRuntime/Answer.antt =====
-- The text of an answer: what it is made from, and the model's answer with or without tools.
use Prim.Native.String.{◌++◌ as ◌<>◌}
use text.Mathlib.Text.{◌==◌ as str_eq}
use customers_manager_hub.Prelude.{String, none, some, List, [], ◌∷◌, if◌then◌else◌}
use customers_manager_hub.ToolModels.{ModelToolDefinition}
use customers_manager_hub.AgentRuntime.{AgentDb, AgentRunSnapshot, AgentRunClaim}
use customers_manager_hub.AgentRuntime.Context.{
  build_conversation_input, context_history_char_budget, compose_instructions,
}
use customers_manager_hub.AgentRuntime.Decision.{validate_customer_response}
use customers_manager_hub.AgentRuntime.Environment.{
  M, ◌>>=◌, pure, lift, ToolService, Environment, begin, with_lease_renewal,
}
use customers_manager_hub.AgentRuntime.Rounds.{generate_tool_aware_response}

-- `model_input += "\n\n" + context`, where there is a context.
abbrev pub with_context : String → String → String
with_context input context = if str_eq context "" then input else input <> "\n\n" <> context

module _ {W : Type 0} (env : Environment W) where
  open env use {
    strip, str, created_at, platform_policy, others, now, uuid4, generate, memory_context,
    knowledge,
  }

  abbrev pub conversation_input : AgentRunSnapshot → AgentDb → String
  conversation_input snapshot db =
      build_conversation_input strip created_at snapshot.tenant_id snapshot.conversation_id
        snapshot.inbound_message_id snapshot.current_text context_history_char_budget
        db.handoff.messages

  module _ (claim : AgentRunClaim) where
    -- The context of the knowledge base, where there is one.
    unfoldable pub knowledge_context : AgentRunSnapshot → M W String
    knowledge_context snapshot = elim knowledge [
      | none ↦ pure ""
      | some retrieve ↦
          with_lease_renewal env claim
            (retrieve snapshot.tenant_id snapshot.agent_id snapshot.current_text snapshot.run_id)
    ]

    -- An answer without tools.
    unfoldable pub plain_answer : AgentRunSnapshot → String → M W String
    plain_answer snapshot input =
        with_lease_renewal env claim (
          generate snapshot.tenant_id (record {
            input_text = input;
            instructions =
                compose_instructions strip platform_policy snapshot.prompt_content
                  snapshot.channel_type;
            json_schema = none;
            schema_name = none;
            message_id = snapshot.inbound_message_id;
          }))
        >>= λ r. lift (validate_customer_response strip r.text)

    -- An answer with the tools that are listed, if any.
    unfoldable pub listed_answer :
        ToolService W → AgentRunSnapshot → String → List ModelToolDefinition → M W String
    listed_answer service snapshot input [] = plain_answer snapshot input
    listed_answer service snapshot input (t ∷ ts) =
        generate_tool_aware_response env service claim snapshot (t ∷ ts) input

    unfoldable pub answer_input : AgentRunSnapshot → String → M W String
    unfolding plain_answer listed_answer
    answer_input snapshot input = elim env.tools [
      | none ↦ plain_answer snapshot input
      | some service ↦
          service.list_agent_tools snapshot.tenant_id snapshot.agent_id
          >>= listed_answer service snapshot input
    ]

    -- The text of a run that has none yet: its input is the conversation, the memory of the customer and the
    -- knowledge.
    unfoldable pub answer_with_memory : AgentRunSnapshot → AgentDb → String → M W String
    unfolding knowledge_context answer_input
    answer_with_memory snapshot db memory = knowledge_context snapshot >>= λ context.
        answer_input snapshot
          (with_context (with_context (conversation_input snapshot db) memory) context)

    unfoldable pub answer_with_messages : AgentRunSnapshot → AgentDb → M W String
    unfolding answer_with_memory
    answer_with_messages snapshot db =
        memory_context snapshot.tenant_id snapshot.conversation_id
        >>= answer_with_memory snapshot db

    unfoldable pub produce_text : AgentRunSnapshot → M W String
    unfolding answer_with_messages
    produce_text snapshot = begin env >>= answer_with_messages snapshot
