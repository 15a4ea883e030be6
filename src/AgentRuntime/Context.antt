-- ===== src/AgentRuntime/Context.antt =====
-- What a model is given: `build_conversation_input`, `channel_instruction` and `compose_instructions`.
pub mod Budget
use Prim.Native.String.{◌++◌ as ◌<>◌}
use text.Mathlib.Text.{◌==◌ as str_eq}
use customers_manager_hub.Prelude.{
  ℕ, zero, suc, ◌+◌, ◌-◌, String, Bool, true, false, ◌&&◌, ◌||◌, ◌==◌, not, ltb, leb, Option, none,
  some, is_some, List, [], ◌∷◌, filter, if◌then◌else◌,
}
use customers_manager_hub.Prelude.Sort.{sort}
use customers_manager_hub.Prelude.Text.{size, truncate, join}
use customers_manager_hub.Models.{Message, MessageAuthorType, customer, human, ai, system}
use customers_manager_hub.ChannelModels.{ChannelType, telegram, website}

-- `_CONTEXT_MESSAGE_LIMIT`, `_CONTEXT_HISTORY_CHAR_BUDGET` and `_CONTEXT_SINGLE_MESSAGE_LIMIT`
abbrev pub context_message_limit : ℕ
context_message_limit = 20

abbrev pub context_history_char_budget : ℕ
context_history_char_budget = 24000

abbrev pub context_single_message_limit : ℕ
context_single_message_limit = 4000

-- `_history_label`; the type bounds the column.
abbrev pub history_label : MessageAuthorType → String
history_label customer = "CUSTOMER"
history_label human = "HUMAN"
history_label ai = "AI"
history_label system = "SYSTEM"

abbrev pub take_first : {A : Type 0} → ℕ → List A → List A
take_first zero xs = []
take_first (suc n) [] = []
take_first (suc n) (x ∷ xs) = x ∷ take_first n xs

abbrev pub text_or_empty : Option String → String
text_or_empty none = ""
text_or_empty (some s) = s

abbrev pub separator_cost : List String → ℕ
separator_cost [] = 0
separator_cost (x ∷ xs) = 1

-- The newest message is cut to the budget where nothing stands yet.
abbrev pub or_cut : List String → String → List String
or_cut [] cut = cut ∷ []
or_cut (x ∷ xs) cut = x ∷ xs

abbrev pub history_of : ℕ → List String → String
history_of budget [] = truncate budget "(no prior text messages)"
history_of budget (x ∷ xs) = join "\n" (x ∷ xs)

-- `strip` is Python's; `created_at` is the column that the server fills.
module _ (strip : String → String) (created_at : Message → ℕ) where
  -- `ORDER BY occurred_at DESC, created_at DESC, id DESC`
  abbrev pub is_later_message : Message → Message → Bool
  is_later_message x y =
      ltb y.occurred_at x.occurred_at
      || x.occurred_at == y.occurred_at
        && (ltb (created_at y) (created_at x) || created_at x == created_at y && ltb y.id x.id)

  -- The last messages of a conversation with a text, latest first.
  unfoldable pub recent_messages : (t c current : ℕ) → List Message → List Message
  recent_messages t c current messages = take_first context_message_limit (
      sort is_later_message (
        filter
          (λ m.
            m.tenant_id == t && m.conversation_id == c && not (m.id == current) && is_some m.text)
          messages))

  abbrev pub snippet_of : Message → String
  snippet_of m =
      history_label m.author_type
      <> ": "
      <> truncate context_single_message_limit (strip (text_or_empty m.text))

  -- The loop over the messages. `selected` is the reverse of `selected_latest_first`, and `used` its
  -- length with the separators.
  unfoldable pub select_history :
      (budget : ℕ) → List Message → (selected : List String) → (used : ℕ) → List String
  select_history budget [] selected used = selected
  select_history budget (m ∷ rest) selected used =
      let cost = used + separator_cost selected in
      let snippet = snippet_of m in
      let skip = select_history budget rest selected used in
      let more = select_history budget rest (snippet ∷ selected) (cost + size snippet) in
      if str_eq (strip (text_or_empty m.text)) ""
      then skip
      else if leb budget cost
      then selected
      else if ltb (budget - cost) (size snippet)
      then or_cut selected (truncate (budget - cost) snippet)
      else more

  -- `history_text`
  unfoldable pub history_text : (budget : ℕ) → List Message → String
  unfolding select_history
  history_text budget recent = history_of budget (select_history budget recent [] 0)

  -- `build_conversation_input`
  unfoldable pub build_conversation_input :
      (t c current : ℕ) → String → (budget : ℕ) → List Message → String
  unfolding history_text recent_messages
  build_conversation_input t c current current_text budget messages =
      "Conversation history (oldest to newest):\n"
      <> history_text budget (recent_messages t c current messages)
      <> "\n\nCurrent customer message:\nCUSTOMER: "
      <> strip current_text

-- `channel_instruction`; no other type of channel is in the table.
abbrev pub channel_instruction : ChannelType → String
channel_instruction telegram =
    "Channel: Telegram private chat. Return plain text only. The final response must be no longer than 4096 characters."
channel_instruction website =
    "Channel: Website chat. Return plain text only. The final response must be no longer than 4096 characters."

-- `compose_instructions`; `policy` is `_PLATFORM_RUNTIME_POLICY`.
unfoldable pub compose_instructions : (String → String) → String → String → ChannelType → String
compose_instructions strip policy prompt_content channel_type = join "\n\n" (
    ("[PLATFORM RUNTIME POLICY]\n" <> policy)
    ∷ ("[TENANT PUBLISHED PROMPT]\n" <> strip prompt_content)
    ∷ ("[CHANNEL INSTRUCTIONS]\n" <> channel_instruction channel_type)
    ∷ [])
