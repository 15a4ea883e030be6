-- ===== src/Conversations/Tests.antt =====
-- Creating messages, at concrete inputs.
use customers_manager_hub.Prelude.{◌≡◌, refl, none, some, [], ◌∷◌, any, find, count, map, arith}
use customers_manager_hub.Prelude.Result.{ok}
use customers_manager_hub.Prelude.Table.{update_row}
use customers_manager_hub.Json.{end_fields}
use customers_manager_hub.Models.{
  agent, Conversation, open_status, Message, inbound, customer, text_message,
}
use customers_manager_hub.Conversations.{
  ConversationsDb, MessageCreate, message_of, insert_message, check_request, insert_or_join,
  create_message,
}
use customers_manager_hub.Conversations.Creation.{sent_again}
use customers_manager_hub.Conversations.Unique.{HasUniqueKeys, create-HasUniqueKeys}

abbrev conversation : Conversation
conversation = record {
  id = 3;
  tenant_id = 7;
  contact_id = 2;
  status = open_status;
  subject = none;
  last_message_at = some 10;
}

abbrev db : ConversationsDb
db = record { conversations = conversation ∷ []; identities = []; messages = []; attachments = [] }

abbrev payload : MessageCreate
payload = record {
  external_identity_id = none;
  direction = inbound;
  author_type = customer;
  message_type = text_message;
  text = some "hello";
  external_message_id = none;
  idempotency_key = some "k";
  metadata = end_fields;
  occurred_at = some 20;
  attachments = [];
}

abbrev written : Message
written = message_of 40 7 3 20 payload

abbrev next : ConversationsDb
next = record db {
  messages = written ∷ [];
  conversations = record conversation { last_message_at = some 20 } ∷ [];
}

first_run : create_message 40 50 (λ d. d) agent 7 3 payload db ≡ (ok written, next)
unfolding create_message check_request insert_or_join insert_message any find update_row
first_run = refl

second_check :
    check_request agent 7 3 payload next ≡ ok (record conversation { last_message_at = some 20 })
unfolding check_request find
second_check = refl

sent_again_example : create_message 41 60 (λ d. d) agent 7 3 payload next ≡ (ok written, next)
sent_again_example =
    sent_again 40 41 50 60 (λ d. d) (λ d. d) agent agent 7 3 payload db next "k" written
      (record conversation { last_message_at = some 20 }) refl first_run second_check

db_unique : HasUniqueKeys db.messages
unfolding count
db_unique k = omega arith

create-HasUniqueKeys_example :
    HasUniqueKeys (create_message 40 50 (λ d. d) agent 7 3 payload db).1.messages
create-HasUniqueKeys_example =
    create-HasUniqueKeys 40 50 (λ d. d) agent 7 3 payload db (λ d h. h) db_unique

-- Another transaction commits a message of time 90 after the conversation is loaded; the time of the last
-- message then goes back to 20.
abbrev meanwhile : ConversationsDb → ConversationsDb
meanwhile d = record d { conversations = record conversation { last_message_at = some 90 } ∷ [] }

goes_back :
    map
      (λ c. c.last_message_at)
      (create_message 40 50 meanwhile agent 7 3 payload db).1.conversations
    ≡ some 20 ∷ []
unfolding create_message check_request insert_or_join insert_message any find update_row
goes_back = refl
