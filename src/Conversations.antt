-- ===== src/Conversations.antt =====
-- Messages of a conversation (apps/api/src/customers_manager_hub/conversations.py): creating one, once
-- for each idempotency key.
mod Tests
pub mod Creation
pub mod Unique
use text.Mathlib.Text.{◌==◌ as str_eq}
use customers_manager_hub.Prelude.{
  ℕ, String, Bool, true, false, ◌&&◌, ◌||◌, ◌==◌, ltb, Option, none, some, List, [], ◌∷◌, ◌++◌, any,
  find, if◌then◌else◌,
}
use customers_manager_hub.Prelude.Result.{Result, ok, err, ◌>>=◌, ◌>>◌}
use customers_manager_hub.Prelude.Table.{update_row}
use customers_manager_hub.Json.{Fields}
use customers_manager_hub.Models.{
  TenantRole, owner, admin, supervisor, agent, analyst, viewer, Conversation, ExternalIdentity,
  Message, MessageAttachment, MessageDirection, inbound, outbound, internal, MessageAuthorType,
  customer, human, ai, system, MessageType, text_message, voice, audio, image, video, document,
  location, other,
}

pub record ConversationsDb : Type 0 where
  pub conversations : List Conversation
  pub identities : List ExternalIdentity
  pub messages : List Message
  pub attachments : List MessageAttachment

-- The `HTTPException`s, and an `IntegrityError` that is raised again.
pub data ConversationError : Type 0 where
  forbidden conversation_not_found identity_not_found : ConversationError
  idempotency_conflict integrity_error : ConversationError

-- `MessageAttachmentCreate`, validated; `id` is the uuid4 of its row.
pub record MessageAttachmentCreate : Type 0 where
  pub id : ℕ
  pub media_type : String
  pub mime_type : Option String
  pub filename : Option String
  pub size_bytes : Option ℕ
  pub external_media_id : Option String
  pub storage_key : Option String
  pub metadata : Fields

-- `MessageCreate`, validated
pub record MessageCreate : Type 0 where
  pub external_identity_id : Option ℕ
  pub direction : MessageDirection
  pub author_type : MessageAuthorType
  pub message_type : MessageType
  pub text : Option String
  pub external_message_id : Option String
  pub idempotency_key : Option String
  pub metadata : Fields
  pub occurred_at : Option ℕ
  pub attachments : List MessageAttachmentCreate

-- `WriteRole`
abbrev pub is_write_role : TenantRole → Bool
is_write_role owner = true
is_write_role admin = true
is_write_role supervisor = true
is_write_role agent = true
is_write_role analyst = false
is_write_role viewer = false

abbrev pub same_id : Option ℕ → Option ℕ → Bool
same_id none none = true
same_id (some a) (some b) = a == b
same_id _ _ = false

abbrev pub same_text : Option String → Option String → Bool
same_text none none = true
same_text (some a) (some b) = str_eq a b
same_text _ _ = false

-- The value of an enumeration, as a number.
abbrev pub direction_code : MessageDirection → ℕ
direction_code inbound = 0
direction_code outbound = 1
direction_code internal = 2

abbrev pub author_code : MessageAuthorType → ℕ
author_code customer = 0
author_code human = 1
author_code ai = 2
author_code system = 3

abbrev pub type_code : MessageType → ℕ
type_code text_message = 0
type_code voice = 1
type_code audio = 2
type_code image = 3
type_code video = 4
type_code document = 5
type_code location = 6
type_code other = 7

-- `load_conversation`
abbrev pub load_conversation : ConversationsDb → ℕ → ℕ → Result ConversationError Conversation
load_conversation db tenant_id conversation_id =
    elim (find (λ c. c.id == conversation_id && c.tenant_id == tenant_id) db.conversations) [
      | none ↦ err conversation_not_found
      | some c ↦ ok c
    ]

-- `validate_external_identity`
abbrev pub validate_external_identity :
    ConversationsDb → (tenant_id contact_id : ℕ) → Option ℕ → Result ConversationError (Unit {0})
validate_external_identity db tenant_id contact_id none = ok tt
validate_external_identity db tenant_id contact_id (some i) =
    elim (find (λ x. x.id == i && x.tenant_id == tenant_id && x.contact_id == contact_id)
      db.identities) [ none ↦ err identity_not_found | some _ ↦ ok tt ]

abbrev pub has_idempotency_key : ℕ → String → Message → Bool
has_idempotency_key tenant_id key m =
    m.tenant_id == tenant_id && same_text m.idempotency_key (some key)

-- `load_message_by_idempotency_key`
abbrev pub load_message_by_idempotency_key : ConversationsDb → ℕ → String → Option Message
load_message_by_idempotency_key db tenant_id key =
    find (has_idempotency_key tenant_id key) db.messages

-- `message_identity_matches`
unfoldable pub message_identity_matches : Message → MessageCreate → ℕ → Bool
message_identity_matches m payload conversation_id =
    m.conversation_id == conversation_id
    && same_id m.external_identity_id payload.external_identity_id
    && direction_code m.direction == direction_code payload.direction
    && author_code m.author_type == author_code payload.author_type
    && type_code m.message_type == type_code payload.message_type
    && same_text m.external_message_id payload.external_message_id

-- The row of a payload.
abbrev pub message_of : (id tenant_id conversation_id occurred_at : ℕ) → MessageCreate → Message
message_of id tenant_id conversation_id occurred_at payload = record {
  id = id;
  tenant_id = tenant_id;
  conversation_id = conversation_id;
  external_identity_id = payload.external_identity_id;
  direction = payload.direction;
  author_type = payload.author_type;
  message_type = payload.message_type;
  text = payload.text;
  external_message_id = payload.external_message_id;
  idempotency_key = payload.idempotency_key;
  external_metadata = payload.metadata;
  occurred_at = occurred_at;
}

abbrev pub attachments_of : ℕ → ℕ → List MessageAttachmentCreate → List MessageAttachment
attachments_of tenant_id message_id [] = []
attachments_of tenant_id message_id (a ∷ rest) =
    record {
      id = a.id;
      tenant_id = tenant_id;
      message_id = message_id;
      media_type = a.media_type;
      mime_type = a.mime_type;
      filename = a.filename;
      size_bytes = a.size_bytes;
      external_media_id = a.external_media_id;
      storage_key = a.storage_key;
      media_metadata = a.metadata;
    }
    ∷ attachments_of tenant_id message_id rest

-- Whether a message has the key of a new one: `uq_messages_tenant_idempotency`, where a missing key is
-- like no other.
abbrev pub takes_key : ℕ → Option String → Message → Bool
takes_key tenant_id none m = false
takes_key tenant_id (some key) m = has_idempotency_key tenant_id key m

-- `INSERT` of a message: nothing where the primary key or the unique constraint refuses it.
unfoldable pub insert_message : Message → List Message → Option (List Message)
insert_message m messages =
    if any (λ x. x.id == m.id) messages || any (takes_key m.tenant_id m.idempotency_key) messages
    then none
    else some (messages ++ m ∷ [])

-- Whether a message is later than the last one that the loaded conversation knows.
abbrev pub is_later : Option ℕ → ℕ → Bool
is_later none at = true
is_later (some last) at = ltb last at

abbrev pub advance : Bool → ℕ → Conversation → Conversation
advance later at c = if later then record c { last_message_at = some at } else c

-- `payload.occurred_at or datetime.now(UTC)`
abbrev pub or_now : Option ℕ → ℕ → ℕ
or_now none now = now
or_now (some at) now = at

-- What a retry gets: the message of its key, where it is the same one.
abbrev pub same_or_conflict : Message → MessageCreate → ℕ → Result ConversationError Message
same_or_conflict m payload conversation_id =
    if message_identity_matches m payload conversation_id then ok m else err idempotency_conflict

-- The checks at the start of `create_message`.
unfoldable pub check_request :
    TenantRole
    → (tenant_id conversation_id : ℕ) → MessageCreate
    → ConversationsDb
    → Result ConversationError Conversation
check_request role tenant_id conversation_id payload db =
    if is_write_role role
    then (load_conversation db tenant_id conversation_id >>= λ c.
        validate_external_identity db tenant_id c.contact_id payload.external_identity_id >> ok c)
    else err forbidden

-- The insertion, after which the message is there or the session is rolled back. `committed` is what other
-- transactions have made of the tables since the conversation `c` was loaded.
unfoldable pub insert_or_join :
    (id tenant_id now : ℕ)
    → Conversation
    → MessageCreate
    → (committed : ConversationsDb) → Result ConversationError Message × ConversationsDb
unfolding insert_message
insert_or_join id tenant_id now c payload committed =
    let at = or_now payload.occurred_at now in
    let m = message_of id tenant_id c.id at payload in
    elim (insert_message m committed.messages) [
      | some messages ↦ (
        ok m,
        record committed {
          messages = messages;
          attachments = committed.attachments ++ attachments_of tenant_id id payload.attachments;
          conversations =
              update_row (λ x. x.id) c.id (advance (is_later c.last_message_at at) at)
                committed.conversations;
        },
      )
      | none ↦ elim payload.idempotency_key [
        | none ↦ (err integrity_error, committed)
        | some key ↦ elim (load_message_by_idempotency_key committed tenant_id key) [
          | none ↦ (err integrity_error, committed)
          | some raced ↦ (same_or_conflict raced payload c.id, committed)
        ]
      ]
    ]

-- `create_message`, up to its response
unfoldable pub create_message :
    (id now : ℕ) (others : ConversationsDb → ConversationsDb)
    → TenantRole
    → (tenant_id conversation_id : ℕ) → MessageCreate
    → ConversationsDb
    → Result ConversationError Message × ConversationsDb
unfolding check_request insert_or_join
create_message id now others role tenant_id conversation_id payload db =
    elim (check_request role tenant_id conversation_id payload db) [
      | err e ↦ (err e, db)
      | ok c ↦ elim payload.idempotency_key [
        | none ↦ insert_or_join id tenant_id now c payload (others db)
        | some key ↦ elim (load_message_by_idempotency_key db tenant_id key) [
          | some existing ↦ (same_or_conflict existing payload c.id, db)
          | none ↦ insert_or_join id tenant_id now c payload (others db)
        ]
      ]
    ]
