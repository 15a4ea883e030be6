-- ===== src/Models.antt =====
-- Shared tables: the audit log, conversations and messages (apps/api/src/customers_manager_hub/models.py).
-- A UUID is a number, a timestamp the number of microseconds since a fixed date, in UTC.
use customers_manager_hub.Json.{Fields}
use customers_manager_hub.Prelude.{ℕ, String, Bool, Option, List}

-- A value of the JSON object `details`; `ident` is the text of a UUID, `nothing` is null.
pub data Detail : Type 0 where
  text : String → Detail
  number : ℕ → Detail
  flag : Bool → Detail
  ident : ℕ → Detail
  nothing : Detail

pub record AuditEvent : Type 0 where
  pub tenant_id : Option ℕ
  pub actor_user_id : Option ℕ
  pub action : String
  pub target_type : String
  pub target_id : Option ℕ
  pub details : List (String × Detail)

pub data MessageDirection : Type 0 where
  inbound outbound internal : MessageDirection

pub data MessageAuthorType : Type 0 where
  customer human ai system : MessageAuthorType

pub data MessageType : Type 0 where
  text_message voice audio image video document location other : MessageType

pub data TenantRole : Type 0 where
  owner admin supervisor agent analyst viewer : TenantRole

pub data ConversationStatus : Type 0 where
  open_status resolved_status closed_status : ConversationStatus

-- Rows less their times: a contact, a conversation and an external identity.
pub record Contact : Type 0 where
  pub id : ℕ
  pub tenant_id : ℕ
  pub display_name : Option String
  pub is_active : Bool

pub record Conversation : Type 0 where
  pub id : ℕ
  pub tenant_id : ℕ
  pub contact_id : ℕ
  pub status : ConversationStatus
  pub subject : Option String
  pub last_message_at : Option ℕ

pub record ExternalIdentity : Type 0 where
  pub id : ℕ
  pub tenant_id : ℕ
  pub contact_id : ℕ
  pub namespace : String
  pub external_id : String
  pub display_name : Option String

-- A row of `messages`, less created_at.
pub record Message : Type 0 where
  pub id : ℕ
  pub tenant_id : ℕ
  pub conversation_id : ℕ
  pub external_identity_id : Option ℕ
  pub direction : MessageDirection
  pub author_type : MessageAuthorType
  pub message_type : MessageType
  pub text : Option String
  pub external_message_id : Option String
  pub idempotency_key : Option String
  pub external_metadata : Fields
  pub occurred_at : ℕ

-- A row of `message_attachments`, less created_at.
pub record MessageAttachment : Type 0 where
  pub id : ℕ
  pub tenant_id : ℕ
  pub message_id : ℕ
  pub media_type : String
  pub mime_type : Option String
  pub filename : Option String
  pub size_bytes : Option ℕ
  pub external_media_id : Option String
  pub storage_key : Option String
  pub media_metadata : Fields
