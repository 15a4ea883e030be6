-- ===== src/ChannelModels.antt =====
-- Accounts of channels and what belongs to them (apps/api/src/customers_manager_hub/channel_models.py),
-- less the times of the rows.
use customers_manager_hub.Prelude.{ℕ, String, Bool, Option}

pub data ChannelType : Type 0 where
  telegram website : ChannelType

pub data ChannelCapability : Type 0 where
  text_capability voice_capability outbound_text : ChannelCapability

pub data ChannelCredentialKind : Type 0 where
  telegram_bot_token telegram_webhook_secret : ChannelCredentialKind

-- The checks of the table bound `channel_type`.
pub record ChannelAccount : Type 0 where
  pub id : ℕ
  pub tenant_id : ℕ
  pub channel_type : ChannelType
  pub name : String
  pub external_account_id : String
  pub external_username : Option String
  pub is_active : Bool

-- The ciphertext, the nonce and the version of the key are one text.
pub record ChannelCredential : Type 0 where
  pub tenant_id : ℕ
  pub channel_account_id : ℕ
  pub kind : ChannelCredentialKind
  pub sealed_secret : String

pub record ChannelAccountCapability : Type 0 where
  pub channel_account_id : ℕ
  pub capability : ChannelCapability
  pub tenant_id : ℕ
  pub enabled : Bool

pub record ConversationChannelBinding : Type 0 where
  pub id : ℕ
  pub tenant_id : ℕ
  pub conversation_id : ℕ
  pub channel_account_id : ℕ
  pub external_thread_id : String
