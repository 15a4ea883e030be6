-- ===== src/Policy/Normalize.antt =====
-- What a policy's row must hold: the time zone, the message rules and the keywords.
pub mod Keywords
use text.Mathlib.Text.{◌==◌ as str_eq}
use customers_manager_hub.Prelude.{
  ℕ, String, Bool, true, false, ◌||◌, ltb, Option, none, some, List, [], ◌∷◌, ◌++◌, any, length,
  if◌then◌else◌,
}
use customers_manager_hub.Prelude.Result.{Result, ok, err, ◌>>=◌}
use customers_manager_hub.Prelude.Text.{size}
use customers_manager_hub.Json.{
  Json, null, boolean, number, string, array, object, Fields, end_fields, field,
}
use customers_manager_hub.Models.{
  MessageType, text_message, voice, audio, image, video, document, location, other,
}
use customers_manager_hub.PolicyModels.{
  PolicyMessageAction, allow_message, deny_message, handoff_message,
}

-- The `ValueError`s of the other parts.
pub data RowError : Type 0 where
  timezone_size timezone_unknown message_type_unknown message_action_invalid : RowError
  too_many_keywords keyword_size : RowError

-- `MessageType(raw_type)`
abbrev pub message_type_of : String → Option MessageType
message_type_of s =
    if str_eq s "text"
    then some text_message
    else if str_eq s "voice"
    then some voice
    else if str_eq s "audio"
    then some audio
    else if str_eq s "image"
    then some image
    else if str_eq s "video"
    then some video
    else if str_eq s "document"
    then some document
    else if str_eq s "location"
    then some location
    else if str_eq s "other"
    then some other
    else none

-- `PolicyMessageAction(raw_action)`
abbrev pub message_action_of : Json → Option PolicyMessageAction
message_action_of (string s) =
    if str_eq s "allow"
    then some allow_message
    else if str_eq s "deny"
    then some deny_message
    else if str_eq s "handoff"
    then some handoff_message
    else none
message_action_of _ = none

-- `normalize_message_rules`, and `_parse_message_rules` of it: the names of an enumeration stand for its
-- values.
unfoldable pub normalize_message_rules :
    Fields → Result RowError (List (MessageType × PolicyMessageAction))
normalize_message_rules end_fields = ok []
normalize_message_rules (field raw_type raw_action rest) = elim (message_type_of raw_type) [
  | none ↦ err message_type_unknown
  | some t ↦ elim (message_action_of raw_action) [
    | none ↦ err message_action_invalid
    | some a ↦ normalize_message_rules rest >>= λ rules. ok ((t, a) ∷ rules)
  ]
]

module _ (strip casefold : String → String) (is_zone : String → Bool) where
  -- `normalize_policy_timezone`; `is_zone` says which names `ZoneInfo` knows.
  unfoldable pub normalize_policy_timezone : String → Result RowError String
  normalize_policy_timezone value =
      let normalized = strip value in
      if str_eq normalized "" || ltb 100 (size normalized)
      then err timezone_size
      else if is_zone normalized
      then ok normalized
      else err timezone_unknown

  -- The loop of `normalize_handoff_keywords`; `seen` is `normalized` as a set.
  unfoldable pub normalize_each : List String → List String → Result RowError (List String)
  normalize_each normalized [] = ok normalized
  normalize_each normalized (raw ∷ rest) =
      let x = casefold (strip raw) in
      let kept = normalize_each normalized rest in
      let added = normalize_each (normalized ++ x ∷ []) rest in
      if str_eq x "" || ltb 80 (size x)
      then err keyword_size
      else if any (str_eq x) normalized
      then kept
      else added

  -- `normalize_handoff_keywords`
  unfoldable pub normalize_handoff_keywords : List String → Result RowError (List String)
  unfolding normalize_each
  normalize_handoff_keywords value =
      if ltb 50 (length value) then err too_many_keywords else normalize_each [] value
