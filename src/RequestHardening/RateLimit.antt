-- ===== src/RequestHardening/RateLimit.antt =====
-- Counting requests in Redis: `match_rate_limit_rule`, the script and `RedisRateLimiter.check`.
pub mod Window
use Prim.Native.String.{◌++◌ as ◌<>◌}
use text.Mathlib.Text.{◌==◌ as str_eq, starts_with}
use customers_manager_hub.Prelude.{
  ℕ, max, String, Bool, true, false, ◌&&◌, not, ◌==◌, Option, none, some, List, [], ◌∷◌,
  if◌then◌else◌,
}
use customers_manager_hub.Prelude.Int.{ℤ, pos, pos_part, ◌-ℤ◌, leb_ℤ}
use customers_manager_hub.RequestHardening.{Request, Settings}

pub record RateLimitRule : Type 0 where
  pub name : String
  pub limit : ℕ
  pub window_seconds : ℕ

pub record RateLimitDecision : Type 0 where
  pub allowed : Bool
  pub limit : ℕ
  pub remaining : ℕ
  pub retry_after : ℕ

-- `match_rate_limit_rule`; `upper` is Python's.
unfoldable pub match_rate_limit_rule : (String → String) → Request → Settings → Option RateLimitRule
match_rate_limit_rule upper request settings =
    let method = upper request.method in
    let window = settings.rate_limit_window_seconds in
    if str_eq method "POST" && str_eq request.path "/api/v1/auth/login"
    then some (record {
      name = "auth-login";
      limit = settings.rate_limit_login_requests;
      window_seconds = window;
    })
    else if not (str_eq method "OPTIONS") && starts_with request.path "/api/v1/public/website/"
    then some (record {
      name = "website-public";
      limit = settings.rate_limit_public_requests;
      window_seconds = window;
    })
    else if str_eq method "POST" && starts_with request.path "/api/v1/webhooks/telegram/"
    then some (record {
      name = "telegram-webhook";
      limit = settings.rate_limit_webhook_requests;
      window_seconds = window;
    })
    else none

-- The commands of the script.
pub record Commands (S : Type 0) : Type 0 where
  pub incr : S → String → ℕ × S
  pub expire : S → String → ℕ → S
  pub ttl : S → String → ℤ

-- A value that Redis replies with: an integer, or anything else.
pub data Value : Type 0 where
  integer : ℤ → Value
  other_value : Value

-- `eval` returns a value or raises a `RedisError`.
pub data ScriptReply : Type 0 where
  redis_error : ScriptReply
  replied : List Value → ScriptReply

-- `_RATE_LIMIT_SCRIPT`
unfoldable pub rate_limit_script : {S : Type 0} → Commands S → String → ℕ → S → List Value × S
rate_limit_script redis key window s =
    let (current, s₁) = redis.incr s key in
    let s₂ = if current == 1 then redis.expire s₁ key window else s₁ in
    (integer (pos current) ∷ integer (redis.ttl s₂ key) ∷ [], s₂)

abbrev pub decision_of : RateLimitRule → ScriptReply → Option RateLimitDecision
decision_of rule (replied (integer count ∷ integer ttl ∷ [])) = some (record {
  allowed = leb_ℤ count (pos rule.limit);
  limit = rule.limit;
  remaining = pos_part (pos rule.limit -ℤ count);
  retry_after = max (pos_part ttl) 1;
})
decision_of rule _ = none

-- `identity_hash` is the first 24 digits of the identity's SHA-256.
abbrev pub rate_limit_key : (String → String) → RateLimitRule → String → String
rate_limit_key identity_hash rule identity =
    "cmh:rate-limit:v1:" <> rule.name <> ":" <> identity_hash identity

-- `RedisRateLimiter.check`; `eval` runs the script with a key and a window.
unfoldable pub check :
    {S : Type 0}
    → (String → ℕ → S → ScriptReply × S)
    → (String → String)
    → RateLimitRule
    → String
    → S
    → Option RateLimitDecision × S
check eval identity_hash rule identity s =
    let (reply, s') = eval (rate_limit_key identity_hash rule identity) rule.window_seconds s in
    (decision_of rule reply, s')
