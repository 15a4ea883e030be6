-- ===== src/RequestHardening/Middleware.antt =====
-- `ProductionHardeningMiddleware.dispatch`, without its log.
pub mod Ids
pub mod Blocked
use text.Mathlib.Text.{◌==◌ as str_eq}
use customers_manager_hub.Prelude.{
  ℕ, ◌+◌, ◌≤◌, ◌≡◌, refl, ap, sym, ◌∙◌, String, Bool, true, false, leb, Option, none, some, arith,
  if◌then◌else◌, Bool-cases, Option-cases, inl, inr,
}
use customers_manager_hub.Prelude.Result.{Result, ok, err, Result-cases, err≢ok, ok_unique}
use customers_manager_hub.RequestHardening.{Request, Settings}
use customers_manager_hub.RequestHardening.RequestId.{
  matches_request_id, normalize_request_id, normalize-matches,
}
use customers_manager_hub.RequestHardening.Client.{Addresses, client_ip}
use customers_manager_hub.RequestHardening.RateLimit.{
  RateLimitRule, RateLimitDecision, Commands, ScriptReply, match_rate_limit_rule, rate_limit_key,
  check,
}
use customers_manager_hub.RequestHardening.RateLimit.Window.{
  IsCounting, is_allowed, answers, check_allowed,
}

-- An exception that leaves `dispatch`: the `ValueError` of a network, or the application's.
pub data Failure : Type 0 where
  bad_network app_failed : Failure

-- REQUEST_ID_CONTEXT, and everything outside of the process.
pub record World (S : Type 0) : Type 0 where
  pub context_id : Option String
  pub server : S

-- What `dispatch` uses. `token` is what `secrets.token_hex(16)` returns, `json_response` builds a
-- response of a status and a detail, and `call_next` is the application, which reads the context.
pub record Middleware (S R A N : Type 0) : Type 0 where
  pub settings : Settings
  pub net : Addresses A N
  pub upper : String → String
  pub token : String
  pub eval : String → ℕ → S → ScriptReply × S
  pub identity_hash : String → String
  pub str : ℕ → String
  pub json_response : ℕ → String → R
  pub set_header : String → String → R → R
  pub call_next : Request → World S → Result Failure R × S

module _ {S R A N : Type 0} (m : Middleware S R A N) where
  open m use {
    settings, net, upper, token, eval, identity_hash, str, json_response, set_header, call_next,
  }

  -- The decision of the rate limiter, where a rule applies.
  pub limit_request : Request → S → Result Failure (Option RateLimitDecision) × S
  limit_request request s =
      if settings.rate_limit_enabled
      then elim (match_rate_limit_rule upper request settings) [
        | none ↦ (ok none, s)
        | some rule ↦ elim (client_ip net request settings) [
          | err e ↦ (err bad_network, s)
          | ok ip ↦ let (decision, s') = check eval identity_hash rule ip s in (ok decision, s')
        ]
      ]
      else (ok none, s)

  refusal : RateLimitDecision → R
  refusal d = set_header "Retry-After" (str d.retry_after) (json_response 429 "Rate limit exceeded")

  -- The refusal, or the response of the application.
  pub answer : Option RateLimitDecision → Request → World S → Result Failure R × S
  unfolding refusal
  answer none request w = call_next request w
  answer (some d) request w = if d.allowed then call_next request w else (ok (refusal d), w.server)

  pub with_headers : String → Option RateLimitDecision → R → R
  with_headers id none r = set_header "X-Request-ID" id r
  with_headers id (some d) r =
      set_header "X-RateLimit-Remaining" (str d.remaining)
        (set_header "X-RateLimit-Limit" (str d.limit) (set_header "X-Request-ID" id r))

  -- The body of the `try` statement.
  pub handle : String → Request → World S → Result Failure R × S
  unfolding limit_request answer with_headers
  handle id request w =
      let (limited, s₁) = limit_request request w.server in
      elim limited [
        | err e ↦ (err e, s₁)
        | ok decision ↦
            let (response, s₂) = answer decision request (record w { server = s₁ }) in
            elim response [ err e ↦ (err e, s₂) | ok r ↦ (ok (with_headers id decision r), s₂) ]
      ]

  -- `dispatch`
  unfoldable pub dispatch : Request → World S → Result Failure R × World S
  unfolding handle
  dispatch request w =
      let id = normalize_request_id net.strip token request.request_id in
      let (r, s) = handle id request (record w { context_id = some id }) in
      (r, record w { server = s })

-- What Starlette's documentation says of a response.
pub record IsResponse {R : Type 0} (json_response : ℕ → String → R)
    (set_header : String → String → R → R) (status : R → ℕ) (header : R → String → Option String)
    : Type 0 where
  pub status_json : (n : ℕ) (detail : String) → status (json_response n detail) ≡ n
  pub status_kept : (k v : String) (r : R) → status (set_header k v r) ≡ status r
  pub header_set : (k v : String) (r : R) → header (set_header k v r) k ≡ some v
  pub header_kept :
      (k v j : String) (r : R) → str_eq j k ≡ false → header (set_header k v r) j ≡ header r j
