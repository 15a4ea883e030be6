-- ===== src/RequestHardening/Middleware/Blocked.antt =====
-- What a client gets whose limit is used up.
use customers_manager_hub.Prelude.{
  ℕ, ◌≤◌, ◌≡◌, ◌≢◌, refl, ap, ◌∙◌, String, Bool, true, false, Option, some, arith, Option-cases,
  inl, inr,
}
use customers_manager_hub.Prelude.Result.{ok}
use customers_manager_hub.RequestHardening.{Request}
use customers_manager_hub.RequestHardening.RequestId.{normalize_request_id}
use customers_manager_hub.RequestHardening.Client.{client_ip}
use customers_manager_hub.RequestHardening.RateLimit.{
  RateLimitRule, RateLimitDecision, Commands, match_rate_limit_rule, rate_limit_key, check,
}
use customers_manager_hub.RequestHardening.RateLimit.Window.{
  IsCounting, is_allowed, answers, check_allowed,
}
use customers_manager_hub.RequestHardening.Middleware.{
  World, Middleware, IsResponse, limit_request, answer, with_headers, handle, dispatch, refusal,
}

true≢false : true ≢ false
true≢false h = cc

-- A middleware over a Redis that answers, and whose responses behave as documented.
module _ {S R A N : Type 0} (m : Middleware S R A N) (redis : Commands S) (value : S → String → ℕ)
    (has_deadline : S → String → Bool) (is_redis : IsCounting redis value has_deadline)
    (status : R → ℕ) (header : R → String → Option String)
    (is_response : IsResponse m.json_response m.set_header status header) where
  status-with_headers :
      (id : String) (d : RateLimitDecision) (r : R)
      → status (with_headers m id (some d) r) ≡ status r
  unfolding with_headers
  status-with_headers id d r =
      is_response.status_kept "X-RateLimit-Remaining" (m.str d.remaining) _
      ∙ is_response.status_kept "X-RateLimit-Limit" (m.str d.limit) _
      ∙ is_response.status_kept "X-Request-ID" id r

  status-refusal : (d : RateLimitDecision) → status (refusal m d) ≡ 429
  unfolding refusal
  status-refusal d =
      is_response.status_kept "Retry-After" (m.str d.retry_after) _
      ∙ is_response.status_json 429 "Rate limit exceeded"

  -- The decision on a client whose limit is used up.
  refused :
      (rule : RateLimitRule) (ip : String) (s : S)
      → rule.limit ≤ value s (rate_limit_key m.identity_hash rule ip)
      → (d : RateLimitDecision) × ((check (answers redis) m.identity_hash rule ip s).0 ≡ some d)
        × (d.allowed ≡ false)
  refused rule ip s full =
      let verdict = check_allowed redis value has_deadline is_redis m.identity_hash rule ip s in
      let over : is_allowed (check (answers redis) m.identity_hash rule ip s).0 ≡ false =
        ground (arith, verdict, full) in
      elim (Option-cases (check (answers redis) m.identity_hash rule ip s).0) [
        | inl n ↦ absurd (true≢false (rw n at over))
        | inr (d, f) ↦ (d, f, rw f at over)
      ]

  handle_refused :
      (id : String) (request : Request) (w : World S) (rule : RateLimitRule) (ip : String)
      (d : RateLimitDecision)
      → m.settings.rate_limit_enabled ≡ true
      → match_rate_limit_rule m.upper request m.settings ≡ some rule
      → client_ip m.net request m.settings ≡ ok ip
      → (check m.eval m.identity_hash rule ip w.server).0 ≡ some d
      → d.allowed ≡ false
      → handle m id request w ≡ (
        ok (with_headers m id (some d) (refusal m d)),
        (check m.eval m.identity_hash rule ip w.server).1,
      )
  unfolding handle limit_request answer
  handle_refused id request w rule ip d on matched known decided refuses =
      let s' = (check m.eval m.identity_hash rule ip w.server).1 in
      let limited : limit_request m request w.server ≡ (ok (some d), s') =
        simp (on, limit_request, matched, known, decided) refl in
      let answered : answer m (some d) request (record w { server = s' }) ≡ (ok (refusal m d), s') =
        simp (refuses, answer) refl in
      simp (limited, handle, answered) refl

  -- Where Redis answers and it and Starlette's responses do what their documentation says, rate
  -- limits are on, and the counter of a request's client has reached the limit of the request's
  -- rule, `dispatch` answers 429 and the application is not called: all that changes outside is
  -- what the check of the limit writes.
  pub over_limit :
      (request : Request) (w : World S) (rule : RateLimitRule) (ip : String)
      → m.eval ≡ answers redis
      → m.settings.rate_limit_enabled ≡ true
      → match_rate_limit_rule m.upper request m.settings ≡ some rule
      → client_ip m.net request m.settings ≡ ok ip
      → rule.limit ≤ value w.server (rate_limit_key m.identity_hash rule ip)
      → (r : R) × (status r ≡ 429)
        × (dispatch m request w ≡ (
          ok r,
          record w { server = (check (answers redis) m.identity_hash rule ip w.server).1 },
        ))
  unfolding dispatch
  over_limit request w rule ip same on matched known full =
      let id = normalize_request_id m.net.strip m.token request.request_id in
      let (d, decided, refuses) = refused rule ip w.server full in
      let checked : (check m.eval m.identity_hash rule ip w.server).0 ≡ some d =
        ap (λ e. (check e m.identity_hash rule ip w.server).0) same ∙ decided in
      let handled =
        handle_refused id request (record w { context_id = some id }) rule ip d on matched known
          checked refuses in
      (
        with_headers m id (some d) (refusal m d),
        status-with_headers id d (refusal m d) ∙ status-refusal d,
        ap (λ x. (x.0, record w { server = x.1 })) handled
            ∙ ap
                (λ e. (
                  ok (with_headers m id (some d) (refusal m d)),
                  record w { server = (check e m.identity_hash rule ip w.server).1 },
                ))
                same,
      )
