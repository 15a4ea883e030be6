-- ===== src/RequestHardening/Middleware/Ids.antt =====
-- The request id of every response.
use customers_manager_hub.Prelude.{ℕ, ◌≡◌, refl, ◌∙◌, String, true, Option, none, some, inl, inr}
use customers_manager_hub.Prelude.Result.{ok, Result-cases, err≢ok, ok_unique}
use customers_manager_hub.RequestHardening.{Request}
use customers_manager_hub.RequestHardening.RequestId.{
  matches_request_id, normalize_request_id, normalize-matches,
}
use customers_manager_hub.RequestHardening.RateLimit.{RateLimitDecision}
use customers_manager_hub.RequestHardening.Middleware.{
  World, Middleware, IsResponse, limit_request, answer, with_headers, handle, dispatch,
}

module _ {S R A N : Type 0} (m : Middleware S R A N) (status : R → ℕ)
    (header : R → String → Option String)
    (is_response : IsResponse m.json_response m.set_header status header) where
  header-with_headers :
      (id : String) (d : Option RateLimitDecision) (r : R)
      → header (with_headers m id d r) "X-Request-ID" ≡ some id
  unfolding with_headers
  header-with_headers id none r = is_response.header_set "X-Request-ID" id r
  header-with_headers id (some d) r =
      is_response.header_kept "X-RateLimit-Remaining" (m.str d.remaining) "X-Request-ID" _ refl
      ∙ is_response.header_kept "X-RateLimit-Limit" (m.str d.limit) "X-Request-ID" _ refl
      ∙ is_response.header_set "X-Request-ID" id r

  handle_header :
      (id : String) (request : Request) (w : World S) (r : R)
      → (handle m id request w).0 ≡ ok r
      → header r "X-Request-ID" ≡ some id
  unfolding handle
  handle_header id request w r e =
      let s₁ = (limit_request m request w.server).1 in
      elim (Result-cases (limit_request m request w.server).0) [
        | inr (x, f) ↦ absurd (err≢ok (rw (f, handle) at e))
        | inl (d, f) ↦ elim (Result-cases (answer m d request (record w { server = s₁ })).0) [
          | inr (x, g) ↦ absurd (err≢ok (rw (f, handle, g) at e))
          | inl (r₀, g) ↦
              let same = ok_unique refl (rw (f, handle, g) at e) in
              rw (← same) (header-with_headers id d r₀)
        ]
      ]

  -- Where Starlette's responses do what their documentation says and the random token matches the
  -- pattern of request ids, every response that `dispatch` returns has as its X-Request-ID the id
  -- that `normalize_request_id` gives, and this matches the pattern.
  pub response_id :
      (request : Request) (w : World S) (r : R)
      → matches_request_id m.token ≡ true
      → (dispatch m request w).0 ≡ ok r
      → let id = normalize_request_id m.net.strip m.token request.request_id in
        (header r "X-Request-ID" ≡ some id) × (matches_request_id id ≡ true)
  unfolding dispatch
  response_id request w r fits e =
      let id = normalize_request_id m.net.strip m.token request.request_id in
      (
        handle_header id request (record w { context_id = some id }) r e,
        normalize-matches m.net.strip m.token request.request_id fits,
      )
