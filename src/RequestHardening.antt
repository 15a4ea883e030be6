-- ===== src/RequestHardening.antt =====
-- The middleware of every request (apps/api/src/customers_manager_hub/production_hardening.py): the
-- request's id, the client's address and the rate limits.
mod Tests
pub mod RequestId
pub mod Client
pub mod RateLimit
pub mod Middleware
use customers_manager_hub.Prelude.{ℕ, String, Bool, Option}

-- What the middleware reads of a request: `url.path`, `client.host` and two of its headers.
pub record Request : Type 0 where
  pub method : String
  pub path : String
  pub host : Option String
  pub forwarded_for : Option String
  pub request_id : Option String

-- The fields of `Settings` that it reads.
pub record Settings : Type 0 where
  pub rate_limit_enabled : Bool
  pub rate_limit_window_seconds : ℕ
  pub rate_limit_login_requests : ℕ
  pub rate_limit_public_requests : ℕ
  pub rate_limit_webhook_requests : ℕ
  pub trusted_proxy_cidrs : String
