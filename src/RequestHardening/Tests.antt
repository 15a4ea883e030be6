-- ===== src/RequestHardening/Tests.antt =====
-- The middleware over a small server in place of Redis.
use text.Mathlib.Text.{◌==◌ as str_eq}
use text.Mathlib.TextEquality.{eq_iff}
use customers_manager_hub.Prelude.{
  ℕ, ◌+◌, ◌-◌, ◌≤◌, ◌≡◌, refl, ap, min, String, Bool, true, false, ◌||◌, bit, Option, none, some,
  [], ◌∷◌, count, any, arith, if◌then◌else◌,
}
use customers_manager_hub.Prelude.Int.{pos, negsuc}
use customers_manager_hub.Prelude.Result.{ok, err}
use customers_manager_hub.Prelude.Text.{size}
use customers_manager_hub.RequestHardening.{Request, Settings}
use customers_manager_hub.RequestHardening.RequestId.{
  matches_request_id, normalize_request_id, normalize-matches,
}
use customers_manager_hub.RequestHardening.Client.{
  Addresses, trusted_proxy_networks, client_ip, header_ignored, split_commas,
}
use customers_manager_hub.RequestHardening.RateLimit.{
  RateLimitRule, Commands, match_rate_limit_rule, rate_limit_key, rate_limit_script, check,
}
use customers_manager_hub.RequestHardening.RateLimit.Window.{
  IsCounting, answers, admitted, admitted_exact,
}
use customers_manager_hub.RequestHardening.Middleware.{World, Middleware, IsResponse, dispatch}
use customers_manager_hub.RequestHardening.Middleware.Blocked.{over_limit}

record Server : Type 0 where
  counts : String → ℕ
  deadlines : String → Bool

abbrev redis : Commands Server
redis = record {
  incr = λ s k. (s.counts k + 1, record s { counts = λ j. s.counts j + bit (str_eq j k) });
  expire = λ s k n. record s { deadlines = λ j. str_eq j k || s.deadlines j };
  ttl = λ s k. if s.deadlines k then pos 60 else negsuc 0;
}

abbrev counts : Server → String → ℕ
counts s = s.counts

abbrev deadlines : Server → String → Bool
deadlines s = s.deadlines

or_true : (b : Bool) → (b || true) ≡ true
or_true true = refl
or_true false = refl

redis-IsCounting : IsCounting redis counts deadlines
redis-IsCounting = record {
  incr_reply = λ s k. refl;
  incr_value = λ s k j. refl;
  incr_deadline = λ s k j. refl;
  expire_value = λ s k n j. refl;
  expire_set = λ s k n. let itself = (eq_iff k k).1 refl in rw itself refl;
  expire_other = λ s k n j e. rw e (or_true (str_eq j k));
}

abbrev empty : Server
empty = record { counts = λ k. 0; deadlines = λ k. false }

abbrev settings : Settings
settings = record {
  rate_limit_enabled = true;
  rate_limit_window_seconds = 60;
  rate_limit_login_requests = 2;
  rate_limit_public_requests = 120;
  rate_limit_webhook_requests = 180;
  trusted_proxy_cidrs = "10.0.0.1";
}

-- Addresses and networks that are the texts themselves.
abbrev net : Addresses String String
net = record {
  strip = λ s. s;
  ip_address = λ s. some s;
  ip_network = λ s. some s;
  is_in = str_eq;
  str = λ s. s;
}

abbrev login : Request
login = record {
  method = "POST";
  path = "/api/v1/auth/login";
  host = some "9.9.9.9";
  forwarded_for = some "1.1.1.1";
  request_id = some "id-1";
}

abbrev rule : RateLimitRule
rule = record { name = "auth-login"; limit = 2; window_seconds = 60 }

abbrev key : String
key = rate_limit_key (λ s. s) rule "9.9.9.9"

-- A response: its status and its headers.
record Page : Type 0 where
  status : ℕ
  headers : String → Option String

abbrev json_response : ℕ → String → Page
json_response n detail = record { status = n; headers = λ k. none }

abbrev set_header : String → String → Page → Page
set_header k v r = record r { headers = λ j. if str_eq j k then some v else r.headers j }

abbrev status_of : Page → ℕ
status_of r = r.status

abbrev header_of : Page → String → Option String
header_of r = r.headers

page-IsResponse : IsResponse json_response set_header status_of header_of
page-IsResponse = record {
  status_json = λ n d. refl;
  status_kept = λ k v r. refl;
  header_set = λ k v r. let itself = (eq_iff k k).1 refl in rw itself refl;
  header_kept = λ k v j r e. rw e refl;
}

abbrev middleware : Middleware Server Page String String
middleware = record {
  settings = settings;
  net = net;
  upper = λ s. s;
  token = "0123456789abcdef";
  eval = answers redis;
  identity_hash = λ s. s;
  str = λ n. "n";
  json_response = json_response;
  set_header = set_header;
  call_next = λ request w. (ok (json_response 200 "done"), w.server);
}

token_fits : matches_request_id "0123456789abcdef" ≡ true
unfolding matches_request_id size
token_fits = refl

normalize-matches_example :
    matches_request_id (normalize_request_id (λ s. s) "0123456789abcdef" (some "bad id")) ≡ true
normalize-matches_example = normalize-matches (λ s. s) "0123456789abcdef" (some "bad id") token_fits

trusted : trusted_proxy_networks net settings ≡ ok ("10.0.0.1" ∷ [])
unfolding trusted_proxy_networks split_commas
trusted = refl

untrusted :
    (peer : String) → some "9.9.9.9" ≡ some peer → any (str_eq peer) ("10.0.0.1" ∷ []) ≡ false
unfolding any
untrusted peer e =
    let same : "9.9.9.9" ≡ peer = ap (λ x. elim x [ none ↦ "" | some a ↦ a ]) e in rw (← same) refl

header_ignored_example :
    client_ip net (record login { forwarded_for = some "2.2.2.2" }) settings
    ≡ client_ip net login settings
header_ignored_example =
    header_ignored net login settings (some "2.2.2.2") ("10.0.0.1" ∷ []) trusted untrusted

admitted_exact_example :
    admitted redis (λ s. s) rule key ("9.9.9.9" ∷ "1.1.1.1" ∷ "9.9.9.9" ∷ "9.9.9.9" ∷ []) empty
    ≡ min
        (count
          (λ i. str_eq key (rate_limit_key (λ s. s) rule i))
          ("9.9.9.9" ∷ "1.1.1.1" ∷ "9.9.9.9" ∷ "9.9.9.9" ∷ []))
        (2 - 0)
admitted_exact_example =
    admitted_exact redis counts deadlines redis-IsCounting (λ s. s) rule key
      ("9.9.9.9" ∷ "1.1.1.1" ∷ "9.9.9.9" ∷ "9.9.9.9" ∷ []) empty

empty_deadlines : (j : String) → 1 ≤ counts empty j → deadlines empty j ≡ true
empty_deadlines j h = absurd (omega (arith, h))

one_counted : 1 ≤ counts (check (answers redis) (λ s. s) rule "9.9.9.9" empty).1 key
unfolding check rate_limit_script
one_counted = omega arith

-- The client has used up its two requests.
abbrev used : World Server
used = record { context_id = none; server = record { counts = λ k. 2; deadlines = λ k. true } }

rule_matched : match_rate_limit_rule (λ s. s) login settings ≡ some rule
unfolding match_rate_limit_rule
rule_matched = refl

login_ip : client_ip net login settings ≡ ok "9.9.9.9"
unfolding client_ip split_commas any
login_ip = refl

over_limit_example :
    (r : Page) × (r.status ≡ 429)
    × (dispatch middleware login used ≡ (
      ok r,
      record used { server = (check (answers redis) (λ s. s) rule "9.9.9.9" used.server).1 },
    ))
over_limit_example =
    over_limit middleware redis counts deadlines redis-IsCounting status_of header_of
      page-IsResponse login used rule "9.9.9.9" refl refl rule_matched login_ip (omega arith)

abbrev served : Page
served = elim (dispatch middleware login (record used { server = empty })).0 [
  | ok r ↦ r
  | err e ↦ json_response 500 "failed"
]

answered : (dispatch middleware login (record used { server = empty })).0 ≡ ok served
unfolding dispatch match_rate_limit_rule client_ip split_commas any check rate_limit_script
answered = refl
