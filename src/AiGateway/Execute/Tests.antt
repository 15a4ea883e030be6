-- ===== src/AiGateway/Execute/Tests.antt =====
-- The gateway's code and its theorems at concrete inputs.
use customers_manager_hub.Prelude.{
  ℕ, suc, ◌≡◌, ◌+◌, ◌*◌, max, refl, true, false, none, [], ◌∷◌, if◌then◌else◌, ◌==◌, arith, any,
  count, find, filter, length,
}
use customers_manager_hub.Prelude.Int.{pos, ◌≤ℤ◌}
use customers_manager_hub.Prelude.Sort.{sort, insert}
use customers_manager_hub.Prelude.Result.{Result, ok}
use customers_manager_hub.AiModels.{PlatformAiTaskProfile, PlatformAiTaskRoute, customer_response}
use customers_manager_hub.Billing.{BillingDb, wallet_of}
use customers_manager_hub.Billing.Ledger.{balance_of}
use customers_manager_hub.AiGateway.State.{
  platform_route_before, resolve_platform_route, AiError, generation, no_usage, GatewayDb, returned,
  timed_out, Environment, State, Adapter, ResolvedTaskProfile, load_profile, with_routes,
  platform_profile,
}
use customers_manager_hub.AiGateway.Registry.{register}
use customers_manager_hub.AiGateway.Execute.{
  execute, try_routes, run_route, try_route, try_once, after_call, adapter_of, unavailable,
  check_billing, record_trace, commit_trace, invoke_with_timeout,
}
use customers_manager_hub.AiGateway.Execute.Traces.{Grows, execute-Grows}
use customers_manager_hub.AiGateway.Execute.Success.{is_success, ok_count, execute-count}
use customers_manager_hub.AiGateway.Execute.Funds.{execute-Idle}

-- The world counts the calls; the first one times out.
abbrev env : Environment ℕ ℕ
env = record {
  call = λ adapter route timeout w. (if w == 0 then timed_out 30000 else returned 42 900, suc w);
  now = λ w. (30, w);
  uuid4 = λ w. (5, w);
  sleep_ms = λ ms w. w;
  casefold = λ s. s;
  usage = λ r. no_usage;
  provider_request_id = λ r. none;
}

abbrev gemini : Adapter
gemini = record { key = "gemini"; supports = λ o. true }

abbrev second_route : PlatformAiTaskRoute
second_route = record {
  id = 1;
  profile_id = 3;
  provider = "openai";
  model_id = "gpt";
  priority = 1;
  parameters = [];
}

abbrev first_route : PlatformAiTaskRoute
first_route = record second_route { id = 2; provider = "gemini"; model_id = "flash"; priority = 0 }

abbrev no_billing : BillingDb
no_billing = record {
  tenants = 7 ∷ [];
  prices = [];
  wallets = [];
  transactions = [];
  audit_events = [];
}

abbrev row : PlatformAiTaskProfile
row = record { id = 3; task_type = customer_response; timeout_seconds = 30; attempts_per_route = 2 }

abbrev db : GatewayDb
db = record {
  platform_profiles = row ∷ [];
  platform_routes = second_route ∷ first_route ∷ [];
  profiles = [];
  routes = [];
  traces = [];
  billing = no_billing;
}

abbrev start : State ℕ
start = record { db = db; world = 0 }

abbrev profile : ResolvedTaskProfile
unfolding platform_profile
profile = platform_profile db customer_response row

loaded : load_profile db 7 customer_response ≡ ok profile
unfolding load_profile with_routes find filter sort insert
loaded = refl

-- The route of priority 0 comes first.
two_routes : length profile.routes ≡ 2
unfolding sort insert filter profile platform_profile
two_routes = refl

abbrev finish : Result AiError ℕ × State ℕ
unfolding execute
finish = execute env false (gemini ∷ []) 7 customer_response generation none start

-- The call that timed out is tried again, and the second call returns.
finish_run : (finish.0 ≡ ok 42) × (finish.1.world ≡ 2)
unfolding finish execute try_routes run_route try_route try_once after_call adapter_of unavailable
    check_billing record_trace commit_trace invoke_with_timeout load_profile with_routes
    platform_profile platform_route_before resolve_platform_route find filter sort insert
finish_run = (refl, refl)

execute-Grows_example : Grows 7 profile (length profile.routes * max 1 2) db finish.1.db
unfolding profile finish execute
execute-Grows_example =
    execute-Grows env false (gemini ∷ []) 7 customer_response generation none start profile loaded

execute-count_example : count is_success finish.1.db.traces ≡ 0 + ok_count finish.0
unfolding finish execute count
execute-count_example =
    execute-count env false (gemini ∷ []) 7 customer_response generation none start

abbrev unfunded : Result AiError ℕ × State ℕ
unfolding execute
unfunded = execute env true (gemini ∷ []) 7 customer_response generation none start

broke : balance_of (wallet_of no_billing 7) ≤ℤ pos 0
unfolding find
broke = omega arith

execute-Idle_example :
    (unfunded.1.world ≡ 0)
    × (balance_of (wallet_of unfunded.1.db.billing 7) ≤ℤ pos 0)
    × (ok_count unfunded.0 ≡ 0)
unfolding profile unfunded execute
execute-Idle_example =
    execute-Idle env (λ w. w ≡ 0) (gemini ∷ []) 7 customer_response generation none start profile
      (record { by_now = λ w h. h; by_uuid4 = λ w h. h }) loaded refl broke refl

abbrev openai : Adapter
openai = record { key = "openai"; supports = λ o. false }

registered : register (λ s. s) (λ s. s) openai (gemini ∷ []) ≡ ok (gemini ∷ openai ∷ [])
unfolding register any
registered = refl
