-- ===== src/Billing/Tests.antt =====
-- The billing code and its theorems at concrete inputs.
use customers_manager_hub.Prelude.{
  ℕ, ◌≡◌, refl, true, none, some, [], ◌∷◌, ◌/◌, ◌%◌, ◌+◌, arith, find, ◌==◌, if◌then◌else◌,
}
use customers_manager_hub.Prelude.Int.{pos, ◌+ℤ◌, ◌-ℤ◌}
use customers_manager_hub.Prelude.Result.{ok, err}
use customers_manager_hub.Prelude.Table.{update_row}
use customers_manager_hub.Decimal.{add, mul, div, ceiling}
use customers_manager_hub.AiModels.{AiExecutionTrace, customer_response, succeeded}
use customers_manager_hub.Billing.{
  BillingDb, ModelPrice, WalletTransaction, calculate_charge_rial, resolve_price, record_charge,
  credit_business_wallet, credit_wallet, wallet_for_credit, debit, wallet_of, ensure_can_execute,
}
use customers_manager_hub.Billing.Charge.{charge_exact, token_cost}
use customers_manager_hub.Billing.Ledger.{IsBalanced, ledger, balance_of, record_charge-IsBalanced}
use customers_manager_hub.Billing.Once.{charge_once}
use customers_manager_hub.Billing.Credit.{credit-IsBalanced}

abbrev old_price : ModelPrice
old_price = record {
  id = 1;
  provider = "openai";
  model_id = "gpt";
  input_per_million_rial = 1000;
  output_per_million_rial = 3000;
  audio_per_minute_rial = 60;
  effective_from = 10;
}

abbrev price : ModelPrice
price = record old_price { id = 2; input_per_million_rial = 2000; effective_from = 20 }

-- 1,500 and 700 tokens cost 5.1 rials.
charge : calculate_charge_rial price (some 1500) (some 700) none ≡ 6
unfolding calculate_charge_rial add mul div ceiling
charge = refl

charge_exact_example :
    calculate_charge_rial price (some 1500) (some 700) none
    ≡ token_cost price (some 1500) (some 700) / 1000000
      + (if token_cost price (some 1500) (some 700) % 1000000 == 0 then 0 else 1)
charge_exact_example =
    charge_exact price (some 1500) (some 700) (omega arith) (omega arith) (omega arith)

-- 7 seconds at 60 rials a minute are 7 rials; the quotient by 60, rounded to 28 digits, makes them 8.
audio_overcharge :
    calculate_charge_rial price none none (some (record { coef = 70; scale = 1 })) ≡ 8
unfolding calculate_charge_rial add mul div ceiling
audio_overcharge = refl

abbrev db : BillingDb
db = record {
  tenants = 7 ∷ [];
  prices = old_price ∷ price ∷ [];
  wallets = [];
  transactions = [];
  audit_events = [];
}

abbrev trace : AiExecutionTrace
trace = record {
  id = 5;
  tenant_id = 7;
  task_profile_id = 3;
  task_type = customer_response;
  message_id = none;
  provider = "openai";
  model_id = "gpt";
  route_priority = 0;
  attempt_number = 1;
  status = succeeded;
  provider_request_id = none;
  latency_ms = 12;
  input_tokens = some 1500;
  output_tokens = some 700;
  total_tokens = some 2200;
  audio_seconds = none;
  error_code = none;
  created_at = 30;
}

latest : resolve_price (old_price ∷ price ∷ []) "openai" "gpt" 30 ≡ some price
unfolding resolve_price
latest = refl

-- The tables after a credit of 100 rials.
abbrev funded : BillingDb
unfolding credit_business_wallet
funded = elim (credit_business_wallet 1 2 7 100 none db) [ ok r ↦ r.1 | err _ ↦ db ]

abbrev opened : BillingDb
opened = record db { wallets = record { tenant_id = 7; balance_rial = pos 0 } ∷ [] }

abbrev credited : WalletTransaction
unfolding credit_wallet
credited = (credit_wallet 1 2 7 100 none (record { tenant_id = 7; balance_rial = pos 0 }) opened).0

credit_run : credit_business_wallet 1 2 7 100 none db ≡ ok (credited, funded)
unfolding credit_business_wallet credit_wallet wallet_for_credit find update_row ◌+ℤ◌
credit_run = refl

db-IsBalanced : IsBalanced db
unfolding ledger find
db-IsBalanced t = refl

credit-IsBalanced_example :
    IsBalanced funded
    × ((t : ℕ)
        → balance_of (wallet_of funded t) ≡ (
            if 7 == t then balance_of (wallet_of db t) +ℤ pos 100 else balance_of (wallet_of db t)))
credit-IsBalanced_example =
    credit-IsBalanced 1 2 7 100 none db funded credited db-IsBalanced credit_run

-- The tables after the call has been charged too.
abbrev charged : BillingDb
unfolding record_charge
charged = elim (record_charge 9 trace funded) [ ok r ↦ r.1 | err _ ↦ funded ]

charge_run : record_charge 9 trace funded ≡ ok (some 6, charged)
unfolding record_charge debit credit_business_wallet credit_wallet wallet_for_credit find update_row
    ◌+ℤ◌ ◌-ℤ◌ resolve_price calculate_charge_rial add mul div ceiling
charge_run = refl

record_charge-IsBalanced_example : IsBalanced charged
record_charge-IsBalanced_example =
    record_charge-IsBalanced 9 trace funded charged (some 6)
      (credit-IsBalanced 1 2 7 100 none db funded credited db-IsBalanced credit_run).0 charge_run

charge_once_example : record_charge 10 trace charged ≡ ok (none, charged)
charge_once_example = charge_once 9 10 trace funded charged (some 6) charge_run

allowed : ensure_can_execute funded 30 7 "openai" "gpt" true ≡ ok tt
unfolding funded ensure_can_execute resolve_price credit_business_wallet credit_wallet
    wallet_for_credit find update_row ◌+ℤ◌
allowed = refl
