-- ===== src/Billing.antt =====
-- Prices, wallets and the charge of an AI call (apps/api/src/customers_manager_hub/billing_runtime.py,
-- billing_models.py), and the credit of a wallet (platform_billing.py).
pub mod Prices
pub mod Charge
pub mod Ledger
pub mod Once
pub mod Credit
pub mod Funds
mod Tests
use text.Mathlib.Text.{◌==◌ as str_eq}
use customers_manager_hub.Prelude.{
  ℕ, String, Bool, ◌&&◌, ◌||◌, Option, none, some, List, [], ◌∷◌, ◌++◌, leb, ltb, ◌==◌, equals_some,
  is_none, find, if◌then◌else◌,
}
use customers_manager_hub.Prelude.Int.{ℤ, pos, ◌+ℤ◌, ◌-ℤ◌, leb_ℤ}
use customers_manager_hub.Prelude.Result.{Result, ok, err}
use customers_manager_hub.Prelude.Table.{has_key, update_row}
use customers_manager_hub.Models.{AuditEvent, number}
use customers_manager_hub.AiModels.{succeeded, failed, AiExecutionTrace}
use customers_manager_hub.Decimal.{Decimal, of_ℕ, add, mul, div, ceiling}

pub data BillingError : Type 0 where
  model_pricing_not_configured insufficient_business_balance business_wallet_missing : BillingError
  business_not_found : BillingError

pub data WalletTransactionKind : Type 0 where
  credit ai_debit : WalletTransactionKind

-- A row of `platform_ai_model_pricing`.
pub record ModelPrice : Type 0 where
  pub id : ℕ
  pub provider : String
  pub model_id : String
  pub input_per_million_rial : ℕ
  pub output_per_million_rial : ℕ
  pub audio_per_minute_rial : ℕ
  pub effective_from : ℕ

-- A row of `business_wallets`; a balance may be negative.
pub record BusinessWallet : Type 0 where
  pub tenant_id : ℕ
  pub balance_rial : ℤ

-- A row of `business_wallet_transactions`.
pub record WalletTransaction : Type 0 where
  pub id : ℕ
  pub tenant_id : ℕ
  pub kind : WalletTransactionKind
  pub amount_rial : ℕ
  pub balance_after_rial : ℤ
  pub ai_execution_trace_id : Option ℕ
  pub message_id : Option ℕ
  pub provider : Option String
  pub model_id : Option String
  pub input_tokens : Option ℕ
  pub output_tokens : Option ℕ
  pub total_tokens : Option ℕ
  pub audio_seconds : Option Decimal
  pub created_by_user_id : Option ℕ
  pub note : Option String

pub record BillingDb : Type 0 where
  pub tenants : List ℕ
  pub prices : List ModelPrice
  pub wallets : List BusinessWallet
  pub transactions : List WalletTransaction
  pub audit_events : List AuditEvent

-- The `where` of `_resolve_price`.
pub is_price_of : String → String → ℕ → ModelPrice → Bool
is_price_of provider model_id effective_at p =
    str_eq p.provider provider && str_eq p.model_id model_id && leb p.effective_from effective_at

-- `order_by(effective_from.desc(), id.desc())`: whether `p` comes before `q`.
pub comes_before : ModelPrice → ModelPrice → Bool
comes_before p q =
    ltb q.effective_from p.effective_from || (p.effective_from == q.effective_from && ltb q.id p.id)

newer : ModelPrice → Option ModelPrice → Option ModelPrice
newer p none = some p
newer p (some q) = if comes_before p q then some p else some q

-- `_resolve_price`
pub resolve_price : List ModelPrice → String → String → ℕ → Option ModelPrice
unfolding is_price_of comes_before newer
resolve_price [] provider model_id effective_at = none
resolve_price (p ∷ ps) provider model_id effective_at =
    let rest = resolve_price ps provider model_id effective_at in
    if is_price_of provider model_id effective_at p then newer p rest else rest

-- `x or 0`
abbrev pub or_zero : Option ℕ → ℕ
or_zero none = 0
or_zero (some n) = n

-- `Decimal(str(audio_seconds or 0.0))`; "0.0" has one digit after its point.
abbrev pub seconds_of : Option Decimal → Decimal
seconds_of none = record { coef = 0; scale = 1 }
seconds_of (some d) = d

pub calculate_charge_rial : ModelPrice → Option ℕ → Option ℕ → Option Decimal → ℕ
calculate_charge_rial price input_tokens output_tokens audio_seconds =
    let input_cost =
      mul (div (of_ℕ (or_zero input_tokens)) 1000000) (of_ℕ price.input_per_million_rial) in
    let output_cost =
      mul (div (of_ℕ (or_zero output_tokens)) 1000000) (of_ℕ price.output_per_million_rial) in
    let audio_cost = mul (div (seconds_of audio_seconds) 60) (of_ℕ price.audio_per_minute_rial) in
    ceiling (add (add input_cost output_cost) audio_cost)

-- The primary key of a wallet.
abbrev pub wallet_key : BusinessWallet → ℕ
wallet_key w = w.tenant_id

-- `db.get(BusinessWallet, tenant_id)`
abbrev pub wallet_of : BillingDb → ℕ → Option BusinessWallet
wallet_of db tenant_id = find (has_key wallet_key tenant_id) db.wallets

-- `AIBillingService.ensure_can_execute` at the time `now`
pub ensure_can_execute : BillingDb → ℕ → ℕ → String → String → Bool → Result BillingError (Unit {0})
ensure_can_execute db now tenant_id provider model_id require_price =
    elim (resolve_price db.prices provider model_id now) [
      | none ↦ if require_price then err model_pricing_not_configured else ok tt
      | some _ ↦ elim (wallet_of db tenant_id) [
        | none ↦ err insufficient_business_balance
        | some w ↦ if leb_ℤ w.balance_rial (pos 0) then err insufficient_business_balance else ok tt
      ]
    ]

abbrev pub set_balance : ℤ → BusinessWallet → BusinessWallet
set_balance b w = record w { balance_rial = b }

pub is_charge_of : ℕ → WalletTransaction → Bool
is_charge_of trace_id t = equals_some t.ai_execution_trace_id trace_id

-- The row that a charge adds.
pub debit_of : ℕ → AiExecutionTrace → ℕ → ℤ → WalletTransaction
debit_of id trace amount balance = record {
  id = id;
  tenant_id = trace.tenant_id;
  kind = ai_debit;
  amount_rial = amount;
  balance_after_rial = balance;
  ai_execution_trace_id = some trace.id;
  message_id = trace.message_id;
  provider = some trace.provider;
  model_id = some trace.model_id;
  input_tokens = trace.input_tokens;
  output_tokens = trace.output_tokens;
  total_tokens = trace.total_tokens;
  audio_seconds = trace.audio_seconds;
  created_by_user_id = none;
  note = none;
}

-- A charge of a known price to a known wallet.
pub debit : ℕ → AiExecutionTrace → ModelPrice → BusinessWallet → BillingDb → Option ℕ × BillingDb
unfolding debit_of
debit id trace price wallet db =
    let amount =
      calculate_charge_rial price trace.input_tokens trace.output_tokens trace.audio_seconds in
    let balance = wallet.balance_rial -ℤ pos amount in
    (
      some amount,
      record db {
        wallets = update_row wallet_key wallet.tenant_id (set_balance balance) db.wallets;
        transactions = db.transactions ++ debit_of id trace amount balance ∷ [];
      },
    )

-- `AIBillingService.record_charge` in the caller's session; `id` is the new transaction's uuid4.
pub record_charge : ℕ → AiExecutionTrace → BillingDb → Result BillingError (Option ℕ × BillingDb)
unfolding is_charge_of
record_charge id trace db = elim trace.status [
  | failed ↦ ok (none, db)
  | succeeded ↦ elim (find (is_charge_of trace.id) db.transactions) [
    | some _ ↦ ok (none, db)
    | none ↦ elim (resolve_price db.prices trace.provider trace.model_id trace.created_at) [
      | none ↦ ok (none, db)
      | some price ↦ elim (wallet_of db trace.tenant_id) [
        | none ↦ err business_wallet_missing
        | some wallet ↦ ok (debit id trace price wallet db)
      ]
    ]
  ]
]

-- The wallet that a credit works on, made with balance 0 where the tenant has none.
pub wallet_for_credit : ℕ → BillingDb → BusinessWallet × BillingDb
wallet_for_credit business_id db = elim (wallet_of db business_id) [
  | some w ↦ (w, db)
  | none ↦
      let w : BusinessWallet = record { tenant_id = business_id; balance_rial = pos 0 } in
      (w, record db { wallets = db.wallets ++ w ∷ [] })
]

credit_event : ℕ → ℕ → ℕ → ℕ → AuditEvent
credit_event id owner_id business_id amount_rial = record {
  tenant_id = some business_id;
  actor_user_id = some owner_id;
  action = "platform.business_wallet.credited";
  target_type = "business_wallet_transaction";
  target_id = some id;
  details = ("amount_rial", number amount_rial) ∷ [];
}

-- The credit of the wallet that was loaded or made.
pub credit_wallet :
    ℕ → ℕ → ℕ → ℕ → Option String → BusinessWallet → BillingDb → WalletTransaction × BillingDb
unfolding credit_event
credit_wallet id owner_id business_id amount_rial note wallet db =
    let balance = wallet.balance_rial +ℤ pos amount_rial in
    let transaction : WalletTransaction = record {
      id = id;
      tenant_id = business_id;
      kind = credit;
      amount_rial = amount_rial;
      balance_after_rial = balance;
      ai_execution_trace_id = none;
      message_id = none;
      provider = none;
      model_id = none;
      input_tokens = none;
      output_tokens = none;
      total_tokens = none;
      audio_seconds = none;
      created_by_user_id = some owner_id;
      note = note;
    } in
    (
      transaction,
      record db {
        wallets = update_row wallet_key business_id (set_balance balance) db.wallets;
        transactions = db.transactions ++ transaction ∷ [];
        audit_events = db.audit_events ++ credit_event id owner_id business_id amount_rial ∷ [];
      },
    )

-- `credit_business_wallet` of platform_billing.py, for the owner `owner_id`.
pub credit_business_wallet :
    ℕ → ℕ → ℕ → ℕ → Option String → BillingDb → Result BillingError (WalletTransaction × BillingDb)
credit_business_wallet id owner_id business_id amount_rial note db =
    if is_none (find (λ t. t == business_id) db.tenants)
    then err business_not_found
    else let (wallet, db') = wallet_for_credit business_id db in
      ok (credit_wallet id owner_id business_id amount_rial note wallet db')
