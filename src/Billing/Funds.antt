-- ===== src/Billing/Funds.antt =====
-- When a call may be made: `AIBillingService.ensure_can_execute`.
use customers_manager_hub.Prelude.{ℕ, String, true, ◌≡◌, inl, inr, some, arith, Option-cases}
use customers_manager_hub.Prelude.Int.{pos, ◌≤ℤ◌}
use customers_manager_hub.Prelude.Result.{ok, err}
use customers_manager_hub.Billing.{
  BillingDb, BillingError, ModelPrice, model_pricing_not_configured, insufficient_business_balance,
  resolve_price, wallet_of, ensure_can_execute,
}
use customers_manager_hub.Billing.Ledger.{balance_of}

-- Where a price is required, a call may be made only if the model has a price in effect and the
-- balance of the tenant is above 0.
pub ensure_can_execute_funded :
    (db : BillingDb) (now t : ℕ) (provider model_id : String)
    → ensure_can_execute db now t provider model_id true ≡ ok tt
    → (p : ModelPrice) × (resolve_price db.prices provider model_id now ≡ some p)
      × (pos 1 ≤ℤ balance_of (wallet_of db t))
unfolding ensure_can_execute
ensure_can_execute_funded db now t provider model_id e =
    elim (Option-cases (resolve_price db.prices provider model_id now)) [
      | inl n ↦ absurd (ground arith)
      | inr (p, f) ↦ (
        p,
        f,
        elim (Option-cases (wallet_of db t)) [
          | inl n ↦ absurd (ground arith)
          | inr (w, g) ↦ rw g (ground arith)
        ],
      )
    ]

-- A tenant with no money is refused wherever a price is required.
pub ensure_can_execute_broke :
    (db : BillingDb) (now t : ℕ) (provider model_id : String)
    → balance_of (wallet_of db t) ≤ℤ pos 0
    → (b : BillingError) × (ensure_can_execute db now t provider model_id true ≡ err b)
unfolding ensure_can_execute
ensure_can_execute_broke db now t provider model_id h =
    elim (Option-cases (resolve_price db.prices provider model_id now)) [
      | inl n ↦ (model_pricing_not_configured, ground arith)
      | inr (p, e) ↦ elim (Option-cases (wallet_of db t)) [
        | inl n ↦ (insufficient_business_balance, ground arith)
        | inr (w, f) ↦ (
          insufficient_business_balance,
          let low : w.balance_rial ≤ℤ pos 0 = rw f at h in ground arith,
        )
      ]
    ]
