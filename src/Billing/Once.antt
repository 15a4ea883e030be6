-- ===== src/Billing/Once.antt =====
-- What a recorded call costs, and that it is charged once.
use customers_manager_hub.Prelude.{
  ℕ, ◌≡◌, ◌≢◌, refl, ap, Option, none, some, List, [], ◌∷◌, ◌++◌, arith, ◌==◌, ==_iff,
  if◌then◌else◌, find, inl, inr, Bool-cases,
}
use customers_manager_hub.Prelude.Int.{ℤ, pos, ◌-ℤ◌}
use customers_manager_hub.Prelude.Result.{ok}
use customers_manager_hub.Prelude.Table.Laws.{find-append_none}
use customers_manager_hub.AiModels.{AiExecutionTrace, succeeded}
use customers_manager_hub.Billing.{
  BillingDb, WalletTransaction, ModelPrice, BusinessWallet, wallet_of, is_charge_of, debit_of,
  debit, resolve_price, record_charge, calculate_charge_rial,
}
use customers_manager_hub.Billing.Ledger.{
  record_charge-cases, balance_of, balance-update, wallet_tenant,
}

abbrev charge_of : AiExecutionTrace → ModelPrice → ℕ
charge_of trace price =
    calculate_charge_rial price trace.input_tokens trace.output_tokens trace.audio_seconds

-- The new transaction is found as the charge of its call.
find_charge :
    (id : ℕ) (trace : AiExecutionTrace) (amount : ℕ) (b : ℤ) (ts : List WalletTransaction)
    → find (is_charge_of trace.id) ts ≡ none
    → find (is_charge_of trace.id) (ts ++ debit_of id trace amount b ∷ [])
      ≡ some (debit_of id trace amount b)
find_charge id trace amount b ts e =
    rw (find-append_none (is_charge_of trace.id) ts (debit_of id trace amount b ∷ []) e)
      (unfold find is_charge_of debit_of in ground arith)

-- A call that has a charge in the table is skipped.
charged_before :
    (id : ℕ) (trace : AiExecutionTrace) (db : BillingDb) (t : WalletTransaction)
    → trace.status ≡ succeeded
    → find (is_charge_of trace.id) db.transactions ≡ some t
    → record_charge id trace db ≡ ok (none, db)
unfolding record_charge
charged_before id trace db t done e = ground arith

-- Once `record_charge` has succeeded for a call, a further `record_charge` of the same call
-- succeeds, charges nothing and changes nothing.
pub charge_once :
    (id again : ℕ) (trace : AiExecutionTrace) (db db' : BillingDb) (amount : Option ℕ)
    → record_charge id trace db ≡ ok (amount, db')
    → record_charge again trace db' ≡ ok (none, db')
unfolding debit
charge_once id again trace db db' amount e =
    elim (record_charge-cases id trace db (amount, db') e) [
      | inl same ↦ rw (ap (λ r. r.1) same.same) (same.again again)
      | inr c ↦
          charged_before again trace db'
            (debit_of id trace (charge_of trace c.price)
              (c.wallet.balance_rial -ℤ pos (charge_of trace c.price)))
            c.done
            (rw (ap (λ r. r.1) c.result) (
              find_charge id trace (charge_of trace c.price)
                (c.wallet.balance_rial -ℤ pos (charge_of trace c.price)) db.transactions c.fresh))
    ]

some≢none : {n : ℕ} → some n ≢ none
some≢none h = cc

debit_amount :
    (id : ℕ) (trace : AiExecutionTrace) (price : ModelPrice) (w : BusinessWallet) (db : BillingDb)
    (n : ℕ)
    → some n ≡ (debit id trace price w db).0
    → n ≡ charge_of trace price
unfolding debit
debit_amount id trace price w db n e = ground arith

debit_balance :
    (id : ℕ) (trace : AiExecutionTrace) (price : ModelPrice) (w : BusinessWallet) (db : BillingDb)
    (t : ℕ)
    → wallet_of db trace.tenant_id ≡ some w
    → balance_of (wallet_of (debit id trace price w db).1 t) ≡ (
        if trace.tenant_id == t
        then balance_of (wallet_of db t) -ℤ pos (charge_of trace price)
        else balance_of (wallet_of db t))
unfolding debit
debit_balance id trace price w db t e =
    let balance = w.balance_rial -ℤ pos (charge_of trace price) in
    rw
      (
        wallet_tenant db trace.tenant_id w e,
        balance-update t trace.tenant_id balance db.wallets w e,
      )
      (elim (Bool-cases (trace.tenant_id == t)) [
        | inl s ↦ rw (s, ← (==_iff trace.tenant_id t).0 s, e) refl
        | inr s ↦ rw s refl
      ])

-- Where `record_charge` charges an amount, a price was in effect when the call was made, the
-- amount is `calculate_charge_rial` of the call at that price, the balance of its tenant falls by
-- the amount, and every other tenant's balance stays as it was.
pub record_charge_amount :
    (id : ℕ) (trace : AiExecutionTrace) (db db' : BillingDb) (n t : ℕ)
    → record_charge id trace db ≡ ok (some n, db')
    → (price : ModelPrice) × (resolve_price db.prices trace.provider trace.model_id trace.created_at
        ≡ some price)
      × (n ≡ calculate_charge_rial price trace.input_tokens trace.output_tokens trace.audio_seconds)
      × (balance_of (wallet_of db' t) ≡ (
          if trace.tenant_id == t
          then balance_of (wallet_of db t) -ℤ pos n
          else balance_of (wallet_of db t)))
record_charge_amount id trace db db' n t e =
    elim (record_charge-cases id trace db (some n, db') e) [
      | inl skipped ↦ absurd (some≢none (ap (λ r. r.0) skipped.same))
      | inr c ↦
          let amount = debit_amount id trace c.price c.wallet db n (ap (λ r. r.0) c.result) in
          (
            c.price,
            c.priced,
            amount,
            rw (ap (λ r. r.1) c.result, amount)
                (debit_balance id trace c.price c.wallet db t c.funded),
          )
    ]
