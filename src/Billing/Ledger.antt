-- ===== src/Billing/Ledger.antt =====
-- Wallets agree with their transactions: what a charge and a credit do to the ledger.
use customers_manager_hub.Prelude.{
  ℕ, false, ◌≡◌, refl, Option, none, some, List, [], ◌∷◌, ◌++◌, arith, ◌==◌, if◌then◌else◌, find,
  find-holds, is_some, ap, ◌⊎◌, Option-cases, Bool-cases, ==_iff, inl, inr,
}
use customers_manager_hub.Prelude.Int.{ℤ, pos, ◌+ℤ◌, ◌-ℤ◌, int_laws}
use customers_manager_hub.Prelude.Result.{ok}
use customers_manager_hub.Prelude.Table.{has_key, update_row}
use customers_manager_hub.Prelude.Table.Laws.{find-update_row}
use customers_manager_hub.AiModels.{AiExecutionStatus, AiExecutionTrace, succeeded, failed}
use customers_manager_hub.Billing.{
  WalletTransactionKind, credit, ai_debit, BusinessWallet, WalletTransaction, BillingDb, ModelPrice,
  wallet_key, wallet_of, set_balance, is_charge_of, debit_of, debit, resolve_price, record_charge,
  calculate_charge_rial,
}

-- What a transaction adds to its tenant's balance.
abbrev pub signed_amount : WalletTransactionKind → ℕ → ℤ
signed_amount credit n = pos n
signed_amount ai_debit n = pos 0 -ℤ pos n

-- The sum of a tenant's transactions.
unfoldable pub ledger : ℕ → List WalletTransaction → ℤ
ledger t [] = pos 0
ledger t (x ∷ xs) =
    if x.tenant_id == t then signed_amount x.kind x.amount_rial +ℤ ledger t xs else ledger t xs

-- The balance of a tenant, 0 where it has no wallet.
abbrev pub balance_of : Option BusinessWallet → ℤ
balance_of none = pos 0
balance_of (some w) = w.balance_rial

-- Every tenant's balance is the sum of its transactions.
abbrev pub IsBalanced : BillingDb → Type 0
IsBalanced db = (t : ℕ) → balance_of (wallet_of db t) ≡ ledger t db.transactions

pub ledger-append :
    (t : ℕ) (xs : List WalletTransaction) (x : WalletTransaction)
    → ledger t (xs ++ x ∷ []) ≡ (
        if x.tenant_id == t then ledger t xs +ℤ signed_amount x.kind x.amount_rial else ledger t xs)
unfolding ledger
ledger-append t [] x = grind int_laws
ledger-append t (y ∷ xs) x = grind (int_laws, ledger-append t xs x)

-- The wallets after a charge or a credit of one tenant.
pub balance-update :
    (t tenant : ℕ) (b : ℤ) (ws : List BusinessWallet) (w : BusinessWallet)
    → find (has_key wallet_key tenant) ws ≡ some w
    → balance_of (find (has_key wallet_key t) (update_row wallet_key tenant (set_balance b) ws))
      ≡ (if tenant == t then b else balance_of (find (has_key wallet_key t) ws))
balance-update t tenant b ws w e =
    rw (find-update_row wallet_key t tenant (set_balance b) ws (λ x. refl))
      (elim (Bool-cases (tenant == t)) [
        | inl s ↦ rw (s, ← (==_iff tenant t).0 s, e) refl
        | inr s ↦ rw s refl
      ])

pub wallet_tenant :
    (db : BillingDb) (t : ℕ) (w : BusinessWallet) → wallet_of db t ≡ some w → w.tenant_id ≡ t
wallet_tenant db t w e = (==_iff w.tenant_id t).0 (find-holds (has_key wallet_key t) db.wallets w e)

pub debit-IsBalanced :
    (id : ℕ) (trace : AiExecutionTrace) (price : ModelPrice) (w : BusinessWallet) (db : BillingDb)
    → wallet_of db trace.tenant_id ≡ some w
    → IsBalanced db
    → IsBalanced (debit id trace price w db).1
unfolding debit debit_of
debit-IsBalanced id trace price w db e h t =
    let amount =
      calculate_charge_rial price trace.input_tokens trace.output_tokens trace.audio_seconds in
    let balance = w.balance_rial -ℤ pos amount in
    rw (wallet_tenant db trace.tenant_id w e) (
      grind (
        int_laws,
        h t,
        e,
        balance-update t trace.tenant_id balance db.wallets w e,
        ledger-append t db.transactions (debit_of id trace amount balance),
      ))

-- A call that is not charged, now or when it is recorded again.
pub record Skipped (trace : AiExecutionTrace) (db : BillingDb) (r : Option ℕ × BillingDb)
    : Type 0 where
  pub same : r ≡ (none, db)
  pub again : (id : ℕ) → record_charge id trace db ≡ ok (none, db)

-- A charge that was made: of a call that succeeded and was not charged before, at its price.
pub record Charged (id : ℕ) (trace : AiExecutionTrace) (db : BillingDb) (r : Option ℕ × BillingDb)
    : Type 0 where
  pub price : ModelPrice
  pub wallet : BusinessWallet
  pub done : trace.status ≡ succeeded
  pub fresh : find (is_charge_of trace.id) db.transactions ≡ none
  pub priced : resolve_price db.prices trace.provider trace.model_id trace.created_at ≡ some price
  pub funded : wallet_of db trace.tenant_id ≡ some wallet
  pub result : r ≡ debit id trace price wallet db

pub Status-cases : (s : AiExecutionStatus) → (s ≡ succeeded) ⊎ (s ≡ failed)
Status-cases succeeded = inl refl
Status-cases failed = inr refl

none_of_is_some {ℓ} : {A : Type ℓ} {o : Option A} → is_some o ≡ false → o ≡ none
none_of_is_some {o = none} h = refl
none_of_is_some {o = some a} h = cc

-- A call that failed costs nothing.
pub record_charge_failed :
    (id : ℕ) (trace : AiExecutionTrace) (db : BillingDb)
    → trace.status ≡ failed
    → record_charge id trace db ≡ ok (none, db)
unfolding record_charge
record_charge_failed id trace db e = ground arith

-- A recorded call was charged, or nothing was changed.
pub record_charge-cases :
    (id : ℕ) (trace : AiExecutionTrace) (db : BillingDb) (r : Option ℕ × BillingDb)
    → record_charge id trace db ≡ ok r
    → Skipped trace db r ⊎ Charged id trace db r
unfolding record_charge
record_charge-cases id trace db r e =
    elim (Option-cases (resolve_price db.prices trace.provider trace.model_id trace.created_at)) [
      | inl n ↦ inl (record { same = ground arith; again = λ j. ground arith })
      | inr (p, f) ↦ elim (Option-cases (wallet_of db trace.tenant_id)) [
        | inl n ↦ inl (record { same = ground arith; again = λ j. ground arith })
        | inr (w, g) ↦ elim (Bool-cases (is_some (find (is_charge_of trace.id) db.transactions))) [
          | inl old ↦ inl (record { same = ground arith; again = λ j. ground arith })
          | inr new ↦ elim (Status-cases trace.status) [
            | inl done ↦ inr (record {
              price = p;
              wallet = w;
              done = done;
              fresh = none_of_is_some new;
              priced = f;
              funded = g;
              result = ground arith;
            })
            | inr failed_call ↦ inl (record { same = ground arith; again = λ j. ground arith })
          ]
        ]
      ]
    ]

-- Where every balance is the sum of its tenant's transactions, it still is after `record_charge`
-- succeeds.
pub record_charge-IsBalanced :
    (id : ℕ) (trace : AiExecutionTrace) (db db' : BillingDb) (amount : Option ℕ)
    → IsBalanced db
    → record_charge id trace db ≡ ok (amount, db')
    → IsBalanced db'
record_charge-IsBalanced id trace db db' amount h e =
    elim (record_charge-cases id trace db (amount, db') e) [
      | inl same ↦ rw (ap (λ r. r.1) same.same) h
      | inr c ↦
          rw (ap (λ r. r.1) c.result) (debit-IsBalanced id trace c.price c.wallet db c.funded h)
    ]
