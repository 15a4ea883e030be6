-- ===== src/Billing/Credit.antt =====
-- The credit of a wallet (platform_billing.py) keeps the ledger too.
use customers_manager_hub.Prelude.{
  ℕ, String, ◌≡◌, refl, sym, ap, ◌∙◌, Option, none, some, List, [], ◌∷◌, ◌++◌, arith, ◌==◌, ==_iff,
  if◌then◌else◌, find, inl, inr, Bool-cases, Option-cases,
}
use customers_manager_hub.Prelude.Int.{pos, ◌+ℤ◌}
use customers_manager_hub.Prelude.Result.{ok}
use customers_manager_hub.Prelude.Table.{has_key}
use customers_manager_hub.Billing.{
  BillingDb, WalletTransaction, BusinessWallet, wallet_of, wallet_key, wallet_for_credit,
  credit_wallet, credit_business_wallet,
}
use customers_manager_hub.Billing.Ledger.{
  IsBalanced, ledger, ledger-append, balance_of, balance-update,
}

-- The wallet that is credited is in the table, and making it changes no balance.
record Opened (t : ℕ) (db : BillingDb) (r : BusinessWallet × BillingDb) : Type 0 where
  there : wallet_of r.1 t ≡ some r.0
  balances : (j : ℕ) → balance_of (wallet_of r.1 j) ≡ balance_of (wallet_of db j)
  same_transactions : r.1.transactions ≡ db.transactions

abbrev empty_wallet : ℕ → BusinessWallet
empty_wallet t = record { tenant_id = t; balance_rial = pos 0 }

-- An empty wallet at the end of the table changes no balance.
balance-append :
    (t j : ℕ) (ws : List BusinessWallet)
    → balance_of (find (has_key wallet_key j) (ws ++ empty_wallet t ∷ []))
      ≡ balance_of (find (has_key wallet_key j) ws)
unfolding find
balance-append t j [] = ground arith
balance-append t j (w ∷ ws) = ground (arith, balance-append t j ws)

found_wallet :
    (t : ℕ) (ws : List BusinessWallet)
    → find (has_key wallet_key t) ws ≡ none
    → find (has_key wallet_key t) (ws ++ empty_wallet t ∷ []) ≡ some (empty_wallet t)
unfolding find
found_wallet t [] e = ground arith
found_wallet t (w ∷ ws) e = ground (arith, found_wallet t ws)

wallet_for_credit-Opened : (t : ℕ) (db : BillingDb) → Opened t db (wallet_for_credit t db)
unfolding wallet_for_credit
wallet_for_credit-Opened t db = elim (Option-cases (wallet_of db t)) [
  | inl n ↦
      rw (n, wallet_for_credit)
        (record {
          there = found_wallet t db.wallets n;
          balances = λ j. balance-append t j db.wallets;
          same_transactions = refl;
        })
  | inr (w, e) ↦
      rw (e, wallet_for_credit)
        (record { there = e; balances = λ j. refl; same_transactions = refl })
]

credit_wallet_lem :
    (id owner_id business_id amount_rial : ℕ) (memo : Option String) (w : BusinessWallet)
    (db : BillingDb) (t : ℕ)
    → wallet_of db business_id ≡ some w
    → balance_of (wallet_of (credit_wallet id owner_id business_id amount_rial memo w db).1 t) ≡ (
        if business_id == t
        then balance_of (wallet_of db t) +ℤ pos amount_rial
        else balance_of (wallet_of db t))
      × (ledger t (credit_wallet id owner_id business_id amount_rial memo w db).1.transactions ≡ (
          if business_id == t
          then ledger t db.transactions +ℤ pos amount_rial
          else ledger t db.transactions))
unfolding credit_wallet
credit_wallet_lem id owner_id business_id amount_rial memo w db t e = (
  rw (balance-update t business_id (w.balance_rial +ℤ pos amount_rial) db.wallets w e)
      (elim (Bool-cases (business_id == t)) [
        | inl s ↦ rw (s, ← (==_iff business_id t).0 s, e) refl
        | inr s ↦ rw s refl
      ]),
  ledger-append t db.transactions _,
)

-- What a credit returns where it succeeds.
credit-result :
    (id owner_id business_id amount_rial : ℕ) (memo : Option String) (db : BillingDb)
    (r : WalletTransaction × BillingDb)
    → credit_business_wallet id owner_id business_id amount_rial memo db ≡ ok r
    → let (w, opened) = wallet_for_credit business_id db in
      r ≡ credit_wallet id owner_id business_id amount_rial memo w opened
unfolding credit_business_wallet
credit-result id owner_id business_id amount_rial memo db r e = ground arith

-- Where every balance is the sum of its tenant's transactions and a credit succeeds, that is
-- still so, the balance of the business rises by the amount, from 0 if it had no wallet, and
-- every other tenant's balance stays as it was.
pub credit-IsBalanced :
    (id owner_id business_id amount_rial : ℕ) (memo : Option String) (db db' : BillingDb)
    (x : WalletTransaction)
    → IsBalanced db
    → credit_business_wallet id owner_id business_id amount_rial memo db ≡ ok (x, db')
    → IsBalanced db'
      × ((t : ℕ)
          → balance_of (wallet_of db' t) ≡ (
              if business_id == t
              then balance_of (wallet_of db t) +ℤ pos amount_rial
              else balance_of (wallet_of db t)))
credit-IsBalanced id owner_id business_id amount_rial memo db db' x h e =
    let o = wallet_for_credit-Opened business_id db in
    let w = (wallet_for_credit business_id db).0 in
    let opened = (wallet_for_credit business_id db).1 in
    let kept = λ (t : ℕ). o.balances t ∙ h t ∙ ap (ledger t) (sym o.same_transactions) in
    let step =
      λ (t : ℕ). credit_wallet_lem id owner_id business_id amount_rial memo w opened t o.there in
    rw (ap (λ r. r.1) (credit-result id owner_id business_id amount_rial memo db (x, db') e))
      (λ t. rw ((step t).0, (step t).1, kept t) refl, λ t. rw (← o.balances t) ((step t).0))
