-- ===== src/Billing/Prices.antt =====
-- The price of a model at a time is the latest one that is in effect.
use customers_manager_hub.Prelude.{
  ℕ, String, true, false, ◌&&◌, ◌≡◌, none, some, List, [], ◌∷◌, arith, All, Option-cases,
  Bool-cases, inl, inr,
}
use customers_manager_hub.Billing.{ModelPrice, is_price_of, comes_before, newer, resolve_price}

-- The price `p` is of the model and in effect, and no such price of the list comes before it.
pub record IsLatest (provider model_id : String) (at : ℕ) (ps : List ModelPrice) (p : ModelPrice)
    : Type 0 where
  pub matches : is_price_of provider model_id at p ≡ true
  pub first : All (λ q. (is_price_of provider model_id at q && comes_before q p) ≡ false) ps

comes_before_irrefl : (p : ModelPrice) → comes_before p p ≡ false
unfolding comes_before
comes_before_irrefl p = ground arith

none_first :
    (provider model_id : String) (at : ℕ) (p : ModelPrice) (ps : List ModelPrice)
    → All (λ q. is_price_of provider model_id at q ≡ false) ps
    → All (λ q. (is_price_of provider model_id at q && comes_before q p) ≡ false) ps
none_first provider model_id at p [] h = tt
none_first provider model_id at p (q ∷ ps) h =
    (ground arith, none_first provider model_id at p ps h.1)

module _ (provider model_id : String) (at : ℕ) where
  -- What did not come before `q` does not come before a price that itself comes before `q`.
  first_of_earlier :
      (p q : ModelPrice) (ps : List ModelPrice)
      → comes_before p q ≡ true
      → All (λ r. (is_price_of provider model_id at r && comes_before r q) ≡ false) ps
      → All (λ r. (is_price_of provider model_id at r && comes_before r p) ≡ false) ps
  unfolding comes_before
  first_of_earlier p q [] h l = tt
  first_of_earlier p q (r ∷ ps) h l = (
    elim (Bool-cases (is_price_of provider model_id at r)) [
      | inl e ↦ ground arith
      | inr e ↦ ground arith
    ],
    first_of_earlier p q ps h l.1,
  )

  newer-IsLatest :
      (p q r : ModelPrice) (ps : List ModelPrice)
      → is_price_of provider model_id at p ≡ true
      → IsLatest provider model_id at ps q
      → newer p (some q) ≡ some r
      → IsLatest provider model_id at (p ∷ ps) r
  unfolding newer
  newer-IsLatest p q r ps h l e = ground (arith, first_of_earlier p q ps, comes_before_irrefl p)

  -- It finds none only when no price matches.
  pub resolve_price-none :
      (ps : List ModelPrice)
      → resolve_price ps provider model_id at ≡ none
      → All (λ q. is_price_of provider model_id at q ≡ false) ps
  unfolding resolve_price newer
  resolve_price-none [] e = tt
  resolve_price-none (q ∷ ps) e = elim (Option-cases (resolve_price ps provider model_id at)) [
    | inl n ↦ ground (arith, resolve_price-none ps)
    | inr (r, f) ↦ ground arith
  ]

  -- A price that `_resolve_price` finds is of the model and in effect at the time, and no such
  -- price of the table comes before it in the order by time of effect and id.
  pub resolve_price-IsLatest :
      (ps : List ModelPrice) (p : ModelPrice)
      → resolve_price ps provider model_id at ≡ some p
      → IsLatest provider model_id at ps p
  unfolding resolve_price
  resolve_price-IsLatest [] p e = cc
  resolve_price-IsLatest (q ∷ ps) p e =
      elim (Option-cases (resolve_price ps provider model_id at)) [
        | inl n ↦ ground (
          arith,
          none_first provider model_id at q ps (resolve_price-none ps n),
          comes_before_irrefl q,
        )
        | inr (r, f) ↦ ground (arith, resolve_price-IsLatest ps r f, newer-IsLatest q r p ps)
      ]
