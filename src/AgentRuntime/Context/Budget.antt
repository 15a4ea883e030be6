-- ===== src/AgentRuntime/Context/Budget.antt =====
-- The history that a model is given stays within its budget of characters.
use customers_manager_hub.Prelude.{
  ℕ, ◌+◌, ◌-◌, ◌≤◌, ◌≡◌, refl, ◌∙◌, String, ltb, leb, List, [], ◌∷◌, arith, Bool-cases, inl, inr,
}
use text.Mathlib.Text.{◌==◌ as str_eq}
use customers_manager_hub.Prelude.Text.{size, truncate, join, size-truncate, size-join_cons}
use customers_manager_hub.Models.{Message}
use customers_manager_hub.AgentRuntime.Context.{
  separator_cost, or_cut, history_of, snippet_of, select_history, history_text, text_or_empty,
}

joined : List String → ℕ
joined xs = size (join "\n" xs)

joined-cons :
    (s : String) (xs : List String) → joined (s ∷ xs) ≡ joined xs + separator_cost xs + size s
unfolding joined join size
joined-cons s [] = omega arith
joined-cons s (t ∷ rest) = size-join_cons "\n" s t rest ∙ omega arith

cut-le :
    (budget : ℕ) (selected : List String) (used : ℕ) (cut : String)
    → joined selected ≡ used
    → used ≤ budget
    → size cut ≤ budget - (used + separator_cost selected)
    → joined (or_cut selected cut) ≤ budget
unfolding joined join
cut-le budget [] used cut e h k = omega arith
cut-le budget (x ∷ xs) used cut e h k = omega arith

or_none-le :
    (budget : ℕ) (selected : List String)
    → joined selected ≤ budget
    → size (history_of budget selected) ≤ budget
unfolding joined
or_none-le budget [] h = omega (arith, size-truncate budget "(no prior text messages)")
or_none-le budget (x ∷ xs) h = h

module _ (strip : String → String) (created_at : Message → ℕ) where
  select-le :
      (budget : ℕ) (messages : List Message) (selected : List String) (used : ℕ)
      → joined selected ≡ used
      → used ≤ budget
      → joined (select_history strip created_at budget messages selected used) ≤ budget
  unfolding select_history
  select-le budget [] selected used e h = omega arith
  select-le budget (m ∷ rest) selected used e h =
      let snippet = snippet_of strip created_at m in
      let cost = used + separator_cost selected in
      elim (Bool-cases (str_eq (strip (text_or_empty m.text)) "")) [
        | inl blank ↦ rw (blank, select_history) (select-le budget rest selected used e h)
        | inr filled ↦ elim (Bool-cases (leb budget cost)) [
          | inl full ↦ rw (filled, select_history, full) (omega arith)
          | inr room ↦ elim (Bool-cases (ltb (budget - cost) (size snippet))) [
            | inl long ↦
                rw (filled, select_history, room, long)
                  (cut-le budget selected used (truncate (budget - cost) snippet) e h
                    (rw (size-truncate (budget - cost) snippet) (ground (arith, room))))
            | inr fits ↦
                rw (filled, select_history, room, fits)
                  (select-le budget rest (snippet ∷ selected) (cost + size snippet)
                    (joined-cons snippet selected ∙ omega arith) (ground arith))
          ]
        ]
      ]

  -- The history that a model is given is never longer than its budget of characters.
  pub history_text-le :
      (budget : ℕ) (messages : List Message)
      → size (history_text strip created_at budget messages) ≤ budget
  unfolding history_text joined size join
  history_text-le budget messages =
      or_none-le budget (select_history strip created_at budget messages [] 0)
        (select-le budget messages [] 0 refl (omega arith))
