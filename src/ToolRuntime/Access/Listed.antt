-- ===== src/ToolRuntime/Access/Listed.antt =====
-- A tool that is offered to an agent is one that the agent may call, and the other way round.
use text.Mathlib.Text.{◌==◌ as str_eq}
use customers_manager_hub.Prelude.{
  ℕ, ◌≡◌, refl, ◌∙◌, String, Bool, true, false, ◌||◌, Option, none, some, is_some, List, [], ◌∷◌,
  any, find, map, filter, arith, Bool-cases, inl, inr,
}
use customers_manager_hub.Prelude.Result.{Result, ok, err, err≢ok}
use customers_manager_hub.Prelude.Sort.{insert, sort}
use customers_manager_hub.PolicyModels.{ToolDefinition}
use customers_manager_hub.ToolRuntime.Access.{
  ToolDb, ToolEnvironment, active_agent, is_permitted, tool_name, is_listed_before,
  model_definition, list_agent_tools, or_unauthorized, resolve_allowed_tool,
}

module _ {A : Type 0} where
  any-insert :
      (before : A → A → Bool) (p : A → Bool) (x : A) (xs : List A)
      → any p (insert before x xs) ≡ (p x || any p xs)
  unfolding insert any
  any-insert before p x [] = refl
  any-insert before p x (y ∷ ys) = ground (arith, any-insert before p x ys)

  any-sort :
      (before : A → A → Bool) (p : A → Bool) (xs : List A) → any p (sort before xs) ≡ any p xs
  unfolding sort any
  any-sort before p [] = refl
  any-sort before p (x ∷ xs) =
      ground (arith, any-insert before p x (sort before xs), any-sort before p xs)

  any-map :
      {B : Type 0} (f : A → B) (p : B → Bool) (xs : List A)
      → any p (map f xs) ≡ any (λ x. p (f x)) xs
  unfolding any
  any-map f p [] = refl
  any-map f p (x ∷ xs) = rw (any-map f p xs) refl

  find-filter : (p q : A → Bool) (xs : List A) (x : A) → find p (filter q xs) ≡ some x → q x ≡ true
  unfolding find filter
  find-filter p q [] x e = ground arith
  find-filter p q (y ∷ ys) x e = elim (Bool-cases (q y)) [
    | inr other ↦ find-filter p q ys x (rw (other, filter) at e)
    | inl keep ↦ elim (Bool-cases (p y)) [
      | inr other ↦ find-filter p q ys x (rw (keep, filter, other, find) at e)
      | inl first ↦ let e' = rw (keep, filter, first, find) at e in ground (arith, e', keep)
    ]
  ]

abbrev pub is_ok : {E A : Type 0} → Result E A → Bool
is_ok (ok a) = true
is_ok (err e) = false

module _ {W : Type 0} (env : ToolEnvironment W) (db : ToolDb) (tenant_id agent_id : ℕ) where
  found_any :
      (p : ToolDefinition → Bool) (xs : List ToolDefinition)
      → any p xs ≡ is_ok (or_unauthorized env (find p xs))
  unfolding any find
  found_any p [] = refl
  found_any p (x ∷ xs) = ground (arith, found_any p xs)

  authorized :
      (o : Option ToolDefinition) (t : ToolDefinition) → or_unauthorized env o ≡ ok t → o ≡ some t
  authorized none t e = absurd (err≢ok e)
  authorized (some x) t e = cc

  -- An agent may call a tool by its name exactly where a tool of this name is listed for its
  -- model.
  pub listed_iff :
      (name : String)
      → any (λ d. str_eq d.qualified_name name) (list_agent_tools env db tenant_id agent_id)
        ≡ is_ok (resolve_allowed_tool env db tenant_id agent_id name)
  unfolding list_agent_tools resolve_allowed_tool any
  listed_iff name =
      let p = λ (t : ToolDefinition). str_eq (tool_name env t) name in
      let own = filter (is_permitted db tenant_id agent_id) db.tools in
      elim (Bool-cases (is_some (active_agent db tenant_id agent_id))) [
        | inr inactive ↦ rw inactive refl
        | inl active ↦ rw active (
            any-map (model_definition env) (λ d. str_eq d.qualified_name name)
              (sort (is_listed_before env) own)
            ∙ any-sort (is_listed_before env) p own
            ∙ found_any p own)
      ]

  -- A tool that may be called is active, of the tenant, and granted to the agent.
  pub resolved-permitted :
      (name : String) (tool : ToolDefinition)
      → resolve_allowed_tool env db tenant_id agent_id name ≡ ok tool
      → is_permitted db tenant_id agent_id tool ≡ true
  unfolding resolve_allowed_tool
  resolved-permitted name tool e =
      elim (Bool-cases (is_some (active_agent db tenant_id agent_id))) [
        | inr inactive ↦ absurd (err≢ok (rw inactive at e))
        | inl active ↦
            let own = filter (is_permitted db tenant_id agent_id) db.tools in
            let p = λ (t : ToolDefinition). str_eq (tool_name env t) name in
            find-filter p (is_permitted db tenant_id agent_id) db.tools tool
              (authorized (find p own) tool (rw active at e))
      ]
