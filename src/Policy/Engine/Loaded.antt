-- ===== src/Policy/Engine/Loaded.antt =====
-- What holds of any policy that loads.
use customers_manager_hub.Prelude.{
  ℕ, ◌≡◌, refl, ap, ◌==◌, Option, none, some, [], find, All, count, Option-cases, inl, inr, arith,
}
use customers_manager_hub.Prelude.Result.{Result, ok, err, bind_ok, ok_unique, err≢ok}
use customers_manager_hub.HandoffModels.{HandoffPolicy}
use customers_manager_hub.PolicyModels.{TenantPolicy}
use customers_manager_hub.Policy.Hours.{parse_business_hours}
use customers_manager_hub.Policy.Hours.Windows.{IsDayPlan}
use customers_manager_hub.Policy.Hours.Week.{hours-IsDayPlan}
use customers_manager_hub.Policy.Normalize.{
  normalize_policy_timezone, normalize_message_rules, normalize_handoff_keywords,
}
use customers_manager_hub.Policy.Normalize.Keywords.{IsKeywordList, keywords-IsKeywordList}
use customers_manager_hub.Policy.Engine.{
  EffectiveTenantPolicy, PolicyDb, Environment, or_invalid, policy_from_row, default_policy,
  load_effective_tenant_policy,
}

pub record IsSound (p : EffectiveTenantPolicy) : Type 0 where
  pub hours : All (λ d. IsDayPlan 0 d.1) p.business_hours
  pub keywords : IsKeywordList p.handoff_keywords

or_invalid_ok : {E A : Type 0} (r : Result E A) (a : A) → or_invalid r ≡ ok a → r ≡ ok a
or_invalid_ok (ok x) a e = ap ok (ok_unique refl e)
or_invalid_ok (err x) a e = absurd (err≢ok e)

no_keywords : IsKeywordList []
unfolding count
no_keywords = record { each = tt; once = λ k. omega arith }

module _ (env : Environment) where
  row-IsSound :
      (row : TenantPolicy) (p : EffectiveTenantPolicy) → policy_from_row env row ≡ ok p → IsSound p
  unfolding policy_from_row
  row-IsSound row p e =
      let (timezone, f, e₁) =
        bind_ok
          (or_invalid (normalize_policy_timezone env.strip env.casefold env.is_zone row.timezone)) _
          p e in
      let (hours, g, e₂) =
        bind_ok (or_invalid (parse_business_hours env.digit row.business_hours)) _ p e₁ in
      let (rules, h, e₃) =
        bind_ok (or_invalid (normalize_message_rules row.message_rules)) _ p e₂ in
      let (ks, k, last) =
        bind_ok
          (or_invalid
            (normalize_handoff_keywords env.strip env.casefold env.is_zone row.handoff_keywords))
          _ p e₃ in
      rw (← ok_unique refl last) (record {
        hours = hours-IsDayPlan env.digit row.business_hours hours (or_invalid_ok _ hours g);
        keywords =
            keywords-IsKeywordList env.strip env.casefold env.is_zone row.handoff_keywords ks
              (or_invalid_ok _ ks k);
      })

  default-IsSound :
      (legacy : Option HandoffPolicy) (p : EffectiveTenantPolicy)
      → default_policy env legacy ≡ ok p
      → IsSound p
  unfolding default_policy
  default-IsSound none p e = rw (← ok_unique refl e) (record { hours = tt; keywords = no_keywords })
  default-IsSound (some legacy) p e =
      let (ks, k, last) =
        bind_ok
          (or_invalid (
            normalize_handoff_keywords env.strip env.casefold env.is_zone legacy.customer_keywords))
          _ p e in
      rw (← ok_unique refl last) (record {
        hours = tt;
        keywords =
            keywords-IsKeywordList env.strip env.casefold env.is_zone legacy.customer_keywords ks
              (or_invalid_ok _ ks k);
      })

  -- A policy that loads has business hours whose windows are proper and do not overlap, and
  -- keywords of 1 to 80 characters, none listed twice.
  pub load-IsSound :
      (db : PolicyDb) (tenant_id : ℕ) (p : EffectiveTenantPolicy)
      → load_effective_tenant_policy env db tenant_id ≡ ok p
      → IsSound p
  unfolding load_effective_tenant_policy
  load-IsSound db tenant_id p e =
      elim (Option-cases (find (λ x. x.tenant_id == tenant_id) db.tenant_policies)) [
        | inr (row, f) ↦ row-IsSound row p (rw (f, load_effective_tenant_policy) at e)
        | inl n ↦ default-IsSound _ p (rw (n, load_effective_tenant_policy) at e)
      ]
