-- ===== src/Policy/Decide/Autonomy.antt =====
-- When an agent may answer by itself, and the traces of that decision.
use mathlib.Core.List.{append_assoc}
use customers_manager_hub.Prelude.{
  ℕ, String, ◌≡◌, ◌≤◌, ◌⊎◌, refl, ap, ◌∙◌, Bool, true, false, ◌&&◌, ◌||◌, not, some, List, [], ◌∷◌,
  ◌++◌, find, is_some, All, length, if◌then◌else◌, arith, Bool-cases, Option-cases, inl, inr,
}
use customers_manager_hub.Prelude.Text.{truncate, contains}
use customers_manager_hub.Models.{Message}
use customers_manager_hub.PolicyModels.{
  allow, handoff, autonomy_decision, business_hours_decision, handoff_decision, PolicyDecisionType,
  PolicyDecisionAction, PolicyDecisionTrace,
}
use customers_manager_hub.Policy.Engine.{EffectiveTenantPolicy, PolicyDecision, PolicyDb, add_trace}
use customers_manager_hub.Policy.Decide.{
  traced, mode_text, message_trace, autonomy_stop, hours_stop, decide_autonomy, decide_hours,
  decide_ai,
}

abbrev pub has_hours : EffectiveTenantPolicy → Bool
has_hours policy = elim policy.business_hours [ [] ↦ false | _ ∷ _ ↦ true ]

-- What keeps an agent silent under a policy in force: the hours, the mode or a keyword.
abbrev pub is_stopped : EffectiveTenantPolicy → String → (within : Bool) → Bool
is_stopped policy text within =
    policy.enabled
    && ((has_hours policy
          && not within
          && is_some (hours_stop policy.outside_business_hours_action))
        || is_some (autonomy_stop policy.autonomy_mode)
        || is_some (find (λ keyword. contains keyword text) policy.handoff_keywords))

-- The traces of a decision: the last one is of the decision itself, and at most `k` stand before it.
pub record IsTraced (k : ℕ) (m : Message) (db next : PolicyDb) (d : PolicyDecision) : Type 0 where
  pub before : List PolicyDecisionTrace
  pub last : PolicyDecisionTrace
  pub written : next ≡ record db { traces = db.traces ++ (before ++ last ∷ []) }
  pub few : length before ≤ k
  pub of_message : All (λ t. t.message_id ≡ some m.id) (before ++ last ∷ [])
  pub same_action : last.action ≡ d.action
  pub same_reason : last.reason_code ≡ truncate 100 d.reason_code

hours-cases : {A : Type 0} (xs : List A) → (xs ≡ []) ⊎ ((y : A) × (ys : List A) × (xs ≡ y ∷ ys))
hours-cases [] = inl refl
hours-cases (y ∷ ys) = inr (y, ys, refl)

autonomy_action :
    (m : Message) (policy : EffectiveTenantPolicy) (text : String) (db : PolicyDb)
    → (decide_autonomy m policy text db).0.action ≡ (
        if is_some (autonomy_stop policy.autonomy_mode)
          || is_some (find (λ keyword. contains keyword text) policy.handoff_keywords)
        then handoff
        else allow)
unfolding decide_autonomy
autonomy_action m policy text db = ground arith

hours_action :
    (m : Message) (policy : EffectiveTenantPolicy) (text : String) (within : Bool) (db : PolicyDb)
    → (decide_hours m policy text within db).0.action ≡ (
        if (not within && is_some (hours_stop policy.outside_business_hours_action))
          || is_some (autonomy_stop policy.autonomy_mode)
          || is_some (find (λ keyword. contains keyword text) policy.handoff_keywords)
        then handoff
        else allow)
unfolding decide_hours
hours_action m policy text within db = elim (Bool-cases within) [
  | inl inside ↦ ground (arith, autonomy_action m policy text _)
  | inr outside ↦ elim (Option-cases (hours_stop policy.outside_business_hours_action)) [
    | inl n ↦ ground (arith, autonomy_action m policy text _)
    | inr (reason, f) ↦ ground arith
  ]
]

pub ai_action :
    (m : Message) (policy : EffectiveTenantPolicy) (text : String) (within : Bool) (db : PolicyDb)
    → (decide_ai m policy text within db).0.action
      ≡ (if is_stopped policy text within then handoff else allow)
unfolding decide_ai
ai_action m policy text within db =
    ground (arith, autonomy_action m policy text db, hours_action m policy text within db)

traced-IsTraced :
    (m : Message) (policy : EffectiveTenantPolicy) (t : PolicyDecisionType)
    (a : PolicyDecisionAction) (reason : String) (context : List (String × String)) (db : PolicyDb)
    → let (d, next) = traced m policy t a reason context db in IsTraced 0 m db next d
unfolding add_trace
traced-IsTraced m policy t a reason context db = record {
  before = [];
  last = record (message_trace m policy t a reason context) { reason_code = truncate 100 reason };
  written = refl;
  few = omega arith;
  of_message = (refl, tt);
  same_action = refl;
  same_reason = refl;
}

autonomy-IsTraced :
    (m : Message) (policy : EffectiveTenantPolicy) (text : String) (db : PolicyDb)
    → let (d, next) = decide_autonomy m policy text db in IsTraced 0 m db next d
unfolding decide_autonomy
autonomy-IsTraced m policy text db =
    let mode = ("autonomy_mode", mode_text policy.autonomy_mode) ∷ [] in
    elim (Option-cases (autonomy_stop policy.autonomy_mode)) [
      | inr (reason, f) ↦
          rw (f, decide_autonomy)
            (traced-IsTraced m policy autonomy_decision handoff reason mode db)
      | inl n ↦
          elim (Option-cases (find (λ keyword. contains keyword text) policy.handoff_keywords)) [
            | inr (keyword, f) ↦
                rw (n, decide_autonomy, f)
                  (traced-IsTraced m policy handoff_decision handoff "handoff_keyword"
                    (("matched_keyword", keyword) ∷ []) db)
            | inl k ↦
                rw (n, decide_autonomy, k)
                  (traced-IsTraced m policy autonomy_decision allow "autonomous_ai_allowed" mode db)
          ]
    ]

IsTraced-weaken :
    (m : Message) (db next : PolicyDb) (d : PolicyDecision)
    → IsTraced 0 m db next d
    → IsTraced 1 m db next d
IsTraced-weaken m db next d h = record {
  before = h.before;
  last = h.last;
  written = h.written;
  few = omega (arith, h.few);
  of_message = h.of_message;
  same_action = h.same_action;
  same_reason = h.same_reason;
}

-- A trace before the others.
IsTraced-after :
    (m : Message) (policy : EffectiveTenantPolicy) (t : PolicyDecisionType)
    (a : PolicyDecisionAction) (reason : String) (context : List (String × String))
    (db next : PolicyDb) (d : PolicyDecision)
    → IsTraced 0 m (add_trace (message_trace m policy t a reason context) db) next d
    → IsTraced 1 m db next d
unfolding add_trace
IsTraced-after m policy t a reason context db next d h =
    let first = record (message_trace m policy t a reason context) {
      reason_code = truncate 100 reason;
    } in
    record {
      before = first ∷ h.before;
      last = h.last;
      written =
          h.written
          ∙ ap (λ l. record db { traces = l })
              (append_assoc db.traces (first ∷ []) (h.before ++ h.last ∷ []));
      few = omega (arith, h.few);
      of_message = (refl, h.of_message);
      same_action = h.same_action;
      same_reason = h.same_reason;
    }

hours-IsTraced :
    (m : Message) (policy : EffectiveTenantPolicy) (text : String) (within : Bool) (db : PolicyDb)
    → let (d, next) = decide_hours m policy text within db in IsTraced 1 m db next d
unfolding decide_hours
hours-IsTraced m policy text within db =
    let zone = ("timezone", policy.timezone) ∷ [] in
    let go : (reason : String) → _ = λ reason.
      IsTraced-after m policy business_hours_decision allow reason zone db _ _ (
        autonomy-IsTraced m policy text
          (add_trace (message_trace m policy business_hours_decision allow reason zone) db)) in
    elim (Bool-cases within) [
      | inl inside ↦ rw (inside, decide_hours) (go "within_business_hours")
      | inr outside ↦ elim (Option-cases (hours_stop policy.outside_business_hours_action)) [
        | inl n ↦ rw (outside, decide_hours, n) (go "outside_business_hours_allowed")
        | inr (reason, f) ↦
            rw (outside, decide_hours, f)
              (IsTraced-weaken m db _ _
                (traced-IsTraced m policy business_hours_decision handoff reason zone db))
      ]
    ]

pub ai-IsTraced :
    (m : Message) (policy : EffectiveTenantPolicy) (text : String) (within : Bool) (db : PolicyDb)
    → let (d, next) = decide_ai m policy text within db in IsTraced 1 m db next d
unfolding decide_ai
ai-IsTraced m policy text within db = elim (Bool-cases policy.enabled) [
  | inr off ↦
      rw (off, decide_ai)
        (IsTraced-weaken m db _ _
          (traced-IsTraced m policy autonomy_decision allow "policy_disabled" [] db))
  | inl on ↦ elim (hours-cases policy.business_hours) [
    | inl n ↦ rw (on, decide_ai, n) (IsTraced-weaken m db _ _ (autonomy-IsTraced m policy text db))
    | inr (x, xs, f) ↦ rw (on, decide_ai, f) (hours-IsTraced m policy text within db)
  ]
]
