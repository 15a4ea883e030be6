-- ===== src/AgentRuntime/Environment/Keeps.antt =====
-- What a step of a worker keeps, part by part.
use customers_manager_hub.Prelude.{ℕ, zero, suc, ◌≡◌, ◌⊎◌, refl, List, Bool-cases, inl, inr}
use customers_manager_hub.Prelude.Result.{Result, ok, err, Result-cases}
pub use customers_manager_hub.Prelude.Step.{Keeps, >>=-Keeps}
use customers_manager_hub.AgentModels.{AgentRun}
use customers_manager_hub.AgentRuntime.{AgentError, AgentFault, with_runs, runs_of, AgentRunClaim}
use customers_manager_hub.AgentRuntime.Lease.{renew_run_lease}
use customers_manager_hub.AgentRuntime.Environment.{
  State, M, lift, Environment, cancelled, on_runs, renew, renewing, with_lease_renewal,
}

module _ {W : Type 0} (P : State W → Type 0) where
  pub lift-Keeps : {A : Type 0} (r : Result AgentError A) → Keeps P (lift r)
  lift-Keeps (ok a) s p = p
  lift-Keeps (err e) s p = p

  module _ (env : Environment W) (others : (s : State W) → P s → P (env.others s))
      (runs : (next : List AgentRun) (s : State W)
        → P s
        → P (record s { db = with_runs next s.db })) where
    pub on_runs-Keeps :
        (f : List AgentRun → Result AgentError (List AgentRun)) → Keeps P (on_runs env f)
    unfolding on_runs
    on_runs-Keeps f s p =
        let s' = env.others s in
        elim (Result-cases (f (runs_of s'.db))) [
          | inl (next, e) ↦ rw (e, on_runs) (runs next s' (others s p))
          | inr (x, e) ↦ rw (e, on_runs) (others s p)
        ]

    cancelled-Keeps :
        {A : Type 0} (task : M W A) (e : AgentFault) → Keeps P task → Keeps P (cancelled env task e)
    unfolding cancelled
    cancelled-Keeps task e h s p = elim (Bool-cases (env.is_late s)) [
      | inl late ↦ rw (late, cancelled) (h s p)
      | inr early ↦ rw (early, cancelled) p
    ]

    renewing-Keeps :
        {A : Type 0} (n : ℕ) (claim : AgentRunClaim) (task : M W A)
        → Keeps P task
        → Keeps P (renewing env n claim task)
    unfolding renewing renew
    renewing-Keeps zero claim task h s p = h s p
    renewing-Keeps (suc n) claim task h s p =
        let kept = on_runs-Keeps (renew_run_lease claim (env.now s.world)) s p in
        elim (Result-cases (renew env claim s).0) [
          | inl (t, e) ↦ rw (e, renewing) (renewing-Keeps n claim task h (renew env claim s).1 kept)
          | inr (x, e) ↦ rw (e, renewing) (cancelled-Keeps task x h (renew env claim s).1 kept)
        ]

    pub with_lease_renewal-Keeps :
        {A : Type 0} (claim : AgentRunClaim) (task : M W A)
        → Keeps P task
        → Keeps P (with_lease_renewal env claim task)
    unfolding with_lease_renewal
    with_lease_renewal-Keeps claim task h s = renewing-Keeps (env.intervals s) claim task h s

-- A task that leads from `P` to `Q` still does where the lease is renewed around it, unless it is
-- cancelled before it has done its work.
module _ {W : Type 0} (P Q : State W → Type 0) (env : Environment W)
    (others : (s : State W) → P s → P (env.others s))
    (runs : (next : List AgentRun) (s : State W)
      → P s
      → P (record s { db = with_runs next s.db })) where
  abbrev pub Leads : {A : Type 0} → M W A → Type 0
  Leads m = (s : State W) → P s → Q (m s).1 ⊎ (P (m s).1 × (x : AgentFault) × ((m s).0 ≡ err x))

  cancelled-Leads :
      {A : Type 0} (task : M W A) (e : AgentFault) → Leads task → Leads (cancelled env task e)
  unfolding cancelled
  cancelled-Leads task e h s p = elim (Bool-cases (env.is_late s)) [
    | inr early ↦ rw (early, cancelled) (inr (p, e, refl))
    | inl late ↦ elim (h s p) [
      | inl q ↦ rw (late, cancelled) (inl q)
      | inr (q, x, f) ↦ rw (late, cancelled) (inr (q, e, refl))
    ]
  ]

  renewing-Leads :
      {A : Type 0} (n : ℕ) (claim : AgentRunClaim) (task : M W A)
      → Leads task
      → Leads (renewing env n claim task)
  unfolding renewing renew
  renewing-Leads zero claim task h s p = h s p
  renewing-Leads (suc n) claim task h s p =
      let kept = on_runs-Keeps P env others runs (renew_run_lease claim (env.now s.world)) s p in
      elim (Result-cases (renew env claim s).0) [
        | inl (t, e) ↦ rw (e, renewing) (renewing-Leads n claim task h (renew env claim s).1 kept)
        | inr (x, e) ↦ rw (e, renewing) (cancelled-Leads task x h (renew env claim s).1 kept)
      ]

  pub with_lease_renewal-Leads :
      {A : Type 0} (claim : AgentRunClaim) (task : M W A)
      → Leads task
      → Leads (with_lease_renewal env claim task)
  unfolding with_lease_renewal
  with_lease_renewal-Leads claim task h s = renewing-Leads (env.intervals s) claim task h s
