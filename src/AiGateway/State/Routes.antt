-- ===== src/AiGateway/State/Routes.antt =====
-- The profile that `_load_profile` returns and the order of its routes.
use customers_manager_hub.Prelude.{
  ℕ, ◌≡◌, refl, Bool, true, false, arith, ltb, is_some, find, ◌==◌, ◌&&◌, Option-cases, length, ◌≤◌,
  inl, inr,
}
use customers_manager_hub.Prelude.Sort.{IsSorted, sort-IsSorted, IsSorted-map}
use customers_manager_hub.Prelude.Result.{ok, err≢ok}
use customers_manager_hub.AiModels.{AiTaskType, AiTaskRoute, PlatformAiTaskRoute}
use customers_manager_hub.AiGateway.State.{
  GatewayDb, ResolvedRoute, ResolvedTaskProfile, platform_route_before, route_before,
  resolve_platform_route, resolve_route, with_routes, same_task, tenant_profile, platform_profile,
  load_profile,
}

abbrev pub priority_before : ResolvedRoute → ResolvedRoute → Bool
priority_before r s = ltb r.priority s.priority

-- What a loaded profile promises about its source.
pub record IsLoaded (platform : Bool) (task_type : AiTaskType) (p : ResolvedTaskProfile)
    : Type 0 where
  pub of_task : p.task_type ≡ task_type
  pub of_platform : p.is_platform_profile ≡ platform
  pub some_route : 1 ≤ length p.routes
  pub in_order : IsSorted priority_before p.routes

platform-asym :
    (x y : PlatformAiTaskRoute)
    → platform_route_before x y ≡ true
    → platform_route_before y x ≡ false
unfolding platform_route_before
platform-asym x y h = ground arith

platform-carry :
    (x y z : PlatformAiTaskRoute)
    → platform_route_before y x ≡ false
    → platform_route_before z y ≡ false
    → platform_route_before z x ≡ false
unfolding platform_route_before
platform-carry x y z h k = ground arith

platform-priority :
    (x y : PlatformAiTaskRoute)
    → platform_route_before y x ≡ false
    → priority_before (resolve_platform_route y) (resolve_platform_route x) ≡ false
unfolding platform_route_before resolve_platform_route
platform-priority x y h = ground arith

route-asym : (x y : AiTaskRoute) → route_before x y ≡ true → route_before y x ≡ false
unfolding route_before
route-asym x y h = ground arith

route-carry :
    (x y z : AiTaskRoute)
    → route_before y x ≡ false
    → route_before z y ≡ false
    → route_before z x ≡ false
unfolding route_before
route-carry x y z h k = ground arith

route-priority :
    (x y : AiTaskRoute)
    → route_before y x ≡ false
    → priority_before (resolve_route y) (resolve_route x) ≡ false
unfolding route_before resolve_route
route-priority x y h = ground arith

with_routes-ok :
    (p q : ResolvedTaskProfile) → with_routes p ≡ ok q → (p ≡ q) × (1 ≤ length p.routes)
unfolding with_routes
with_routes-ok p q e = ground arith

with_routes-IsLoaded :
    (platform : Bool) (task_type : AiTaskType) (p q : ResolvedTaskProfile)
    → p.task_type ≡ task_type
    → p.is_platform_profile ≡ platform
    → IsSorted priority_before p.routes
    → with_routes p ≡ ok q
    → IsLoaded platform task_type q
with_routes-IsLoaded platform task_type p q t f sorted e =
    let (same, long) = with_routes-ok p q e in
    rw (← same) (record { of_task = t; of_platform = f; some_route = long; in_order = sorted })

-- A profile that `_load_profile` returns is of the task, is the platform's exactly where the
-- platform has one for the task, and has at least one route; its routes stand in the order of
-- priority.
pub load_profile-IsLoaded :
    (db : GatewayDb) (tenant_id : ℕ) (task_type : AiTaskType) (p : ResolvedTaskProfile)
    → load_profile db tenant_id task_type ≡ ok p
    → IsLoaded
        (is_some (find (λ x. same_task x.task_type task_type) db.platform_profiles))
        task_type
        p
unfolding load_profile
load_profile-IsLoaded db tenant_id task_type p e =
    elim (Option-cases (find (λ x. same_task x.task_type task_type) db.platform_profiles)) [
      | inl n ↦
          elim (Option-cases
            (find (λ x. x.tenant_id == tenant_id && same_task x.task_type task_type) db.profiles)) [
              | inl m ↦ absurd (err≢ok (rw (n, load_profile, m) at e))
              | inr (row, m) ↦ rw n (
                  with_routes-IsLoaded false task_type (tenant_profile db tenant_id task_type row) p
                    refl refl
                    (IsSorted-map resolve_route route_before priority_before _ route-priority
                      (sort-IsSorted route_before route-asym route-carry _))
                    (rw (n, load_profile, m) at e))
            ]
      | inr (row, f) ↦ rw f (
          with_routes-IsLoaded true task_type (platform_profile db task_type row) p refl refl
            (IsSorted-map resolve_platform_route platform_route_before priority_before _
              platform-priority
              (sort-IsSorted platform_route_before platform-asym platform-carry _))
            (rw (f, load_profile) at e))
    ]
