-- ===== src/AgentRuntime/Lease/Refined.antt =====
-- The life of a run, without leases: what the writes of agent_runtime.py may make of it.
use customers_manager_hub.Prelude.{
  ◌≡◌, ◌⊎◌, refl, String, Bool, true, false, ◌&&◌, List, arith, if◌then◌else◌, Option-cases, inl,
  inr,
}
use customers_manager_hub.Prelude.Table.{update_if}
use customers_manager_hub.Prelude.Table.Pointwise.{Pointwise, refl-Pointwise, update_if-Pointwise}
use customers_manager_hub.AgentModels.{
  AgentRun, AgentRunStatus, pending, generated, succeeded, failed,
}
use customers_manager_hub.Handoff.Escalation.{may_dispatch}
use customers_manager_hub.AgentRuntime.{AgentRunClaim}
use customers_manager_hub.AgentRuntime.Lease.{
  run_key, is_claimable, with_lease, try_claim, is_held, is_pending, renewed, with_text, completed,
  released, failed_run, renew_run_lease, persist_generated_text, complete_run, release_run_error,
}
use customers_manager_hub.AgentRuntime.Lease.Reachable.{
  IsSound, LeaseStep, claimed, kept, persisted, finished, gave_up, Reached, reached-IsSound,
  or_lost-some,
}

-- The specification: a pending run gets a text, an open run ends, and nothing else happens to one.
abbrev pub may_become : AgentRunStatus → AgentRunStatus → Bool
may_become pending pending = true
may_become pending generated = true
may_become pending succeeded = true
may_become pending failed = true
may_become generated generated = true
may_become generated succeeded = true
may_become generated failed = true
may_become _ _ = false

-- A run that moved: it was open, it is the same run, and its status follows the specification.
pub record Moved (x y : AgentRun) : Type 0 where
  pub status : may_become x.status y.status ≡ true
  pub id : y.id ≡ x.id
  pub tenant : y.tenant_id ≡ x.tenant_id
  pub conversation : y.conversation_id ≡ x.conversation_id
  pub message : y.inbound_message_id ≡ x.inbound_message_id

abbrev pub Follows : AgentRun → AgentRun → Type 0
Follows x y = (x ≡ y) ⊎ Moved x y

unchanged : (x : AgentRun) → Follows x x
unchanged x = inl refl

moved :
    (x y : AgentRun)
    → may_become x.status y.status ≡ true
    → y.id ≡ x.id
    → y.tenant_id ≡ x.tenant_id
    → y.conversation_id ≡ x.conversation_id
    → y.inbound_message_id ≡ x.inbound_message_id
    → Follows x y
moved x y s i t c m = inr (record { status = s; id = i; tenant = t; conversation = c; message = m })

-- A claim that holds a run holds an open one.
held-open :
    (claim : AgentRunClaim) (x : AgentRun)
    → is_held claim x ≡ true
    → IsSound x
    → may_dispatch x ≡ true
held-open claim x held sound = ground (arith, sound.idle)

open_becomes :
    (x : AgentRun) (next : AgentRunStatus)
    → may_dispatch x ≡ true
    → (may_become x.status succeeded ≡ true)
      × (may_become x.status failed ≡ true)
      × (may_become x.status x.status ≡ true)
open_becomes x next h = (ground arith, ground arith, ground arith)

given_up :
    (claim : AgentRunClaim) (code : String) (terminal : Bool) (x : AgentRun)
    → is_held claim x ≡ true
    → IsSound x
    → Follows x ((if terminal then failed_run code else released code) x)
given_up claim code true x q s =
    moved x (failed_run code x) (open_becomes x failed (held-open claim x q s)).1 refl refl refl
      refl
given_up claim code false x q s =
    moved x (released code x) (open_becomes x failed (held-open claim x q s)).2 refl refl refl refl

-- Each of the five writes of agent_runtime.py to a run (claim, renewal, text, completion and
-- release), in any table of runs that can be reached, leaves a run as it is or moves it along the
-- specification without leases: an open run gets a text or ends. A run that is paused or over is
-- not changed by these writes, and none is added or lost. The pauses and resumptions of
-- handoff_runtime.py, among them a worker's pause for a tool's approval, are not among these
-- writes.
pub leases_refine :
    (runs next : List AgentRun) → Reached runs → LeaseStep runs next → Pointwise Follows runs next
unfolding try_claim renew_run_lease persist_generated_text complete_run release_run_error
leases_refine runs next reached (claimed i now token e) =
    update_if-Pointwise Follows unchanged run_key i (is_claimable now) (with_lease token now)
      IsSound runs next
      (λ x q s. moved x (with_lease token now x) (ground arith) refl refl refl refl) e
      (reached-IsSound runs reached)
leases_refine runs next reached (kept claim now e) =
    update_if-Pointwise Follows unchanged run_key claim.run_id
      (λ x. is_held claim x && may_dispatch x) (renewed now) IsSound runs next
      (λ x q s. moved x (renewed now x) (ground arith) refl refl refl refl)
      (or_lost-some claim _ next e) (reached-IsSound runs reached)
leases_refine runs next reached (persisted claim text e) =
    update_if-Pointwise Follows unchanged run_key claim.run_id
      (λ x. is_held claim x && is_pending x) (with_text text) IsSound runs next
      (λ x q s. moved x (with_text text x) (ground arith) refl refl refl refl)
      (or_lost-some claim _ next e) (reached-IsSound runs reached)
leases_refine runs next reached (finished claim i e) =
    update_if-Pointwise Follows unchanged run_key claim.run_id (is_held claim) (completed i) IsSound
      runs next
      (λ x q s.
        moved x (completed i x) (open_becomes x succeeded (held-open claim x q s)).0 refl refl refl
          refl)
      (or_lost-some claim _ next e) (reached-IsSound runs reached)
leases_refine runs next reached (gave_up claim code terminal e) =
    let f = if terminal then failed_run code else released code in
    elim (Option-cases (update_if run_key claim.run_id (is_held claim) f runs)) [
      | inl n ↦ rw (e, n) (refl-Pointwise Follows unchanged runs)
      | inr (after, n) ↦
          let same : next ≡ after = rw (n, release_run_error) at e in
          rw same (
            update_if-Pointwise Follows unchanged run_key claim.run_id (is_held claim) f IsSound
              runs after (given_up claim code terminal) n (reached-IsSound runs reached))
    ]
