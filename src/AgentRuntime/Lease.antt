-- ===== src/AgentRuntime/Lease.antt =====
-- The lease of a run: `_claim_run`, `_renew_run_lease`, `_persist_generated_text`, `_complete_run` and
-- `_release_run_error`, on the table of runs.
pub mod Fencing
pub mod Reachable
pub mod Refined
use customers_manager_hub.Prelude.{
  ℕ, ◌+◌, ◌*◌, String, Bool, true, false, ◌&&◌, ltb, Option, none, some, List, find, equals_some,
  if◌then◌else◌,
}
use customers_manager_hub.Prelude.Result.{Result, ok, err}
use customers_manager_hub.Prelude.Text.{truncate}
use customers_manager_hub.Prelude.Table.{has_key, update_row, update_if}
use customers_manager_hub.AgentModels.{
  AgentRun, AgentRunStatus, pending, generated, paused, succeeded, failed,
}
use customers_manager_hub.Handoff.Escalation.{may_dispatch}
use customers_manager_hub.AgentRuntime.{AgentError, permanent, transient, AgentRunClaim}

abbrev pub run_key : AgentRun → ℕ
run_key r = r.id

-- `_AGENT_RUN_LEASE_SECONDS`, in microseconds.
abbrev pub lease_duration : ℕ
lease_duration = 180 * 1000000

-- No lease, or one that is over.
abbrev pub is_free : ℕ → AgentRun → Bool
is_free now r = elim r.lease_until [ none ↦ true | some until ↦ ltb until now ]

abbrev pub is_claimable : ℕ → AgentRun → Bool
is_claimable now r = may_dispatch r && is_free now r

abbrev pub with_lease : ℕ → ℕ → AgentRun → AgentRun
with_lease token now r = record r {
  lease_token = some token;
  lease_until = some (now + lease_duration);
}

-- The update of `_claim_run`.
unfoldable pub try_claim : (run_id now token : ℕ) → List AgentRun → Option (List AgentRun)
try_claim run_id now token runs =
    update_if run_key run_id (is_claimable now) (with_lease token now) runs

abbrev pub is_over : AgentRunStatus → Bool
is_over succeeded = true
is_over failed = true
is_over _ = false

-- What `_claim_run` says of a run that it did not get: nothing to do, or an error.
unfoldable pub claim_refused : ℕ → List AgentRun → Result AgentError (Option AgentRunClaim)
claim_refused run_id runs = elim (find (has_key run_key run_id) runs) [
  | none ↦ err (permanent "agent_run_missing")
  | some r ↦ if is_over r.status then ok none else err (transient "agent_run_busy")
]

-- The run is still under the claim's lease.
abbrev pub is_held : AgentRunClaim → AgentRun → Bool
is_held claim r = equals_some r.lease_token claim.lease_token

abbrev pub or_lost : Option (List AgentRun) → Result AgentError (List AgentRun)
or_lost none = err (transient "agent_run_lease_lost")
or_lost (some runs) = ok runs

abbrev pub renewed : ℕ → AgentRun → AgentRun
renewed now r = record r { lease_until = some (now + lease_duration) }

-- `_renew_run_lease`
unfoldable pub renew_run_lease :
    AgentRunClaim → (now : ℕ) → List AgentRun → Result AgentError (List AgentRun)
renew_run_lease claim now runs =
    or_lost
      (update_if run_key claim.run_id (λ r. is_held claim r && may_dispatch r) (renewed now) runs)

abbrev pub is_pending : AgentRun → Bool
is_pending r = elim r.status [ pending ↦ true | _ ↦ false ]

abbrev pub with_text : String → AgentRun → AgentRun
with_text text r = record r { status = generated; generated_text = some text; error_code = none }

-- `_persist_generated_text`
unfoldable pub persist_generated_text :
    AgentRunClaim → String → List AgentRun → Result AgentError (List AgentRun)
persist_generated_text claim text runs =
    or_lost
      (update_if run_key claim.run_id (λ r. is_held claim r && is_pending r) (with_text text) runs)

abbrev pub completed : ℕ → AgentRun → AgentRun
completed outbound_message_id r = record r {
  status = succeeded;
  outbound_message_id = some outbound_message_id;
  generated_text = none;
  error_code = none;
  lease_token = none;
  lease_until = none;
}

-- `_complete_run`
unfoldable pub complete_run : AgentRunClaim → ℕ → List AgentRun → Result AgentError (List AgentRun)
complete_run claim outbound_message_id runs =
    or_lost (update_if run_key claim.run_id (is_held claim) (completed outbound_message_id) runs)

abbrev pub released : String → AgentRun → AgentRun
released code r = record r {
  error_code = some (truncate 100 code);
  lease_token = none;
  lease_until = none;
}

abbrev pub failed_run : String → AgentRun → AgentRun
failed_run code r = record r {
  status = failed;
  generated_text = none;
  error_code = some (truncate 100 code);
  lease_token = none;
  lease_until = none;
}

abbrev pub or_same : List AgentRun → Option (List AgentRun) → List AgentRun
or_same runs none = runs
or_same runs (some next) = next

-- `_release_run_error`, which does nothing where the lease is lost.
unfoldable pub release_run_error :
    AgentRunClaim → String → (terminal : Bool) → List AgentRun → List AgentRun
release_run_error claim code terminal runs = or_same runs (
    update_if run_key claim.run_id (is_held claim)
      (if terminal then failed_run code else released code) runs)
