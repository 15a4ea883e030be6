-- ===== src/AgentRuntime/Lease/Reachable.antt =====
-- What holds of every run, whatever the workers and the handoffs do in whatever order.
use customers_manager_hub.Prelude.{
  ℕ, ◌≡◌, String, Bool, true, false, ◌&&◌, Option, none, some, is_some, List, [], ◌∷◌, ◌++◌, All,
  All-append, arith, if◌then◌else◌, Option-cases, inl, inr,
}
use customers_manager_hub.Prelude.Result.{ok, err≢ok}
use customers_manager_hub.Prelude.Table.{update_row, update_if}
use customers_manager_hub.Prelude.Table.Laws.{All-update_row, All-update_if}
use customers_manager_hub.AgentModels.{AgentRun, AgentRunStatus, pending, generated, paused}
use customers_manager_hub.Handoff.{stopped_run}
use customers_manager_hub.Handoff.Escalation.{may_dispatch}
use customers_manager_hub.AgentRuntime.{AgentRunClaim}
use customers_manager_hub.AgentRuntime.Resolve.{new_run, insert_run}
use customers_manager_hub.AgentRuntime.Lease.{
  run_key, is_claimable, with_lease, try_claim, is_held, is_pending, renewed, with_text, completed,
  released, failed_run, or_lost, renew_run_lease, persist_generated_text, complete_run,
  release_run_error,
}

abbrev pub is_generated : AgentRunStatus → Bool
is_generated generated = true
is_generated _ = false

-- A run has a text exactly while it is generated; a token and an end of the lease come and go together,
-- and a run that is paused or over has neither.
pub record IsSound (r : AgentRun) : Type 0 where
  pub has_text : is_some r.generated_text ≡ is_generated r.status
  pub leased : is_some r.lease_token ≡ is_some r.lease_until
  pub idle : may_dispatch r ≡ false → is_some r.lease_token ≡ false

-- A write of agent_runtime.py to a run: a claim, a renewal of the lease, a text, a completion or a
-- release. A worker's pause for a tool's approval is one of handoff_runtime.py, and looks at no lease: it
-- is `stopped` below.
pub data LeaseStep (runs next : List AgentRun) : Type 0 where
  claimed :
      (run_id now token : ℕ) → try_claim run_id now token runs ≡ some next → LeaseStep runs next
  kept :
      (claim : AgentRunClaim) (now : ℕ)
      → renew_run_lease claim now runs ≡ ok next
      → LeaseStep runs next
  persisted :
      (claim : AgentRunClaim) (text : String)
      → persist_generated_text claim text runs ≡ ok next
      → LeaseStep runs next
  finished :
      (claim : AgentRunClaim) (message_id : ℕ)
      → complete_run claim message_id runs ≡ ok next
      → LeaseStep runs next
  gave_up :
      (claim : AgentRunClaim) (code : String) (terminal : Bool)
      → next ≡ release_run_error claim code terminal runs
      → LeaseStep runs next

-- What one step does to the table: a new run, a write under a lease, and what the handoff runtime writes
-- when it pauses a run, whoever asks for it, or lets it go on.
pub data RunStep (runs next : List AgentRun) : Type 0 where
  created :
      (id tenant_id agent_id version_id account_id conversation_id message_id : ℕ)
      → insert_run
          (new_run id tenant_id agent_id version_id account_id conversation_id message_id)
          runs
        ≡ some next
      → RunStep runs next
  leasing : LeaseStep runs next → RunStep runs next
  stopped :
      (run_id : ℕ) (code : Option String)
      → next ≡ update_row run_key run_id (stopped_run paused code) runs
      → RunStep runs next
  resumed :
      (run_id : ℕ) (code : Option String)
      → next ≡ update_row run_key run_id (stopped_run pending code) runs
      → RunStep runs next

pub data Reached : List AgentRun → Type 0 where
  empty : Reached []
  then_step : {runs next : List AgentRun} → Reached runs → RunStep runs next → Reached next

module _ (claim : AgentRunClaim) where
  pub or_lost-some :
      (o : Option (List AgentRun)) (next : List AgentRun) → or_lost o ≡ ok next → o ≡ some next
  or_lost-some none next e = absurd (err≢ok e)
  or_lost-some (some runs) next e = cc

  release-IsSound :
      (code : String) (terminal : Bool) (r : AgentRun)
      → IsSound r
      → IsSound ((if terminal then failed_run code else released code) r)
  release-IsSound code true r h = ground arith
  release-IsSound code false r h = ground arith

  gave_up-IsSound :
      (code : String) (terminal : Bool) (runs : List AgentRun)
      → All IsSound runs
      → All IsSound (release_run_error claim code terminal runs)
  unfolding release_run_error
  gave_up-IsSound code terminal runs h =
      let f = if terminal then failed_run code else released code in
      elim (Option-cases (update_if run_key claim.run_id (is_held claim) f runs)) [
        | inl n ↦ rw (n, release_run_error) h
        | inr (next, e) ↦
            rw (e, release_run_error)
              (All-update_if run_key IsSound claim.run_id (is_held claim) f runs next
                (λ x q. release-IsSound code terminal x) e h)
      ]

new_run-IsSound :
    (id tenant_id agent_id version_id account_id conversation_id message_id : ℕ)
    → IsSound (new_run id tenant_id agent_id version_id account_id conversation_id message_id)
new_run-IsSound i t a v c n m = ground arith

insert-IsSound :
    (r : AgentRun) (runs next : List AgentRun)
    → insert_run r runs ≡ some next
    → IsSound r
    → All IsSound runs
    → All IsSound next
unfolding insert_run
insert-IsSound r runs next e fits h =
    let rows : runs ++ r ∷ [] ≡ next = ground arith in
    rw (← rows) (All-append IsSound runs (r ∷ []) h (fits, tt))

step-IsSound : {runs next : List AgentRun} → RunStep runs next → All IsSound runs → All IsSound next
unfolding try_claim renew_run_lease persist_generated_text complete_run
step-IsSound {runs} {next} (created i t a v c n m e) h =
    insert-IsSound (new_run i t a v c n m) runs next e (new_run-IsSound i t a v c n m) h
step-IsSound {runs} {next} (leasing (claimed i now token e)) h =
    All-update_if run_key IsSound i (is_claimable now) (with_lease token now) runs next
      (λ x q s. ground arith) e h
step-IsSound {runs} {next} (leasing (kept claim now e)) h =
    All-update_if run_key IsSound claim.run_id (λ x. is_held claim x && may_dispatch x)
      (renewed now) runs next (λ x q s. ground arith) (or_lost-some claim _ next e) h
step-IsSound {runs} {next} (leasing (persisted claim text e)) h =
    All-update_if run_key IsSound claim.run_id (λ x. is_held claim x && is_pending x)
      (with_text text) runs next (λ x q s. ground arith) (or_lost-some claim _ next e) h
step-IsSound {runs} {next} (leasing (finished claim i e)) h =
    All-update_if run_key IsSound claim.run_id (is_held claim) (completed i) runs next
      (λ x q s. ground arith) (or_lost-some claim _ next e) h
step-IsSound {runs} (leasing (gave_up claim code terminal e)) h =
    rw e (gave_up-IsSound claim code terminal runs h)
step-IsSound {runs} (stopped i code e) h =
    rw e (All-update_row run_key IsSound i (stopped_run paused code) runs (λ x s. ground arith) h)
step-IsSound {runs} (resumed i code e) h =
    rw e (All-update_row run_key IsSound i (stopped_run pending code) runs (λ x s. ground arith) h)

-- In every table of runs that the steps of workers and handoffs lead to, in any order, a run has
-- a text exactly while it is generated, a token and an end of the lease come together, and a run
-- that is paused or over has no lease.
pub reached-IsSound : (runs : List AgentRun) → Reached runs → All IsSound runs
reached-IsSound _ empty = tt
reached-IsSound _ (then_step before step) = step-IsSound step (reached-IsSound _ before)
