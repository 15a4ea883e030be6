-- ===== src/AgentRuntime/Lease/Fencing.antt =====
-- The writes of agent_runtime.py to a run that its lease guards: a worker whose lease another took over
-- makes none of them. `pause_for_tool_approval` of handoff_runtime.py looks at no lease and is not one.
use customers_manager_hub.Prelude.{
  ℕ, ◌+◌, ◌≤◌, ◌≡◌, ◌≢◌, refl, ap, String, Bool, true, false, ◌&&◌, ◌==◌, ==_iff, none, some, List,
  find, arith,
}
use customers_manager_hub.Prelude.Result.{ok, err}
use customers_manager_hub.Prelude.Table.{has_key, update_row}
use customers_manager_hub.Prelude.Table.Laws.{
  update_if-some, update_if-none, update_if_passes, find-updated,
}
use customers_manager_hub.AgentModels.{AgentRun}
use customers_manager_hub.Handoff.Escalation.{may_dispatch}
use customers_manager_hub.AgentRuntime.{AgentError, transient, AgentRunClaim}
use customers_manager_hub.AgentRuntime.Lease.{
  run_key, lease_duration, is_free, is_claimable, with_lease, try_claim, is_over, claim_refused,
  is_held, renew_run_lease, persist_generated_text, complete_run, release_run_error, renewed,
  with_text, completed, is_pending, or_lost, or_same,
}

abbrev lost : AgentError
lost = transient "agent_run_lease_lost"

-- What a claim does not write: no renewal of the lease, no text, no completion and no release.
pub record IsFenced (claim : AgentRunClaim) (runs : List AgentRun) : Type 0 where
  pub not_renewed : (now : ℕ) → renew_run_lease claim now runs ≡ err lost
  pub not_persisted : (text : String) → persist_generated_text claim text runs ≡ err lost
  pub not_completed : (message_id : ℕ) → complete_run claim message_id runs ≡ err lost
  pub not_released :
      (code : String) (terminal : Bool) → release_run_error claim code terminal runs ≡ runs

not_held-IsFenced :
    (claim : AgentRunClaim) (runs : List AgentRun) (r : AgentRun)
    → find (has_key run_key claim.run_id) runs ≡ some r
    → is_held claim r ≡ false
    → IsFenced claim runs
unfolding renew_run_lease persist_generated_text complete_run release_run_error
not_held-IsFenced claim runs r e lost_it = record {
  not_renewed = λ now. ap or_lost (
      update_if-none run_key claim.run_id (λ x. is_held claim x && may_dispatch x) (renewed now)
        runs r e (rw lost_it refl));
  not_persisted = λ text. ap or_lost (
      update_if-none run_key claim.run_id (λ x. is_held claim x && is_pending x) (with_text text)
        runs r e (rw lost_it refl));
  not_completed = λ i.
      ap or_lost
        (update_if-none run_key claim.run_id (is_held claim) (completed i) runs r e lost_it);
  not_released = λ code terminal.
      ap (or_same runs) (update_if-none run_key claim.run_id (is_held claim) _ runs r e lost_it);
}

-- Once another worker has claimed a run, the worker with an older claim can no longer write it by
-- the writes of agent_runtime.py: its renewal, text and completion fail with
-- `agent_run_lease_lost`, and its release of the run changes nothing. The pause for a tool's
-- approval, which looks at no lease, is not among these.
pub old_claim-IsFenced :
    (old : AgentRunClaim) (now token : ℕ) (runs next : List AgentRun)
    → try_claim old.run_id now token runs ≡ some next
    → token ≢ old.lease_token
    → IsFenced old next
unfolding try_claim
old_claim-IsFenced old now token runs next e other =
    let (r, found, free, same) =
      update_if-some run_key old.run_id (is_claimable now) (with_lease token now) runs next e in
    let now_there : find (has_key run_key old.run_id) next ≡ some (with_lease token now r) =
      rw same (find-updated run_key old.run_id (with_lease token now) runs r (λ y. refl) found) in
    let differs : (token == old.lease_token) ≡ false =
      ground (arith, ==_iff token old.lease_token) in
    not_held-IsFenced old next (with_lease token now r) now_there differs

-- While the lease of a run that was claimed lasts, a further claim of the run gets nothing and
-- raises `agent_run_busy`.
pub lease_exclusive :
    (run_id token now now' token' : ℕ) (runs next : List AgentRun)
    → try_claim run_id now token runs ≡ some next
    → now' ≤ now + lease_duration
    → (try_claim run_id now' token' next ≡ none)
      × (claim_refused run_id next ≡ err (transient "agent_run_busy"))
unfolding try_claim claim_refused
lease_exclusive run_id token now now' token' runs next e early =
    let (r, found, free, same) =
      update_if-some run_key run_id (is_claimable now) (with_lease token now) runs next e in
    let there : find (has_key run_key run_id) next ≡ some (with_lease token now r) =
      rw same (find-updated run_key run_id (with_lease token now) runs r (λ y. refl) found) in
    let live : is_claimable now' (with_lease token now r) ≡ false = ground arith in
    let not_over : is_over r.status ≡ false = ground arith in
    (
      update_if-none run_key run_id (is_claimable now') (with_lease token' now') next _ there live,
      rw (there, claim_refused, not_over) refl,
    )

-- A run that is neither over nor paused, and that has no lease or one that is over, can be
-- claimed, and its new holder can complete it: a worker that dies does not block it.
pub lease_expires :
    (run_id now token message_id : ℕ) (runs : List AgentRun) (r : AgentRun)
    → find (has_key run_key run_id) runs ≡ some r
    → may_dispatch r ≡ true
    → is_free now r ≡ true
    → (next : List AgentRun) × (done : List AgentRun) × (try_claim run_id now token runs
        ≡ some next)
      × (complete_run (record { run_id = run_id; lease_token = token }) message_id next ≡ ok done)
      × (find (has_key run_key run_id) done ≡ some (completed message_id r))
unfolding try_claim complete_run
lease_expires run_id now token message_id runs r e may free =
    let claim : AgentRunClaim = record { run_id = run_id; lease_token = token } in
    let claimable : is_claimable now r ≡ true = rw (may, free) refl in
    let next = update_row run_key run_id (with_lease token now) runs in
    let there = find-updated run_key run_id (with_lease token now) runs r (λ y. refl) e in
    let held : is_held claim (with_lease token now r) ≡ true = (==_iff token token).1 refl in
    (
      next,
      update_row run_key run_id (completed message_id) next,
      update_if_passes run_key run_id (is_claimable now) (with_lease token now) runs r e claimable,
      ap or_lost (
          update_if_passes run_key run_id (is_held claim) (completed message_id) next _ there held),
      find-updated run_key run_id (completed message_id) next _ (λ y. refl) there,
    )
