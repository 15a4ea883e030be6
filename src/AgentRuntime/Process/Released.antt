-- ===== src/AgentRuntime/Process/Released.antt =====
-- What an answer that fails leaves of its run.
use customers_manager_hub.Prelude.{
  ◌≡◌, ◌≢◌, refl, ap, sym, ◌∙◌, String, Bool, true, false, not, Option, some, List, find,
  if◌then◌else◌, Bool-cases, Option-cases, inl, inr,
}
use customers_manager_hub.Prelude.Result.{Result, err, err≢ok, Result-cases}
use customers_manager_hub.Prelude.Table.{has_key, update_if}
use customers_manager_hub.Prelude.Table.Laws.{update_if_passes, update_if-some, find-updated}
use customers_manager_hub.AgentModels.{AgentRun}
use customers_manager_hub.AgentRuntime.{
  AgentError, AgentFault, coded, runtime_fault, provider_fault, channel_fault, other_fault,
  AgentRunClaim, runs_of, permanent, transient,
}
use customers_manager_hub.AgentRuntime.Lease.{
  run_key, is_held, release_run_error, failed_run, released,
}
use customers_manager_hub.AgentRuntime.Environment.{State, Environment, on_runs}
use customers_manager_hub.AgentRuntime.Process.{
  is_exempt, attempt_answer, release, give_up, recover_coded, recover, answer_claimed,
}

release-key :
    (code : String) (terminal : Bool) (r : AgentRun)
    → run_key ((if terminal then failed_run code else released code) r) ≡ run_key r
release-key code true r = refl
release-key code false r = refl

release-token :
    (claim : AgentRunClaim) (code : String) (terminal : Bool) (r : AgentRun)
    → is_held claim ((if terminal then failed_run code else released code) r) ≡ false
release-token claim code true r = refl
release-token claim code false r = refl

none≢some : {A : Type 0} {a : A} → Option.none ≢ some a
none≢some h = cc

-- After a release, the run is not held by the claim.
release_drops :
    (claim : AgentRunClaim) (code : String) (terminal : Bool) (runs : List AgentRun) (r : AgentRun)
    → find (has_key run_key claim.run_id) (release_run_error claim code terminal runs) ≡ some r
    → is_held claim r ≡ false
unfolding release_run_error
release_drops claim code terminal runs r e =
    let f = if terminal then failed_run code else released code in
    elim (Option-cases (update_if run_key claim.run_id (is_held claim) f runs)) [
      | inr (next, g) ↦
          let (x, found, held, same) =
            update_if-some run_key claim.run_id (is_held claim) f runs next g in
          let there : find (has_key run_key claim.run_id) next ≡ some (f x) =
            rw same
              (find-updated run_key claim.run_id f runs x (release-key code terminal) found) in
          let now : find (has_key run_key claim.run_id) next ≡ some r =
            rw (g, release_run_error) at e in
          let is_r : f x ≡ r = cc in rw (← is_r) (release-token claim code terminal x)
      | inl n ↦
          let before : find (has_key run_key claim.run_id) runs ≡ some r =
            rw (n, release_run_error) at e in
          elim (Bool-cases (is_held claim r)) [
            | inr dropped ↦ dropped
            | inl held ↦
                let passes =
                  update_if_passes run_key claim.run_id (is_held claim) f runs r before held in
                absurd (none≢some (sym n ∙ passes))
          ]
    ]

true≢false : true ≢ false
true≢false h = cc

abbrev raised : AgentError → Result AgentFault (Unit {0})
raised x = err (coded x)

raised_same : (x y : AgentError) → raised x ≡ raised y → x ≡ y
raised_same x y e = cc

module _ {W : Type 0} (env : Environment W) (claim : AgentRunClaim) where
  -- The claim holds its run in no row of the table.
  abbrev pub Dropped : State W → Type 0
  Dropped s =
      (r : AgentRun)
      → find (has_key run_key claim.run_id) (runs_of s.db) ≡ some r
      → is_held claim r ≡ false

  give_up-Dropped :
      (code : String) (terminal : Bool) (e : AgentError) (s : State W)
      → Dropped (give_up env claim code terminal e s).1
  unfolding give_up release on_runs
  give_up-Dropped code terminal e s r found =
      release_drops claim code terminal (runs_of (env.others s).db) r found

  coded-Dropped :
      (x y : AgentError) (s : State W)
      → (recover_coded env claim x s).0 ≡ err (coded y)
      → is_exempt y.code ≡ false
      → Dropped (recover_coded env claim x s).1
  unfolding recover_coded
  coded-Dropped x y s e other = elim (Bool-cases (is_exempt x.code)) [
    | inr handled ↦ rw (handled, recover_coded) (give_up-Dropped x.code (not x.retryable) x s)
    | inl exempt ↦
        let same : x ≡ y = raised_same x y (rw (exempt, recover_coded) at e) in
        absurd (true≢false (sym exempt ∙ ap (λ z. is_exempt z.code) same ∙ other))
  ]

  recover-Dropped :
      (f : AgentFault) (y : AgentError) (s : State W)
      → (recover env claim f s).0 ≡ err (coded y)
      → is_exempt y.code ≡ false
      → Dropped (recover env claim f s).1
  unfolding recover release on_runs
  recover-Dropped (coded x) y s e other = coded-Dropped x y s e other
  recover-Dropped (runtime_fault x) y s e other =
      coded-Dropped x y (release env claim x.code (not x.retryable) s).1 e other
  recover-Dropped (provider_fault x) y s e other = give_up-Dropped x.code (not x.retryable) x s
  recover-Dropped (channel_fault code) y s e other = give_up-Dropped code true (permanent code) s
  recover-Dropped other_fault y s e other =
      give_up-Dropped "agent_internal_error" false (transient "agent_internal_error") s

  -- Where an answer fails with any other error than that the run is busy, paused or lost to
  -- another worker, the worker's claim no longer holds the run.
  pub answer_released :
      (s : State W) (e : AgentError) (r : AgentRun)
      → (answer_claimed env claim s).0 ≡ raised e
      → is_exempt e.code ≡ false
      → find (has_key run_key claim.run_id) (runs_of (answer_claimed env claim s).1.db) ≡ some r
      → is_held claim r ≡ false
  unfolding answer_claimed
  answer_released s e r failed other found = elim (Result-cases (attempt_answer env claim s).0) [
    | inl (t, f) ↦ absurd (err≢ok (sym (rw (f, answer_claimed) at failed)))
    | inr (x, f) ↦
        recover-Dropped x e (attempt_answer env claim s).1 (rw (f, answer_claimed) at failed) other
          r (rw (f, answer_claimed) at found)
  ]
