-- ===== src/AiGateway/Execute/Recorded.antt =====
-- What recording one try does to the tables.
use customers_manager_hub.Prelude.{
  ℕ, ◌≡◌, refl, ◌∙◌, Bool, none, some, [], ◌∷◌, ◌++◌, arith, ◌⊎◌, inl, inr,
}
use customers_manager_hub.Prelude.Result.{ok, Result-cases}
use customers_manager_hub.AiModels.{AiExecutionTrace, succeeded, failed}
use customers_manager_hub.Billing.{BillingError, record_charge}
use customers_manager_hub.Billing.Ledger.{record_charge_failed, Status-cases}
use customers_manager_hub.AiGateway.State.{
  AiError, AiError, ErrorCode, ResolvedRoute, GatewayDb, State,
}
use customers_manager_hub.AiGateway.Execute.{
  Outcome, result, exhausted, aborted, Task, Attempt, Outcome, result, exhausted, aborted, Step,
  stop, again, trace_of, record_trace, commit_trace,
}

pub Step-cases :
    {R : Type 0} (s : Step R)
    → ((o : Outcome R) × (s ≡ stop o)) ⊎ ((last : ErrorCode) × (any : Bool) × (s ≡ again last any))
Step-cases (stop o) = inl (o, refl)
Step-cases (again l a) = inr (l, a, refl)

pub Outcome-cases :
    {R : Type 0} (o : Outcome R)
    → ((r : R) × (o ≡ result r))
      ⊎ ((e : AiError) × (o ≡ aborted e))
      ⊎ ((last : ErrorCode) × (any : Bool) × (o ≡ exhausted last any))
Outcome-cases (result r) = inl (r, refl)
Outcome-cases (aborted e) = inr (inl (e, refl))
Outcome-cases (exhausted l a) = inr (inr (l, a, refl))

module _ {W R : Type 0} (task : Task W R) where
  commit_trace-traces :
      (t : AiExecutionTrace) (transaction_id : ℕ) (db db' : GatewayDb)
      → commit_trace task t transaction_id db ≡ ok db'
      → db'.traces ≡ db.traces ++ t ∷ []
  unfolding commit_trace
  commit_trace-traces t transaction_id db db' e =
      elim (Result-cases (record_charge transaction_id t db.billing)) [
        | inl (r, f) ↦ ground arith
        | inr (b, f) ↦ ground arith
      ]

  -- A try that failed has no charge, so its trace is recorded.
  pub commit_failed :
      (t : AiExecutionTrace) (transaction_id : ℕ) (db : GatewayDb)
      → t.status ≡ failed
      → commit_trace task t transaction_id db ≡ ok (record db { traces = db.traces ++ t ∷ [] })
  unfolding commit_trace
  commit_failed t transaction_id db e =
      ground (arith, record_charge_failed transaction_id t db.billing)

  pub trace_of-status :
      (id at : ℕ) (route : ResolvedRoute) (a : Attempt)
      → (trace_of task id at route a).status ≡ a.status
  unfolding trace_of
  trace_of-status id at route a = refl

  -- A recorded try: its trace stands at the end, or the charge failed and nothing is written.
  pub record_trace-cases :
      (route : ResolvedRoute) (a : Attempt) (s : State W)
      → ((id at : ℕ) × ((record_trace task route a s).0 ≡ none)
          × ((record_trace task route a s).1.db.traces
              ≡ s.db.traces ++ trace_of task id at route a ∷ []))
        ⊎ ((b : BillingError) × ((record_trace task route a s).0 ≡ some b)
            × ((record_trace task route a s).1.db ≡ s.db)
            × (a.status ≡ succeeded))
  unfolding record_trace
  record_trace-cases route a s =
      let (at, w₁) = task.env.now s.world in
      let (id, w₂) = task.env.uuid4 w₁ in
      let transaction_id = (task.env.uuid4 w₂).0 in
      let t = trace_of task id at route a in
      elim (Result-cases (commit_trace task t transaction_id s.db)) [
        | inl (db, e) ↦
            inl
              (id, at, ground arith, ground (arith, commit_trace-traces t transaction_id s.db db e))
        | inr (b, e) ↦ elim (Status-cases a.status) [
          | inl done ↦ inr (b, ground arith, ground arith, done)
          | inr fail ↦
              ground
                (arith, commit_failed t transaction_id s.db (trace_of-status id at route a ∙ fail))
        ]
      ]
