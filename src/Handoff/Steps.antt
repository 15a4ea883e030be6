-- ===== src/Handoff/Steps.antt =====
-- Every operation keeps the tables of handoffs well formed, in any order and with what other
-- transactions commit in between.
use customers_manager_hub.Prelude.{
  ℕ, zero, suc, ◌+◌, ◌≡◌, refl, ◌==◌, Option, some, arith, Option-cases, Bool-cases, inl, inr,
}
use customers_manager_hub.HandoffModels.{ConversationHandoff}
use customers_manager_hub.Prelude.Table.{update_row}
use customers_manager_hub.Models.{AuditEvent}
use customers_manager_hub.Handoff.{
  HandoffDb, active_handoff, insert_handoff, conversation_of, run_of,
}
use customers_manager_hub.Handoff.WellFormed.{
  IsWellFormed, IsQuiet, update-IsWellFormed, insert-IsWellFormed,
}
use customers_manager_hub.Handoff.Request.{
  HandoffRequest, new_handoff, requested_event, link, links, commit_request, request_attempts,
}
use customers_manager_hub.Handoff.Escalation.{pause_attempts, pause_run, tool_handoff, tool_event}

abbrev pub IsGood : HandoffDb → Type 0
IsGood db = IsWellFormed db.handoffs

link-IsQuiet : (run execution : Option ℕ) (h : ConversationHandoff) → IsQuiet (link run execution) h
link-IsQuiet run execution h = record { not_opened = λ c. omega arith }

pub link-IsWellFormed :
    (run execution : Option ℕ) (t c : ℕ) (h : ConversationHandoff) (db : HandoffDb)
    → active_handoff db t c ≡ some h
    → IsGood db
    → IsWellFormed (update_row (λ x. x.id) h.id (link run execution) db.handoffs)
link-IsWellFormed run execution t c h db found good =
    update-IsWellFormed (link run execution) t c h db.handoffs (λ x. refl)
      (link-IsQuiet run execution h) found good

module _ (uuid4 : ℕ → ℕ) (others : ℕ → HandoffDb → HandoffDb)
    (keeps : (n : ℕ) (db : HandoffDb) → IsGood db → IsGood (others n db)) where
  commit-IsWellFormed :
      (h : ConversationHandoff) (event : AuditEvent) (db next : HandoffDb)
      → commit_request h event db ≡ some next
      → IsGood db
      → IsGood next
  unfolding commit_request
  commit-IsWellFormed h event db next e good = elim (Option-cases (insert_handoff h db.handoffs)) [
    | inl n ↦ absurd (ground arith)
    | inr (handoffs, f) ↦
        let kept = insert-IsWellFormed h db.handoffs handoffs f good in
        let same : handoffs ≡ next.handoffs = ground arith in rw (← same) kept
  ]

  pub request-IsWellFormed :
      (r : HandoffRequest) (left attempt : ℕ) (db : HandoffDb)
      → IsGood db
      → IsGood (request_attempts uuid4 others r left attempt db).1
  unfolding request_attempts
  request-IsWellFormed r zero attempt db good = good
  request-IsWellFormed r (suc left) attempt db good =
      let h = new_handoff (uuid4 attempt) r in
      let committed = others attempt db in
      elim (Option-cases (conversation_of db r.tenant_id r.conversation_id)) [
        | inl n ↦ rw (n, request_attempts) good
        | inr (x, f) ↦ elim (Option-cases (active_handoff db r.tenant_id r.conversation_id)) [
          | inr (existing, g) ↦
              elim (Bool-cases (links r.source_agent_run_id r.source_tool_execution_id existing)) [
                | inl l ↦
                    rw (f, request_attempts, g, l)
                      (link-IsWellFormed r.source_agent_run_id r.source_tool_execution_id
                        r.tenant_id r.conversation_id existing db g good)
                | inr l ↦ rw (f, request_attempts, g, l) good
              ]
          | inl m ↦ elim (Option-cases (commit_request h (requested_event r h) committed)) [
            | inr (next, e) ↦
                rw (f, request_attempts, m, e)
                  (commit-IsWellFormed h (requested_event r h) committed next e
                    (keeps attempt db good))
            | inl e ↦ elim (Bool-cases (attempt == 0)) [
              | inl first ↦
                  rw (f, request_attempts, m, e, first)
                    (request-IsWellFormed r left (attempt + 1) committed (keeps attempt db good))
              | inr second ↦ rw (f, request_attempts, m, e, second) (keeps attempt db good)
            ]
          ]
        ]
      ]

  pub pause-IsWellFormed :
      (t c run execution left attempt : ℕ) (db : HandoffDb)
      → IsGood db
      → IsGood (pause_attempts uuid4 others t c run execution left attempt db).1
  unfolding pause_attempts
  pause-IsWellFormed t c run execution zero attempt db good = good
  pause-IsWellFormed t c run execution (suc left) attempt db good =
      let h = tool_handoff (uuid4 attempt) t c run execution in
      let committed = others attempt db in
      elim (Option-cases (conversation_of db t c)) [
        | inl n ↦ rw (n, pause_attempts) good
        | inr (x, f) ↦ elim (Option-cases (run_of db t c run)) [
          | inl k ↦ rw (f, pause_attempts, k) good
          | inr (r, k) ↦ elim (Option-cases (active_handoff db t c)) [
            | inr (existing, g) ↦
                rw (f, pause_attempts, k, g)
                  (link-IsWellFormed (some run) (some execution) t c existing db g good)
            | inl m ↦
                let event = tool_event h.id t c execution in
                let paused_run = pause_run r.id committed in
                elim (Option-cases (commit_request h event paused_run)) [
                  | inr (next, e) ↦
                      rw (f, pause_attempts, k, m, e)
                        (commit-IsWellFormed h event paused_run next e (keeps attempt db good))
                  | inl e ↦ elim (Bool-cases (attempt == 0)) [
                    | inl first ↦
                        rw (f, pause_attempts, k, m, e, first)
                          (pause-IsWellFormed t c run execution left (attempt + 1) committed
                            (keeps attempt db good))
                    | inr second ↦ rw (f, pause_attempts, k, m, e, second) (keeps attempt db good)
                  ]
                ]
          ]
        ]
      ]
