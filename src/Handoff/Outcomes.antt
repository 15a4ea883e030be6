-- ===== src/Handoff/Outcomes.antt =====
-- What an operation on a handoff did where it succeeded: the row that it found and what it wrote.
use customers_manager_hub.Prelude.{
  ℕ, ◌≡◌, refl, sym, ap, ◌∙◌, Bool, true, false, ◌&&◌, not, none, some, ◌⊎◌, inl, inr, arith,
  Option-cases, Bool-cases, equals_some, find,
}
use customers_manager_hub.Prelude.Result.{ok, err≢ok, ok_parts}
use customers_manager_hub.Prelude.Table.{update_row}
use customers_manager_hub.AgentModels.{AgentRun, paused}
use customers_manager_hub.HandoffModels.{
  HandoffStatus, queued, claimed, resolved, cancelled, ConversationHandoff,
}
use customers_manager_hub.Handoff.{HandoffDb, stopped_run, conversation_of, active_handoff}
use customers_manager_hub.Handoff.WellFormed.{handoff_id}
use customers_manager_hub.Handoff.Request.{link}
use customers_manager_hub.Handoff.Escalation.{dispatches, guard_ai_dispatch}
use customers_manager_hub.Handoff.Claim.{
  claim_handoff, release_handoff, resolve_handoff, resume, last_resolved, claimed_by, back_in_queue,
  closed, HandoffResolution, is_claimed_by_another,
}

-- The row `x` that was found active, and what became of it.
pub record IsWritten (t c : ℕ) (f : ConversationHandoff → ConversationHandoff) (db next : HandoffDb)
    (x : ConversationHandoff) : Type 0 where
  pub found : active_handoff db t c ≡ some x
  pub written : next.handoffs ≡ update_row handoff_id x.id f db.handoffs

HandoffStatus-cases :
    (s : HandoffStatus) → (s ≡ queued) ⊎ (s ≡ claimed) ⊎ (s ≡ resolved) ⊎ (s ≡ cancelled)
HandoffStatus-cases queued = inl refl
HandoffStatus-cases claimed = inr (inl refl)
HandoffStatus-cases resolved = inr (inr (inl refl))
HandoffStatus-cases cancelled = inr (inr (inr refl))

resume-handoffs :
    (resume_ai : Bool) (t c : ℕ) (h : ConversationHandoff) (db : HandoffDb)
    → (resume resume_ai t c h db).1.handoffs ≡ db.handoffs
unfolding resume
resume-handoffs resume_ai t c h db = ground arith

pub claim_cases :
    (t c actor now : ℕ) (db next : HandoffDb) (h : ConversationHandoff)
    → claim_handoff t c actor now db ≡ ok (h, next)
    → ((next ≡ db)
        × (active_handoff db t c ≡ some h)
        × (h.status ≡ claimed)
        × (equals_some h.claimed_by_user_id actor ≡ true))
      ⊎ ((x : ConversationHandoff) × (x.status ≡ queued)
          × (claimed_by actor now x ≡ h)
          × IsWritten t c (claimed_by actor now) db next x)
unfolding claim_handoff
claim_cases t c actor now db next h e = elim (Option-cases (active_handoff db t c)) [
  | inl n ↦ absurd (ground arith)
  | inr (x, f) ↦ elim (HandoffStatus-cases x.status) [
    | inl q ↦
        let (same, after) = ok_parts refl (rw (f, claim_handoff, q) at e) in
        inr (x, q, same, record { found = f; written = ap (λ d. d.handoffs) (sym after) })
    | inr (inl k) ↦ elim (Bool-cases (equals_some x.claimed_by_user_id actor)) [
      | inl own ↦
          let (same, after) = ok_parts refl (rw (f, claim_handoff, k, own) at e) in
          inl (sym after, rw (← same) f, rw (← same) k, rw (← same) own)
      | inr other ↦ absurd (err≢ok (rw (f, claim_handoff, k, other) at e))
    ]
    | inr (inr (inl r)) ↦ absurd (err≢ok (rw (f, claim_handoff, r) at e))
    | inr (inr (inr r)) ↦ absurd (err≢ok (rw (f, claim_handoff, r) at e))
  ]
]

pub release_cases :
    (t c actor : ℕ) (allow : Bool) (db next : HandoffDb) (h : ConversationHandoff)
    → release_handoff t c actor allow db ≡ ok (h, next)
    → (x : ConversationHandoff) × (x.status ≡ claimed)
      × (back_in_queue x ≡ h)
      × ((equals_some x.claimed_by_user_id actor ≡ true) ⊎ (allow ≡ true))
      × IsWritten t c back_in_queue db next x
unfolding release_handoff
release_cases t c actor allow db next h e = elim (Option-cases (active_handoff db t c)) [
  | inl n ↦ absurd (ground arith)
  | inr (x, f) ↦ elim (HandoffStatus-cases x.status) [
    | inl q ↦ absurd (err≢ok (rw (f, release_handoff, q) at e))
    | inr (inl k) ↦ elim (Bool-cases (not (equals_some x.claimed_by_user_id actor) && not allow)) [
      | inl refused ↦ absurd (err≢ok (rw (f, release_handoff, k, refused) at e))
      | inr let_go ↦
          let (same, after) = ok_parts refl (rw (f, release_handoff, k, let_go) at e) in
          let why : (equals_some x.claimed_by_user_id actor ≡ true) ⊎ (allow ≡ true) =
            ground arith in
          (x, k, same, why, record { found = f; written = ap (λ d. d.handoffs) (sym after) })
    ]
    | inr (inr (inl r)) ↦ absurd (err≢ok (rw (f, release_handoff, r) at e))
    | inr (inr (inr r)) ↦ absurd (err≢ok (rw (f, release_handoff, r) at e))
  ]
]

-- Where a handoff was active, the row is closed by who may close it; else nothing of it is written.
pub resolve_cases :
    (t c actor now : ℕ) (allow resume_ai cancel : Bool) (db next : HandoffDb)
    (r : HandoffResolution)
    → resolve_handoff t c actor now allow resume_ai cancel db ≡ ok (r, next)
    → ((active_handoff db t c ≡ none) × (next.handoffs ≡ db.handoffs))
      ⊎ ((x : ConversationHandoff) × ((is_claimed_by_another actor x ≡ false) ⊎ (allow ≡ true))
          × IsWritten t c (closed cancel now) db next x)
unfolding resolve_handoff
resolve_cases t c actor now allow resume_ai cancel db next r e =
    elim (Option-cases (active_handoff db t c)) [
      | inl n ↦ inl (
        n,
        elim (Option-cases (last_resolved db t c)) [
          | inl m ↦ absurd (err≢ok (rw (n, resolve_handoff, m) at e))
          | inr (x, f) ↦ elim (Bool-cases resume_ai) [
            | inl again ↦
                let (same, after) = ok_parts refl (rw (n, resolve_handoff, f, again) at e) in
                ap (λ d. d.handoffs) (sym after) ∙ resume-handoffs true t c x db
            | inr quiet ↦ absurd (err≢ok (rw (n, resolve_handoff, f, quiet) at e))
          ]
        ],
      )
      | inr (x, f) ↦ elim (Bool-cases (is_claimed_by_another actor x && not allow)) [
        | inl refused ↦ absurd (err≢ok (rw (f, resolve_handoff, refused) at e))
        | inr allowed ↦
            let (same, after) = ok_parts refl (rw (f, resolve_handoff, allowed) at e) in
            let why : (is_claimed_by_another actor x ≡ false) ⊎ (allow ≡ true) = ground arith in
            inr (
              x,
              why,
              record {
                found = f;
                written = ap (λ d. d.handoffs) (sym after) ∙ resume-handoffs resume_ai t c x _;
              },
            )
      ]
    ]

-- Where the agent may answer, no handoff is active; else one is.
pub guard_cases :
    (t c run token : ℕ) (db next : HandoffDb) (b : Bool)
    → guard_ai_dispatch t c run token db ≡ ok (b, next)
    → ((b ≡ true) × (next ≡ db) × (active_handoff db t c ≡ none))
      ⊎ ((b ≡ false)
          × (x : ConversationHandoff) × (r : AgentRun) × (find
                (dispatches t c run token)
                db.agent_runs
              ≡ some r)
          × (next.agent_runs ≡ update_row (λ y. y.id) r.id (stopped_run paused none) db.agent_runs)
          × IsWritten t c (link (some r.id) none) db next x)
unfolding guard_ai_dispatch
guard_cases t c run token db next b e = elim (Option-cases (conversation_of db t c)) [
  | inl n ↦ absurd (err≢ok (rw (n, guard_ai_dispatch) at e))
  | inr (z, g) ↦ elim (Option-cases (active_handoff db t c)) [
    | inl m ↦
        let (same, after) = ok_parts refl (rw (g, guard_ai_dispatch, m) at e) in
        inl (sym same, sym after, m)
    | inr (x, f) ↦ elim (Option-cases (find (dispatches t c run token) db.agent_runs)) [
      | inl k ↦ absurd (err≢ok (rw (g, guard_ai_dispatch, f, k) at e))
      | inr (r, k) ↦
          let (same, after) = ok_parts refl (rw (g, guard_ai_dispatch, f, k) at e) in
          inr (
            sym same,
            x,
            r,
            k,
            ap (λ d. d.agent_runs) (sym after),
            record { found = f; written = ap (λ d. d.handoffs) (sym after) },
          )
    ]
  ]
]
