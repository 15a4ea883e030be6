-- ===== src/Handoff/Ownership.antt =====
-- Who may do what with an active handoff, and what a request, a claim, a release and a close leave.
use customers_manager_hub.Prelude.{
  ℕ, ◌≡◌, ◌≢◌, refl, ap, ◌∙◌, Bool, true, false, some, find-holds, count, arith, inl, inr,
  equals_some, bit,
}
use customers_manager_hub.Prelude.Result.{ok, err}
use customers_manager_hub.Prelude.Table.{update_row}
use customers_manager_hub.Prelude.Table.Laws.{
  find-update_found, none_found, find_key, count-update_row,
}
use customers_manager_hub.HandoffModels.{queued, claimed, ConversationHandoff}
use customers_manager_hub.Handoff.{
  HandoffDb, already_claimed, not_owner, is_active_in, is_active_of, active_handoff,
  is_conversation_ai_paused,
}
use customers_manager_hub.Handoff.WellFormed.{IsWellFormed, handoff_id}
use customers_manager_hub.Handoff.Outcomes.{IsWritten, claim_cases, release_cases, resolve_cases}
use customers_manager_hub.Handoff.Claim.{
  claim_handoff, release_handoff, resolve_handoff, claimed_by, back_in_queue, closed,
  HandoffResolution, with_claim,
}

-- The row that was found active is found again, as it was written.
written-active :
    (t c : ℕ) (f : ConversationHandoff → ConversationHandoff) (db next : HandoffDb)
    (x : ConversationHandoff)
    → IsWellFormed db.handoffs
    → IsWritten t c f db next x
    → is_active_of t c (f x) ≡ true
    → active_handoff next t c ≡ some (f x)
written-active t c f db next x good w still =
    rw w.written
      (find-update_found handoff_id (is_active_of t c) f db.handoffs x good.keys w.found still)

claim-active :
    (t c actor now : ℕ) (db next : HandoffDb) (h : ConversationHandoff)
    → IsWellFormed db.handoffs
    → claim_handoff t c actor now db ≡ ok (h, next)
    → (active_handoff next t c ≡ some h)
      × (h.status ≡ claimed)
      × (equals_some h.claimed_by_user_id actor ≡ true)
claim-active t c actor now db next h good e = elim (claim_cases t c actor now db next h e) [
  | inl (same, f, k, own) ↦ (rw same f, k, own)
  | inr (x, q, same, w) ↦
      let still = find-holds (is_active_of t c) db.handoffs x w.found in
      let active = written-active t c (claimed_by actor now) db next x good w (ground arith) in
      (active ∙ ap some same, rw (← same) refl, rw (← same) (ground arith))
]

-- Once an operator has claimed a conversation, another one can neither claim it nor, without an
-- override, release or close it.
pub claim_exclusive :
    (t c actor other now later : ℕ) (resume_ai cancel : Bool) (db next : HandoffDb)
    (h : ConversationHandoff)
    → IsWellFormed db.handoffs
    → other ≢ actor
    → claim_handoff t c actor now db ≡ ok (h, next)
    → (claim_handoff t c other later next ≡ err already_claimed)
      × (release_handoff t c other false next ≡ err not_owner)
      × (resolve_handoff t c other later false resume_ai cancel next ≡ err not_owner)
unfolding claim_handoff release_handoff resolve_handoff
claim_exclusive t c actor other now later resume_ai cancel db next h good differ e =
    let (f, k, own) = claim-active t c actor now db next h good e in
    let alien : equals_some h.claimed_by_user_id other ≡ false = ground arith in
    (
      rw (f, claim_handoff, k, alien) refl,
      rw (f, release_handoff, k, alien) refl,
      rw (f, resolve_handoff, k, alien) refl,
    )

-- Where the tables are well formed, the operator who claimed a conversation and claims it again
-- gets the same handoff, and nothing is written.
pub claim_again :
    (t c actor now later : ℕ) (db next : HandoffDb) (h : ConversationHandoff)
    → IsWellFormed db.handoffs
    → claim_handoff t c actor now db ≡ ok (h, next)
    → claim_handoff t c actor later next ≡ ok (h, next)
unfolding claim_handoff
claim_again t c actor now later db next h good e =
    let (f, k, own) = claim-active t c actor now db next h good e in
    simp (f, claim_handoff, k, own) refl

-- Where the tables are well formed, a released conversation is still in human hands, and any
-- operator can claim it.
pub release-claim :
    (t c actor other now : ℕ) (allow : Bool) (db next : HandoffDb) (h : ConversationHandoff)
    → IsWellFormed db.handoffs
    → release_handoff t c actor allow db ≡ ok (h, next)
    → (is_conversation_ai_paused next t c ≡ true)
      × (after : HandoffDb) × (claim_handoff t c other now next
          ≡ ok (claimed_by other now h, after))
unfolding claim_handoff
release-claim t c actor other now allow db next h good e =
    let (x, k, same, why, w) = release_cases t c actor allow db next h e in
    let still = find-holds (is_active_of t c) db.handoffs x w.found in
    let active = written-active t c back_in_queue db next x good w (ground arith) in
    let found : active_handoff next t c ≡ some h = active ∙ ap some same in
    let waits : h.status ≡ queued = rw (← same) refl in
    (rw found refl, with_claim t c other now h next, rw (found, claim_handoff, waits) refl)

-- Where the tables are well formed, a conversation that was closed goes back to the agent: no
-- handoff of it is active.
pub resolve_closes :
    (t c actor now : ℕ) (allow resume_ai cancel : Bool) (db next : HandoffDb)
    (r : HandoffResolution)
    → IsWellFormed db.handoffs
    → resolve_handoff t c actor now allow resume_ai cancel db ≡ ok (r, next)
    → is_conversation_ai_paused next t c ≡ false
resolve_closes t c actor now allow resume_ai cancel db next r good e =
    elim (resolve_cases t c actor now allow resume_ai cancel db next r e) [
      | inl (n, same) ↦ rw (same, n) refl
      | inr (x, why, w) ↦
          let still = find-holds (is_active_of t c) db.handoffs x w.found in
          let loaded = find_key handoff_id (is_active_of t c) db.handoffs x good.keys w.found in
          let counted =
            count-update_row handoff_id (is_active_in c) x.id (closed cancel now) db.handoffs x
              loaded in
          let before : bit (is_active_in c x) ≡ 1 = ground arith in
          let after : bit (is_active_in c (closed cancel now x)) ≡ 0 = ground arith in
          let zero_left : count (is_active_in c)
                (update_row handoff_id x.id (closed cancel now) db.handoffs)
              ≡ 0 =
            omega (arith, counted, before, after, good.one_active c) in
          rw
            (
              w.written,
              none_found (is_active_of t c) (is_active_in c) _ (λ y k. ground arith) zero_left,
            )
            refl
    ]
