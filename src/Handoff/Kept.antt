-- ===== src/Handoff/Kept.antt =====
-- What an operator or the guard does to a handoff keeps the tables well formed.
use customers_manager_hub.Prelude.{
  ℕ, ◌≡◌, refl, Bool, true, none, some, find-holds, arith, inl, inr,
}
use customers_manager_hub.Prelude.Result.{ok}
use customers_manager_hub.HandoffModels.{ConversationHandoff}
use customers_manager_hub.Handoff.{HandoffDb, is_active_of}
use customers_manager_hub.Handoff.WellFormed.{IsQuiet, update-IsWellFormed}
use customers_manager_hub.Handoff.Steps.{IsGood}
use customers_manager_hub.Handoff.Outcomes.{
  IsWritten, claim_cases, release_cases, resolve_cases, guard_cases,
}
use customers_manager_hub.Handoff.Request.{link}
use customers_manager_hub.Handoff.Escalation.{guard_ai_dispatch}
use customers_manager_hub.Handoff.Claim.{
  claim_handoff, release_handoff, resolve_handoff, claimed_by, back_in_queue, closed,
  HandoffResolution,
}

module _ (t c : ℕ) (f : ConversationHandoff → ConversationHandoff) (db next : HandoffDb)
    (x : ConversationHandoff) where
  written-IsGood :
      IsWritten t c f db next x
      → ((y : ConversationHandoff) → (f y).id ≡ y.id)
      → IsQuiet f x
      → IsGood db
      → IsGood next
  written-IsGood w same quiet good =
      rw w.written (update-IsWellFormed f t c x db.handoffs same quiet w.found good)

  -- An active row stays in its conversation.
  found_active : IsWritten t c f db next x → is_active_of t c x ≡ true
  found_active w = find-holds (is_active_of t c) db.handoffs x w.found

pub claim-IsGood :
    (t c actor now : ℕ) (db next : HandoffDb) (h : ConversationHandoff)
    → claim_handoff t c actor now db ≡ ok (h, next)
    → IsGood db
    → IsGood next
claim-IsGood t c actor now db next h e good = elim (claim_cases t c actor now db next h e) [
  | inl (same, f, k, own) ↦ rw same good
  | inr (x, q, same, w) ↦
      written-IsGood t c (claimed_by actor now) db next x w (λ y. refl)
        (record {
          not_opened = λ d. ground (arith, found_active t c (claimed_by actor now) db next x w);
        })
        good
]

pub release-IsGood :
    (t c actor : ℕ) (allow : Bool) (db next : HandoffDb) (h : ConversationHandoff)
    → release_handoff t c actor allow db ≡ ok (h, next)
    → IsGood db
    → IsGood next
release-IsGood t c actor allow db next h e good =
    let (x, k, same, why, w) = release_cases t c actor allow db next h e in
    written-IsGood t c back_in_queue db next x w (λ y. refl)
      (record { not_opened = λ d. ground (arith, found_active t c back_in_queue db next x w) }) good

pub resolve-IsGood :
    (t c actor now : ℕ) (allow resume_ai cancel : Bool) (db next : HandoffDb)
    (r : HandoffResolution)
    → resolve_handoff t c actor now allow resume_ai cancel db ≡ ok (r, next)
    → IsGood db
    → IsGood next
resolve-IsGood t c actor now allow resume_ai cancel db next r e good =
    elim (resolve_cases t c actor now allow resume_ai cancel db next r e) [
      | inl (n, same) ↦ rw same good
      | inr (x, why, w) ↦
          written-IsGood t c (closed cancel now) db next x w (λ y. refl)
            (record {
              not_opened = λ d. ground (arith, found_active t c (closed cancel now) db next x w);
            })
            good
    ]

pub guard-IsGood :
    (t c run token : ℕ) (db next : HandoffDb) (b : Bool)
    → guard_ai_dispatch t c run token db ≡ ok (b, next)
    → IsGood db
    → IsGood next
guard-IsGood t c run token db next b e good = elim (guard_cases t c run token db next b e) [
  | inl (yes_b, same, n) ↦ rw same good
  | inr (no_b, x, r, k, runs, w) ↦
      written-IsGood t c (link (some r.id) none) db next x w (λ z. refl)
        (record { not_opened = λ d. omega arith }) good
]
