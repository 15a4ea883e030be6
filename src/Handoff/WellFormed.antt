-- ===== src/Handoff/WellFormed.antt =====
-- The tables of handoffs stay well formed: one row for each primary key, and one active handoff at
-- most for each conversation.
use customers_manager_hub.Prelude.{
  ℕ, ◌≤◌, ◌≡◌, ==_iff, false, some, List, [], ◌∷◌, ◌++◌, any, count, find, bit, arith,
}
use customers_manager_hub.Prelude.Table.{HasKeys, has_key, update_row}
use customers_manager_hub.Prelude.Table.Laws.{
  count_zero_of_any, count-fresh, find_key, count-update_row, HasKeys-update_row,
}
use customers_manager_hub.HandoffModels.{ConversationHandoff}
use customers_manager_hub.Handoff.{is_active_in, is_active_of, insert_handoff}

abbrev pub handoff_id : ConversationHandoff → ℕ
handoff_id h = h.id

-- The tables of handoffs: one row for a primary key, one active row for a conversation.
pub record IsWellFormed (handoffs : List ConversationHandoff) : Type 0 where
  pub keys : HasKeys handoff_id handoffs
  pub one_active : (c : ℕ) → count (is_active_in c) handoffs ≤ 1

-- An update that leaves a row its key and its conversation, and does not open it again.
pub record IsQuiet (f : ConversationHandoff → ConversationHandoff) (h : ConversationHandoff)
    : Type 0 where
  pub not_opened : (c : ℕ) → bit (is_active_in c (f h)) ≤ bit (is_active_in c h)

pub update-IsWellFormed :
    (f : ConversationHandoff → ConversationHandoff) (t c : ℕ) (h : ConversationHandoff)
    (handoffs : List ConversationHandoff)
    → ((x : ConversationHandoff) → (f x).id ≡ x.id)
    → IsQuiet f h
    → find (is_active_of t c) handoffs ≡ some h
    → IsWellFormed handoffs
    → IsWellFormed (update_row handoff_id h.id f handoffs)
update-IsWellFormed f t c h handoffs same quiet found good =
    let loaded = find_key handoff_id (is_active_of t c) handoffs h good.keys found in
    record {
      keys = HasKeys-update_row handoff_id h.id f handoffs same good.keys;
      one_active = λ d. omega (
        arith,
        count-update_row handoff_id (is_active_in d) h.id f handoffs h loaded,
        quiet.not_opened d,
        good.one_active d,
      );
    }

pub insert_lem :
    (h : ConversationHandoff) (handoffs next : List ConversationHandoff)
    → insert_handoff h handoffs ≡ some next
    → (handoffs ++ h ∷ [] ≡ next)
      × (any (has_key handoff_id h.id) handoffs ≡ false)
      × (any (is_active_in h.conversation_id) handoffs ≡ false)
unfolding insert_handoff
insert_lem h handoffs next e = ground arith

pub insert-IsWellFormed :
    (h : ConversationHandoff) (handoffs next : List ConversationHandoff)
    → insert_handoff h handoffs ≡ some next
    → IsWellFormed handoffs
    → IsWellFormed next
insert-IsWellFormed h handoffs next e good =
    let (same, new_id, free) = insert_lem h handoffs next e in
    rw (← same) (record {
      keys =
          count-fresh (has_key handoff_id) h.id h handoffs (λ i e. (==_iff h.id i).0 e)
            (count_zero_of_any (has_key handoff_id h.id) handoffs new_id) good.keys;
      one_active =
          count-fresh is_active_in h.conversation_id h handoffs (λ i e. ground arith)
            (count_zero_of_any (is_active_in h.conversation_id) handoffs free) good.one_active;
    })
