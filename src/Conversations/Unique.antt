-- ===== src/Conversations/Unique.antt =====
-- The idempotency keys of a tenant's messages stay unique.
use text.Mathlib.TextEquality.{eq_iff}
use customers_manager_hub.Prelude.{
  ℕ, String, ◌≤◌, ◌≡◌, ap, Bool, true, false, some, List, [], ◌∷◌, count, count-append, bit, arith,
  Option-cases, inl, inr,
}
use customers_manager_hub.Prelude.Result.{Result-cases}
use customers_manager_hub.Prelude.Table.Laws.{count_zero_of_any, count-fresh}
use customers_manager_hub.Models.{TenantRole, Conversation, Message}
use customers_manager_hub.Conversations.{
  ConversationsDb, MessageCreate, same_text, has_idempotency_key, load_message_by_idempotency_key,
  message_of, insert_message, check_request, insert_or_join, create_message, or_now,
}
use customers_manager_hub.Conversations.Creation.{insert_message_lem}

abbrev pub has_key : ℕ × String → Message → Bool
has_key k m = has_idempotency_key k.0 k.1 m

-- No two messages of a tenant have the same idempotency key.
abbrev pub HasUniqueKeys : List Message → Type 0
HasUniqueKeys messages = (k : ℕ × String) → count (has_key k) messages ≤ 1

key_of :
    (m : Message) (key : String) (k : ℕ × String)
    → m.idempotency_key ≡ some key
    → has_key k m ≡ true
    → (m.tenant_id, key) ≡ k
key_of m key k e h =
    let h' : has_key k m ≡ true = h in
    let t : m.tenant_id ≡ k.0 = ground arith in
    let held : same_text m.idempotency_key (some k.1) ≡ true = ground arith in
    let same : same_text (some key) (some k.1) ≡ true = rw e at held in
    λ i. (t i, (eq_iff key k.1).0 same i)

insert-HasUniqueKeys :
    (m : Message) (messages next : List Message)
    → insert_message m messages ≡ some next
    → HasUniqueKeys messages
    → HasUniqueKeys next
unfolding count
insert-HasUniqueKeys m messages next e h =
    let (rows, free) = insert_message_lem m messages next e in
    rw (← rows) (elim (Option-cases m.idempotency_key) [
      | inl n ↦ λ k.
          let keyless : has_key k m ≡ false = ground arith in
          omega (arith, count-append (has_key k) messages (m ∷ []), h k, ap bit keyless)
      | inr (key, f) ↦
          count-fresh has_key (m.tenant_id, key) m messages (λ k. key_of m key k f)
            (count_zero_of_any (has_key (m.tenant_id, key)) messages (rw f at free)) h
    ])

join-HasUniqueKeys :
    (id t now : ℕ) (x : Conversation) (payload : MessageCreate) (db : ConversationsDb)
    → HasUniqueKeys db.messages
    → HasUniqueKeys (insert_or_join id t now x payload db).1.messages
unfolding insert_or_join
join-HasUniqueKeys id t now x payload db h =
    let new = message_of id t x.id (or_now payload.occurred_at now) payload in
    elim (Option-cases (insert_message new db.messages)) [
      | inr (messages, f) ↦
          rw (f, insert_or_join) (insert-HasUniqueKeys new db.messages messages f h)
      | inl n ↦ elim (Option-cases payload.idempotency_key) [
        | inl k ↦ rw (n, insert_or_join, k) h
        | inr (key, k) ↦ elim (Option-cases (load_message_by_idempotency_key db t key)) [
          | inl gone ↦ rw (n, insert_or_join, k, gone) h
          | inr (raced, f) ↦ rw (n, insert_or_join, k, f) h
        ]
      ]
    ]

-- `create_message` keeps the idempotency keys of each tenant unique, as long as what other
-- transactions commit meanwhile does.
pub create-HasUniqueKeys :
    (id now : ℕ) (others : ConversationsDb → ConversationsDb) (role : TenantRole) (t c : ℕ)
    (payload : MessageCreate) (db : ConversationsDb)
    → ((d : ConversationsDb) → HasUniqueKeys d.messages → HasUniqueKeys (others d).messages)
    → HasUniqueKeys db.messages
    → HasUniqueKeys (create_message id now others role t c payload db).1.messages
unfolding create_message
create-HasUniqueKeys id now others role t c payload db keeps h =
    elim (Result-cases (check_request role t c payload db)) [
      | inr (e, f) ↦ rw (f, create_message) h
      | inl (x, f) ↦ elim (Option-cases payload.idempotency_key) [
        | inl k ↦
            rw (f, create_message, k)
              (join-HasUniqueKeys id t now x payload (others db) (keeps db h))
        | inr (key, k) ↦ elim (Option-cases (load_message_by_idempotency_key db t key)) [
          | inr (existing, g) ↦ rw (f, create_message, k, g) h
          | inl n ↦
              rw (f, create_message, k, n)
                (join-HasUniqueKeys id t now x payload (others db) (keeps db h))
        ]
      ]
    ]
