-- ===== src/Conversations/Creation.antt =====
-- One message for one idempotency key.
use text.Mathlib.TextEquality.{eq_iff}
use customers_manager_hub.Prelude.{
  ℕ, String, ◌≡◌, refl, sym, ap, ◌∙◌, true, false, ◌&&◌, ◌==◌, ==_iff, Option, none, some, List, [],
  ◌∷◌, ◌++◌, any, find, find-holds, arith, Bool-cases, Option-cases, inl, inr,
}
use customers_manager_hub.Prelude.Result.{ok, ◌>>=◌, bind_ok, ok_unique, err≢ok, Result-cases}
use customers_manager_hub.Prelude.Table.Laws.{find-append_none, none_found, count_zero_of_any}
use customers_manager_hub.Models.{TenantRole, Conversation, Message}
use customers_manager_hub.Conversations.{
  ConversationsDb, MessageCreate, is_write_role, same_id, same_text, load_conversation,
  validate_external_identity, has_idempotency_key, load_message_by_idempotency_key,
  message_identity_matches, message_of, takes_key, insert_message, same_or_conflict, check_request,
  insert_or_join, create_message, or_now,
}

same_id_refl : (x : Option ℕ) → same_id x x ≡ true
same_id_refl none = refl
same_id_refl (some a) = (==_iff a a).1 refl

same_text_refl : (x : Option String) → same_text x x ≡ true
same_text_refl none = refl
same_text_refl (some a) = (eq_iff a a).1 refl

-- A message matches the payload that it was made of.
matches-own :
    (id t c at : ℕ) (payload : MessageCreate)
    → message_identity_matches (message_of id t c at payload) payload c ≡ true
unfolding message_identity_matches
matches-own id t c at payload =
    ground
      (arith, same_id_refl payload.external_identity_id, same_text_refl payload.external_message_id)

pub insert_message_lem :
    (m : Message) (messages next : List Message)
    → insert_message m messages ≡ some next
    → (messages ++ m ∷ [] ≡ next) × (any (takes_key m.tenant_id m.idempotency_key) messages ≡ false)
unfolding insert_message
insert_message_lem m messages next e = ground arith

loaded_id :
    (db : ConversationsDb) (t c : ℕ) (x : Conversation) → load_conversation db t c ≡ ok x → x.id ≡ c
loaded_id db t c x e =
    elim (Option-cases (find (λ y. y.id == c && y.tenant_id == t) db.conversations)) [
      | inl n ↦ absurd (err≢ok (rw (n, load_conversation) at e))
      | inr (y, f) ↦
          let same = ok_unique refl (rw (f, load_conversation) at e) in
          let held = find-holds (λ z. z.id == c && z.tenant_id == t) db.conversations y f in
          let here : y.id ≡ c = ground arith in ap (λ z. z.id) (sym same) ∙ here
    ]

check_loaded :
    (t c : ℕ) (payload : MessageCreate) (db : ConversationsDb) (x : Conversation)
    → (load_conversation db t c >>= λ y.
        validate_external_identity db t y.contact_id payload.external_identity_id >>= λ _. ok y)
      ≡ ok x
    → load_conversation db t c ≡ ok x
check_loaded t c payload db x e =
    let (y, f, rest) = bind_ok (load_conversation db t c) _ x e in
    let (u, g, last) =
      bind_ok (validate_external_identity db t y.contact_id payload.external_identity_id) _ x
        rest in
    f ∙ last

check_id :
    (role : TenantRole) (t c : ℕ) (payload : MessageCreate) (db : ConversationsDb)
    (x : Conversation)
    → check_request role t c payload db ≡ ok x
    → x.id ≡ c
unfolding check_request
check_id role t c payload db x e = elim (Bool-cases (is_write_role role)) [
  | inr no_role ↦ absurd (err≢ok (rw (no_role, check_request) at e))
  | inl may ↦
      let found : load_conversation db t c ≡ ok x =
        check_loaded t c payload db x (rw (may, check_request) at e) in
      loaded_id db t c x found
]

joined :
    (raced m : Message) (payload : MessageCreate) (c : ℕ)
    → same_or_conflict raced payload c ≡ ok m
    → (raced ≡ m) × (message_identity_matches raced payload c ≡ true)
joined raced m payload c e = elim (Bool-cases (message_identity_matches raced payload c)) [
  | inl same ↦ (ok_unique refl (rw same at e), same)
  | inr other ↦ absurd (err≢ok (rw other at e))
]

-- What a call with a key leaves: the key's message, which matches the payload.
record IsKept (t c : ℕ) (key : String) (payload : MessageCreate) (next : ConversationsDb)
    (m : Message) : Type 0 where
  found : load_message_by_idempotency_key next t key ≡ some m
  matches : message_identity_matches m payload c ≡ true

own_key :
    (id t c at : ℕ) (payload : MessageCreate) (key : String)
    → payload.idempotency_key ≡ some key
    → has_idempotency_key t key (message_of id t c at payload) ≡ true
own_key id t c at payload key k =
    let a = (==_iff t t).1 refl in
    let b : same_text payload.idempotency_key (some key) ≡ true =
      rw k (same_text_refl (some key)) in
    rw (a, b) refl

insert-IsKept :
    (id t now : ℕ) (x : Conversation) (payload : MessageCreate) (db : ConversationsDb)
    (key : String) (m : Message)
    → payload.idempotency_key ≡ some key
    → (insert_or_join id t now x payload db).0 ≡ ok m
    → IsKept t x.id key payload (insert_or_join id t now x payload db).1 m
unfolding insert_or_join find message_identity_matches
insert-IsKept id t now x payload db key m k e =
    let at = or_now payload.occurred_at now in
    let new = message_of id t x.id at payload in
    elim (Option-cases (insert_message new db.messages)) [
      | inr (messages, f) ↦
          let (rows, free) = insert_message_lem new db.messages messages f in
          let same = ok_unique refl (rw (f, insert_or_join) at e) in
          let taken = rw k at free in
          let p = has_idempotency_key t key in
          let unseen =
            none_found p p db.messages (λ y h. h) (count_zero_of_any p db.messages taken) in
          let itself : p new ≡ true = own_key id t x.id at payload key k in
          rw (f, insert_or_join)
            (record {
              found =
                  rw (← rows) (find-append_none p db.messages (new ∷ []) unseen ∙ rw itself refl)
                  ∙ ap some same;
              matches = rw (← same) (matches-own id t x.id at payload);
            })
      | inl n ↦ elim (Option-cases (load_message_by_idempotency_key db t key)) [
        | inl gone ↦ absurd (err≢ok (rw (n, insert_or_join, k, gone) at e))
        | inr (raced, f) ↦
            let (same, fits) = joined raced m payload x.id (rw (n, insert_or_join, k, f) at e) in
            rw (n, insert_or_join, k, f)
              (record { found = f ∙ ap some same; matches = rw (← same) fits })
      ]
    ]

create-IsKept :
    (id now : ℕ) (others : ConversationsDb → ConversationsDb) (role : TenantRole) (t c : ℕ)
    (payload : MessageCreate) (db : ConversationsDb) (key : String) (m : Message)
    → payload.idempotency_key ≡ some key
    → (create_message id now others role t c payload db).0 ≡ ok m
    → IsKept t c key payload (create_message id now others role t c payload db).1 m
unfolding create_message
create-IsKept id now others role t c payload db key m k e =
    elim (Result-cases (check_request role t c payload db)) [
      | inr (x, f) ↦ absurd (err≢ok (rw (f, create_message) at e))
      | inl (x, f) ↦
          let here = check_id role t c payload db x f in
          elim (Option-cases (load_message_by_idempotency_key db t key)) [
            | inr (existing, g) ↦
                let (same, fits) =
                  joined existing m payload x.id (rw (f, create_message, k, g) at e) in
                let joined_kept : IsKept t c key payload db m = record {
                  found = g ∙ ap some same;
                  matches = rw (← same, ← here) fits;
                } in
                simp (f, create_message, k, g) joined_kept
            | inl n ↦
                let inserted : IsKept t c key payload
                    (insert_or_join id t now x payload (others db)).1 m =
                  rw (← here) (
                    insert-IsKept id t now x payload (others db) key m k
                      (rw (f, create_message, k, n) at e)) in
                simp (f, create_message, k, n) inserted
          ]
    ]

-- A call of `create_message` that is sent again with its idempotency key, and that is still
-- allowed, gets the message of the first call and changes nothing, whatever other transactions
-- did during either call.
pub sent_again :
    (id id' now now' : ℕ) (others others' : ConversationsDb → ConversationsDb)
    (role role' : TenantRole) (t c : ℕ) (payload : MessageCreate) (db next : ConversationsDb)
    (key : String) (m : Message) (x : Conversation)
    → payload.idempotency_key ≡ some key
    → create_message id now others role t c payload db ≡ (ok m, next)
    → check_request role' t c payload next ≡ ok x
    → create_message id' now' others' role' t c payload next ≡ (ok m, next)
unfolding create_message
sent_again id id' now now' others others' role role' t c payload db next key m x k e f =
    let kept = create-IsKept id now others role t c payload db key m k (ap (λ r. r.0) e) in
    let found : load_message_by_idempotency_key next t key ≡ some m =
      rw (ap (λ r. r.1) e) at kept.found in
    let fits : message_identity_matches m payload x.id ≡ true =
      rw (check_id role' t c payload next x f) kept.matches in
    rw (f, create_message, k, found, fits) refl
