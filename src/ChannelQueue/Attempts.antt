-- ===== src/ChannelQueue/Attempts.antt =====
-- How often an event is delivered, and what a round of the queue's loop adds to the dead letters.
use customers_manager_hub.Prelude.{
  ℕ, suc, ◌+◌, ◌≤◌, ◌≡◌, ◌⊎◌, refl, sym, ap, ◌∙◌, String, Bool, true, false, ltb, max, Option, none,
  some, List, [], ◌∷◌, ◌++◌, arith, Bool-cases, Option-cases, inl, inr,
}
use customers_manager_hub.Prelude.Result.{ok, err, err≢ok}
use customers_manager_hub.Prelude.Step.{◌>>=◌}
use customers_manager_hub.Prelude.Text.{truncate}
use customers_manager_hub.ChannelQueue.{
  HashValue, counted, unreadable, Entry, DeadLetter, ResponseError, Redis, is_job_type, or_empty,
  acknowledge, read_attempt, attempt_of, dead_letter, decode_counted, decode_entry,
}

-- What the documentation of Redis says of the commands on one field of a hash, and of a stream of
-- dead letters, to which only XADD adds, at the end.
pub record IsRedis {S : Type 0} (redis : Redis S) (dead : S → List DeadLetter) : Type 0 where
  pub hset_hget : (s : S) (k : String) (n : ℕ) → redis.hget (redis.hset s k n) k ≡ some (counted n)
  pub hsetnx_new :
      (s : S) (k : String) (n : ℕ)
      → redis.hget s k ≡ none
      → redis.hget (redis.hsetnx s k n) k ≡ some (counted n)
  pub hsetnx_old :
      (s : S) (k : String) (n : ℕ) (v : HashValue)
      → redis.hget s k ≡ some v
      → redis.hsetnx s k n ≡ s
  pub hincrby_reply :
      (s : S) (k : String) (m n : ℕ)
      → redis.hget s k ≡ some (counted m)
      → (redis.hincrby s k n).0 ≡ ok (m + n)
  pub hincrby_hget :
      (s : S) (k : String) (m n : ℕ)
      → redis.hget s k ≡ some (counted m)
      → redis.hget (redis.hincrby s k n).1 k ≡ some (counted (m + n))
  pub hincrby_fails :
      (s : S) (k : String) (n : ℕ) (x : ResponseError)
      → (redis.hincrby s k n).0 ≡ err x
      → (redis.hget s k ≡ some unreadable) × ((redis.hincrby s k n).1 ≡ s)
  pub hset_dead : (s : S) (k : String) (n : ℕ) → dead (redis.hset s k n) ≡ dead s
  pub hsetnx_dead : (s : S) (k : String) (n : ℕ) → dead (redis.hsetnx s k n) ≡ dead s
  pub hincrby_dead : (s : S) (k : String) (n : ℕ) → dead (redis.hincrby s k n).1 ≡ dead s
  pub hdel_dead : (s : S) (k : String) → dead (redis.hdel s k) ≡ dead s
  pub xack_dead : (s : S) (i : String) → dead (redis.xack s i) ≡ dead s
  pub xdel_dead : (s : S) (i : String) → dead (redis.xdel s i) ≡ dead s
  pub xadd_dead : (s : S) (d : DeadLetter) → dead (redis.xadd_dead_letter s d) ≡ dead s ++ d ∷ []

-- The dead letter of an entry, with a reason.
abbrev pub letter : (stream_id entity_id : String) (attempt : ℕ) (reason_code : String) → DeadLetter
letter stream_id entity_id attempt reason_code = record {
  event_id = truncate 64 entity_id;
  source_stream_id = truncate 64 stream_id;
  attempts = max attempt 1;
  reason_code = truncate 100 reason_code;
}

module _ {S : Type 0} (redis : Redis S) (uuid_of : String → Option ℕ) (uuid_text : ℕ → String)
    (idle limit : ℕ) (dead : S → List DeadLetter) (laws : IsRedis redis dead) where
  pub attempt-dead :
      (i : String) (reclaimed : Bool) (s : S)
      → dead (attempt_of redis uuid_of uuid_text idle limit i reclaimed s).1 ≡ dead s
  unfolding attempt_of
  attempt-dead i reclaimed s = elim (Bool-cases reclaimed) [
    | inl again ↦
        rw (again, attempt_of) (laws.hincrby_dead (redis.hsetnx s i 1) i 1 ∙ laws.hsetnx_dead s i 1)
    | inr new ↦ elim (Option-cases (read_attempt (redis.hget (redis.hsetnx s i 1) i))) [
      | inl n ↦
          rw (new, attempt_of, n) (laws.hset_dead (redis.hsetnx s i 1) i 1 ∙ laws.hsetnx_dead s i 1)
      | inr (k, f) ↦ rw (new, attempt_of, f) (laws.hsetnx_dead s i 1)
    ]
  ]

  -- The count of the attempts fails only where an entry is claimed again whose value is not a number.
  pub attempt-fails :
      (i : String) (reclaimed : Bool) (s : S) (x : ResponseError)
      → (attempt_of redis uuid_of uuid_text idle limit i reclaimed s).0 ≡ err x
      → (reclaimed ≡ true)
        × (redis.hget (attempt_of redis uuid_of uuid_text idle limit i reclaimed s).1 i
            ≡ some unreadable)
  unfolding attempt_of
  attempt-fails i true s x e =
      let (bad, same) = laws.hincrby_fails (redis.hsetnx s i 1) i 1 x e in
      (refl, rw (same, attempt_of) bad)
  attempt-fails i false s x e =
      elim (Option-cases (read_attempt (redis.hget (redis.hsetnx s i 1) i))) [
        | inl n ↦ absurd (err≢ok (sym (rw (n, attempt_of) at e)))
        | inr (k, f) ↦ absurd (err≢ok (sym (rw (f, attempt_of) at e)))
      ]

  pub dead_letter-dead :
      (i entity : String) (n : ℕ) (reason : String) (s : S)
      → dead (dead_letter redis uuid_of uuid_text idle limit i entity n reason s)
        ≡ dead s ++ letter i entity n reason ∷ []
  unfolding dead_letter acknowledge
  dead_letter-dead i entity n reason s =
      laws.hdel_dead _ i ∙ laws.xdel_dead _ i ∙ laws.xack_dead _ i ∙ laws.xadd_dead s _

  counted_attempt :
      (i : String) (n : ℕ) (s : S)
      → redis.hget s i ≡ some (counted n)
      → ((attempt_of redis uuid_of uuid_text idle limit i true s).0 ≡ ok (suc n))
        × (redis.hget (attempt_of redis uuid_of uuid_text idle limit i true s).1 i
            ≡ some (counted (suc n)))
  unfolding attempt_of
  counted_attempt i n s h =
      let one_more : n + 1 ≡ suc n = omega arith in
      let kept = laws.hsetnx_old s i 1 (counted n) h in
      (
        rw (kept, attempt_of) (laws.hincrby_reply s i n 1 h ∙ rw one_more refl),
        rw (kept, attempt_of) (laws.hincrby_hget s i n 1 h ∙ ap (λ k. some (counted k)) one_more),
      )

  -- Where Redis does what its documentation says, a well-formed entry that is claimed again
  -- counts one attempt more than before: it is handed out with that count, which the hash then
  -- holds, or it is a dead letter where the count is over the limit.
  pub reclaimed_once_more :
      (e : Entry) (id n : ℕ) (s : S)
      → is_job_type e.job_type ≡ true
      → uuid_of (or_empty e.event_id) ≡ some id
      → redis.hget s e.stream_id ≡ some (counted n)
      → let (job, s') = decode_entry redis uuid_of uuid_text idle limit e true s in
        ((suc n ≤ limit)
          × (job ≡ ok (some (record { stream_id = e.stream_id; event_id = id; attempt = suc n })))
          × (redis.hget s' e.stream_id ≡ some (counted (suc n))))
        ⊎ ((limit ≤ n)
            × (job ≡ ok none)
            × (dead s'
                ≡ dead s
                  ++ letter e.stream_id (uuid_text id) (suc n) "delivery_attempts_exhausted" ∷ []))
  unfolding decode_entry decode_counted
  reclaimed_once_more e id n s typed f h =
      let (count, kept) = counted_attempt e.stream_id n s h in
      let gone = attempt-dead e.stream_id true s in
      let s' = (attempt_of redis uuid_of uuid_text idle limit e.stream_id true s).1 in
      elim (Bool-cases (ltb limit (suc n))) [
        | inl over ↦
            let dropped =
              dead_letter-dead e.stream_id (uuid_text id) (suc n) "delivery_attempts_exhausted"
                s' in
            inr (
              ground arith,
              rw (decode_entry, ◌>>=◌, count, decode_counted, typed, f, over) refl,
              rw (decode_entry, ◌>>=◌, count, decode_counted, typed, f, over)
                  (dropped
                    ∙ ap
                        (λ ds.
                          ds
                          ++ letter e.stream_id (uuid_text id) (suc n) "delivery_attempts_exhausted"
                            ∷ [])
                        gone),
            )
        | inr within ↦ inl (
          ground arith,
          rw (decode_entry, ◌>>=◌, count, decode_counted, typed, f, within) refl,
          rw (decode_entry, ◌>>=◌, count, decode_counted, typed, f, within) kept,
        )
      ]
