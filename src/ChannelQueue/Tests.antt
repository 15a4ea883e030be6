-- ===== src/ChannelQueue/Tests.antt =====
-- The queue over a small server in place of Redis.
use text.Mathlib.Text.{◌==◌ as str_eq}
use text.Mathlib.TextEquality.{eq_iff}
use customers_manager_hub.Prelude.{
  ℕ, ◌+◌, ◌≤◌, ◌≡◌, ◌⊎◌, refl, sym, ◌++◌, Option-cases, inl, inr, String, true, Option, none, some,
  List, [], ◌∷◌, arith, if◌then◌else◌,
}
use customers_manager_hub.ChannelQueue.{
  HashValue, counted, unreadable, Entry, DeadLetter, ResponseError, not_an_integer, Redis,
  decode_entry, decode_entries, decode_counted, attempt_of, dead_letter, acknowledge,
}
use customers_manager_hub.ChannelQueue.Attempts.{IsRedis, letter, reclaimed_once_more}
use customers_manager_hub.ChannelQueue.Accounts.{Accounted}
use customers_manager_hub.ChannelQueue.Batches.{none_lost}
use customers_manager_hub.Prelude.Result.{ok, err, err≢ok}

record Server : Type 0 where
  hash : String → Option HashValue
  dead : List DeadLetter
  stream : List Entry

abbrev set : Server → String → ℕ → Server
set s k n = record s { hash = λ x. if str_eq x k then some (counted n) else s.hash x }

abbrev redis : Redis Server
redis = record {
  hget = λ s k. s.hash k;
  hset = set;
  hsetnx = λ s k n. elim (s.hash k) [ none ↦ set s k n | some v ↦ s ];
  hincrby = λ s k n. elim (s.hash k) [
    | none ↦ (ok n, set s k n)
    | some v ↦ elim v [
      | counted m ↦ (ok (m + n), set s k (m + n))
      | unreadable ↦ (err not_an_integer, s)
    ]
  ];
  hdel = λ s k. record s { hash = λ x. if str_eq x k then none else s.hash x };
  xadd_job = λ s fields. ("1-0", s);
  xadd_dead_letter = λ s d. record s { dead = s.dead ++ d ∷ [] };
  xack = λ s i. s;
  xdel = λ s i. s;
  xreadgroup = λ s consumer count. (s.stream, s);
  xautoclaim = λ s consumer idle count. (s.stream, s);
}

abbrev dead_of : Server → List DeadLetter
dead_of s = s.dead

set_found : (s : Server) (k : String) (n : ℕ) → (set s k n).hash k ≡ some (counted n)
set_found s k n = let itself = (eq_iff k k).1 refl in rw itself refl

only_unreadable :
    (s : Server) (k : String) (n : ℕ) (x : ResponseError)
    → (redis.hincrby s k n).0 ≡ err x
    → (redis.hget s k ≡ some unreadable) × ((redis.hincrby s k n).1 ≡ s)
only_unreadable s k n x e = elim (Option-cases (s.hash k)) [
  | inl f ↦ absurd (err≢ok (sym (rw f at e)))
  | inr (counted m, f) ↦ absurd (err≢ok (sym (rw f at e)))
  | inr (unreadable, f) ↦ (f, rw f refl)
]

redis-IsRedis : IsRedis redis dead_of
redis-IsRedis = record {
  hset_hget = set_found;
  hsetnx_new = λ s k n e. rw e (set_found s k n);
  hsetnx_old = λ s k n v e. ground arith;
  hincrby_reply = λ s k m n e. ground arith;
  hincrby_hget = λ s k m n e. rw e (set_found s k (m + n));
  hincrby_fails = only_unreadable;
  hset_dead = λ s k n. refl;
  hsetnx_dead = λ s k n. ground arith;
  hincrby_dead = λ s k n. ground arith;
  hdel_dead = λ s k. refl;
  xack_dead = λ s i. refl;
  xdel_dead = λ s i. refl;
  xadd_dead = λ s d. refl;
}

abbrev uuid_of : String → Option ℕ
uuid_of s = if str_eq s "event 9" then some 9 else none

abbrev uuid_text : ℕ → String
uuid_text n = "event 9"

abbrev good_entry : Entry
good_entry = record {
  stream_id = "1-0";
  job_type = some "channel.inbound";
  event_id = some "event 9";
}

abbrev bad_entry : Entry
bad_entry = record { stream_id = "2-0"; job_type = none; event_id = none }

-- The good entry has been handed out five times.
abbrev server : Server
server = record {
  hash = λ k. if str_eq k "1-0" then some (counted 5) else none;
  dead = [];
  stream = good_entry ∷ bad_entry ∷ [];
}

-- An entry that nobody has counted.
abbrev fresh_entry : Entry
fresh_entry = record good_entry { stream_id = "3-0" }

-- The first entry is a dead letter for its attempts, the second for its form, and the third is a job.
abbrev entries : List Entry
entries = good_entry ∷ bad_entry ∷ fresh_entry ∷ []

handed_third :
    (decode_entries redis uuid_of uuid_text 30000 5 entries true server).0
    ≡ ok (record { stream_id = "3-0"; event_id = 9; attempt = 2 } ∷ [])
unfolding decode_entries decode_entry decode_counted attempt_of dead_letter acknowledge
handed_third = refl

none_lost_example :
    Accounted redis uuid_of uuid_text 30000 5 dead_of entries true server
      (decode_entries redis uuid_of uuid_text 30000 5 entries true server)
none_lost_example =
    none_lost redis uuid_of uuid_text 30000 5 dead_of redis-IsRedis entries true server

-- Where the count of the second entry is not a number, the batch ends there and returns no job.
stopped_second :
    (decode_entries redis uuid_of uuid_text 30000 5
      (fresh_entry ∷ bad_entry ∷ [])
      true
      (record server { hash = λ k. if str_eq k "2-0" then some unreadable else none })).0
    ≡ err not_an_integer
unfolding decode_entries decode_entry decode_counted attempt_of
stopped_second = refl

reclaimed_once_more_example :
    let (job, s') = decode_entry redis uuid_of uuid_text 30000 6 good_entry true server in
    ((6 ≤ 6)
      × (job ≡ ok (some (record { stream_id = "1-0"; event_id = 9; attempt = 6 })))
      × (s'.hash "1-0" ≡ some (counted 6)))
    ⊎ ((6 ≤ 5)
        × (job ≡ ok none)
        × (s'.dead ≡ letter "1-0" "event 9" 6 "delivery_attempts_exhausted" ∷ []))
reclaimed_once_more_example =
    reclaimed_once_more redis uuid_of uuid_text 30000 6 dead_of redis-IsRedis good_entry 9 5 server
      refl refl refl
