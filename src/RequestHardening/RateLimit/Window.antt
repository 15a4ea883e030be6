-- ===== src/RequestHardening/RateLimit/Window.antt =====
-- How many requests a window lets through, and that every counter expires.
use text.Mathlib.Text.{◌==◌ as str_eq}
use text.Mathlib.TextEquality.{eq_iff}
use customers_manager_hub.Prelude.{
  ℕ, ◌+◌, ◌-◌, ◌≤◌, ◌≡◌, ap, sym, ◌∙◌, min, String, Bool, true, ◌&&◌, ◌==◌, leb, bit, Option, none,
  some, List, [], ◌∷◌, count, arith, Bool-cases, inl, inr,
}
use customers_manager_hub.RequestHardening.RateLimit.{
  RateLimitRule, RateLimitDecision, Commands, ScriptReply, replied, rate_limit_script,
  rate_limit_key, check,
}

-- What the documentation of Redis says of the commands: `value` is the number under a key, 0 where it
-- has none, and `has_deadline` says whether the key expires.
pub record IsCounting {S : Type 0} (redis : Commands S) (value : S → String → ℕ)
    (has_deadline : S → String → Bool) : Type 0 where
  pub incr_reply : (s : S) (k : String) → (redis.incr s k).0 ≡ value s k + 1
  pub incr_value :
      (s : S) (k j : String) → value (redis.incr s k).1 j ≡ value s j + bit (str_eq j k)
  pub incr_deadline : (s : S) (k j : String) → has_deadline (redis.incr s k).1 j ≡ has_deadline s j
  pub expire_value :
      (s : S) (k : String) (n : ℕ) (j : String) → value (redis.expire s k n) j ≡ value s j
  pub expire_set : (s : S) (k : String) (n : ℕ) → has_deadline (redis.expire s k n) k ≡ true
  pub expire_other :
      (s : S) (k : String) (n : ℕ) (j : String)
      → has_deadline s j ≡ true
      → has_deadline (redis.expire s k n) j ≡ true

abbrev pub is_allowed : Option RateLimitDecision → Bool
is_allowed none = true
is_allowed (some d) = d.allowed

-- `eval` while Redis answers.
abbrev pub answers : {S : Type 0} → Commands S → String → ℕ → S → ScriptReply × S
answers redis key window s =
    let (values, s') = rate_limit_script redis key window s in (replied values, s')

-- How many of a sequence of requests under a rule are let through and count under `key`.
module _ {S : Type 0} (redis : Commands S) (identity_hash : String → String) where
  pub admitted : RateLimitRule → String → List String → S → ℕ
  admitted rule key [] s = 0
  admitted rule key (identity ∷ rest) s =
      let (d, s') = check (answers redis) identity_hash rule identity s in
      bit (is_allowed d && str_eq key (rate_limit_key identity_hash rule identity))
      + admitted rule key rest s'

module _ {S : Type 0} (redis : Commands S) (value : S → String → ℕ)
    (has_deadline : S → String → Bool) (is_redis : IsCounting redis value has_deadline)
    (identity_hash : String → String) where
  script_value :
      (k : String) (w : ℕ) (s : S) (j : String)
      → value (rate_limit_script redis k w s).1 j ≡ value s j + bit (str_eq j k)
  unfolding rate_limit_script
  script_value k w s j = elim (Bool-cases ((redis.incr s k).0 == 1)) [
    | inl first ↦
        rw (first, rate_limit_script)
          (is_redis.expire_value (redis.incr s k).1 k w j ∙ is_redis.incr_value s k j)
    | inr later ↦ rw (later, rate_limit_script) (is_redis.incr_value s k j)
  ]

  pub check_value :
      (rule : RateLimitRule) (identity : String) (s : S) (j : String)
      → value (check (answers redis) identity_hash rule identity s).1 j
        ≡ value s j + bit (str_eq j (rate_limit_key identity_hash rule identity))
  unfolding check
  check_value rule identity s j =
      script_value (rate_limit_key identity_hash rule identity) rule.window_seconds s j

  pub check_allowed :
      (rule : RateLimitRule) (identity : String) (s : S)
      → is_allowed (check (answers redis) identity_hash rule identity s).0
        ≡ leb (value s (rate_limit_key identity_hash rule identity) + 1) rule.limit
  unfolding check rate_limit_script
  check_allowed rule identity s =
      let k = rate_limit_key identity_hash rule identity in
      let reply = is_redis.incr_reply s k in ground (arith, reply)

  -- Where Redis does what its documentation says and answers, and while a counter does not
  -- expire, a sequence of requests from any addresses under one rule lets through, of those that
  -- count under a key, exactly as many as the rule's limit has left for it.
  pub admitted_exact :
      (rule : RateLimitRule) (key : String) (identities : List String) (s : S)
      → admitted redis identity_hash rule key identities s
        ≡ min
            (count (λ i. str_eq key (rate_limit_key identity_hash rule i)) identities)
            (rule.limit - value s key)
  unfolding admitted count
  admitted_exact rule key [] s = omega arith
  admitted_exact rule key (i ∷ rest) s =
      let k = rate_limit_key identity_hash rule i in
      let (d, s') = check (answers redis) identity_hash rule i s in
      let after = check_value rule i s key in
      let verdict = check_allowed rule i s in
      let later = admitted_exact rule key rest s' in
      elim (Bool-cases (str_eq key k)) [
        | inl same ↦
            let equal : key ≡ k = (eq_iff key k).0 same in
            let held : value s k ≡ value s key = ap (value s) (sym equal) in
            rw (same, admitted, count) (ground (arith, after, verdict, later, held, same))
        | inr other ↦ rw (other, admitted, count) (ground (arith, after, verdict, later, other))
      ]

  deadline_kept :
      (k : String) (w : ℕ) (s : S)
      → ((j : String) → 1 ≤ value s j → has_deadline s j ≡ true)
      → (j : String) → 1 ≤ value (rate_limit_script redis k w s).1 j
      → has_deadline (rate_limit_script redis k w s).1 j ≡ true
  unfolding rate_limit_script
  deadline_kept k w s h j counted =
      let after = script_value k w s j in
      let kept = is_redis.incr_deadline s k j in
      elim (Bool-cases (str_eq j k)) [
        | inr other ↦
            let old : 1 ≤ value s j = omega (arith, after, ap bit other, counted) in
            let live : has_deadline (redis.incr s k).1 j ≡ true = kept ∙ h j old in
            elim (Bool-cases ((redis.incr s k).0 == 1)) [
              | inl first ↦
                  rw (first, rate_limit_script)
                    (is_redis.expire_other (redis.incr s k).1 k w j live)
              | inr later ↦ rw (later, rate_limit_script) live
            ]
        | inl same ↦
            let equal : j ≡ k = (eq_iff j k).0 same in
            elim (Bool-cases ((redis.incr s k).0 == 1)) [
              | inl first ↦
                  rw (first, rate_limit_script, equal) (is_redis.expire_set (redis.incr s k).1 k w)
              | inr later ↦
                  let reply = is_redis.incr_reply s k in
                  let seen : 1 ≤ value s k = ground (arith, reply, later) in
                  rw (later, rate_limit_script, equal) (is_redis.incr_deadline s k k ∙ h k seen)
            ]
      ]

  -- Where Redis does what its documentation says and answers, every counter expires: where each
  -- key with a count has a deadline, each still has one after a request is counted.
  pub check-HasDeadlines :
      (rule : RateLimitRule) (identity : String) (s : S)
      → ((j : String) → 1 ≤ value s j → has_deadline s j ≡ true)
      → (j : String) → 1 ≤ value (check (answers redis) identity_hash rule identity s).1 j
      → has_deadline (check (answers redis) identity_hash rule identity s).1 j ≡ true
  unfolding check
  check-HasDeadlines rule identity s h j counted =
      deadline_kept (rate_limit_key identity_hash rule identity) rule.window_seconds s h j counted
