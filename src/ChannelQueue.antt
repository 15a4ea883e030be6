-- ===== src/ChannelQueue.antt =====
-- The queue of inbound events (apps/api/src/customers_manager_hub/channel_queue.py). The commands of
-- Redis are an interface: `S` is the state of the server, and the laws are its documented behaviour.
mod Tests
pub mod Attempts
pub mod Accounts
pub mod Batches
use text.Mathlib.Text.{◌==◌ as str_eq}
use customers_manager_hub.Prelude.{
  ℕ, ◌+◌, max, String, Bool, true, false, ltb, Option, none, some, List, [], ◌∷◌, ◌++◌, ◌≡◌, ◌≢◌,
  if◌then◌else◌,
}
use customers_manager_hub.Prelude.Result.{Result, ok}
use customers_manager_hub.Prelude.Step.{Step, ◌>>=◌, pure}
use customers_manager_hub.Prelude.Text.{truncate}

-- A value of the hash of attempts: a number, or a text that `int` does not read.
pub data HashValue : Type 0 where
  counted : ℕ → HashValue
  unreadable : HashValue

-- An entry of the stream: its id and its fields.
pub record Entry : Type 0 where
  pub stream_id : String
  pub job_type : Option String
  pub event_id : Option String

-- The fields of an entry of the stream of dead letters.
pub record DeadLetter : Type 0 where
  pub event_id : String
  pub source_stream_id : String
  pub attempts : ℕ
  pub reason_code : String

-- `ChannelJob`
pub record ChannelJob : Type 0 where
  pub stream_id : String
  pub event_id : ℕ
  pub attempt : ℕ

-- `ResponseError` of Redis: the value of the hash is not an integer.
pub data ResponseError : Type 0 where
  not_an_integer : ResponseError

-- The commands that the queue sends; only HINCRBY can fail. The hash is `CHANNEL_JOB_ATTEMPT_HASH`.
pub record Redis (S : Type 0) : Type 0 where
  pub hget : S → String → Option HashValue
  pub hset : S → String → ℕ → S
  pub hsetnx : S → String → ℕ → S
  pub hincrby : S → String → ℕ → Result ResponseError ℕ × S
  pub hdel : S → String → S
  pub xadd_job : S → String × String → String × S
  pub xadd_dead_letter : S → DeadLetter → S
  pub xack : S → String → S
  pub xdel : S → String → S
  pub xreadgroup : S → String → ℕ → List Entry × S
  pub xautoclaim : S → String → (min_idle_ms count : ℕ) → List Entry × S

-- `CHANNEL_JOB_TYPE`
abbrev pub channel_job_type : String
channel_job_type = "channel.inbound"

-- `fields.get(name, "")`
abbrev pub or_empty : Option String → String
or_empty none = ""
or_empty (some s) = s

abbrev pub is_job_type : Option String → Bool
is_job_type none = false
is_job_type (some s) = str_eq s channel_job_type

-- `max(int(raw or 1), 1)`, where `int` reads it.
abbrev pub read_attempt : Option HashValue → Option ℕ
read_attempt none = some 1
read_attempt (some (counted n)) = some (max n 1)
read_attempt (some unreadable) = none

abbrev pub with_job : Option ChannelJob → List ChannelJob → List ChannelJob
with_job none jobs = jobs
with_job (some j) jobs = j ∷ jobs

-- `redis` and the fields of `ChannelJobQueue`; `uuid_of` and `uuid_text` are `UUID(…)` and `str`.
module _ {S : Type 0} (redis : Redis S) (uuid_of : String → Option ℕ) (uuid_text : ℕ → String)
    (claim_idle_ms max_delivery_attempts : ℕ) where
  open redis use {
    hget, hset, hsetnx, hincrby, hdel, xadd_job, xadd_dead_letter, xack, xdel, xreadgroup,
    xautoclaim,
  }

  -- `enqueue`
  unfoldable pub enqueue : ℕ → S → String × S
  enqueue event_id s =
      let (stream_id, s') = xadd_job s (channel_job_type, uuid_text event_id) in
      (stream_id, hset s' stream_id 1)

  -- `acknowledge`
  unfoldable pub acknowledge : String → S → S
  acknowledge stream_id s = hdel (xdel (xack s stream_id) stream_id) stream_id

  -- `_attempt`
  unfoldable pub attempt_of : String → (reclaimed : Bool) → Step ResponseError S ℕ
  attempt_of stream_id reclaimed s =
      let s' = hsetnx s stream_id 1 in
      if reclaimed then hincrby s' stream_id 1 else elim (read_attempt (hget s' stream_id)) [
        | some n ↦ (ok n, s')
        | none ↦ (ok 1, hset s' stream_id 1)
      ]

  -- `_dead_letter`
  unfoldable pub dead_letter : String → String → ℕ → String → S → S
  unfolding acknowledge
  dead_letter stream_id entity_id attempt reason_code s = acknowledge stream_id (
      xadd_dead_letter s (record {
        event_id = truncate 64 entity_id;
        source_stream_id = truncate 64 stream_id;
        attempts = max attempt 1;
        reason_code = truncate 100 reason_code;
      }))

  -- The part of a round of the loop after the count of the attempts: a job, or a dead letter.
  unfoldable pub decode_counted : Entry → (attempt : ℕ) → S → Option ChannelJob × S
  unfolding dead_letter
  decode_counted e attempt s =
      let raw = or_empty e.event_id in
      if is_job_type e.job_type
      then (elim (uuid_of raw) [
        | none ↦ (none, dead_letter e.stream_id raw attempt "malformed_event_id" s)
        | some event_id ↦
            if ltb max_delivery_attempts attempt
            then (
              none,
              dead_letter e.stream_id (uuid_text event_id) attempt "delivery_attempts_exhausted" s,
            )
            else (
              some (record { stream_id = e.stream_id; event_id = event_id; attempt = attempt }),
              s,
            )
      ])
      else (none, dead_letter e.stream_id raw attempt "malformed_job_type" s)

  -- One round of the loop in `_decode_entries`.
  unfoldable pub decode_entry :
      Entry → (reclaimed : Bool) → Step ResponseError S (Option ChannelJob)
  unfolding attempt_of decode_counted
  decode_entry e reclaimed = attempt_of e.stream_id reclaimed >>= λ attempt s.
      let (job, s') = decode_counted e attempt s in (ok job, s')

  -- `_decode_entries`: an error of HINCRBY ends it, and the jobs decoded so far are not returned.
  unfoldable pub decode_entries :
      List Entry → (reclaimed : Bool) → Step ResponseError S (List ChannelJob)
  unfolding decode_entry
  decode_entries [] reclaimed = pure []
  decode_entries (e ∷ es) reclaimed = decode_entry e reclaimed >>= λ job.
      decode_entries es reclaimed >>= λ jobs. pure (with_job job jobs)

  -- `consume`: new entries. The reply names only the stream that was asked for.
  unfoldable pub consume : String → ℕ → Step ResponseError S (List ChannelJob)
  unfolding decode_entries
  consume consumer count s =
      let (entries, s') = xreadgroup s consumer count in decode_entries entries false s'

  -- `reclaim`: entries that another consumer left idle.
  unfoldable pub reclaim : String → ℕ → Step ResponseError S (List ChannelJob)
  unfolding decode_entries
  reclaim consumer count s =
      let (entries, s') = xautoclaim s consumer claim_idle_ms count in
      decode_entries entries true s'
