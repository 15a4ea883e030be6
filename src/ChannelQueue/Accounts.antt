-- ===== src/ChannelQueue/Accounts.antt =====
-- What may become of the entries of a batch (channel_queue.py, `_decode_entries`).
use customers_manager_hub.Prelude.{
  ℕ, ◌≤◌, ◌<◌, ◌≡◌, String, Bool, true, false, Option, none, some, List, [], ◌∷◌, ◌++◌,
}
use customers_manager_hub.Prelude.Result.{Result, ok, err}
use customers_manager_hub.ChannelQueue.{
  unreadable, Entry, ChannelJob, DeadLetter, ResponseError, Redis, is_job_type, or_empty,
}
use customers_manager_hub.ChannelQueue.Attempts.{letter}

module _ {S : Type 0} (redis : Redis S) (uuid_of : String → Option ℕ) (uuid_text : ℕ → String)
    (idle limit : ℕ) where
  -- A job carries the stream id and the event of its entry, which is well formed, and has had no more
  -- attempts than the queue allows.
  pub record Delivers (e : Entry) (j : ChannelJob) : Type 0 where
    pub typed : is_job_type e.job_type ≡ true
    pub stream : j.stream_id ≡ e.stream_id
    pub event : uuid_of (or_empty e.event_id) ≡ some j.event_id
    pub within : j.attempt ≤ limit

  -- A dead letter carries the stream id of its entry and the reason: another type of job, an event id
  -- that is none, or more attempts than the queue allows.
  pub data Drops (e : Entry) : DeadLetter → Type 0 where
    other_type :
        (n : ℕ)
        → is_job_type e.job_type ≡ false
        → Drops e (letter e.stream_id (or_empty e.event_id) n "malformed_job_type")
    no_event :
        (n : ℕ)
        → uuid_of (or_empty e.event_id) ≡ none
        → Drops e (letter e.stream_id (or_empty e.event_id) n "malformed_event_id")
    exhausted :
        (n event_id : ℕ)
        → uuid_of (or_empty e.event_id) ≡ some event_id
        → limit < n
        → Drops e (letter e.stream_id (uuid_text event_id) n "delivery_attempts_exhausted")

  -- Each of the entries is a job or a dead letter, in the order of the entries.
  pub data Split : List Entry → List ChannelJob → List DeadLetter → Type 0 where
    ended : Split [] [] []
    handed :
        {e : Entry} {j : ChannelJob} {es : List Entry} {js : List ChannelJob} {ds : List DeadLetter}
        → Delivers e j
        → Split es js ds
        → Split (e ∷ es) (j ∷ js) ds
    dropped :
        {e : Entry} {d : DeadLetter} {es : List Entry} {js : List ChannelJob} {ds : List DeadLetter}
        → Drops e d
        → Split es js ds
        → Split (e ∷ es) js (d ∷ ds)

  module _ (dead : S → List DeadLetter) where
    -- A batch that an error ends: it is one that is claimed again, its entries up to the error are jobs,
    -- which are not returned, or dead letters, and the count of the next entry is not a number.
    pub record Stopped (es : List Entry) (reclaimed : Bool) (s s' : S) : Type 0 where
      pub done : List Entry
      pub entry : Entry
      pub others : List Entry
      pub jobs : List ChannelJob
      pub letters : List DeadLetter
      pub again : reclaimed ≡ true
      pub parts : es ≡ done ++ entry ∷ others
      pub split : Split done jobs letters
      pub added : dead s' ≡ dead s ++ letters
      pub bad : redis.hget s' entry.stream_id ≡ some unreadable

    -- What a batch comes to.
    abbrev pub Accounted :
        List Entry → (reclaimed : Bool) → S → Result ResponseError (List ChannelJob) × S → Type 0
    Accounted es reclaimed s (ok jobs, s') =
        (letters : List DeadLetter) × (dead s' ≡ dead s ++ letters) × Split es jobs letters
    Accounted es reclaimed s (err x, s') = Stopped es reclaimed s s'

    -- What one round comes to.
    abbrev pub Rounded : Entry → S → Option ChannelJob × S → Type 0
    Rounded e s (some j, s') = Delivers e j × (dead s' ≡ dead s)
    Rounded e s (none, s') = (d : DeadLetter) × Drops e d × (dead s' ≡ dead s ++ d ∷ [])
