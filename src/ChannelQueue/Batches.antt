-- ===== src/ChannelQueue/Batches.antt =====
-- The loop over the entries of a batch (channel_queue.py, `_decode_entries`).
use mathlib.Core.List.{append-nil, append_assoc}
use customers_manager_hub.ChannelQueue.Accounts.{
  Accounted, Rounded, handed, dropped, ended, other_type, no_event, exhausted,
}
use customers_manager_hub.Prelude.{
  ℕ, ◌≡◌, refl, sym, ap, ◌∙◌, String, Bool, ltb, Option, none, some, List, [], ◌∷◌, arith,
  Bool-cases, Option-cases, inl, inr,
}
use customers_manager_hub.Prelude.Result.{Result, ok, err, Result-cases}
use customers_manager_hub.Prelude.Step.{◌>>=◌, pure, bind_step, bind_error}
use customers_manager_hub.ChannelQueue.{
  Entry, ChannelJob, DeadLetter, ResponseError, Redis, is_job_type, or_empty, attempt_of,
  decode_counted, decode_entry, decode_entries, with_job,
}
use customers_manager_hub.ChannelQueue.Attempts.{
  IsRedis, letter, attempt-dead, attempt-fails, dead_letter-dead,
}

module _ {S : Type 0} (redis : Redis S) (uuid_of : String → Option ℕ) (uuid_text : ℕ → String)
    (idle limit : ℕ) (dead : S → List DeadLetter) (laws : IsRedis redis dead) where
  counted-Rounded :
      (e : Entry) (n : ℕ) (s : S)
      → Rounded redis uuid_of uuid_text idle limit dead e s
          (decode_counted redis uuid_of uuid_text idle limit e n s)
  unfolding decode_counted
  counted-Rounded e n s =
      let raw = or_empty e.event_id in
      let adds = λ (entity reason : String).
        dead_letter-dead redis uuid_of uuid_text idle limit dead laws e.stream_id entity n reason
          s in
      elim (Bool-cases (is_job_type e.job_type)) [
        | inr other ↦
            rw (other, decode_counted)
              (
                letter e.stream_id raw n "malformed_job_type",
                other_type n other,
                adds raw "malformed_job_type",
              )
        | inl typed ↦ elim (Option-cases (uuid_of raw)) [
          | inl unread ↦
              rw (typed, decode_counted, unread)
                (
                  letter e.stream_id raw n "malformed_event_id",
                  no_event n unread,
                  adds raw "malformed_event_id",
                )
          | inr (id, f) ↦ elim (Bool-cases (ltb limit n)) [
            | inl over ↦
                rw (typed, decode_counted, f, over)
                  (
                    letter e.stream_id (uuid_text id) n "delivery_attempts_exhausted",
                    exhausted n id f (ground arith),
                    adds (uuid_text id) "delivery_attempts_exhausted",
                  )
            | inr within ↦
                rw (typed, decode_counted, f, within)
                  (record { typed = typed; stream = refl; event = f; within = ground arith }, refl)
          ]
        ]
      ]

  abbrev with_round :
      Option ChannelJob
      → Result ResponseError (List ChannelJob) × S
      → Result ResponseError (List ChannelJob) × S
  with_round job (r, s') = elim r [ ok jobs ↦ (ok (with_job job jobs), s') | err x ↦ (err x, s') ]

  add_round :
      (e : Entry) (es : List Entry) (reclaimed : Bool) (s s₀ s₁ : S) (job : Option ChannelJob)
      (r : Result ResponseError (List ChannelJob)) (s' : S)
      → dead s₀ ≡ dead s
      → Rounded redis uuid_of uuid_text idle limit dead e s₀ (job, s₁)
      → Accounted redis uuid_of uuid_text idle limit dead es reclaimed s₁ (r, s')
      → Accounted redis uuid_of uuid_text idle limit dead
          (e ∷ es)
          reclaimed
          s
          (with_round job (r, s'))
  add_round e es reclaimed s s₀ s₁ (some j) (ok jobs) s' before (d, same) (letters, added, split) =
      (letters, rw (added, same, before) refl, handed d split)
  add_round e es reclaimed s s₀ s₁ none (ok jobs) s' before (d, drops, same)
        (letters, added, split) =
      (
        d ∷ letters,
        rw (added, same, before) (append_assoc (dead s) (d ∷ []) letters),
        dropped drops split,
      )
  add_round e es reclaimed s s₀ s₁ (some j) (err x) s' before (d, same) stop = record {
    done = e ∷ stop.done;
    entry = stop.entry;
    others = stop.others;
    jobs = j ∷ stop.jobs;
    letters = stop.letters;
    again = stop.again;
    parts = ap (λ l. e ∷ l) stop.parts;
    split = handed d stop.split;
    added = rw (stop.added, same, before) refl;
    bad = stop.bad;
  }
  add_round e es reclaimed s s₀ s₁ none (err x) s' before (d, drops, same) stop = record {
    done = e ∷ stop.done;
    entry = stop.entry;
    others = stop.others;
    jobs = stop.jobs;
    letters = d ∷ stop.letters;
    again = stop.again;
    parts = ap (λ l. e ∷ l) stop.parts;
    split = dropped drops stop.split;
    added = rw (stop.added, same, before) (append_assoc (dead s) (d ∷ []) stop.letters);
    bad = stop.bad;
  }

  round_of :
      (e : Entry) (reclaimed : Bool) (s : S) (n : ℕ)
      → (attempt_of redis uuid_of uuid_text idle limit e.stream_id reclaimed s).0 ≡ ok n
      → let s₀ = (attempt_of redis uuid_of uuid_text idle limit e.stream_id reclaimed s).1 in
        let (job, s₁) = decode_counted redis uuid_of uuid_text idle limit e n s₀ in
        decode_entry redis uuid_of uuid_text idle limit e reclaimed s ≡ (ok job, s₁)
  unfolding decode_entry
  round_of e reclaimed s n f = rw (decode_entry, ◌>>=◌, f) refl

  no_round :
      (e : Entry) (reclaimed : Bool) (s : S) (x : ResponseError)
      → (attempt_of redis uuid_of uuid_text idle limit e.stream_id reclaimed s).0 ≡ err x
      → decode_entry redis uuid_of uuid_text idle limit e reclaimed s
        ≡ (err x, (attempt_of redis uuid_of uuid_text idle limit e.stream_id reclaimed s).1)
  unfolding decode_entry
  no_round e reclaimed s x f = rw (decode_entry, ◌>>=◌, f) refl

  no_entries :
      (reclaimed : Bool) (s : S)
      → decode_entries redis uuid_of uuid_text idle limit [] reclaimed s ≡ (ok [], s)
  unfolding decode_entries
  no_entries reclaimed s = refl

  next_round :
      (e : Entry) (es : List Entry) (reclaimed : Bool) (s s₁ : S) (job : Option ChannelJob)
      → decode_entry redis uuid_of uuid_text idle limit e reclaimed s ≡ (ok job, s₁)
      → decode_entries redis uuid_of uuid_text idle limit (e ∷ es) reclaimed s
        ≡ with_round job (decode_entries redis uuid_of uuid_text idle limit es reclaimed s₁)
  unfolding decode_entries
  next_round e es reclaimed s s₁ job f =
      bind_step (decode_entry redis uuid_of uuid_text idle limit e reclaimed)
        (λ job. decode_entries redis uuid_of uuid_text idle limit es reclaimed >>= λ jobs.
          pure (with_job job jobs))
        s job s₁ f

  last_round :
      (e : Entry) (es : List Entry) (reclaimed : Bool) (s s₁ : S) (x : ResponseError)
      → decode_entry redis uuid_of uuid_text idle limit e reclaimed s ≡ (err x, s₁)
      → decode_entries redis uuid_of uuid_text idle limit (e ∷ es) reclaimed s ≡ (err x, s₁)
  unfolding decode_entries
  last_round e es reclaimed s s₁ x f =
      bind_error (decode_entry redis uuid_of uuid_text idle limit e reclaimed)
        (λ job. decode_entries redis uuid_of uuid_text idle limit es reclaimed >>= λ jobs.
          pure (with_job job jobs))
        s x s₁ f

  -- Where Redis does what its documentation says, each entry of a batch becomes a job or a dead
  -- letter, in the order of the entries, and no other dead letter is added. A job carries the
  -- stream id and the event of its entry, which is well formed, and an attempt within the limit;
  -- a dead letter carries the stream id of its entry and a reason that is true of the entry or of
  -- its attempts. Only a batch that is claimed again can fail: then the count of one of its
  -- entries is not a number, and the entries before this one became jobs and dead letters in the
  -- same way.
  pub none_lost :
      (es : List Entry) (reclaimed : Bool) (s : S)
      → Accounted redis uuid_of uuid_text idle limit dead es reclaimed s
          (decode_entries redis uuid_of uuid_text idle limit es reclaimed s)
  none_lost [] reclaimed s = rw (no_entries reclaimed s) ([], sym (append-nil (dead s)), ended)
  none_lost (e ∷ es) reclaimed s =
      let (a, s₀) = attempt_of redis uuid_of uuid_text idle limit e.stream_id reclaimed s in
      let before =
        attempt-dead redis uuid_of uuid_text idle limit dead laws e.stream_id reclaimed s in
      elim (Result-cases
        (attempt_of redis uuid_of uuid_text idle limit e.stream_id reclaimed s).0) [
          | inl (n, f) ↦
              let (job, s₁) = decode_counted redis uuid_of uuid_text idle limit e n s₀ in
              let rest = decode_entries redis uuid_of uuid_text idle limit es reclaimed s₁ in
              rw (next_round e es reclaimed s s₁ job (round_of e reclaimed s n f)) (
                add_round e es reclaimed s s₀ s₁ job rest.0 rest.1 before (counted-Rounded e n s₀)
                  (none_lost es reclaimed s₁))
          | inr (x, f) ↦
              let (again, bad) =
                attempt-fails redis uuid_of uuid_text idle limit dead laws e.stream_id reclaimed s x
                  f in
              rw (last_round e es reclaimed s s₀ x (no_round e reclaimed s x f)) (record {
                done = [];
                entry = e;
                others = es;
                jobs = [];
                letters = [];
                again = again;
                parts = refl;
                split = ended;
                added = before ∙ sym (append-nil (dead s));
                bad = bad;
              })
        ]
