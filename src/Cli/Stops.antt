-- ===== src/Cli/Stops.antt =====
-- `--max-events` and the end of the watch loop of crates/cli/src/main.rs.
use logdive.Prelude.{
  ◌+◌, ◌<◌, Bool-cases, List, Option, [], arith, if◌then◌else◌, inl, inr, leb, refl, some, ℕ, ◌∷◌,
  ◌≡◌, ◌≤◌,
}
use logdive.Follow.Tailer.{Answers, Outcome}
use logdive.Cli.Ingest.{IngestArgs, Ingested, Progress}
use logdive.Entry.{JsonValue, Fields}
use logdive.Cli.Watch.{
  LoopEnd, Round, WatchError, Watching, disconnected, drain, event, finished, ingested, interrupted,
  on_event, on_timeout, reaches_max, tail, timeout, watch_loop, watch_then, Watched,
}
use logdive.Prelude.Result.{Result, err, ok}
use logdive.Indexer.Batch.{Sqlite}
use logdive.Bytes.{Bytes}
use logdive.Follow.Answers.{IsAnswer, answers_err, answers_ok, read_new_lines-IsAnswer}
use logdive.Cli.Account.{Reaches, ingest_lines-Accounts, reached, stopped}

-- The events among the rounds.
unfoldable pub events_in : List Round → ℕ
events_in [] = 0
events_in (event _ _ ∷ more) = events_in more + 1
events_in (_ ∷ more) = events_in more

-- A step that began at count `c`: a success has added `k` events, a failure none, and it has an end.
data Counts {A : Type 0} (c k : ℕ) : Watched A → Type 0 where
  counted : {a : A} {w : Watching} → w.event_count ≡ c + k → Counts c k (ok a, w)
  broken : {e : WatchError} {w : Watching} → w.event_count ≡ c → Counts c k (err e, w)

Counts-then :
    {A B : Type 0} {c k : ℕ} {r : Watched A} (more : A → Watching → Watched B)
    → Counts c 0 r
    → ((a : A) (w : Watching) → w.event_count ≡ c → Counts c k (more a w))
    → Counts c k (watch_then r more)
Counts-then more (counted {a} {w} h) k = k a w (omega (arith, h))
Counts-then more (broken h) k = broken h

tail-Counts :
    {o : Outcome (List Bytes)} (w : Watching) → IsAnswer o → Counts w.event_count 0 (tail o w)
unfolding tail
tail-Counts w (answers_ok {a = lines}) = counted (omega arith)
tail-Counts w answers_err = broken refl

ingested-Counts :
    {P : Progress → Type 0} {r : Ingested} (w : Watching) {c : ℕ}
    → Reaches P r
    → w.event_count ≡ c
    → Counts c 0 (ingested r w)
unfolding ingested
ingested-Counts w (reached _) h = counted (omega (arith, h))
ingested-Counts w stopped h = broken h

-- How a run of the loop that has an end ends: it returns, or it fails with an error.
pub data IsEnd : Result WatchError LoopEnd → Type 0 where
  returns : IsEnd (ok finished)
  fails_with : (e : WatchError) → IsEnd (err e)

-- The loop stopped, and what it counted stays within the maximum.
record Stopped (max : ℕ) (must : Type 0) (r : Watched LoopEnd) : Type 0 where
  within : r.1.event_count ≤ max
  stops : must → IsEnd r.0

module _ (from_utf8_lossy : Bytes → Bytes) (from_str : Bytes → Option JsonValue)
    (hash : Bytes → Bytes) (to_json : Fields → Bytes) (sqlite : Sqlite) (args : IngestArgs) where
  on_event-Counts :
      (a : Answers) (times : ℕ → Bytes) (w : Watching)
      → Counts w.event_count 1
          (on_event from_utf8_lossy from_str hash to_json sqlite args a times w)
  unfolding on_event
  on_event-Counts a times w =
      Counts-then _ (tail-Counts w (read_new_lines-IsAnswer from_utf8_lossy a w.tailer))
        λ lines w' h.
          Counts-then _
            (ingested-Counts w' (ingest_lines-Accounts from_str hash to_json sqlite args _ _) h)
            λ _ w'' h'.
              counted {w = record w'' { event_count = w''.event_count + 1 }} (omega (arith, h'))

  drain-Counts :
      (times : ℕ → Bytes) (lines : List Bytes) (w : Watching) {c : ℕ}
      → w.event_count ≡ c
      → Counts c 0 (drain from_utf8_lossy from_str hash to_json sqlite args times lines w)
  unfolding drain
  drain-Counts times [] w h = counted (omega (arith, h))
  drain-Counts times (line ∷ lines) w h =
      ingested-Counts w (ingest_lines-Accounts from_str hash to_json sqlite args _ _) h

  on_timeout-Counts :
      (a : Answers) (times : ℕ → Bytes) (w : Watching)
      → Counts w.event_count 0
          (on_timeout from_utf8_lossy from_str hash to_json sqlite args a times w)
  unfolding on_timeout
  on_timeout-Counts a times w =
      Counts-then _ (tail-Counts w (read_new_lines-IsAnswer from_utf8_lossy a w.tailer))
        λ lines w' h. drain-Counts times lines w' h

  abbrev limited : ℕ → List Round → Watching → Watched LoopEnd
  limited max = watch_loop from_utf8_lossy from_str hash to_json sqlite args (some max)

  Stopped-event :
      (max : ℕ) (n : ℕ) (more : List Round) (c : ℕ) (r : Watched Unit)
      → c < max
      → Counts c 1 r
      → ((w : Watching)
          → w.event_count < max
          → Stopped max (max ≤ w.event_count + n) (limited max more w))
      → Stopped max (max ≤ c + (n + 1)) (
          watch_then r λ _ w.
            if reaches_max (some max) w.event_count then (ok finished, w) else limited max more w)
  Stopped-event max n more c _ below (counted {w} h) later =
      elim (Bool-cases (leb max w.event_count)) [
        | inl full ↦ rw full (record { within = omega (arith, h); stops = λ _. returns })
        | inr room ↦ rw room (
            let rest = later w (ground arith) in
            record { within = rest.within; stops = λ m. rest.stops (omega (arith, h)) })
      ]
  Stopped-event max n more c _ below (broken {e} h) later = record {
    within = omega (arith, h);
    stops = λ _. fails_with e;
  }

  Stopped-timeout :
      (max : ℕ) (n : ℕ) (more : List Round) (c : ℕ) (r : Watched Unit)
      → c < max
      → Counts c 0 r
      → ((w : Watching)
          → w.event_count < max
          → Stopped max (max ≤ w.event_count + n) (limited max more w))
      → Stopped max (max ≤ c + n) (watch_then r (λ _ w. limited max more w))
  Stopped-timeout max n more c _ below (counted {w} h) later =
      let rest = later w (omega (arith, h)) in
      record { within = rest.within; stops = λ m. rest.stops (omega (arith, h)) }
  Stopped-timeout max n more c _ below (broken {e} h) later = record {
    within = omega (arith, h);
    stops = λ _. fails_with e;
  }

  watch_loop-Stopped :
      (max : ℕ) (rounds : List Round) (w : Watching)
      → w.event_count < max
      → Stopped max (max ≤ w.event_count + events_in rounds) (limited max rounds w)
  unfolding watch_loop events_in
  watch_loop-Stopped max [] w h = record { within = omega arith; stops = λ m. absurd (omega arith) }
  watch_loop-Stopped max (interrupted ∷ more) w h = record {
    within = omega arith;
    stops = λ _. returns;
  }
  watch_loop-Stopped max (disconnected ∷ more) w h = record {
    within = omega arith;
    stops = λ _. returns;
  }
  watch_loop-Stopped max (event a times ∷ more) w h =
      Stopped-event max (events_in more) more w.event_count _ h (on_event-Counts a times w)
        (watch_loop-Stopped max more)
  watch_loop-Stopped max (timeout a times ∷ more) w h =
      Stopped-timeout max (events_in more) more w.event_count _ h (on_timeout-Counts a times w)
        (watch_loop-Stopped max more)

  -- With `--max-events` above the count so far, and rounds among which there are enough events to
  -- reach it, the loop has an end: it returns, or it fails with an error, and it has counted no more
  -- events than that.
  pub watch_loop-stops :
      (max : ℕ) (rounds : List Round) (w : Watching)
      → w.event_count < max
      → max ≤ w.event_count + events_in rounds
      → let (ending, w') =
          watch_loop from_utf8_lossy from_str hash to_json sqlite args (some max) rounds w in
        (w'.event_count ≤ max) × IsEnd ending
  watch_loop-stops max rounds w h m =
      let s = watch_loop-Stopped max rounds w h in (s.within, s.stops m)
