-- ===== src/Cli/Watch.antt =====
-- `run_watch_loop` of crates/cli/src/main.rs: the tailer and the ingestion, round by round. What ends the
-- wait of a round is in `Round`, with what the operating system answers to the tailer and the time that
-- `Utc::now` has at each line. The printed texts are not modelled.
use logdive.Prelude.{
  ◌+◌, Bool, List, Option, [], false, if◌then◌else◌, leb, none, not, some, suc, ◌||◌, ℕ, ◌∷◌,
}
use logdive.Follow.Tailer.{
  Answers, FileTailer, OpenAnswer, Outcome, open_tailer, read_new_lines, IoError,
}
use logdive.Cli.Ingest.{IngestArgs, IngestError, Ingested, Progress, ingest_lines}
use logdive.Entry.{JsonValue, Fields}
use logdive.Prelude.Result.{Result, err, ok, out_of_fuel}
use logdive.Indexer.Batch.{Sqlite, no_stats}
use logdive.Indexer.Table.{Table}
use logdive.Bytes.{Bytes}

-- The stop flag is set when the loop looks at it, an event, no event within a second, or the channel is
-- disconnected.
pub data Round : Type 0 where
  interrupted : Round
  event : Answers → (ℕ → Bytes) → Round
  timeout : Answers → (ℕ → Bytes) → Round
  disconnected : Round

pub data WatchError : Type 0 where
  tail_failed : WatchError
  ingest_failed : IngestError → WatchError
  setup_failed : WatchError

-- How far the loop got: it returned, or it waits for the next round.
pub data LoopEnd : Type 0 where
  finished waiting : LoopEnd

pub record Watching : Type 0 where
  pub tailer : FileTailer
  pub progress : Progress
  pub event_count : ℕ

abbrev pub Watched : Type 0 → Type 0
Watched A = Result WatchError A × Watching

abbrev pub watch_then : {A B : Type 0} → Watched A → (A → Watching → Watched B) → Watched B
watch_then (ok a, w) more = more a w
watch_then (err e, w) more = (err e, w)
watch_then (out_of_fuel, w) more = (out_of_fuel, w)

-- The lines, each with its time.
unfoldable pub timed : (ℕ → Bytes) → List Bytes → List (Bytes × Bytes)
timed times [] = []
timed times (line ∷ lines) = (line, times 0) ∷ timed (λ n. times (suc n)) lines

-- `tailer.read_new_lines()?`
unfoldable pub tail : Outcome (List Bytes) → Watching → Watched (List Bytes)
tail (ok lines, t) w = (ok lines, record w { tailer = t })
tail (err _, t) w = (err tail_failed, record w { tailer = t })
tail (out_of_fuel, t) w = (out_of_fuel, record w { tailer = t })

-- `ingest_lines(…)?`
unfoldable pub ingested : Ingested → Watching → Watched Unit
ingested (ok _, p) w = (ok tt, record w { progress = p })
ingested (err e, p) w = (err (ingest_failed e), record w { progress = p })
ingested (out_of_fuel, p) w = (out_of_fuel, record w { progress = p })

-- The check of `max_events`.
abbrev pub reaches_max : Option ℕ → ℕ → Bool
reaches_max none n = false
reaches_max (some max) n = leb max n

module _ (from_utf8_lossy : Bytes → Bytes) (from_str : Bytes → Option JsonValue)
    (hash : Bytes → Bytes) (to_json : Fields → Bytes) (sqlite : Sqlite) (args : IngestArgs) where
  unfoldable pub ingest_new : (ℕ → Bytes) → List Bytes → Watching → Watched Unit
  unfolding ingested timed
  ingest_new times lines w =
      ingested (ingest_lines from_str hash to_json sqlite args (timed times lines) w.progress) w

  unfoldable pub on_event : Answers → (ℕ → Bytes) → Watching → Watched Unit
  unfolding tail ingest_new
  on_event a times w = watch_then (tail (read_new_lines from_utf8_lossy a w.tailer) w) λ lines w'.
      watch_then (ingest_new times lines w')
        λ _ w''. (ok tt, record w'' { event_count = w''.event_count + 1 })

  -- Lines that came without an event.
  unfoldable pub drain : (ℕ → Bytes) → List Bytes → Watching → Watched Unit
  unfolding ingest_new
  drain times [] w = (ok tt, w)
  drain times (line ∷ lines) w = ingest_new times (line ∷ lines) w

  unfoldable pub on_timeout : Answers → (ℕ → Bytes) → Watching → Watched Unit
  unfolding tail drain
  on_timeout a times w =
      watch_then (tail (read_new_lines from_utf8_lossy a w.tailer) w) (drain times)

  -- The loop over the rounds so far, with `args.max_events`.
  unfoldable pub watch_loop : Option ℕ → List Round → Watching → Watched LoopEnd
  unfolding on_event on_timeout
  watch_loop max_events [] w = (ok waiting, w)
  watch_loop max_events (interrupted ∷ more) w = (ok finished, w)
  watch_loop max_events (disconnected ∷ more) w = (ok finished, w)
  watch_loop max_events (event a times ∷ more) w = watch_then (on_event a times w) λ _ w'.
      if reaches_max max_events w'.event_count
      then (ok finished, w')
      else watch_loop max_events more w'
  watch_loop max_events (timeout a times ∷ more) w =
      watch_then (on_timeout a times w) λ _ w'. watch_loop max_events more w'

-- What the calls before the loop answer: `File::open` and the seek of the tailer, the watcher, its path,
-- the handler of Ctrl-C, and the index with its rows.
pub record Setup : Type 0 where
  pub file_opens : OpenAnswer
  pub seeks : Bool
  pub watcher_created : Bool
  pub watches : Bool
  pub handler_set : Bool
  pub index : Option Table

abbrev pub start_progress : Table → Progress
start_progress t = record { total = no_stats; malformed = 0; batch = []; table = t }

-- Where the loop begins.
unfoldable pub start : FileTailer → Option Table → Result WatchError Watching
start t none = err setup_failed
start t (some rows) = ok (record { tailer = t; progress = start_progress rows; event_count = 0 })

unfoldable pub set_up_with : Setup → Result IoError FileTailer → Result WatchError Watching
unfolding start
set_up_with s (err _) = err tail_failed
set_up_with s out_of_fuel = out_of_fuel
set_up_with s (ok t) =
    if not s.watcher_created || not s.watches || not s.handler_set
    then err setup_failed
    else start t s.index

unfoldable pub set_up : Setup → Result WatchError Watching
unfolding open_tailer set_up_with
set_up s = set_up_with s (open_tailer s.file_opens s.seeks)

module _ (from_utf8_lossy : Bytes → Bytes) (from_str : Bytes → Option JsonValue)
    (hash : Bytes → Bytes) (to_json : Fields → Bytes) (sqlite : Sqlite) (args : IngestArgs) where
  -- The loop's result, with its variables once there are any.
  unfoldable pub watch_from :
      Option ℕ
      → List Round
      → Result WatchError Watching
      → Result WatchError LoopEnd × Option Watching
  unfolding watch_loop
  watch_from max_events rounds (err e) = (err e, none)
  watch_from max_events rounds out_of_fuel = (out_of_fuel, none)
  watch_from max_events rounds (ok w) =
      let (end, w') =
        watch_loop from_utf8_lossy from_str hash to_json sqlite args max_events rounds w in
      (end, some w')

  unfoldable pub run_watch_loop :
      Setup → Option ℕ → List Round → Result WatchError LoopEnd × Option Watching
  unfolding set_up watch_from
  run_watch_loop s max_events rounds = watch_from max_events rounds (set_up s)
