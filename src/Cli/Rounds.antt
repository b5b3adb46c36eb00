-- ===== src/Cli/Rounds.antt =====
-- One round of the watch loop of crates/cli/src/main.rs that reads, when the read goes well.
use logdive.Prelude.{List, Option, [], refl, ℕ, ◌∷◌, ◌≡◌}
use logdive.Cli.Account.{Accounts, Reaches-ok, ingest_lines-Accounts}
use logdive.Follow.Tailer.{Answers, read_new_lines}
use logdive.Cli.Ingest.{IngestArgs, ingest_lines}
use logdive.Cli.Watched.{
  Ingests-nothing, Steps, Steps-counted, dark_count, dark_lines-timed, ingested-ok, tail-ok,
}
use logdive.Indexer.Again.{IsReliable}
use logdive.Entry.{JsonValue, Fields}
use logdive.Cli.Watch.{Watching, drain, ingest_new, on_event, on_timeout, timed}
use logdive.Indexer.Batch.{Sqlite}
use logdive.Prelude.Result.{ok}
use logdive.Cli.Succeeds.{ingest_lines-ok}
use mathlib.Core.Path.{subst}
use logdive.Bytes.{Bytes}

module _ (from_utf8_lossy : Bytes → Bytes) (from_str : Bytes → Option JsonValue)
    (hash : Bytes → Bytes) (to_json : Fields → Bytes) (sqlite : Sqlite) (args : IngestArgs)
    (reliable : IsReliable sqlite) where
  ingest_new-Steps :
      (times : ℕ → Bytes) (lines : List Bytes) (w : Watching)
      → w.progress.batch ≡ []
      → Steps tt w.tailer
          (dark_count lines)
          w.progress
          (ingest_new from_utf8_lossy from_str hash to_json sqlite args times lines w)
  unfolding ingest_new
  ingest_new-Steps times lines w h =
      let call = ingest_lines from_str hash to_json sqlite args (timed times lines) w.progress in
      let good =
        ingest_lines-ok from_str hash to_json sqlite args reliable (timed times lines) w.progress in
      let (counted, empty) =
        Reaches-ok
          (ingest_lines-Accounts from_str hash to_json sqlite args (timed times lines) w.progress)
          good in
      rw (ingested-ok call w good) (record {
        is_ok = refl;
        tailer_is = refl;
        ingests = record {
          accounts =
              subst (λ n. Accounts w.progress n call.1) (dark_lines-timed times lines) counted;
          no_batch = empty;
        };
      })

  pub on_event-Steps :
      (a : Answers) (times : ℕ → Bytes) (w : Watching) {lines : List Bytes}
      → w.progress.batch ≡ []
      → (read_new_lines from_utf8_lossy a w.tailer).0 ≡ ok lines
      → Steps tt
          (read_new_lines from_utf8_lossy a w.tailer).1
          (dark_count lines)
          w.progress
          (on_event from_utf8_lossy from_str hash to_json sqlite args a times w)
  unfolding on_event
  on_event-Steps a times w {lines} h e =
      let t = (read_new_lines from_utf8_lossy a w.tailer).1 in
      rw (tail-ok (read_new_lines from_utf8_lossy a w.tailer) w e) (
        Steps-counted t (dark_count lines) w.progress _
          (ingest_new-Steps times lines (record w { tailer = t }) h))

  drain-Steps :
      (times : ℕ → Bytes) (lines : List Bytes) (w : Watching)
      → w.progress.batch ≡ []
      → Steps tt w.tailer
          (dark_count lines)
          w.progress
          (drain from_utf8_lossy from_str hash to_json sqlite args times lines w)
  unfolding drain dark_count
  drain-Steps times [] w h = record {
    is_ok = refl;
    tailer_is = refl;
    ingests = Ingests-nothing w.progress h;
  }
  drain-Steps times (line ∷ lines) w h = ingest_new-Steps times (line ∷ lines) w h

  pub on_timeout-Steps :
      (a : Answers) (times : ℕ → Bytes) (w : Watching) {lines : List Bytes}
      → w.progress.batch ≡ []
      → (read_new_lines from_utf8_lossy a w.tailer).0 ≡ ok lines
      → Steps tt
          (read_new_lines from_utf8_lossy a w.tailer).1
          (dark_count lines)
          w.progress
          (on_timeout from_utf8_lossy from_str hash to_json sqlite args a times w)
  unfolding on_timeout
  on_timeout-Steps a times w {lines} h e =
      let t = (read_new_lines from_utf8_lossy a w.tailer).1 in
      rw (tail-ok (read_new_lines from_utf8_lossy a w.tailer) w e)
        (drain-Steps times lines (record w { tailer = t }) h)
