-- ===== src/Cli/IngestCommand.antt =====
-- `handle_ingest` of crates/cli/src/main.rs: the choice between the watch loop, a file and stdin. What the
-- system answers is in `IngestWorld`.
use logdive.Prelude.{◌++◌, Bool, List, Option, if◌then◌else◌, map_option, none, some, ℕ}
use logdive.Bytes.{Bytes, codes}
use logdive.Entry.{Fields, JsonValue}
use logdive.Cli.Ingest.{IngestArgs, IngestError, Ingested, LineRead, Progress, ingest_reader}
use logdive.Parsers.Format.{LogFormat, from_name}
use logdive.Cli.Watch.{
  LoopEnd, Round, Setup, WatchError, finished, run_watch_loop, start_progress, Watching,
}
use logdive.Prelude.Result.{Result, err, ok, out_of_fuel}
use logdive.Indexer.Batch.{Sqlite}
use logdive.Indexer.Table.{Table}

-- The other fields of `IngestArgs`.
pub record SourceArgs : Type 0 where
  pub file : Option Bytes
  pub follow : Bool
  pub max_events : Option ℕ

pub data CommandError : Type 0 where
  watch_error : WatchError → CommandError
  no_index : CommandError
  no_such_file : Bytes → CommandError
  ingest_error : IngestError → CommandError
  expect_failed : CommandError

-- The index with its rows, `File::open` with the lines behind it, and stdin; for `--follow`, what the watch
-- loop is told.
pub record IngestWorld : Type 0 where
  pub index : Option Table
  pub opened_file : Option (List LineRead)
  pub stdin : List LineRead
  pub setup : Setup
  pub rounds : List Round

-- How far the command got, with the counts of its summary and the table.
abbrev pub Commanded : Type 0
Commanded = Result CommandError LoopEnd × Option Progress

-- `parse_log_format`, with the text `{:?}` of a string.
unfoldable pub parse_log_format : (Bytes → Bytes) → Bytes → Result Bytes LogFormat
unfolding from_name
parse_log_format debug s = elim (from_name s) [
  | some format ↦ ok format
  | none ↦
      err (codes "unknown format " ++ (debug s ++ codes "; expected one of: json, logfmt, plain"))
]

unfoldable pub lines_from : Option Bytes → IngestWorld → Result CommandError (List LineRead)
lines_from none w = ok w.stdin
lines_from (some path) w = elim w.opened_file [
  | some lines ↦ ok lines
  | none ↦ err (no_such_file path)
]

unfoldable pub ended : Ingested → Commanded
ended (ok _, p) = (ok finished, some p)
ended (err e, p) = (err (ingest_error e), some p)
ended (out_of_fuel, p) = (out_of_fuel, some p)

unfoldable pub watch_ended : Result WatchError LoopEnd × Option Watching → Commanded
watch_ended (ok end, w) = (ok end, map_option (λ (x : Watching). x.progress) w)
watch_ended (err e, w) = (err (watch_error e), map_option (λ (x : Watching). x.progress) w)
watch_ended (out_of_fuel, w) = (out_of_fuel, map_option (λ (x : Watching). x.progress) w)

module _ (from_utf8_lossy : Bytes → Bytes) (from_str : Bytes → Option JsonValue)
    (hash : Bytes → Bytes) (to_json : Fields → Bytes) (sqlite : Sqlite) (args : IngestArgs) where
  unfoldable pub read_into : Result CommandError (List LineRead) → Progress → Commanded
  unfolding ended ingest_reader
  read_into (ok lines) p = ended (ingest_reader from_str hash to_json sqlite args lines p)
  read_into (err e) p = (err e, some p)
  read_into out_of_fuel p = (out_of_fuel, some p)

  -- One-shot ingestion.
  unfoldable pub ingest_once : Option Bytes → Option Table → IngestWorld → Commanded
  unfolding read_into lines_from
  ingest_once file none w = (err no_index, none)
  ingest_once file (some rows) w = read_into (lines_from file w) (start_progress rows)

  unfoldable pub follow_file : Option Bytes → Option ℕ → IngestWorld → Commanded
  unfolding watch_ended run_watch_loop
  follow_file none max_events w = (err expect_failed, none)
  follow_file (some path) max_events w =
      watch_ended (
        run_watch_loop from_utf8_lossy from_str hash to_json sqlite args w.setup max_events
          w.rounds)

  unfoldable pub handle_ingest : SourceArgs → IngestWorld → Commanded
  unfolding ingest_once follow_file
  handle_ingest source w =
      if source.follow
      then follow_file source.file source.max_events w
      else ingest_once source.file w.index w
