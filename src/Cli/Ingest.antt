-- ===== src/Cli/Ingest.antt =====
-- `ingest_reader` and `ingest_lines` of crates/cli/src/main.rs. A line comes with the time, as text, that
-- `Utc::now` has when the line is handled; the progress shown on a terminal is not modelled.
use logdive.Prelude.{
  ◌+◌, ◌++◌, Bool, List, Option, [], if◌then◌else◌, leb, length, none, some, ℕ, ◌∷◌,
}
use logdive.Bytes.{Bytes}
use logdive.Entry.{Fields, JsonValue, LogEntry, with_tag}
use logdive.Indexer.Batch.{InsertStats, Sqlite, Stored, extend, insert_batch}
use logdive.Parsers.Blank.{LineResult}
use logdive.Parsers.Format.{LogFormat, parse_line}
use logdive.Prelude.Result.{Result, err, ok, out_of_fuel}
use logdive.Indexer.Table.{Table}
use logdive.Bytes.White.{is_blank}

-- The fields that the ingestion of lines reads.
pub record IngestArgs : Type 0 where
  pub format : LogFormat
  pub timestamp_now : Bool
  pub tag : Option Bytes

pub data IngestError : Type 0 where
  read_failed insert_failed : IngestError

-- What `reader.lines()` gives.
pub data LineRead : Type 0 where
  line_read : Bytes → Bytes → LineRead
  line_failed : LineRead

pub record Progress : Type 0 where
  pub total : InsertStats
  pub malformed : ℕ
  pub batch : List LogEntry
  pub table : Table

abbrev pub Ingested : Type 0
Ingested = Result IngestError Unit × Progress

abbrev pub go_on_with : Ingested → (Progress → Ingested) → Ingested
go_on_with (ok _, p) more = more p
go_on_with (err e, p) more = (err e, p)
go_on_with (out_of_fuel, p) more = (out_of_fuel, p)

abbrev pub reader_batch : ℕ
reader_batch = 1000

-- `entry.timestamp.is_none() && args.timestamp_now`
unfoldable pub stamp : Bool → Bytes → Option Bytes → Option Bytes
stamp timestamp_now now (some ts) = some ts
stamp timestamp_now now none = if timestamp_now then some now else none

unfoldable pub prepare : IngestArgs → Bytes → LogEntry → LogEntry
unfolding stamp
prepare args now e =
    with_tag args.tag (record e { timestamp = stamp args.timestamp_now now e.timestamp })

-- The parse of a line, with the progress that it makes: an entry for the batch, with what comes `after` it,
-- or a malformed line.
unfoldable pub take_entry :
    IngestArgs → (Progress → Ingested) → Bytes → LineResult LogEntry → Progress → Ingested
unfolding prepare
take_entry args after now (ok e) p = after (record p { batch = p.batch ++ prepare args now e ∷ [] })
take_entry args after now (err _) p = (ok tt, record p { malformed = p.malformed + 1 })
take_entry args after now out_of_fuel p = (out_of_fuel, p)

-- `accumulate` after `insert_batch`, and `batch.clear()`.
unfoldable pub accumulate : Stored → Progress → Ingested
accumulate (ok stats, t) p =
    (ok tt, record p { total = extend p.total stats; batch = []; table = t })
accumulate (err _, t) p = (err insert_failed, record p { table = t })
accumulate (out_of_fuel, t) p = (out_of_fuel, record p { table = t })

module _ (from_str : Bytes → Option JsonValue) (hash : Bytes → Bytes) (to_json : Fields → Bytes)
    (sqlite : Sqlite) (args : IngestArgs) where
  unfoldable pub flush : Progress → Ingested
  unfolding accumulate
  flush p = accumulate (insert_batch hash to_json sqlite p.batch p.table) p

  unfoldable pub flush_full : Progress → Ingested
  unfolding flush
  flush_full p = if leb reader_batch (length p.batch) then flush p else (ok tt, p)

  unfoldable pub flush_rest : List LogEntry → Progress → Ingested
  unfolding flush
  flush_rest [] p = (ok tt, p)
  flush_rest (_ ∷ _) p = flush p

  unfoldable pub take_line : (Progress → Ingested) → Bytes → Bytes → Progress → Ingested
  unfolding take_entry
  take_line after line now p =
      if is_blank line
      then (ok tt, p)
      else take_entry args after now (parse_line from_str args.format line) p

  unfoldable pub ingest_reader : List LineRead → Progress → Ingested
  unfolding take_line flush_full flush_rest
  ingest_reader [] p = flush_rest p.batch p
  ingest_reader (line_failed ∷ rest) p = (err read_failed, p)
  ingest_reader (line_read line now ∷ rest) p =
      go_on_with (take_line flush_full line now p) (λ q. ingest_reader rest q)

  -- The loop of `ingest_lines` over the lines, and the insertion behind it.
  unfoldable pub ingest_lines : List (Bytes × Bytes) → Progress → Ingested
  unfolding take_line flush_rest
  ingest_lines [] p = flush_rest p.batch p
  ingest_lines ((line, now) ∷ rest) p =
      go_on_with (take_line (λ q. (ok tt, q)) line now p) (λ q. ingest_lines rest q)
