-- ===== src/Cli/Summary.antt =====
-- What the summary of `handle_ingest` in crates/cli/src/main.rs says of the lines.
use logdive.Prelude.{
  ◌+◌, List, Option, arith, false, if◌then◌else◌, length, none, refl, some, ◌≡◌, Bool, true,
}
use logdive.Bytes.{Bytes}
use logdive.Cli.IngestCommand.{
  CommandError, IngestWorld, SourceArgs, ended, handle_ingest, ingest_once, lines_from, read_into,
  Commanded,
}
use logdive.Entry.{Fields, JsonValue}
use logdive.Cli.Ingest.{IngestArgs, Ingested, LineRead, Progress, ingest_reader}
use logdive.Prelude.Result.{Result, err, ok, out_of_fuel}
use logdive.Indexer.Batch.{Sqlite}
use logdive.Indexer.Table.{Table}
use logdive.Cli.Watch.{finished, start_progress}
use logdive.Cli.Account.{ingest_reader-accounts, lines_of}
use logdive.Indexer.Counts.{total_of}
use logdive.Indexer.Sequential.{good}

-- The four counts, and what they say of the index.
pub record IsSummary (lines : List LineRead) (rows : Table) (p : Progress) : Type 0 where
  pub counts : total_of p.total + p.malformed ≡ lines_of lines
  pub adds : length p.table ≡ length rows + p.total.inserted

-- The command read these lines into an index with these rows, and its summary is true.
pub record Summarizes (source : SourceArgs) (w : IngestWorld) (r : Option Progress) : Type 0 where
  pub lines : List LineRead
  pub rows : Table
  pub progress : Progress
  pub read : lines_from source.file w ≡ ok lines
  pub found : w.index ≡ some rows
  pub is_end : r ≡ some progress
  pub summary : IsSummary lines rows progress

ended-ok : (r : Ingested) → (ended r).0 ≡ ok finished → (r.0 ≡ ok tt) × ((ended r).1 ≡ some r.1)
unfolding ended
ended-ok (ok _, p) h = (refl, refl)
ended-ok (err e, p) h = cc h
ended-ok (out_of_fuel, p) h = cc h

module _ (from_utf8_lossy : Bytes → Bytes) (from_str : Bytes → Option JsonValue)
    (hash : Bytes → Bytes) (to_json : Fields → Bytes) (sqlite : Sqlite) (args : IngestArgs) where
  abbrev reading : List LineRead → Table → Ingested
  reading lines rows = ingest_reader from_str hash to_json sqlite args lines (start_progress rows)

  reading-IsSummary :
      (lines : List LineRead) (rows : Table)
      → (reading lines rows).0 ≡ ok tt
      → IsSummary lines rows (reading lines rows).1
  reading-IsSummary lines rows h =
      let (counts, adds) =
        ingest_reader-accounts from_str hash to_json sqlite args lines (start_progress rows) h in
      record { counts = omega (arith, counts); adds = omega (arith, adds) }

  read_into-Summarizes :
      (source : SourceArgs) (w : IngestWorld) (rows : Table)
      (lines : Result CommandError (List LineRead))
      → w.index ≡ some rows
      → lines_from source.file w ≡ lines
      → (read_into from_utf8_lossy from_str hash to_json sqlite args lines (start_progress rows)).0
        ≡ ok finished
      → Summarizes source w
          (read_into from_utf8_lossy from_str hash to_json sqlite args lines
            (start_progress rows)).1
  unfolding read_into
  read_into-Summarizes source w rows (ok lines) found read h =
      let (good, last) = ended-ok (reading lines rows) h in
      record {
        lines = lines;
        rows = rows;
        progress = (reading lines rows).1;
        read = read;
        found = found;
        is_end = last;
        summary = reading-IsSummary lines rows good;
      }
  read_into-Summarizes source w rows (err e) found read h = cc h
  read_into-Summarizes source w rows out_of_fuel found read h = cc h

  ingest_once-Summarizes :
      (source : SourceArgs) (w : IngestWorld) (index : Option Table)
      → w.index ≡ index
      → (ingest_once from_utf8_lossy from_str hash to_json sqlite args source.file index w).0
        ≡ ok finished
      → Summarizes source w
          (ingest_once from_utf8_lossy from_str hash to_json sqlite args source.file index w).1
  unfolding ingest_once
  ingest_once-Summarizes source w none found h = cc h
  ingest_once-Summarizes source w (some rows) found h =
      read_into-Summarizes source w rows (lines_from source.file w) found refl h

  chosen-Summarizes :
      (source : SourceArgs) (w : IngestWorld) (follows : Bool) (watching : Commanded)
      → follows ≡ false
      → let r =
          if follows
          then watching
          else ingest_once from_utf8_lossy from_str hash to_json sqlite args source.file w.index
              w in
        r.0 ≡ ok finished → Summarizes source w r.1
  chosen-Summarizes source w true watching once h = cc once
  chosen-Summarizes source w false watching once h = ingest_once-Summarizes source w w.index refl h

  -- If `handle_ingest` without --follow finishes, it opened an index and read a file or stdin, the
  -- counts of its summary add up to the number of those lines that are not blank, and the table has
  -- grown by the inserted ones.
  pub handle_ingest-Summarizes :
      (source : SourceArgs) (w : IngestWorld)
      → source.follow ≡ false
      → (handle_ingest from_utf8_lossy from_str hash to_json sqlite args source w).0 ≡ ok finished
      → Summarizes source w
          (handle_ingest from_utf8_lossy from_str hash to_json sqlite args source w).1
  unfolding handle_ingest
  handle_ingest-Summarizes source w once h = chosen-Summarizes source w source.follow _ once h
