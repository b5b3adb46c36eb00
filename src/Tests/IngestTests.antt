-- ===== src/Tests/IngestTests.antt =====
-- Lines ingested by crates/cli/src/main.rs.
use logdive.Prelude.{List, [], refl, some, true, ◌∷◌, ◌≡◌, false, none}
use logdive.Tests.FollowTests.{plain}
use logdive.Bytes.{Bytes, codes, equals}
use logdive.Cli.Ingest.{IngestArgs, LineRead, Progress, ingest_lines, ingest_reader, line_read}
use logdive.Indexer.Table.{has_hash}
use logdive.Indexer.Batch.{insert_batch, no_stats}
use logdive.Parsers.Format.{logfmt, parse_line}
use logdive.Tests.IndexerTests.{no_json, same_hash, working, working-IsReliable}
use logdive.Tests.ParserTests.{object_of}
use logdive.Prelude.Result.{ok, err}
use logdive.Parsers.Logfmt.Line.{parse_logfmt}
use logdive.Entry.{with_tag}
use logdive.Cli.IngestCommand.{IngestWorld, SourceArgs, handle_ingest, no_such_file}
use logdive.Cli.Watch.{Setup, finished}
use logdive.Cli.Summary.{Summarizes, handle_ingest-Summarizes}
use logdive.Cli.Batching.{ingest_reader-ingest_lines, reads}
use logdive.Follow.Tailer.{opened}

abbrev pub logfmt_args : IngestArgs
logfmt_args = record { format = logfmt; timestamp_now = true; tag = some (codes "t") }

abbrev empty_index : Progress
empty_index = record { total = no_stats; malformed = 0; batch = []; table = [] }

abbrev input_lines : List LineRead
input_lines =
    line_read (codes "a=1") (codes "2026")
    ∷ line_read (codes " ") (codes "2026")
    ∷ line_read (codes "???") (codes "2026")
    ∷ line_read (codes "a=1") (codes "2027")
    ∷ []

abbrev split_input : List (Bytes × Bytes)
split_input = (codes "a=1", codes "2026") ∷ (codes "x=\"", codes "2026") ∷ []

ingest_input :
    (ingest_reader object_of same_hash no_json working logfmt_args input_lines empty_index).0
    ≡ ok tt
unfolding ingest_reader parse_line parse_logfmt insert_batch equals has_hash with_tag
ingest_input = refl

ingest_split :
    (ingest_lines object_of same_hash no_json working logfmt_args split_input empty_index).0 ≡ ok tt
unfolding ingest_lines parse_line parse_logfmt insert_batch equals has_hash with_tag
ingest_split = refl

ingest_reader-ingest_lines_example :
    ingest_reader object_of same_hash no_json working logfmt_args (reads split_input) empty_index
    ≡ ingest_lines object_of same_hash no_json working logfmt_args split_input empty_index
ingest_reader-ingest_lines_example =
    ingest_reader-ingest_lines object_of same_hash no_json working logfmt_args working-IsReliable
      split_input empty_index

abbrev pub good_setup : Setup
good_setup = record {
  file_opens = opened (record { dev = 1; ino = 40; len = 3 });
  seeks = true;
  watcher_created = true;
  watches = true;
  handler_set = true;
  index = some [];
}

abbrev from_stdin : SourceArgs
from_stdin = record { file = none; follow = false; max_events = none }

abbrev missing_file : SourceArgs
missing_file = record { file = some (codes "app.log"); follow = false; max_events = none }

abbrev stdin_world : IngestWorld
stdin_world = record {
  index = some [];
  opened_file = none;
  stdin = input_lines;
  setup = good_setup;
  rounds = [];
}

stdin_ingested :
    (handle_ingest plain object_of same_hash no_json working logfmt_args from_stdin stdin_world).0
    ≡ ok finished
unfolding handle_ingest ingest_reader parse_line parse_logfmt insert_batch equals has_hash with_tag
stdin_ingested = refl

no_file :
    (handle_ingest plain object_of same_hash no_json working logfmt_args missing_file stdin_world).0
    ≡ err (no_such_file (codes "app.log"))
unfolding handle_ingest
no_file = refl

handle_ingest-Summarizes_example :
    Summarizes from_stdin stdin_world
      (handle_ingest plain object_of same_hash no_json working logfmt_args from_stdin stdin_world).1
handle_ingest-Summarizes_example =
    handle_ingest-Summarizes plain object_of same_hash no_json working logfmt_args from_stdin
      stdin_world refl stdin_ingested
