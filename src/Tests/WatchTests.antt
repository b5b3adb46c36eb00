-- ===== src/Tests/WatchTests.antt =====
-- The watch loop of crates/cli/src/main.rs over a few rounds.
use logdive.Prelude.{◌+◌, List, [], arith, none, refl, some, ℕ, ◌∷◌, ◌≡◌, ◌≤◌}
use logdive.Follow.Tailer.{Answers, chunk, end_of_file, read_new_lines}
use logdive.Bytes.{Bytes, codes, equals}
use logdive.Follow.Chunks.{Delivers, call, no_calls}
use logdive.Cli.Delivery.{IsDelivered, run_watch_loop-Delivers}
use logdive.Cli.Watch.{Round, Watching, event, run_watch_loop, set_up, timeout, waiting, watch_loop}
use logdive.Tests.FollowTests.{answers, plain, undisturbed}
use logdive.Cli.Watched.{calls_of}
use logdive.Cli.Stops.{IsEnd, events_in, watch_loop-stops}
use logdive.Indexer.Table.{has_hash}
use logdive.Cli.Ingest.{ingest_lines}
use logdive.Indexer.Batch.{insert_batch, no_stats}
use logdive.Tests.IngestTests.{logfmt_args, good_setup}
use logdive.Tests.IndexerTests.{no_json, same_hash, working, working-IsReliable}
use logdive.Tests.ParserTests.{object_of}
use logdive.Prelude.Result.{ok}
use logdive.Parsers.Format.{parse_line}
use logdive.Parsers.Logfmt.Line.{parse_logfmt}
use logdive.Follow.Lines.{split_lines}
use logdive.Entry.{with_tag}

abbrev read_chunk : Bytes → Answers
read_chunk bytes = answers (chunk bytes end_of_file)

abbrev clock_texts : ℕ → Bytes
clock_texts n = codes "2026"

abbrev watching : Watching
watching = record {
  tailer = record {
    file = record { file_dev = 1; file_ino = 40; position = 3 };
    offset = 3;
    inode = 40;
    dev = 1;
    leftover = [];
  };
  progress = record { total = no_stats; malformed = 0; batch = []; table = [] };
  event_count = 0;
}

set_up_good : set_up good_setup ≡ ok watching
unfolding set_up
set_up_good = refl

abbrev two_rounds : List Round
two_rounds =
    event (read_chunk (b'a' ∷ b'=' ∷ [])) clock_texts
    ∷ timeout (read_chunk (b'1' ∷ 10 ∷ b'?' ∷ [])) clock_texts
    ∷ []

abbrev new_bytes : Bytes
new_bytes = b'a' ∷ b'=' ∷ b'1' ∷ 10 ∷ b'?' ∷ []

two_Delivers : Delivers plain (calls_of two_rounds) watching.tailer new_bytes
unfolding read_new_lines split_lines
two_Delivers =
    call (undisturbed _ watching.tailer refl refl (omega arith)) refl
      (call (undisturbed _ _ refl refl (omega arith)) refl no_calls)

run_watch_loop-Delivers_example :
    (w' : Watching) × (run_watch_loop plain object_of same_hash no_json working logfmt_args
        good_setup none two_rounds
      ≡ (ok waiting, some w'))
    × IsDelivered plain [] new_bytes w'
run_watch_loop-Delivers_example =
    run_watch_loop-Delivers plain object_of same_hash no_json working logfmt_args working-IsReliable
      good_setup two_rounds watching new_bytes set_up_good refl two_Delivers

watch_loop_counts :
    (watch_loop plain object_of same_hash no_json working logfmt_args none two_rounds
      watching).1.progress.total.inserted
    ≡ 1
unfolding watch_loop read_new_lines split_lines ingest_lines parse_line parse_logfmt insert_batch
    equals has_hash with_tag
watch_loop_counts = refl

one_event : 1 ≤ watching.event_count + events_in two_rounds
unfolding events_in
one_event = omega arith

watch_loop-stops_example :
    let (ending, w') =
      watch_loop plain object_of same_hash no_json working logfmt_args
        (some 1)
        two_rounds
        watching in
    (w'.event_count ≤ 1) × IsEnd ending
watch_loop-stops_example =
    watch_loop-stops plain object_of same_hash no_json working logfmt_args 1 two_rounds watching
      (omega arith) one_event
