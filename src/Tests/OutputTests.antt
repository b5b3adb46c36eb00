-- ===== src/Tests/OutputTests.antt =====
-- The output of crates/cli, and what a query finds of the entries that were ingested.
use logdive.Bytes.{Bytes, codes, equals, to_ascii_uppercase}
use logdive.Cli.Render.{Escapes, format_pretty_line}
use logdive.Entry.{Fields, JsonValue, LogEntry, new}
use logdive.Cli.Grouping.{IsGrouped, with_thousands_separator-IsGrouped, without_commas}
use logdive.Cli.Colour.{IsStyled, format_pretty_line-IsStyled}
use logdive.Prelude.{List, Option, [], false, none, refl, some, true, ◌∷◌, ◌≡◌, ap, map, sym}
use logdive.Bytes.Decimal.{decimal}
use logdive.Cli.Stats.{format_tags, with_thousands_separator}
use logdive.Executor.Run.{Connection, execute, rows}
use logdive.Executor.Stored.{Finds, ReadsBack, answer_of, execute-Finds}
use mathlib.Core.List.{Memᴰ}
use logdive.Indexer.Table.{Row, has_hash}
use logdive.Tests.ExecutorTests.{
  ascii_lower, build_sql-level_tree, clock, level_sql, level_tree, no_options,
}
use logdive.Tests.ApiTests.{empty_map}
use logdive.Tests.IndexerTests.{entry, no_json, same_hash, working}
use logdive.Indexer.Batch.{insert_batch, row_of}
use logdive.Prelude.Result.{ok}

million : with_thousands_separator 1_234_567 ≡ codes "1,234,567"
unfolding with_thousands_separator
million = refl

with_thousands_separator-IsGrouped_example :
    IsGrouped (with_thousands_separator 1_234_567)
    × (without_commas (with_thousands_separator 1_234_567) ≡ decimal 1_234_567)
with_thousands_separator-IsGrouped_example = with_thousands_separator-IsGrouped 1_234_567

abbrev marks : Escapes
marks = record { on = λ style. codes "<"; off = λ style. codes ">" }

abbrev no_text : JsonValue → Bytes
no_text v = []

abbrev no_entries : Fields → List (Bytes × JsonValue)
no_entries fs = []

abbrev warned : LogEntry
warned = record (new (codes "w")) { level = some (codes "warn"); message = some (codes "hot") }

coloured :
    format_pretty_line no_text no_entries to_ascii_uppercase marks true warned
    ≡ codes "<->  <WARN >  hot"
unfolding format_pretty_line equals
coloured = refl

format_pretty_line-IsStyled_example :
    IsStyled marks
      (format_pretty_line no_text no_entries to_ascii_uppercase marks false warned)
      (format_pretty_line no_text no_entries to_ascii_uppercase marks true warned)
format_pretty_line-IsStyled_example =
    format_pretty_line-IsStyled marks no_text no_entries to_ascii_uppercase warned

abbrev tag_list : List (Option Bytes)
tag_list = none ∷ some (codes "api") ∷ some (codes "web") ∷ []

tags_text : format_tags tag_list ≡ codes "api, web, (untagged)"
unfolding format_tags
tags_text = refl

abbrev ingested_entries : List LogEntry
ingested_entries = entry "2025" "b" ∷ new (codes "c") ∷ entry "2026" "a" ∷ []

abbrev matching_rows : List Row
matching_rows = row_of same_hash no_json (codes "2026") (entry "2026" "a") ∷ []

abbrev answers_one : Connection
answers_one sql binds = rows (map answer_of matching_rows)

matching_rows_stored :
    (r : Row)
    → Memᴰ r matching_rows
    → Memᴰ r (insert_batch same_hash no_json working ingested_entries []).1
unfolding insert_batch has_hash equals
matching_rows_stored r (Memᴰ.head e) = Memᴰ.tail (Memᴰ.head e)
matching_rows_stored r (Memᴰ.tail m) = elim m [ ]

entries_read_back : ReadsBack same_hash no_json empty_map ingested_entries
entries_read_back e (Memᴰ.head h) = ap (λ (x : LogEntry). ok x.others) (sym h)
entries_read_back e (Memᴰ.tail (Memᴰ.head h)) = ap (λ (x : LogEntry). ok x.others) (sym h)
entries_read_back e (Memᴰ.tail (Memᴰ.tail (Memᴰ.head h))) =
    ap (λ (x : LogEntry). ok x.others) (sym h)
entries_read_back e (Memᴰ.tail (Memᴰ.tail (Memᴰ.tail m))) = elim m [ ]

execute-Finds_example :
    Finds ingested_entries matching_rows
      (execute empty_map clock ascii_lower 5 level_tree answers_one no_options)
execute-Finds_example =
    execute-Finds same_hash no_json empty_map working ingested_entries clock ascii_lower 5
      level_tree answers_one no_options level_sql matching_rows entries_read_back
      build_sql-level_tree matching_rows_stored refl
