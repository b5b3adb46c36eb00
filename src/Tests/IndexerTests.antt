-- ===== src/Tests/IndexerTests.antt =====
-- A few entries in the index of crates/core/src/indexer.rs.
use mathlib.Core.List.{Permᴰ}
use logdive.Bytes.{Bytes, codes, equals}
use logdive.Entry.{Fields, LogEntry, new}
use logdive.Indexer.Batch.{InsertStats, Sqlite, insert_batch, no_stats, sql_error}
use logdive.Indexer.Again.{IsReliable, insert_batch_again}
use logdive.Indexer.Unique.{IsIndex, has_line, insert_batch-IsIndex}
use logdive.Prelude.{Bool, List, String, [], false, length, none, refl, some, true, ◌∷◌, ◌≡◌, ◌+◌}
use logdive.Indexer.Prefix.{IsCommitted, insert_batch-IsCommitted}
use logdive.Indexer.Prune.{Pruned, prune, prune-Pruned}
use logdive.Indexer.Table.{Row, Table, before, has_hash}
use logdive.Prelude.Result.{err, ok}
use logdive.Indexer.Counts.{insert_batch-counts}
use logdive.Indexer.HashSet.{adds, hashes_of, insert_batch-adds}

abbrev pub same_hash : Bytes → Bytes
same_hash raw = raw

abbrev pub no_json : Fields → Bytes
no_json _ = codes "{}"

abbrev pub working : Sqlite
working = record { begins = λ _. true; accepts = λ _ _. true; commits = λ _. true }

abbrev full_disk : Sqlite
full_disk = record { begins = λ _. true; accepts = λ _ _. true; commits = λ _. false }

abbrev pub entry : String → String → LogEntry
entry ts raw = record (new (codes raw)) { timestamp = some (codes ts) }

abbrev entries : List LogEntry
entries = entry "2024" "a" ∷ entry "2025" "b" ∷ entry "2026" "a" ∷ new (codes "c") ∷ []

abbrev entries_stats : InsertStats
entries_stats = record { inserted = 2; deduplicated = 1; skipped_no_timestamp = 1 }

abbrev pub row_at : String → Row
row_at ts = record {
  timestamp = codes ts;
  level = none;
  message = none;
  tag = none;
  fields_json = [];
  raw = codes ts;
  raw_hash = codes ts;
}

insert_entries_stats : (insert_batch same_hash no_json working entries []).0 ≡ ok entries_stats
unfolding insert_batch has_hash equals
insert_entries_stats = refl

insert_batch-counts_example :
    (entries_stats.inserted + entries_stats.deduplicated + entries_stats.skipped_no_timestamp ≡ 4)
    × (length (insert_batch same_hash no_json working entries []).1 ≡ 2)
insert_batch-counts_example =
    insert_batch-counts same_hash no_json working entries [] entries_stats insert_entries_stats

abbrev one_line : Table
one_line = row_at "a" ∷ []

one_line-IsIndex : IsIndex same_hash one_line
unfolding IsIndex has_line
one_line-IsIndex = (refl, refl, tt)

insert_batch-IsIndex_example :
    IsIndex same_hash (insert_batch same_hash no_json working entries one_line).1
insert_batch-IsIndex_example =
    insert_batch-IsIndex same_hash no_json working entries one_line one_line-IsIndex

pub working-IsReliable : IsReliable working
working-IsReliable = record {
  begins_always = λ _. refl;
  accepts_always = λ _ _. refl;
  commits_always = λ _. refl;
}

insert_batch_again_example :
    (s' : InsertStats) × (insert_batch same_hash no_json working entries
        (insert_batch same_hash no_json working entries []).1
      ≡ (ok s', (insert_batch same_hash no_json working entries []).1))
    × (s'.inserted ≡ 0)
insert_batch_again_example =
    insert_batch_again same_hash no_json working entries [] entries_stats working-IsReliable
      insert_entries_stats

abbrev first_two : List LogEntry
first_two = entry "2024" "a" ∷ entry "2025" "b" ∷ []

abbrev other_order : List LogEntry
other_order = entry "2025" "b" ∷ entry "2024" "a" ∷ []

insert_batch-adds_example :
    hashes_of (insert_batch same_hash no_json working first_two []).1
    ≡ adds same_hash other_order (hashes_of [])
insert_batch-adds_example =
    insert_batch-adds same_hash no_json working first_two other_order [] working-IsReliable
      (Permᴰ.swap refl refl)

abbrev is_new : Table → Bool
is_new [] = true
is_new (_ ∷ _) = false

-- A disk on which the second INSERT fails.
abbrev one_row_disk : Sqlite
one_row_disk = record { begins = λ _. true; accepts = λ _ t. is_new t; commits = λ _. true }

-- The row that went in before the failure is rolled back.
second_insert_fails : insert_batch same_hash no_json one_row_disk entries [] ≡ (err sql_error, [])
unfolding insert_batch has_hash equals
second_insert_fails = refl

no_commit : insert_batch same_hash no_json full_disk entries [] ≡ (err sql_error, [])
unfolding insert_batch has_hash equals
no_commit = refl

insert_batch-IsCommitted_example :
    IsCommitted same_hash no_json 1000 entries no_stats []
      (insert_batch same_hash no_json one_row_disk entries [])
insert_batch-IsCommitted_example =
    insert_batch-IsCommitted same_hash no_json one_row_disk entries []

abbrev stored_rows : Table
stored_rows = row_at "2024" ∷ row_at "2025" ∷ row_at "2026" ∷ []

prune_2025 : (prune (codes "2025") true true stored_rows).0 ≡ ok (record { deleted = 1 })
unfolding prune before
prune_2025 = refl

prune-Pruned_example :
    Pruned (codes "2025") stored_rows 1 (prune (codes "2025") true true stored_rows).1
prune-Pruned_example =
    prune-Pruned (codes "2025") true true stored_rows (record { deleted = 1 }) prune_2025
