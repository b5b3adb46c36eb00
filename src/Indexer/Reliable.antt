-- ===== src/Indexer/Reliable.antt =====
-- The insertion of crates/core/src/indexer.rs on a database in which no statement fails: it succeeds.
use logdive.Bytes.{Bytes}
use logdive.Entry.{Fields, LogEntry}
use logdive.Indexer.Batch.{
  InsertStats, Sqlite, Stored, and_then, commit, count_changes, extend, insert_batch, insert_chunks,
  insert_entries, insert_entry, insert_one_chunk, insert_timed, no_stats, row_of, skip,
}
use logdive.Indexer.Again.{IsReliable}
use logdive.Prelude.{List, Option, [], none, refl, some, ◌∷◌, ◌≡◌}
use logdive.Indexer.Table.{Table, insert_or_ignore}
use logdive.Indexer.Chunks.{batch_size, chunks}
use logdive.Prelude.Result.{err, ok, out_of_fuel}

-- The call returned stats.
abbrev pub Succeeds : Stored → Type 0
Succeeds r = (s : InsertStats) × (r.0 ≡ ok s)

Succeeds-then :
    (r : Stored) (more : InsertStats → Table → Stored)
    → Succeeds r
    → ((s : InsertStats) (t : Table) → Succeeds (more s t))
    → Succeeds (and_then r more)
Succeeds-then (ok s, t) more h k = k s t
Succeeds-then (err e, t) more h k = cc h.1
Succeeds-then (out_of_fuel, t) more h k = cc h.1

module _ (hash : Bytes → Bytes) (to_json : Fields → Bytes) (sqlite : Sqlite)
    (reliable : IsReliable sqlite) where
  insert_timed-Succeeds :
      (o : Option Bytes) (e : LogEntry) (s : InsertStats) (t : Table)
      → Succeeds (insert_timed hash to_json sqlite o e s t)
  unfolding insert_timed
  insert_timed-Succeeds none e s t = (skip s, refl)
  insert_timed-Succeeds (some ts) e s t = (
    count_changes (insert_or_ignore (row_of hash to_json ts e) t).0 s,
    rw (reliable.accepts_always (row_of hash to_json ts e) t) refl,
  )

  insert_entries-Succeeds :
      (es : List LogEntry) (s : InsertStats) (t : Table)
      → Succeeds (insert_entries hash to_json sqlite es s t)
  unfolding insert_entries insert_entry
  insert_entries-Succeeds [] s t = (s, refl)
  insert_entries-Succeeds (e ∷ es) s t =
      Succeeds-then _ _ (insert_timed-Succeeds e.timestamp e s t) (insert_entries-Succeeds es)

  commit-Succeeds :
      (start : Table) (r : Stored) → Succeeds r → Succeeds (commit hash to_json sqlite start r)
  unfolding commit
  commit-Succeeds start (ok s, t) h = (s, rw (reliable.commits_always t) refl)
  commit-Succeeds start (err e, t) h = cc h.1
  commit-Succeeds start (out_of_fuel, t) h = cc h.1

  insert_one_chunk-Succeeds :
      (es : List LogEntry) (t : Table) → Succeeds (insert_one_chunk hash to_json sqlite es t)
  unfolding insert_one_chunk
  insert_one_chunk-Succeeds es t =
      rw (reliable.begins_always t) (commit-Succeeds t _ (insert_entries-Succeeds es no_stats t))

  insert_chunks-Succeeds :
      (ess : List (List LogEntry)) (s : InsertStats) (t : Table)
      → Succeeds (insert_chunks hash to_json sqlite ess s t)
  unfolding insert_chunks
  insert_chunks-Succeeds [] s t = (s, refl)
  insert_chunks-Succeeds (es ∷ ess) s t =
      Succeeds-then _ _ (insert_one_chunk-Succeeds es t)
        λ stats t'. insert_chunks-Succeeds ess (extend s stats) t'

  pub insert_batch-Succeeds :
      (entries : List LogEntry) (t : Table) → Succeeds (insert_batch hash to_json sqlite entries t)
  unfolding insert_batch
  insert_batch-Succeeds entries t = insert_chunks-Succeeds (chunks batch_size entries) no_stats t
