-- ===== src/Indexer/Batch.antt =====
-- `insert_batch` and `insert_one_chunk` of crates/core/src/indexer.rs. `blake3::hash` in hexadecimal and
-- `serde_json::to_string` are parameters. A statement can fail: `accepts` says whether an INSERT into a
-- table goes through, `begins` and `commits` say it of a transaction. A transaction that is dropped rolls back.
use logdive.Prelude.{◌+◌, ◌==◌, Bool, List, [], if◌then◌else◌, none, some, ℕ, ◌∷◌, Option}
use logdive.Bytes.{Bytes}
use logdive.Entry.{Fields, LogEntry}
use logdive.Prelude.Result.{Result, err, ok, out_of_fuel}
use logdive.Indexer.Table.{Row, Table, insert_or_ignore}
use logdive.Indexer.Chunks.{batch_size, chunks}

pub data SqlError : Type 0 where
  sql_error : SqlError

pub record InsertStats : Type 0 where
  pub inserted : ℕ
  pub deduplicated : ℕ
  pub skipped_no_timestamp : ℕ

-- `InsertStats::default`
abbrev pub no_stats : InsertStats
no_stats = record { inserted = 0; deduplicated = 0; skipped_no_timestamp = 0 }

-- `InsertStats::extend`
unfoldable pub extend : InsertStats → InsertStats → InsertStats
extend s other = record {
  inserted = s.inserted + other.inserted;
  deduplicated = s.deduplicated + other.deduplicated;
  skipped_no_timestamp = s.skipped_no_timestamp + other.skipped_no_timestamp;
}

abbrev pub skip : InsertStats → InsertStats
skip s = record s { skipped_no_timestamp = s.skipped_no_timestamp + 1 }

-- The count after a statement that changed so many rows.
unfoldable pub count_changes : ℕ → InsertStats → InsertStats
count_changes changes s =
    if changes == 0
    then record s { deduplicated = s.deduplicated + 1 }
    else record s { inserted = s.inserted + 1 }

pub record Sqlite : Type 0 where
  pub begins : Table → Bool
  pub accepts : Row → Table → Bool
  pub commits : Table → Bool

-- What a call returns, with the table that it leaves.
abbrev pub Stored : Type 0
Stored = Result SqlError InsertStats × Table

-- What comes after a call that went well.
abbrev pub and_then : Stored → (InsertStats → Table → Stored) → Stored
and_then (ok stats, t) more = more stats t
and_then (err e, t) more = (err e, t)
and_then (out_of_fuel, t) more = (out_of_fuel, t)

module _ (hash : Bytes → Bytes) (to_json : Fields → Bytes) where
  unfoldable pub row_of : Bytes → LogEntry → Row
  row_of ts e = record {
    timestamp = ts;
    level = e.level;
    message = e.message;
    tag = e.tag;
    fields_json = to_json e.others;
    raw = e.raw;
    raw_hash = hash e.raw;
  }

  module _ (sqlite : Sqlite) where
    -- One round of the loop over the entries, for an entry with this timestamp.
    unfoldable pub insert_timed : Option Bytes → LogEntry → InsertStats → Table → Stored
    unfolding row_of count_changes insert_or_ignore
    insert_timed none e stats t = (ok (skip stats), t)
    insert_timed (some ts) e stats t =
        let (changes, t') = insert_or_ignore (row_of ts e) t in
        if sqlite.accepts (row_of ts e) t
        then (ok (count_changes changes stats), t')
        else (err sql_error, t)

    unfoldable pub insert_entry : LogEntry → InsertStats → Table → Stored
    unfolding insert_timed
    insert_entry e stats t = insert_timed e.timestamp e stats t

    unfoldable pub insert_entries : List LogEntry → InsertStats → Table → Stored
    unfolding insert_entry
    insert_entries [] stats t = (ok stats, t)
    insert_entries (e ∷ es) stats t =
        and_then (insert_entry e stats t) (λ stats' t'. insert_entries es stats' t')

    -- The end of a transaction that began at table `start`.
    unfoldable pub commit : Table → Stored → Stored
    commit start (ok stats, t) = if sqlite.commits t then (ok stats, t) else (err sql_error, start)
    commit start (err e, t) = (err e, start)
    commit start (out_of_fuel, t) = (out_of_fuel, start)

    unfoldable pub insert_one_chunk : List LogEntry → Table → Stored
    unfolding insert_entries commit
    insert_one_chunk entries t =
        if sqlite.begins t then commit t (insert_entries entries no_stats t) else (err sql_error, t)

    -- The loop of `insert_batch` over the chunks.
    unfoldable pub insert_chunks : List (List LogEntry) → InsertStats → Table → Stored
    unfolding insert_one_chunk extend
    insert_chunks [] total t = (ok total, t)
    insert_chunks (entries ∷ more) total t =
        and_then (insert_one_chunk entries t)
          (λ stats t'. insert_chunks more (extend total stats) t')

    unfoldable pub insert_batch : List LogEntry → Table → Stored
    unfolding insert_chunks chunks
    insert_batch entries t = insert_chunks (chunks batch_size entries) no_stats t
