-- ===== src/Executor/Stored.antt =====
-- What a query of crates/core/src/executor.rs gives back of the entries that crates/core/src/indexer.rs
-- stored.
use logdive.Bytes.{Bytes}
use logdive.Indexer.Origin.{ComesFrom, insert_batch-ComesFrom}
use logdive.Entry.{Fields, LogEntry}
use mathlib.Core.List.{Memᴰ}
use logdive.Error.{Outcome}
use logdive.Prelude.Result.{Result, ok, ◌>>=◌}
use logdive.Indexer.Table.{Row}
use logdive.Executor.Run.{
  RowAnswer, got_row, read_rows, Connection, decode_fields, execute, read_answer, rows, run,
  run_built,
}
use logdive.Prelude.{[], arith, map, refl, some, sym, ◌∷◌, ◌≡◌, List, ap, ◌∙◌}
use mathlib.Core.Path.{subst, ap₂}
use logdive.Executor.Chrono.{Chrono}
use logdive.Executor.Sql.{Fragment}
use logdive.Query.Ast.{QueryNode}
use logdive.Executor.Failure.{QueryOptions}
use logdive.Indexer.Batch.{Sqlite, insert_batch, row_of}
use logdive.Executor.Translate.{build_sql}

-- What SQLite answers for a row of the table.
abbrev pub answer_of : Row → RowAnswer
answer_of r = got_row (record {
  timestamp = some r.timestamp;
  level = r.level;
  message = r.message;
  tag = r.tag;
  fields_json = r.fields_json;
  raw = r.raw;
})

-- Every entry stands in the list.
abbrev pub AreAmong : List LogEntry → List LogEntry → Type 0
AreAmong es found = (e : LogEntry) → Memᴰ e found → Memᴰ e es

abbrev pub line_of : LogEntry → Bytes
line_of e = e.raw

abbrev pub row_line : Row → Bytes
row_line r = r.raw

-- The entries that were found, one for each row, in the rows' order.
pub record Finds (es : List LogEntry) (rs : List Row) (r : Outcome (List LogEntry)) : Type 0 where
  pub found : List LogEntry
  pub is_ok : r ≡ ok found
  pub are_ingested : AreAmong es found
  pub lines : map line_of found ≡ map row_line rs

entry_of_row :
    (e : LogEntry) (ts : Bytes) → e.timestamp ≡ some ts → record e { timestamp = some ts } ≡ e
entry_of_row e ts h = ground arith

AreAmong-cons :
    (es : List LogEntry) (e : LogEntry) (found : List LogEntry)
    → Memᴰ e es
    → AreAmong es found
    → AreAmong es (e ∷ found)
AreAmong-cons es e found m h _ (Memᴰ.head same) = subst (λ x. Memᴰ x es) (sym same) m
AreAmong-cons es e found m h x (Memᴰ.tail m') = h x m'

module _ (hash : Bytes → Bytes) (to_json : Fields → Bytes)
    (map_from_str : Bytes → Result Bytes Fields) where
  -- `from_str` reads back what `to_string` wrote of the fields of these entries.
  abbrev pub ReadsBack : List LogEntry → Type 0
  ReadsBack es = (e : LogEntry) → Memᴰ e es → map_from_str (to_json e.others) ≡ ok e.others

  same_line : (e : LogEntry) (ts : Bytes) (r : Row) → row_of hash to_json ts e ≡ r → e.raw ≡ r.raw
  unfolding row_of
  same_line e ts r h = ap row_line h

  read_row_of :
      (e : LogEntry) (ts : Bytes) (rest : List RowAnswer)
      → map_from_str (to_json e.others) ≡ ok e.others
      → e.timestamp ≡ some ts
      → read_rows map_from_str (answer_of (row_of hash to_json ts e) ∷ rest)
        ≡ (do entries ← read_rows map_from_str rest; ok (e ∷ entries))
  unfolding read_rows decode_fields row_of
  read_row_of e ts rest back h = rw back (
      ap (λ (x : LogEntry). do entries ← read_rows map_from_str rest; ok (x ∷ entries))
        (entry_of_row e ts h))

  read_rows-Finds :
      (es : List LogEntry) (rs : List Row)
      → ReadsBack es
      → ComesFrom hash to_json es rs
      → Finds es rs (read_rows map_from_str (map answer_of rs))
  unfolding read_rows
  read_rows-Finds es [] back h = record {
    found = [];
    is_ok = refl;
    are_ingested = λ e m. elim m [ ];
    lines = refl;
  }
  read_rows-Finds es (r ∷ rs) back h =
      let o = h r (Memᴰ.head refl) in
      let more = read_rows-Finds es rs back (λ r' m. h r' (Memᴰ.tail m)) in
      record {
        found = o.entry ∷ more.found;
        is_ok =
            subst
              (λ x.
                read_rows map_from_str (answer_of x ∷ map answer_of rs) ≡ ok (o.entry ∷ more.found))
              o.is_row
              (read_row_of o.entry o.ts (map answer_of rs) (back o.entry o.is_ingested) o.has_time
                ∙ ap (λ (m : Outcome (List LogEntry)). do entries ← m; ok (o.entry ∷ entries))
                    more.is_ok);
        are_ingested = AreAmong-cons es o.entry more.found o.is_ingested more.are_ingested;
        lines = ap₂ (λ x xs. x ∷ xs) (same_line o.entry o.ts r o.is_row) more.lines;
      }

  -- If a query is translated and SQLite answers with rows that `insert_batch` has put into an empty
  -- table, and the fields of the entries are read back as they were written, then `execute` gives
  -- entries, one for each row with that row's line and in the rows' order, each of which is one of
  -- those that were inserted, whole.
  pub execute-Finds :
      (sqlite : Sqlite) (es : List LogEntry) (chrono : Chrono) (to_lowercase : Bytes → Bytes)
      (now : chrono.DateTime) (query : QueryNode) (conn : Connection) (opts : QueryOptions)
      (sql : Fragment) (rs : List Row)
      → ReadsBack es
      → build_sql chrono to_lowercase now query opts ≡ ok sql
      → ((r : Row) → Memᴰ r rs → Memᴰ r (insert_batch hash to_json sqlite es []).1)
      → conn sql.0 sql.1 ≡ rows (map answer_of rs)
      → Finds es rs (execute map_from_str chrono to_lowercase now query conn opts)
  unfolding execute run_built run read_answer
  execute-Finds sqlite es chrono to_lowercase now query conn opts sql rs back translated among
        answered =
      let from = insert_batch-ComesFrom hash to_json sqlite es [] (λ r m. elim m [ ]) in
      let answer : execute map_from_str chrono to_lowercase now query conn opts
          ≡ read_rows map_from_str (map answer_of rs) =
        ap (run_built map_from_str conn) translated ∙ ap (read_answer map_from_str) answered in
      subst (Finds es rs) (sym answer) (read_rows-Finds es rs back (λ r m. from r (among r m)))
