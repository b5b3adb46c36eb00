-- ===== src/Executor/Run.antt =====
-- `execute` and `run` of crates/core/src/executor.rs. The connection is a parameter: what SQLite answers to
-- a statement with its values, row by row. So is `serde_json::from_str` for a map.
use logdive.Bytes.{Bytes}
use logdive.Executor.Chrono.{Chrono}
use logdive.Executor.Failure.{Failure, QueryOptions, SqlValue}
use logdive.Entry.{Fields, LogEntry}
use logdive.Executor.Sql.{Fragment}
use logdive.Prelude.{List, Option, [], ◌∷◌}
use logdive.Error.{Outcome, corrupt_fields_json, from_failure, raised, sqlite}
use logdive.Query.Ast.{QueryNode}
use logdive.Prelude.Result.{Result, err, ok, out_of_fuel, ◌>>=◌}
use logdive.Executor.Translate.{build_sql}

-- The columns of a row, by `row.get`.
pub record ResultRow : Type 0 where
  pub timestamp : Option Bytes
  pub level : Option Bytes
  pub message : Option Bytes
  pub tag : Option Bytes
  pub fields_json : Bytes
  pub raw : Bytes

-- A row may fail: a step of SQLite, or a column of another type.
pub data RowAnswer : Type 0 where
  got_row : ResultRow → RowAnswer
  row_failed : Bytes → RowAnswer

pub data QueryAnswer : Type 0 where
  rows : List RowAnswer → QueryAnswer
  refused : Bytes → QueryAnswer

abbrev pub Connection : Type 0
Connection = Bytes → List SqlValue → QueryAnswer

module _ (map_from_str : Bytes → Result Bytes Fields) where
  unfoldable pub decode_fields : Result Bytes Fields → Outcome Fields
  decode_fields (ok fs) = ok fs
  decode_fields (err detail) = err (raised (corrupt_fields_json detail))
  decode_fields out_of_fuel = out_of_fuel

  -- The loop over the rows.
  unfoldable pub read_rows : List RowAnswer → Outcome (List LogEntry)
  unfolding decode_fields
  read_rows [] = ok []
  read_rows (row_failed detail ∷ more) = err (raised (sqlite detail))
  read_rows (got_row r ∷ more) = do
    fs ← decode_fields (map_from_str r.fields_json)
    entries ← read_rows more
    ok (
        record {
          timestamp = r.timestamp;
          level = r.level;
          message = r.message;
          tag = r.tag;
          others = fs;
          raw = r.raw;
        }
        ∷ entries)

  unfoldable pub read_answer : QueryAnswer → Outcome (List LogEntry)
  unfolding read_rows
  read_answer (refused detail) = err (raised (sqlite detail))
  read_answer (rows rs) = read_rows rs

  unfoldable pub run : Connection → Fragment → Outcome (List LogEntry)
  unfolding read_answer
  run conn (sql, binds) = read_answer (conn sql binds)

  unfoldable pub run_built : Connection → Result Failure Fragment → Outcome (List LogEntry)
  unfolding run from_failure
  run_built conn (ok sql) = run conn sql
  run_built conn (err e) = err (from_failure e)
  run_built conn out_of_fuel = out_of_fuel

  -- `execute`, and `execute_at`, with the time
  unfoldable pub execute :
      (chrono : Chrono)
      → (Bytes → Bytes)
      → chrono.DateTime
      → QueryNode
      → Connection
      → QueryOptions
      → Outcome (List LogEntry)
  unfolding run_built build_sql
  execute chrono to_lowercase now query conn opts =
      run_built conn (build_sql chrono to_lowercase now query opts)
