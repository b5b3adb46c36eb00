-- ===== src/Api/Handlers.antt =====
-- crates/api/src/handlers.rs: the handlers of GET /query, GET /stats and GET /version. The JSON texts of
-- serde_json, the parse of floats, chrono and Unicode lower-casing are parameters.
use logdive.Prelude.{◌++◌, List, Option, [], if◌then◌else◌, map, none, some, suc, zero, ℕ, ◌∷◌}
use logdive.Api.AppError.{AppError, Response, bad_request, from_logdive_error, from_parse_error}
use logdive.Bytes.{Bytes, codes, is_empty}
use logdive.Executor.Chrono.{Chrono}
use logdive.Entry.{Fields, LogEntry}
use logdive.Api.State.{Index, Server, with_connection}
use logdive.Error.{LogdiveError, Outcome, io, raised}
use logdive.Query.Token.{Message, QueryResult}
use logdive.Query.Ast.{QueryNode}
use logdive.Executor.Failure.{QueryOptions}
use logdive.Prelude.Result.{Result, err, ok, out_of_fuel, ◌>>=◌}
use logdive.Indexer.Stats.{Stats, stats}
use logdive.Parsers.Format.{all_formats, name}
use logdive.Executor.Run.{execute}
use logdive.Query.Parser.{parse}
use logdive.Bytes.White.{trim}

pub record QueryParams : Type 0 where
  pub q : Option Bytes
  pub limit : Option ℕ
  pub offset : Option ℕ

abbrev default_limit : ℕ
default_limit = 1000

abbrev pub unwrap_or : Option ℕ → ℕ → ℕ
unwrap_or none d = d
unwrap_or (some n) d = n

-- 0 stands for no limit, and for no offset.
abbrev pub zero_is_none : ℕ → Option ℕ
zero_is_none zero = none
zero_is_none (suc n) = some (suc n)

unfoldable pub options_of : QueryParams → QueryOptions
options_of p = record {
  limit = zero_is_none (unwrap_or p.limit default_limit);
  offset = zero_is_none (unwrap_or p.offset 0);
}

-- The trimmed text of `q`, unless there is none.
unfoldable pub query_text : Option Bytes → Option Bytes
unfolding trim
query_text none = none
query_text (some q) = if is_empty (trim q) then none else some (trim q)

pub record StatsResponse : Type 0 where
  pub entries : ℕ
  pub min_timestamp : Option Bytes
  pub max_timestamp : Option Bytes
  pub tags : List (Option Bytes)
  pub db_size_bytes : ℕ
  pub db_path : Bytes

-- `StatsResponse::from_core`
unfoldable pub from_core : Stats → Bytes → ℕ → StatsResponse
from_core s db_path size = record {
  entries = s.entries;
  min_timestamp = s.min_timestamp;
  max_timestamp = s.max_timestamp;
  tags = s.tags;
  db_size_bytes = size;
  db_path = db_path;
}

pub record VersionResponse : Type 0 where
  pub version : Bytes
  pub formats : List Bytes
  pub capabilities : List Bytes

unfoldable pub version_handler : Bytes → VersionResponse
unfolding name
version_handler version = record {
  version = version;
  formats = map name all_formats;
  capabilities = codes "query" ∷ codes "stats" ∷ codes "version" ∷ [];
}

module _ (entry_to_json : LogEntry → Option Bytes) where
  unfoldable pub entry_to_json_string : LogEntry → Bytes
  entry_to_json_string e = elim (entry_to_json e) [ some json_text ↦ json_text | none ↦ codes "{}" ]

  unfoldable pub ndjson : List LogEntry → Bytes
  unfolding entry_to_json_string
  ndjson [] = []
  ndjson (e ∷ es) = entry_to_json_string e ++ (b'\n' ∷ ndjson es)

  unfoldable pub build_ndjson_response : List LogEntry → Response
  unfolding ndjson
  build_ndjson_response es = record {
    status = 200;
    content_type = codes "application/x-ndjson";
    body = ndjson es;
  }

module _ (debug : Bytes → Bytes) (words : Message → Bytes) where
  unfoldable pub or_app_error : {A : Type 0} → Result LogdiveError A → Result AppError A
  unfolding from_logdive_error
  or_app_error (ok a) = ok a
  or_app_error (err e) = err (from_logdive_error debug words e)
  or_app_error out_of_fuel = out_of_fuel

  -- The closure of the statistics: the index, then the file.
  unfoldable pub stats_and_size : Server → Index → Outcome (Stats × ℕ)
  unfolding stats
  stats_and_size s index = do
    found ← stats index.aggregates
    size ← elim s.file_size [
      | ok n ↦ ok n
      | err detail ↦ err (raised (io s.db_path detail))
      | out_of_fuel ↦ out_of_fuel
    ]
    ok (found, size)

  unfoldable pub stats_handler : Server → Result AppError StatsResponse
  unfolding or_app_error with_connection stats_and_size from_core
  stats_handler s = do
    (found, size) ← or_app_error (with_connection s (stats_and_size s))
    ok (from_core found s.db_path size)

  module _ (parse_f64 : Bytes → Option ℕ) (map_from_str : Bytes → Result Bytes Fields)
      (entry_to_json : LogEntry → Option Bytes) (chrono : Chrono) (to_lowercase : Bytes → Bytes)
      (now : chrono.DateTime) where
    unfoldable pub run_query : QueryNode → QueryOptions → Index → Outcome (List LogEntry)
    unfolding execute
    run_query ast options index =
        execute map_from_str chrono to_lowercase now ast index.connection options

    unfoldable pub parsed : Server → QueryOptions → QueryResult QueryNode → Result AppError Response
    unfolding or_app_error with_connection run_query build_ndjson_response from_parse_error
    parsed s options (err e) = err (from_parse_error debug words e)
    parsed s options out_of_fuel = out_of_fuel
    parsed s options (ok ast) = do
      found ← or_app_error (with_connection s (run_query ast options))
      ok (build_ndjson_response entry_to_json found)

    unfoldable pub with_query : Server → QueryOptions → Option Bytes → Result AppError Response
    unfolding parsed parse
    with_query s options none = err (bad_request (codes "missing or empty `q` parameter"))
    with_query s options (some input) = parsed s options (parse parse_f64 input)

    unfoldable pub query_handler : Server → QueryParams → Result AppError Response
    unfolding query_text options_of with_query
    query_handler s p = with_query s (options_of p) (query_text p.q)
