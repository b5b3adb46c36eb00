-- ===== src/Tests/ApiTests.antt =====
-- The HTTP API of crates/api on a few requests.
use logdive.Prelude.{◌++◌, Option, [], none, refl, some, ℕ, ◌∷◌, ◌≡◌, Bool, arith, false, true}
use logdive.Bytes.{Bytes, codes, equals, is_empty}
use logdive.Executor.Run.{Connection, ResultRow, got_row, refused, rows}
use logdive.Entry.{Fields, LogEntry, no_fields}
use logdive.Api.State.{Index, Server}
use logdive.Query.Token.{Message}
use logdive.Api.Handlers.{QueryParams, query_handler}
use logdive.Api.AppError.{Response, into_response}
use logdive.Prelude.Result.{Result, err, ok}
use logdive.Tests.ExecutorTests.{ascii_lower, clock, level_query}
use logdive.Api.Alike.{respond, query_handler_alike}
use logdive.Bytes.White.{trim}
use logdive.Indexer.Open.{Disk, OpenAnswers, db_path}
use logdive.Cli.QueryCommand.{QueryArgs, handle_query}
use logdive.Api.Cors.{get_from, parse_cors_origins}
use logdive.Executor.Sql.{column_for_field, is_known_key}
use logdive.Api.Start.{ensure_index_exists}
use logdive.Api.Mirror.{query_handler-handle_query, request_of, response_to}
use logdive.Executor.Translate.{translate_compare, translate_groups}
use logdive.Api.Main.{ServerArgs, ServerWorld, api_main, served, returned}
use logdive.Cli.Render.{json_output}
use logdive.Error.{io, raised}

abbrev same_text : Bytes → Bytes
same_text s = s

abbrev no_words : Message → Bytes
no_words m = codes "no"

abbrev raw_json : LogEntry → Option Bytes
raw_json e = some e.raw

abbrev no_float : Bytes → Option ℕ
no_float s = none

abbrev pub empty_map : Bytes → Result Bytes Fields
empty_map s = ok no_fields

abbrev boom_row : ResultRow
boom_row = record {
  timestamp = some (codes "11");
  level = some (codes "ERROR");
  message = none;
  tag = none;
  fields_json = codes "{}";
  raw = codes "boom";
}

abbrev one_row : Connection
one_row sql binds = rows (got_row boom_row ∷ [])

abbrev locked : Connection
locked sql binds = refused (codes "database is locked")

abbrev index_with : Connection → Index
index_with conn = record {
  connection = conn;
  aggregates = record {
    count = ok 1;
    bounds = ok (some (codes "11"), some (codes "11"));
    tag_rows = ok (ok none ∷ []);
  };
}

abbrev server_with : Result Bytes Index → Server
server_with opening = record {
  db_path = codes "/data/index.db";
  opening = opening;
  file_size = ok 4096;
  join_error = codes "panic";
}

abbrev request : Bytes → QueryParams
request q = record { q = some q; limit = none; offset = none }

abbrev server_error : Response
server_error = record {
  status = 500;
  content_type = codes "application/json";
  body = codes "{\"error\":internal server error}";
}

abbrev handle : Server → QueryParams → Option Response
handle s p =
    respond same_text
      (query_handler same_text no_words no_float empty_map raw_json clock ascii_lower 5 s p)

found_row :
    handle (server_with (ok (index_with one_row))) (request level_query)
    ≡ some (record {
      status = 200;
      content_type = codes "application/x-ndjson";
      body = codes "boom" ++ (b'\n' ∷ []);
    })
unfolding query_handler trim is_empty translate_groups translate_compare column_for_field
    is_known_key into_response
found_row = refl

locked_error :
    handle (server_with (ok (index_with locked))) (request level_query) ≡ some server_error
unfolding query_handler trim is_empty translate_groups translate_compare column_for_field
    is_known_key into_response
locked_error = refl

closed_error :
    handle (server_with (err (codes "no such file"))) (request level_query) ≡ some server_error
unfolding query_handler trim is_empty translate_groups translate_compare column_for_field
    is_known_key into_response
closed_error = refl

query_handler_alike_example : ◌≡◌ {A = Response} server_error server_error
query_handler_alike_example =
    query_handler_alike same_text no_words same_text raw_json no_float empty_map clock ascii_lower 5
      (server_with (ok (index_with locked))) (server_with (err (codes "no such file")))
      (request level_query) server_error server_error locked_error closed_error refl (omega arith)

abbrev cut_off : Bytes
cut_off = codes "level="

abbrev bad_query : Response
bad_query = record {
  status = 400;
  content_type = codes "application/json";
  body = codes "{\"error\":query parse error at position 6: no}";
}

abbrev level_args : QueryArgs
level_args = record { query = level_query; output = json_output; limit = 0; offset = 7 }

level_query_trimmed : trim level_query ≡ level_query
unfolding trim
level_query_trimmed = refl

level_query_nonempty : is_empty level_query ≡ false
unfolding is_empty
level_query_nonempty = refl

query_handler-handle_query_example :
    handle (server_with (ok (index_with one_row))) (request_of level_args)
    ≡ response_to same_text no_words same_text raw_json no_float empty_map clock ascii_lower 5
        (server_with (ok (index_with one_row)))
        (handle_query no_float empty_map clock ascii_lower 5 level_args (ok one_row))
query_handler-handle_query_example =
    query_handler-handle_query same_text no_words same_text raw_json no_float empty_map clock
      ascii_lower 5 (server_with (ok (index_with one_row))) (index_with one_row) level_args refl
      level_query_trimmed level_query_nonempty

abbrev any_value : Bytes → Bool
any_value s = true

abbrev two_origins : Option Bytes
two_origins = some (codes "http://a, http://b,")

two_origins_parsed :
    parse_cors_origins any_value two_origins ≡ ok (codes "http://a" ∷ codes "http://b" ∷ [])
unfolding parse_cors_origins trim equals is_empty
two_origins_parsed = refl

abbrev fresh_volume : Disk
fresh_volume = record { db = none; parent_exists = true }

abbrev all_goes_well : OpenAnswers
all_goes_well = record {
  parent = some (codes "/data");
  makes_parent = ok tt;
  creates_dir = ok tt;
  opens = ok tt;
  inits = ok tt;
}

abbrev server_args : ServerArgs
server_args = record {
  db = some (codes "/data/index.db");
  port = 4000;
  host = codes "0.0.0.0";
  cors_origins = two_origins;
  health_check = false;
}

abbrev good_world : ServerWorld
good_world = record {
  home = none;
  connects = true;
  disk = all_goes_well;
  parses_addr = ok tt;
  binds = ok tt;
  local_addr = ok tt;
  serves = ok tt;
}

-- On a fresh volume the server makes an empty index and serves.
fresh_start : api_main any_value server_args good_world fresh_volume ≡ (
  served (some (get_from (codes "http://a" ∷ codes "http://b" ∷ []))) (ok tt),
  record fresh_volume { db = some [] },
)
unfolding api_main parse_cors_origins ensure_index_exists trim equals is_empty
fresh_start = refl

-- When the port is taken, `main` returns the error, and the index is there.
port_taken :
    api_main any_value server_args (record good_world { binds = err (codes "in use") }) fresh_volume
    ≡ (
      returned (err (raised (io (codes "/data/index.db") (codes "in use")))),
      record fresh_volume { db = some [] },
    )
unfolding api_main parse_cors_origins ensure_index_exists trim equals is_empty
port_taken = refl

default_db : db_path none (some (codes "/home/me")) ≡ codes "/home/me/.logdive/index.db"
unfolding db_path
default_db = refl
