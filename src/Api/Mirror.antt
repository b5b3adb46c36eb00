-- ===== src/Api/Mirror.antt =====
-- GET /query of crates/api finds what the command `query` of crates/cli finds.
use logdive.Executor.Run.{Connection, execute}
use logdive.Api.State.{join, Index, Server}
use logdive.Cli.QueryCommand.{QueryArgs, handle_query, nonzero, parsed_query, query_options}
use logdive.Api.Handlers.{
  QueryParams, options_of, or_app_error, parsed, query_handler, query_text, with_query,
  zero_is_none,
}
use logdive.Prelude.Result.{ok, Result, err, out_of_fuel, ◌>>=◌}
use logdive.Prelude.{some, ◌≡◌, List, Option, ap, false, none, refl, suc, zero, ℕ, ◌∙◌}
use logdive.Bytes.{Bytes, is_empty}
use logdive.Executor.Chrono.{Chrono}
use logdive.Entry.{Fields, LogEntry}
use logdive.Query.Token.{Message, QueryResult}
use logdive.Error.{Outcome}
use logdive.Query.Ast.{QueryNode}
use logdive.Executor.Failure.{QueryOptions}
use logdive.Api.AppError.{Response}
use logdive.Api.Alike.{answer, respond, some_eq}
use mathlib.Core.Path.{ap₂}
use logdive.Query.Parser.{parse}
use logdive.Api.Fault.{parsed_answer}
use logdive.Bytes.White.{trim}

-- The request with these arguments.
abbrev pub request_of : QueryArgs → QueryParams
request_of args = record { q = some args.query; limit = some args.limit; offset = some args.offset }

same_number : (n : ℕ) → zero_is_none n ≡ nonzero n
same_number zero = refl
same_number (suc n) = refl

same_options : (args : QueryArgs) → options_of (request_of args) ≡ query_options args
unfolding options_of query_options
same_options args =
    ap₂ (λ l o. record { limit = l; offset = o }) (same_number args.limit) (same_number args.offset)

same_text : (q : Bytes) → trim q ≡ q → is_empty q ≡ false → query_text (some q) ≡ some q
unfolding query_text
same_text q t e = rw t (rw e refl)

module _ (debug : Bytes → Bytes) (words : Message → Bytes) (json_string : Bytes → Bytes)
    (entry_to_json : LogEntry → Option Bytes) (parse_f64 : Bytes → Option ℕ)
    (map_from_str : Bytes → Result Bytes Fields) (chrono : Chrono) (to_lowercase : Bytes → Bytes)
    (now : chrono.DateTime) where
  -- The response to what the command finds, or fails with.
  abbrev pub response_to : Server → Outcome (List LogEntry) → Option Response
  response_to s found = answer debug words json_string entry_to_json (join s found)

  -- What the command does with the parsed query.
  abbrev after_parse : QueryOptions → Connection → QueryResult QueryNode → Outcome (List LogEntry)
  after_parse o conn q = do
    ast ← parsed_query parse_f64 map_from_str chrono to_lowercase now q
    execute map_from_str chrono to_lowercase now ast conn o

  parsed_mirrors :
      (s : Server) (index : Index) (o : QueryOptions) (q : QueryResult QueryNode)
      → s.opening ≡ ok index
      → respond json_string
          (parsed debug words parse_f64 map_from_str entry_to_json chrono to_lowercase now s o q)
        ≡ response_to s (after_parse o index.connection q)
  unfolding parsed_query parsed execute join or_app_error
  parsed_mirrors s index o (ok ast) opens =
      parsed_answer debug words json_string entry_to_json parse_f64 map_from_str chrono to_lowercase
        now s index o ast opens
  parsed_mirrors s index o (err e) opens = refl
  parsed_mirrors s index o out_of_fuel opens = refl

  with_query_mirrors :
      (s : Server) (index : Index) (o : QueryOptions) (q : Option Bytes) (input : Bytes)
      → s.opening ≡ ok index
      → q ≡ some input
      → respond json_string (
          with_query debug words parse_f64 map_from_str entry_to_json chrono to_lowercase now s o q)
        ≡ response_to s (after_parse o index.connection (parse parse_f64 input))
  unfolding with_query
  with_query_mirrors s index o none input opens h = cc h
  with_query_mirrors s index o (some other) input opens h =
      parsed_mirrors s index o (parse parse_f64 other) opens
      ∙ ap (λ x. response_to s (after_parse o index.connection (parse parse_f64 x))) (some_eq h)

  -- On the same index, a query that is not empty and has no white space around it, with the same limit
  -- and offset, gets over HTTP the response to what the command `query` finds or fails with.
  pub query_handler-handle_query :
      (s : Server) (index : Index) (args : QueryArgs)
      → s.opening ≡ ok index
      → trim args.query ≡ args.query
      → is_empty args.query ≡ false
      → respond json_string (
          query_handler debug words parse_f64 map_from_str entry_to_json chrono to_lowercase now s
            (request_of args))
        ≡ response_to s
            (handle_query parse_f64 map_from_str chrono to_lowercase now args (ok index.connection))
  unfolding query_handler handle_query
  query_handler-handle_query s index args opens t e =
      with_query_mirrors s index (options_of (request_of args)) (query_text (some args.query))
        args.query opens (same_text args.query t e)
      ∙ ap (λ o. response_to s (after_parse o index.connection (parse parse_f64 args.query)))
          (same_options args)
