-- ===== src/Api/Fault.antt =====
-- When GET /query of crates/api answers 400.
use logdive.Bytes.{Bytes}
use logdive.Executor.Chrono.{Chrono}
use logdive.Executor.Run.{Connection, run_built, execute}
use logdive.Executor.Failure.{Failure, QueryOptions}
use logdive.Entry.{Fields, LogEntry}
use logdive.Executor.Sql.{Fragment}
use logdive.Prelude.{Option, ap, none, some, ℕ, ◌≡◌}
use logdive.Query.Token.{Message, QueryParseError}
use logdive.Api.Origin.{Origin}
use logdive.Query.Ast.{QueryNode}
use logdive.Api.Handlers.{QueryParams, options_of, query_text, parsed, run_query}
use logdive.Prelude.Result.{Result, err, ok}
use logdive.Api.State.{Server, join, Index, blocking, with_connection}
use logdive.Api.Alike.{answer, respond}
use logdive.Executor.Translate.{build_sql}
use logdive.Query.Parser.{parse}
use logdive.Api.AppError.{Response}

module _ (debug : Bytes → Bytes) (words : Message → Bytes) (json_string : Bytes → Bytes)
    (entry_to_json : LogEntry → Option Bytes) (parse_f64 : Bytes → Option ℕ)
    (map_from_str : Bytes → Result Bytes Fields) (chrono : Chrono) (to_lowercase : Bytes → Bytes)
    (now : chrono.DateTime) where
  -- The parameters carry no query, or a text that is none, or a query with a date that is none.
  pub data IsFaulty (p : QueryParams) : Type 0 where
    no_query : query_text p.q ≡ none → IsFaulty p
    not_parsed :
        (input : Bytes) (e : QueryParseError)
        → query_text p.q ≡ some input
        → parse parse_f64 input ≡ err e
        → IsFaulty p
    bad_datetime :
        (input date : Bytes) (ast : QueryNode)
        → query_text p.q ≡ some input
        → parse parse_f64 input ≡ ok ast
        → build_sql chrono to_lowercase now ast (options_of p) ≡ err (Failure.invalid_datetime date)
        → IsFaulty p

  -- The response on an open index, from the translation of the query.
  abbrev pub built_answer : Server → Connection → Result Failure Fragment → Option Response
  built_answer s conn b =
      answer debug words json_string entry_to_json (join s (run_built map_from_str conn b))

  -- On an open index the handler's answer to a parsed query is that from its translation.
  pub parsed_answer :
      (s : Server) (index : Index) (o : QueryOptions) (ast : QueryNode)
      → s.opening ≡ ok index
      → respond json_string (
          parsed debug words parse_f64 map_from_str entry_to_json chrono to_lowercase now s o
            (ok ast))
        ≡ built_answer s index.connection (build_sql chrono to_lowercase now ast o)
  unfolding parsed with_connection blocking run_query execute
  parsed_answer s index o ast h =
      ap
        (λ opening. answer debug words json_string entry_to_json (
          join s (
            blocking opening (
              run_query debug words parse_f64 map_from_str entry_to_json chrono to_lowercase now ast
                o))))
        h

  -- The status of an answer.
  abbrev HasStatus : ℕ → Option Response → Type 0
  HasStatus n none = Unit
  HasStatus n (some r) = r.status ≡ n
