-- ===== src/Cli/QueryCommand.antt =====
-- `handle_query` of crates/cli/src/main.rs, with Cli/Output for the rendering: the query, the options and the index.
use logdive.Bytes.{Bytes}
use logdive.Executor.Chrono.{Chrono}
use logdive.Executor.Run.{Connection, execute}
use logdive.Entry.{Fields, LogEntry}
use logdive.Prelude.{List, Option, none, some, suc, zero, ℕ}
use logdive.Error.{Outcome, query_parse, raised}
use logdive.Query.Ast.{QueryNode}
use logdive.Executor.Failure.{QueryOptions}
use logdive.Query.Token.{QueryResult}
use logdive.Prelude.Result.{Result, err, ok, out_of_fuel, ◌>>=◌}
use logdive.Query.Parser.{parse}
use logdive.Cli.Render.{OutputFormat}

pub record QueryArgs : Type 0 where
  pub query : Bytes
  pub output : OutputFormat
  pub limit : ℕ
  pub offset : ℕ

-- 0 stands for no limit, and for no offset.
abbrev pub nonzero : ℕ → Option ℕ
nonzero zero = none
nonzero (suc n) = some (suc n)

unfoldable pub query_options : QueryArgs → QueryOptions
query_options args = record { limit = nonzero args.limit; offset = nonzero args.offset }

module _ (parse_f64 : Bytes → Option ℕ) (map_from_str : Bytes → Result Bytes Fields)
    (chrono : Chrono) (to_lowercase : Bytes → Bytes) (now : chrono.DateTime) where
  unfoldable pub parsed_query : QueryResult QueryNode → Outcome QueryNode
  parsed_query (ok ast) = ok ast
  parsed_query (err e) = err (raised (query_parse e))
  parsed_query out_of_fuel = out_of_fuel

  -- With what `Indexer::open` gives.
  unfoldable pub handle_query : QueryArgs → Outcome Connection → Outcome (List LogEntry)
  unfolding parsed_query query_options execute parse
  handle_query args opening = do
    ast ← parsed_query (parse parse_f64 args.query)
    conn ← opening
    execute map_from_str chrono to_lowercase now ast conn (query_options args)
