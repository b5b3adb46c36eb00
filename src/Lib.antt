-- ===== src/Lib.antt =====
-- Verification of logdive, a tool that indexes log lines into SQLite and searches them with a small
-- query language.
--
-- Query models crates/core/src/query.rs: Query/Ast the syntax tree, Query/Token and Query/Tokenizer
-- `tokenize`, Query/Parser, with Query/Parser/Leaves for single tokens, the recursive descent from
-- `parse` down. Text is a list of its UTF-8 bytes. Query/Grammar is the grammar as an inductive
-- relation on tokens, against which Query/Sound and Query/Complete hold the parser;
-- Query/Tokenizer/Spelling says how tokens lie in the input. Parsing an f64 is a parameter, and so
-- is the bit pattern it returns.
--
-- Executor models the SQL generation of crates/core/src/executor.rs: Executor/Sql the pieces of
-- text, Executor/Translate `build_sql`, `translate_and_group` and `translate_clause` with the bound
-- values. Executor/Atoms describes single clauses independently of the code, their columns,
-- operators, values, patterns and times, and Executor/Formula reads SQL text back: its relations
-- give AND and OR their precedence in SQL and take the placeholders' values in order, and they say
-- independently what a query means. Executor/Shape compares queries that differ in values,
-- Executor/Like states what the program relies on of SQLite's LIKE. chrono is the record
-- Executor/Chrono, Unicode lower-casing a parameter. Executor/Meaning/Accepted says independently
-- which queries are translated.
--
-- Follow models crates/core/src/follow.rs: Follow/Tailer is `FileTailer` with its open handle,
-- Follow/Lines the splitting into lines. What the operating system answers during a call (metadata,
-- open, seek, reads) is an argument of it.
--
-- Bytes has what these parts use of Rust's standard library on bytes and numbers, Prelude the shared
-- types and lemmas. The tokenizer has one unit of fuel for each byte and one more, the parser four
-- for each token and four more, and running out is a result of its own, which the theorems exclude.
--
-- Entry is crates/core/src/entry.rs. Parsers models crates/core/src/parsers: Parsers/Logfmt the
-- scanner of logfmt.rs and Parsers/Logfmt/Line its `parse_line`, Parsers/Json json.rs with
-- `serde_json::from_str` a parameter, Parsers/Format mod.rs and plain.rs, Parsers/Blank the test for
-- a blank line. `None` is the error `skipped`.
--
-- Indexer models crates/core/src/indexer.rs: Indexer/Table says what the program's SQL statements do
-- to a table of rows, Indexer/Batch is `insert_batch` with its transactions, over statements that
-- may fail, Indexer/Prune is `prune`. Indexer/Sequential, Indexer/Prefix and Indexer/HashSet are
-- abstract views of `insert_batch`: one entry after another, whole chunks, and the set of hashes, a
-- quotient. blake3 and the JSON text of the fields are parameters.
--
-- Error models crates/core/src/error.rs. Executor/Run is `execute` and `run`, over a connection that
-- answers statements row by row. Indexer/Stats is `Indexer::stats`, Indexer/Open `db_path`, `open`
-- and `open_read_only` on a disk that has the rows of the database file, if there is one;
-- create_dir_all, SQLite's opening and its schema answer well or with an error.
--
-- Cli models crates/cli. In crates/cli/src/main.rs, Cli/IngestCommand is `handle_ingest`, Cli/Ingest
-- `ingest_reader` and `ingest_lines`, on the parsers and the indexer, with the counts in Cli/Account
-- and Cli/Summary and the batches in Cli/Batching over Indexer/Sequential; Cli/Watch is
-- `run_watch_loop`: a list of rounds says what ended each wait (an event, a second without one, the
-- stop flag, a closed channel) and what the system answers to the tailer in it, so that a loop over
-- the rounds so far has returned or waits for the next; Cli/QueryCommand is `handle_query` up to the
-- rendering. Cli/Stats is stats_cmd.rs beside it, Cli/Render and Cli/Output are render.rs. For the
-- `prune` command, crates/cli/src/prune_cmd.rs, Cli/Cutoff has the flags and durations, Cli/Prune
-- and Cli/Outcome `run_prune` with what the file system, the database and the terminal answer in a
-- record `World`, and Cli/Agree compares the cutoffs with those of queries. They read chrono through
-- Executor/Chrono and delete through Indexer/Prune.
--
-- Api models crates/api/src: Api/AppError is error.rs, Api/State `AppState::with_connection` of
-- state.rs with the panic of its task, Api/Handlers handlers.rs, Api/Cors the origins from
-- `parse_cors_origins` of main.rs to `build_cors_layer` of router.rs, Api/Start
-- `ensure_index_exists` and Api/Main `main` of main.rs, up to the end of `axum::serve`; it ends by
-- `process::exit` or by returning, with an error perhaps, which ends the process with code 1 as
-- well. Api/Pieces describes the text of the origins independently. The handlers call Query/Parser,
-- Executor/Run and Indexer/Stats as the CLI does. Api/Origin follows an error from where it arises
-- to the response.
--
-- Not modelled: the texts printed to the terminal and logged, the command line's parsing by clap,
-- and of the API the shutdown signals and the routes that axum serves. SQLite, chrono, serde_json,
-- blake3, Unicode case and the text of floats are parameters. The order of a map's keys is not
-- modelled, nor are the benchmarks.

pub mod Prelude
pub mod Bytes
pub mod Query
pub mod Error
pub mod Executor
pub mod Follow
pub mod Entry
pub mod Parsers
pub mod Indexer
pub mod Cli
pub mod Api
pub mod Tests
