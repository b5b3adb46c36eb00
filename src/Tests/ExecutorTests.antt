-- ===== src/Tests/ExecutorTests.antt =====
-- The translation of crates/core/src/executor.rs on concrete queries, with a chrono that counts seconds.
-- Its texts are unary: one byte for each second.
use logdive.Query.Ast.{seconds}
use logdive.Prelude.{◌-◌, [], if◌then◌else◌, leb, none, refl, some, suc, zero, ℕ, ◌∷◌, ◌≡◌, ◌↔◌}
use logdive.Bytes.{Bytes, codes, equals, to_ascii_lowercase}
use logdive.Executor.Chrono.{Chrono}
use logdive.Query.Ast.{
  CompareOp, QueryNode, clauses, compare, days, groups, last_duration, no_clauses, no_groups,
  string,
}
use logdive.Executor.Sql.{
  Fragment, and_group_sql, column_for_field, compare_sql, is_known_key, join, op_text, paging_sql,
  value_to_bind, where_sql, cutoff_seconds,
}
use logdive.Executor.Failure.{Failure, QueryOptions, panic, text}
use logdive.Executor.Translate.{build_sql, translate_clause, translate_compare, compute_last_cutoff}
use logdive.Bytes.Decimal.{decimal}
use logdive.Prelude.Result.{ok, err}
use logdive.Executor.Meaning.{Selects, build_sql-parse}
use logdive.Query.Parser.{parse}
use logdive.Executor.Meaning.Accepted.{FailsWithQuery, IsAcceptedQuery}
use logdive.Executor.Meaning.Refusal.{build_sql-parse-iff-IsAccepted}

abbrev pub unary : ℕ → Bytes
unary zero = []
unary (suc n) = b'1' ∷ unary n

abbrev pub clock : Chrono
clock = record {
  DateTime = ℕ;
  NaiveDateTime = ℕ;
  NaiveDate = ℕ;
  Delta = ℕ;
  parse_from_rfc3339 = λ s. if equals s (codes "Z") then some 0 else none;
  parse_naive_datetime = λ s fmt. none;
  parse_naive_date = λ s fmt. none;
  at_midnight = λ d. d;
  from_utc_datetime = λ t. t;
  to_rfc3339 = unary;
  seconds = λ n. if leb n 9223372036854775 then some n else none;
  checked_sub_signed = λ t d. if leb d t then some (t - d) else none;
  unix_epoch = 0;
}

abbrev pub ascii_lower : Bytes → Bytes
ascii_lower = to_ascii_lowercase

abbrev pub level_query : Bytes
level_query = codes "level=ERROR OR tag=api"

abbrev pub level_tree : QueryNode
level_tree =
    groups (clauses (compare (codes "level") CompareOp.eq (string (codes "ERROR"))) no_clauses) (
      groups (clauses (compare (codes "tag") CompareOp.eq (string (codes "api"))) no_clauses)
        no_groups)

abbrev pub no_options : QueryOptions
no_options = record { limit = none; offset = some 7 }

abbrev pub level_sql : Fragment
level_sql = (
  codes
      "SELECT timestamp, level, message, tag, fields, raw FROM log_entries WHERE (lower(level) = ?) OR (tag = ?) ORDER BY timestamp DESC, id DESC LIMIT -1 OFFSET 7",
  text (codes "error") ∷ text (codes "api") ∷ [],
)

pub build_sql-level_tree : build_sql clock ascii_lower 5 level_tree no_options ≡ ok level_sql
unfolding build_sql translate_clause translate_compare column_for_field is_known_key equals
    value_to_bind compare_sql op_text and_group_sql where_sql join paging_sql decimal
build_sql-level_tree = refl

parse-level_query : parse (λ s. none) level_query ≡ ok level_tree
unfolding parse
parse-level_query = refl

build_sql-parse_example : Selects clock ascii_lower 5 level_tree no_options level_sql
build_sql-parse_example =
    build_sql-parse clock ascii_lower 5 (λ s. none) level_query level_tree no_options level_sql
      parse-level_query build_sql-level_tree

abbrev huge_query : Bytes
huge_query = codes "last 9999999999999999d"

abbrev huge_tree : QueryNode
huge_tree =
    groups (clauses (last_duration (record { amount = 9999999999999999; unit = days })) no_clauses)
      no_groups

parse-huge_query : parse (λ s. none) huge_query ≡ ok huge_tree
unfolding parse
parse-huge_query = refl

-- A duration that parses and that chrono does not take.
huge_query_panics : build_sql clock ascii_lower 5 huge_tree no_options ≡ err panic
unfolding build_sql translate_clause compute_last_cutoff cutoff_seconds seconds
huge_query_panics = refl

build_sql-parse-iff-IsAccepted_example :
    let r = build_sql clock ascii_lower 5 huge_tree no_options in
    (((sql : Fragment) × (r ≡ ok sql)) ↔ IsAcceptedQuery clock 5 huge_tree)
    × ((e : Failure) → (r ≡ err e) ↔ FailsWithQuery clock 5 e huge_tree)
build_sql-parse-iff-IsAccepted_example =
    build_sql-parse-iff-IsAccepted clock 5 ascii_lower (λ s. none) huge_query huge_tree no_options
      parse-huge_query
