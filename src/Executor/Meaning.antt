-- ===== src/Executor/Meaning.antt =====
-- The SQL that the executor builds says what the query says.
mod Texts
mod Leaves
mod Clauses
pub mod Accepted
pub mod Refusal
use logdive.Prelude.{
  ◌++◌, Bool-cases, [], false, inl, inr, refl, true, ◌∷◌, ◌≡◌, ◌≢◌, List, &&-eq_true, arith, ℕ,
  append-nil, Option,
}
use logdive.Bytes.{Bytes, codes, equals}
use logdive.Executor.Chrono.{Chrono}
use logdive.Query.Ast.{
  CompareOp, Duration, QueryValue, AndGroup, Clause, QueryNode, clauses, compare, contains, group,
  groups, last_duration, no_clauses, no_groups, since_datetime, string,
}
use logdive.Prelude.Result.{
  Ensures, ok, Ensures-self, holds, Ensures-bind, Ensures-map, Ensures-eq_err, Ensures-eq_ok, err,
}
use logdive.Executor.Failure.{Failure, SqlValue, unsafe_field_name, QueryOptions}
use logdive.Executor.Formula.{
  Formula, SqlAnd, SqlOr, SqlTerm, and_join, and_one, both, compares, either, is_like, or_join,
  or_one, parenthesized, compare_term, SaysAll, SaysAny, SaysClause, like_term, says_both,
  says_compare, says_contains, says_either, says_group, says_last, says_one, says_one_group,
  says_since, time_term,
}
use logdive.Query.Grammar.{IsFieldName}
use logdive.Executor.Sql.{
  and_group_sql, column_for_field, escape_like, group_sql, is_known_key, is_safe_json_path_segment,
  join, known_keys, level_field, where_sql, value_to_bind, Fragment, order_sql, paging_sql,
  select_sql,
}
use logdive.Executor.Translate.{
  compute_last_cutoff, parse_datetime, translate_compare, translate_contains, level_bind,
  translate_clause, translate_clauses, translate_groups, build_sql,
}
use logdive.Query.Parser.Leaves.{is_field_character, is_field_start}
use logdive.Query.Parser.{parse}
use logdive.Query.WellFormed.{
  parse-IsWellFormed, IsWellFormed, IsWellFormedGroup, IsWellFormedQuery,
}
use logdive.Executor.Meaning.Texts.{NotUnsafe, where_sql-SqlOr}
use logdive.Executor.Meaning.Clauses.{translate_groups-Ensures}
use logdive.Executor.Atoms.{IsPaging}
use logdive.Executor.Meaning.Leaves.{paging_sql-IsPaging}

-- The SELECT of a query: its WHERE text, read by SQL's precedence with the bound values in order, says
-- the formula of the query.
pub record Selects (chrono : Chrono) (to_lowercase : Bytes → Bytes) (now : chrono.DateTime)
    (q : QueryNode) (opts : QueryOptions) (sql : Fragment) : Type 0 where
  pub formula : Formula
  pub condition : Bytes
  pub query_says : SaysAny chrono to_lowercase now q formula
  pub condition_says : SqlOr condition sql.1 formula
  pub paging : Bytes
  pub pages : IsPaging opts.limit opts.offset paging
  pub statement :
      sql.0
      ≡ codes "SELECT timestamp, level, message, tag, fields, raw FROM log_entries WHERE "
        ++ (condition ++ (codes " ORDER BY timestamp DESC, id DESC" ++ paging))

module _ (chrono : Chrono) (to_lowercase : Bytes → Bytes) (now : chrono.DateTime) where
  pub build_sql-Ensures :
      (q : QueryNode) (opts : QueryOptions)
      → IsWellFormedQuery q
      → Ensures NotUnsafe
          (Selects chrono to_lowercase now q opts)
          (build_sql chrono to_lowercase now q opts)
  unfolding build_sql
  build_sql-Ensures q opts h =
      Ensures-bind (translate_groups-Ensures chrono to_lowercase now q h) λ (ss, b) (φ, says, r).
        holds (record {
          formula = φ;
          condition = where_sql ss;
          query_says = says;
          condition_says = where_sql-SqlOr r;
          paging = paging_sql opts;
          pages = paging_sql-IsPaging opts;
          statement = refl;
        })

  -- For a query from the parser, whatever SQL `build_sql` returns is the SELECT of the rows, newest
  -- first, with LIMIT and OFFSET as asked for, whose WHERE text, with AND binding tighter than OR and
  -- the bound values taken in order, says what the query says: the columns and operators, the values
  -- (a Boolean as 1 or 0), the LIKE patterns, the cutoffs and the dates are those of the independent
  -- description in Executor/Atoms.
  pub build_sql-parse :
      (parse_f64 : Bytes → Option ℕ) (input : Bytes) (q : QueryNode) (opts : QueryOptions)
      (sql : Fragment)
      → parse parse_f64 input ≡ ok q
      → build_sql chrono to_lowercase now q opts ≡ ok sql
      → Selects chrono to_lowercase now q opts sql
  build_sql-parse parse_f64 input q opts sql p h =
      Ensures-eq_ok (build_sql-Ensures q opts (parse-IsWellFormed parse_f64 input q p)) h

  -- A query from the parser is never refused for an unsafe field name: the executor's check accepts
  -- every field name that the grammar does.
  pub build_sql-parse-safe :
      (parse_f64 : Bytes → Option ℕ) (input field : Bytes) (q : QueryNode) (opts : QueryOptions)
      → parse parse_f64 input ≡ ok q
      → build_sql chrono to_lowercase now q opts ≢ err (unsafe_field_name field)
  build_sql-parse-safe parse_f64 input field q opts p h =
      Ensures-eq_err (build_sql-Ensures q opts (parse-IsWellFormed parse_f64 input q p)) h field
        refl
