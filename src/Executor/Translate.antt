-- ===== src/Executor/Translate.antt =====
-- `build_sql` of crates/core/src/executor.rs and what it calls. `str::to_lowercase` (Unicode) is the
-- parameter `to_lowercase`.
use logdive.Prelude.{◌++◌, Option, [], if◌then◌else◌, none, some, ◌∷◌, map_option, first_of}
use logdive.Query.Ast.{
  AndGroup, Clause, CompareOp, Duration, QueryNode, QueryValue, clauses, compare, contains, group,
  groups, last_duration, no_clauses, no_groups, since_datetime, string,
}
use logdive.Executor.Chrono.{Chrono}
use logdive.Executor.Failure.{Failure, QueryOptions, SqlValue, invalid_datetime, panic}
use logdive.Executor.Sql.{
  Fragment, Fragments, and_group_sql, column_for_field, compare_sql, cutoff_seconds, escape_like,
  group_sql, level_column, level_field, like_sql, order_sql, paging_sql, select_sql, timestamp_sql,
  value_to_bind, where_sql,
}
use logdive.Prelude.Result.{Result, err, ok, ◌>>=◌}
use logdive.Bytes.{codes, equals, Bytes}

abbrev unwrap_or : {A : Type 0} → Option A → A → A
unwrap_or none d = d
unwrap_or (some a) d = a

module _ (chrono : Chrono) where
  open chrono use {
    DateTime, parse_from_rfc3339, parse_naive_datetime, parse_naive_date, at_midnight,
    from_utc_datetime, to_rfc3339, seconds as delta_seconds, checked_sub_signed, unix_epoch,
  }

  unfoldable pub compute_last_cutoff : Duration → DateTime → Result Failure DateTime
  compute_last_cutoff d now = elim (delta_seconds (cutoff_seconds d)) [
    | none ↦ err panic
    | some delta ↦ ok (unwrap_or (checked_sub_signed now delta) unix_epoch)
  ]

  unfoldable pub parse_datetime : Bytes → Result Failure DateTime
  parse_datetime s =
      let naive = λ (fmt : Bytes). map_option from_utc_datetime (parse_naive_datetime s fmt) in
      let date =
        map_option (λ d. from_utc_datetime (at_midnight d))
          (parse_naive_date s (codes "%Y-%m-%d")) in
      elim (first_of (parse_from_rfc3339 s) (
        first_of (naive (codes "%Y-%m-%dT%H:%M:%S"))
          (first_of (naive (codes "%Y-%m-%d %H:%M:%S")) date))) [
            | none ↦ err (invalid_datetime s)
            | some dt ↦ ok dt
          ]

  module _ (to_lowercase : Bytes → Bytes) (now : DateTime) where
    unfoldable pub level_bind : QueryValue → SqlValue
    level_bind (string s) = SqlValue.text (to_lowercase s)
    level_bind v = value_to_bind v

    unfoldable pub translate_compare : Bytes → CompareOp → QueryValue → Result Failure Fragment
    unfolding level_bind
    translate_compare field op value =
        if equals field level_field
        then ok (compare_sql level_column op, level_bind value ∷ [])
        else (do
          column ← column_for_field field
          ok (compare_sql column op, value_to_bind value ∷ []))

    unfoldable pub like_bind : Bytes → SqlValue
    like_bind value = SqlValue.text (codes "%" ++ (escape_like value ++ codes "%"))

    unfoldable pub translate_contains : Bytes → Bytes → Result Failure Fragment
    unfolding like_bind
    translate_contains field value =
        if equals field level_field
        then ok (like_sql level_column, like_bind (to_lowercase value) ∷ [])
        else (do column ← column_for_field field; ok (like_sql column, like_bind value ∷ []))

    unfoldable mutual
      pub translate_clause : Clause → Result Failure Fragment
      translate_clause (compare field op value) = translate_compare field op value
      translate_clause (contains field value) = translate_contains field value
      translate_clause (last_duration d) = do
        cutoff ← compute_last_cutoff d now
        ok (timestamp_sql, SqlValue.text (to_rfc3339 cutoff) ∷ [])
      translate_clause (since_datetime s) = do
        dt ← parse_datetime s
        ok (timestamp_sql, SqlValue.text (to_rfc3339 dt) ∷ [])
      translate_clause (group node) = do
        (sqls, binds) ← translate_groups node
        ok (group_sql sqls, binds)

      -- The loop of `translate_and_group` over the clauses.
      pub translate_clauses : AndGroup → Result Failure Fragments
      translate_clauses no_clauses = ok ([], [])
      translate_clauses (clauses c cs) = do
        (sql, binds) ← translate_clause c
        (sqls, more) ← translate_clauses cs
        ok (sql ∷ sqls, binds ++ more)

      -- The loops of `build_sql` and `translate_clause` over the groups, with `translate_and_group`.
      pub translate_groups : QueryNode → Result Failure Fragments
      translate_groups no_groups = ok ([], [])
      translate_groups (groups g gs) = do
        (inner, binds) ← translate_clauses g
        (sqls, more) ← translate_groups gs
        ok (and_group_sql inner ∷ sqls, binds ++ more)

    unfoldable pub build_sql : QueryNode → QueryOptions → Result Failure Fragment
    build_sql query opts = do
      (sqls, binds) ← translate_groups query
      ok (select_sql ++ (where_sql sqls ++ (order_sql ++ paging_sql opts)), binds)
