-- ===== src/Executor/Meaning/Clauses.antt =====
-- The translations of clauses and groups of crates/core/src/executor.rs, with what they say.
use logdive.Prelude.{Bool-cases, inl, inr, refl, append-nil}
use logdive.Bytes.{Bytes, equals}
use logdive.Executor.Chrono.{Chrono}
use logdive.Query.Ast.{
  CompareOp, QueryValue, AndGroup, Clause, QueryNode, clauses, compare, contains, group, groups,
  last_duration, no_clauses, no_groups, since_datetime,
}
use logdive.Prelude.Result.{Ensures, holds, Ensures-bind, Ensures-map}
use logdive.Executor.Failure.{SqlValue}
use logdive.Executor.Formula.{
  Formula, SqlTerm, both, compares, either, is_like, SaysAll, SaysAny, SaysClause, says_both,
  says_compare, says_contains, says_either, says_group, says_last, says_one, says_one_group,
  says_since, time_term,
}
use logdive.Query.Grammar.{IsFieldName}
use logdive.Executor.Sql.{and_group_sql, level_field, value_to_bind}
use logdive.Executor.Translate.{
  translate_compare, translate_contains, level_bind, translate_clause, translate_clauses,
  translate_groups,
}
use logdive.Query.WellFormed.{IsWellFormed, IsWellFormedGroup, IsWellFormedQuery}
use logdive.Executor.Meaning.Texts.{
  ClausesSay, ClausesSay-cons, ClausesSay-one, GroupsSay, GroupsSay-cons, NotUnsafe,
  and_group_sql-SqlTerm, group_sql-SqlTerm, single,
}
use logdive.Executor.Meaning.Leaves.{
  ColumnOf-level, column_for_field-ColumnOf, compare_sql-SqlTerm, compute_last_cutoff-IsCutoff,
  level_bind-ValueOf, like_bind-PatternOf, like_sql-SqlTerm, not_level, parse_datetime-IsTime,
  value_to_bind-ValueOf,
}
use logdive.Executor.Atoms.{PatternOf, ValueOf, level_string, other_string}
use logdive.Bytes.Laws.{equals_iff}

module _ (chrono : Chrono) (to_lowercase : Bytes → Bytes) (now : chrono.DateTime) where
  translate_compare-Ensures :
      (field : Bytes) (op : CompareOp) (value : QueryValue)
      → IsFieldName field
      → Ensures NotUnsafe
          (λ (s, b).
            (v : SqlValue) × ValueOf chrono to_lowercase now field value v
            × SqlTerm s b (compares field op v))
          (translate_compare chrono to_lowercase now field op value)
  unfolding translate_compare
  translate_compare-Ensures field op value h = elim (Bool-cases (equals field level_field)) [
    | inl e ↦ rw e (
        holds (
          level_bind chrono to_lowercase now value,
          level_bind-ValueOf chrono to_lowercase now field value e,
          compare_sql-SqlTerm op (ColumnOf-level field e),
        ))
    | inr e ↦
        (let (column, found, is_column) = column_for_field-ColumnOf field h e in
          rw (e, found)
            (holds (
              value_to_bind value,
              value_to_bind-ValueOf chrono to_lowercase now field value e,
              compare_sql-SqlTerm op is_column,
            )))
  ]

  translate_contains-Ensures :
      (field value : Bytes)
      → IsFieldName field
      → Ensures NotUnsafe
          (λ (s, b).
            (v : SqlValue) × PatternOf chrono to_lowercase now field value v
            × SqlTerm s b (is_like field v))
          (translate_contains chrono to_lowercase now field value)
  unfolding translate_contains
  translate_contains-Ensures field value h = elim (Bool-cases (equals field level_field)) [
    | inl e ↦ rw e (
        holds (
          _,
          like_bind-PatternOf chrono to_lowercase now
              (level_string ((equals_iff field level_field).0 e)),
          like_sql-SqlTerm (ColumnOf-level field e),
        ))
    | inr e ↦
        (let (column, found, is_column) = column_for_field-ColumnOf field h e in
          rw (e, found)
            (holds (
              _,
              like_bind-PatternOf chrono to_lowercase now (other_string (not_level field e)),
              like_sql-SqlTerm is_column,
            )))
  ]

  mutual
    unfolding translate_clause

    translate_clause-Ensures :
        (c : Clause)
        → IsWellFormed c
        → Ensures NotUnsafe
            (λ (s, b). (φ : Formula) × SaysClause chrono to_lowercase now c φ × SqlTerm s b φ)
            (translate_clause chrono to_lowercase now c)
    translate_clause-Ensures (compare field op value) h =
        Ensures-map (translate_compare-Ensures field op value h)
          λ _ (v, says, r). (compares field op v, says_compare says, r)
    translate_clause-Ensures (contains field value) h =
        Ensures-map (translate_contains-Ensures field value h)
          λ _ (v, says, r). (is_like field v, says_contains says, r)
    translate_clause-Ensures (last_duration d) h =
        Ensures-bind (compute_last_cutoff-IsCutoff chrono to_lowercase now d)
          λ t e. holds (_, says_last e, time_term refl)
    translate_clause-Ensures (since_datetime s) h =
        Ensures-bind (parse_datetime-IsTime chrono to_lowercase now s)
          λ t e. holds (_, says_since e, time_term refl)
    translate_clause-Ensures (group node) h =
        Ensures-bind (translate_groups-Ensures node h)
          λ (ss, b) (φ, says, r). holds (φ, says_group says, group_sql-SqlTerm r)

    translate_clauses-Ensures :
        (g : AndGroup)
        → IsWellFormedGroup g
        → Ensures NotUnsafe
            (λ (ss, b). (φ : Formula) × SaysAll chrono to_lowercase now g φ × ClausesSay ss b φ)
            (translate_clauses chrono to_lowercase now g)
    translate_clauses-Ensures no_clauses h = absurd h
    translate_clauses-Ensures (clauses c no_clauses) h =
        Ensures-bind (translate_clause-Ensures c h)
          λ (s, b) (φ, says, r). holds (φ, says_one says, rw append-nil (ClausesSay-one r))
    translate_clauses-Ensures (clauses c (clauses d cs)) h =
        Ensures-bind (translate_clause-Ensures c h.0) λ (s, b) (φ, says, r).
          Ensures-bind (translate_clauses-Ensures (clauses d cs) h.1)
            λ (ss, bs) (ψ, says', r'). holds (both φ ψ, says_both says says', ClausesSay-cons r r')

    pub translate_groups-Ensures :
        (q : QueryNode)
        → IsWellFormedQuery q
        → Ensures NotUnsafe
            (λ (ss, b). (φ : Formula) × SaysAny chrono to_lowercase now q φ × GroupsSay ss b φ)
            (translate_groups chrono to_lowercase now q)
    translate_groups-Ensures no_groups h = absurd h
    translate_groups-Ensures (groups g no_groups) h =
        Ensures-bind (translate_clauses-Ensures g h) λ (inner, b) (φ, says, r). holds (
          φ,
          says_one_group says,
          rw append-nil (single (and_group_sql inner) (and_group_sql-SqlTerm r)),
        )
    translate_groups-Ensures (groups g (groups g' gs)) h =
        Ensures-bind (translate_clauses-Ensures g h.0) λ (inner, b) (φ, says, r).
          Ensures-bind (translate_groups-Ensures (groups g' gs) h.1) λ (ss, bs) (ψ, says', r').
            holds (either φ ψ, says_either says says', GroupsSay-cons (and_group_sql-SqlTerm r) r')
