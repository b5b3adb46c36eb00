-- ===== src/Executor/Meaning/Refusal.antt =====
-- What the translation of crates/core/src/executor.rs makes of the queries that it accepts, and of the others.
use logdive.Query.Ast.{
  AndGroup, Clause, CompareOp, Duration, QueryNode, QueryValue, clauses, compare, contains, group,
  groups, last_duration, no_clauses, no_groups, since_datetime,
}
use logdive.Prelude.{
  Bool-cases, Option, Option-cases, arith, inl, inr, refl, ℕ, ◌↔◌, ◌≡◌, ◌⊎◌, ap, ◌++◌, [], ◌∷◌,
}
use logdive.Bytes.{Bytes, equals}
use logdive.Executor.Chrono.{Chrono}
use logdive.Prelude.Result.{
  Ensures, Ensures-bind, Ensures-map, Ensures-self, Ensures-weaken, Result, err, fails, holds, ok,
  ◌>>=◌,
}
use logdive.Executor.Failure.{Failure, QueryOptions}
use logdive.Executor.Sql.{Fragment, cutoff_seconds, level_field, Fragments, and_group_sql}
use logdive.Query.Grammar.{IsFieldName}
use logdive.Query.WellFormed.{
  IsWellFormed, IsWellFormedGroup, IsWellFormedQuery, parse-IsWellFormed,
}
use logdive.Executor.Translate.{
  build_sql, compute_last_cutoff, parse_datetime, translate_clause, translate_clauses,
  translate_compare, translate_contains, translate_groups,
}
use logdive.Executor.Meaning.Leaves.{column_for_field-ColumnOf}
use logdive.Query.Parser.{parse}
use mathlib.Core.Path.{subst}
use logdive.Executor.Meaning.Accepted.{
  FailsWith, FailsWithGroup, FailsWithQuery, HasNoRange, HasRange, IsAccepted, IsAcceptedGroup,
  IsAcceptedQuery, IsDate, IsNoDate, refused_query, same_error_query,
}

-- What the loops put together.
abbrev cons_clause : Fragment → Fragments → Fragments
cons_clause a b = (a.0 ∷ b.0, a.1 ++ b.1)

abbrev cons_group : Fragments → Fragments → Fragments
cons_group a b = (and_group_sql a.0 ∷ b.0, a.1 ++ b.1)

module _ (chrono : Chrono) (now : chrono.DateTime) where
  compute_last_cutoff-HasRange :
      (d : Duration)
      → Ensures
          (HasNoRange chrono now d)
          (λ _. HasRange chrono now d)
          (compute_last_cutoff chrono d now)
  unfolding compute_last_cutoff
  compute_last_cutoff-HasRange d =
      Ensures-map
        (Ensures-self (compute_last_cutoff chrono d now)
          (λ e h. elim (Option-cases (chrono.seconds (cutoff_seconds d))) [
            | inl missing ↦ (ground arith, missing)
            | inr (delta, found) ↦ ground arith
          ])
          (ground arith))
        λ t h. elim (Option-cases (chrono.seconds (cutoff_seconds d))) [
          | inl missing ↦ ground arith
          | inr found ↦ found
        ]

  parse_datetime-IsDate :
      (s : Bytes)
      → Ensures (IsNoDate chrono now s) (λ _. IsDate chrono now s) (parse_datetime chrono s)
  unfolding parse_datetime
  parse_datetime-IsDate s =
      Ensures-map (Ensures-self (parse_datetime chrono s) (λ e h. (ground arith, h)) (ground arith))
        λ t h. (t, h)

  module _ (to_lowercase : Bytes → Bytes) where
    translate_compare-ok :
        (field : Bytes) (op : CompareOp) (value : QueryValue)
        → IsFieldName field
        → Ensures (λ _. ⊥) (λ _. Unit) (translate_compare chrono to_lowercase now field op value)
    unfolding translate_compare
    translate_compare-ok field op value h = elim (Bool-cases (equals field level_field)) [
      | inl e ↦ rw e (holds tt)
      | inr e ↦ rw (e, (column_for_field-ColumnOf field h e).1) (holds tt)
    ]

    translate_contains-ok :
        (field value : Bytes)
        → IsFieldName field
        → Ensures (λ _. ⊥) (λ _. Unit) (translate_contains chrono to_lowercase now field value)
    unfolding translate_contains
    translate_contains-ok field value h = elim (Bool-cases (equals field level_field)) [
      | inl e ↦ rw e (holds tt)
      | inr e ↦ rw (e, (column_for_field-ColumnOf field h e).1) (holds tt)
    ]

    -- One step of a loop, and the rest of it.
    Ensures-both :
        {A B C : Type 0} {F G : Failure → Type 0} {P R : Type 0} {m : Result Failure A}
        {n : Result Failure B} (f : A → B → C)
        → Ensures F (λ _. P) m
        → Ensures G (λ _. R) n
        → Ensures (λ e. F e ⊎ (P × G e)) (λ _. P × R) (do a ← m; b ← n; ok (f a b))
    Ensures-both f (holds p) (holds r) = holds (p, r)
    Ensures-both f (holds p) (fails g) = fails (inr (p, g))
    Ensures-both f (fails g) _ = fails (inl g)

    mutual
      unfolding translate_clause

      translate_clause-IsAccepted :
          (c : Clause)
          → IsWellFormed c
          → Ensures
              (λ e. FailsWith chrono now e c)
              (λ _. IsAccepted chrono now c)
              (translate_clause chrono to_lowercase now c)
      translate_clause-IsAccepted (compare field op value) h =
          Ensures-weaken (translate_compare-ok field op value h) (λ e z. z) (λ a u. u)
      translate_clause-IsAccepted (contains field value) h =
          Ensures-weaken (translate_contains-ok field value h) (λ e z. z) (λ a u. u)
      translate_clause-IsAccepted (last_duration d) h =
          Ensures-bind (compute_last_cutoff-HasRange d) λ t r. holds r
      translate_clause-IsAccepted (since_datetime s) h =
          Ensures-bind (parse_datetime-IsDate s) λ t r. holds r
      translate_clause-IsAccepted (group node) h =
          Ensures-bind (translate_groups-IsAccepted node h) λ t r. holds r

      translate_clauses-IsAccepted :
          (g : AndGroup)
          → IsWellFormedGroup g
          → Ensures
              (λ e. FailsWithGroup chrono now e g)
              (λ _. IsAcceptedGroup chrono now g)
              (translate_clauses chrono to_lowercase now g)
      translate_clauses-IsAccepted no_clauses h = absurd h
      translate_clauses-IsAccepted (clauses c no_clauses) h =
          Ensures-both cons_clause (translate_clause-IsAccepted c h) (holds {a = ([], [])} tt)
      translate_clauses-IsAccepted (clauses c (clauses d cs)) h =
          Ensures-both cons_clause (translate_clause-IsAccepted c h.0)
            (translate_clauses-IsAccepted (clauses d cs) h.1)

      translate_groups-IsAccepted :
          (q : QueryNode)
          → IsWellFormedQuery q
          → Ensures
              (λ e. FailsWithQuery chrono now e q)
              (λ _. IsAcceptedQuery chrono now q)
              (translate_groups chrono to_lowercase now q)
      translate_groups-IsAccepted no_groups h = absurd h
      translate_groups-IsAccepted (groups g no_groups) h =
          Ensures-both cons_group (translate_clauses-IsAccepted g h) (holds {a = ([], [])} tt)
      translate_groups-IsAccepted (groups g (groups g' gs)) h =
          Ensures-both cons_group (translate_clauses-IsAccepted g h.0)
            (translate_groups-IsAccepted (groups g' gs) h.1)

    build_sql-IsAccepted :
        (q : QueryNode) (opts : QueryOptions)
        → IsWellFormedQuery q
        → Ensures
            (λ e. FailsWithQuery chrono now e q)
            (λ _. IsAcceptedQuery chrono now q)
            (build_sql chrono to_lowercase now q opts)
    unfolding build_sql
    build_sql-IsAccepted q opts h = Ensures-bind (translate_groups-IsAccepted q h) λ t r. holds r

    result_is :
        {r : Result Failure Fragment} (q : QueryNode)
        → Ensures (λ e. FailsWithQuery chrono now e q) (λ _. IsAcceptedQuery chrono now q) r
        → (((sql : Fragment) × (r ≡ ok sql)) ↔ IsAcceptedQuery chrono now q)
          × ((e : Failure) → (r ≡ err e) ↔ FailsWithQuery chrono now e q)
    result_is q (holds {a} h) =
        ((λ _. h, λ _. (a, refl)), λ e. (λ k. cc k, λ f. absurd (refused_query chrono now e q f h)))
    result_is q (fails {e} h) = (
      (λ (sql, k). cc k, λ a. absurd (refused_query chrono now e q h a)),
      λ e'. (
        λ k. subst (λ x. FailsWithQuery chrono now x q) (cc k) h,
        λ f. ap err (same_error_query chrono now e e' q h f),
      ),
    )

    -- A query from the parser is translated exactly when every duration in it is in chrono's range and
    -- every date is one; otherwise the result is the error of the first clause, in the query's order,
    -- for which that fails: a panic for a duration, an invalid date for a date, and never an unsafe
    -- field name.
    pub build_sql-parse-iff-IsAccepted :
        (parse_f64 : Bytes → Option ℕ) (input : Bytes) (q : QueryNode) (opts : QueryOptions)
        → parse parse_f64 input ≡ ok q
        → let r = build_sql chrono to_lowercase now q opts in
          (((sql : Fragment) × (r ≡ ok sql)) ↔ IsAcceptedQuery chrono now q)
          × ((e : Failure) → (r ≡ err e) ↔ FailsWithQuery chrono now e q)
    build_sql-parse-iff-IsAccepted parse_f64 input q opts p =
        result_is q (build_sql-IsAccepted q opts (parse-IsWellFormed parse_f64 input q p))
