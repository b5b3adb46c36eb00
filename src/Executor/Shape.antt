-- ===== src/Executor/Shape.antt =====
-- The SQL text of crates/core/src/executor.rs does not depend on the values in a query: all of them are bound.
use logdive.Prelude.Result.{◌>>=◌, bind-ok, ok, Result, ok_eq}
use logdive.Query.Ast.{
  AndGroup, Clause, CompareOp, Duration, QueryNode, QueryValue, clauses, compare, contains, group,
  groups, last_duration, no_clauses, no_groups, since_datetime,
}
use logdive.Prelude.{Bool-cases, ap, inl, inr, sym, ◌∙◌, ◌≡◌, ◌++◌, [], ◌∷◌}
use logdive.Bytes.{Bytes, equals}
use logdive.Executor.Chrono.{Chrono}
use logdive.Executor.Sql.{column_for_field, level_field, Fragment, and_group_sql, group_sql}
use logdive.Executor.Translate.{
  translate_compare, build_sql, compute_last_cutoff, parse_datetime, translate_clause,
  translate_clauses, translate_contains, translate_groups,
}
use logdive.Executor.Failure.{Failure, QueryOptions}

-- Queries that differ in literal values only: values compared with, texts searched for, durations, datetimes.
mutual
  pub data SameClause : Clause → Clause → Type 0 where
    same_compare :
        {field : Bytes} {op : CompareOp} {v w : QueryValue}
        → SameClause (compare field op v) (compare field op w)
    same_contains : {field v w : Bytes} → SameClause (contains field v) (contains field w)
    same_last : {d d' : Duration} → SameClause (last_duration d) (last_duration d')
    same_since : {s s' : Bytes} → SameClause (since_datetime s) (since_datetime s')
    same_nested : {q q' : QueryNode} → SameQuery q q' → SameClause (group q) (group q')

  pub data SameGroup : AndGroup → AndGroup → Type 0 where
    no_more_clauses : SameGroup no_clauses no_clauses
    one_more_clause :
        {c c' : Clause} {cs cs' : AndGroup}
        → SameClause c c'
        → SameGroup cs cs'
        → SameGroup (clauses c cs) (clauses c' cs')

  pub data SameQuery : QueryNode → QueryNode → Type 0 where
    no_more_groups : SameQuery no_groups no_groups
    one_more_group :
        {g g' : AndGroup} {gs gs' : QueryNode}
        → SameGroup g g'
        → SameQuery gs gs'
        → SameQuery (groups g gs) (groups g' gs')

-- If both give SQL, the text is the same.
abbrev SameText : {A B : Type 0} → Result Failure (A × B) → Result Failure (A × B) → Type 0
SameText {A} {B} m n = (r r' : A × B) → m ≡ ok r → n ≡ ok r' → r.0 ≡ r'.0

SameText-ok : {A B : Type 0} (a : A) (b b' : B) → SameText {A = A} {B = B} (ok (a, b)) (ok (a, b'))
SameText-ok a b b' r r' h h' = ap (λ p. p.0) (sym (ok_eq h)) ∙ ap (λ p. p.0) (ok_eq h')

-- The text of what follows is a function of the text before.
SameText-bind :
    {A B C D : Type 0} (m n : Result Failure (A × B)) (f g : A × B → Result Failure (C × D))
    → SameText m n
    → ((a : A) (b b' : B) → SameText (f (a, b)) (g (a, b')))
    → SameText (m >>= f) (n >>= g)
SameText-bind m n f g same more r r' h h' =
    let (p, e, k) = bind-ok m h in
    let (p', e', k') = bind-ok n h' in
    let text : p.0 ≡ p'.0 = same p p' e e' in more p.0 p.1 p'.1 r r' k (rw text k')

-- A step that is the same for both.
SameText-step :
    {A C D : Type 0} (m : Result Failure A) (f g : A → Result Failure (C × D))
    → ((a : A) → SameText (f a) (g a))
    → SameText (m >>= f) (m >>= g)
SameText-step m f g more r r' h h' =
    let (a, e, k) = bind-ok m h in
    let (a', e', k') = bind-ok m h' in
    let same : a ≡ a' = ok_eq (sym e ∙ e') in more a r r' k (rw same k')

module _ (chrono : Chrono) (to_lowercase : Bytes → Bytes) (now : chrono.DateTime) where
  translate_compare-SameText :
      (field : Bytes) (op : CompareOp) (v w : QueryValue)
      → SameText
          (translate_compare chrono to_lowercase now field op v)
          (translate_compare chrono to_lowercase now field op w)
  unfolding translate_compare
  translate_compare-SameText field op v w = elim (Bool-cases (equals field level_field)) [
    | inl e ↦ rw e (SameText-ok _ _ _)
    | inr e ↦ rw e (SameText-step (column_for_field field) _ _ λ column. SameText-ok _ _ _)
  ]

  translate_contains-SameText :
      (field v w : Bytes)
      → SameText
          (translate_contains chrono to_lowercase now field v)
          (translate_contains chrono to_lowercase now field w)
  unfolding translate_contains
  translate_contains-SameText field v w = elim (Bool-cases (equals field level_field)) [
    | inl e ↦ rw e (SameText-ok _ _ _)
    | inr e ↦ rw e (SameText-step (column_for_field field) _ _ λ column. SameText-ok _ _ _)
  ]

  -- The same text behind steps that may differ.
  SameText-time :
      {A C D : Type 0} (m n : Result Failure A) (c : C) (f g : A → D)
      → SameText (m >>= λ a. ok (c, f a)) (n >>= λ a. ok (c, g a))
  SameText-time m n c f g r r' h h' =
      let (a, e, k) = bind-ok m h in
      let (a', e', k') = bind-ok n h' in SameText-ok c (f a) (g a') r r' k k'

  mutual
    unfolding translate_clause translate_groups translate_clauses

    translate_clause-SameText :
        {c c' : Clause}
        → SameClause c c'
        → SameText
            (translate_clause chrono to_lowercase now c)
            (translate_clause chrono to_lowercase now c')
    translate_clause-SameText (same_compare {field} {op} {v} {w}) =
        translate_compare-SameText field op v w
    translate_clause-SameText (same_contains {field} {v} {w}) =
        translate_contains-SameText field v w
    translate_clause-SameText (same_last {d} {d'}) =
        SameText-time (compute_last_cutoff chrono d now) (compute_last_cutoff chrono d' now) _ _ _
    translate_clause-SameText (same_since {s} {s'}) =
        SameText-time (parse_datetime chrono s) (parse_datetime chrono s') _ _ _
    translate_clause-SameText (same_nested {q} {q'} s) =
        SameText-bind (translate_groups chrono to_lowercase now q)
          (translate_groups chrono to_lowercase now q') _ _ (translate_groups-SameText s)
          λ sqls b b'. SameText-ok (group_sql sqls) b b'

    translate_clauses-SameText :
        {g g' : AndGroup}
        → SameGroup g g'
        → SameText
            (translate_clauses chrono to_lowercase now g)
            (translate_clauses chrono to_lowercase now g')
    translate_clauses-SameText no_more_clauses = SameText-ok [] [] []
    translate_clauses-SameText (one_more_clause {c} {c'} {cs} {cs'} s t) =
        SameText-bind (translate_clause chrono to_lowercase now c)
          (translate_clause chrono to_lowercase now c') _ _ (translate_clause-SameText s)
          λ sql b b'.
            SameText-bind (translate_clauses chrono to_lowercase now cs)
              (translate_clauses chrono to_lowercase now cs') _ _ (translate_clauses-SameText t)
              λ sqls d d'. SameText-ok (sql ∷ sqls) (b ++ d) (b' ++ d')

    translate_groups-SameText :
        {q q' : QueryNode}
        → SameQuery q q'
        → SameText
            (translate_groups chrono to_lowercase now q)
            (translate_groups chrono to_lowercase now q')
    translate_groups-SameText no_more_groups = SameText-ok [] [] []
    translate_groups-SameText (one_more_group {g} {g'} {gs} {gs'} s t) =
        SameText-bind (translate_clauses chrono to_lowercase now g)
          (translate_clauses chrono to_lowercase now g') _ _ (translate_clauses-SameText s)
          λ inner b b'.
            SameText-bind (translate_groups chrono to_lowercase now gs)
              (translate_groups chrono to_lowercase now gs') _ _ (translate_groups-SameText t)
              λ sqls d d'. SameText-ok (and_group_sql inner ∷ sqls) (b ++ d) (b' ++ d')

  -- If two queries differ in literal values only and both give SQL, the SQL text is the same: no value
  -- gets into it.
  pub build_sql-SameQuery :
      (q q' : QueryNode) (opts : QueryOptions) (sql sql' : Fragment)
      → SameQuery q q'
      → build_sql chrono to_lowercase now q opts ≡ ok sql
      → build_sql chrono to_lowercase now q' opts ≡ ok sql'
      → sql.0 ≡ sql'.0
  unfolding build_sql
  build_sql-SameQuery q q' opts sql sql' s h h' =
      SameText-bind (translate_groups chrono to_lowercase now q)
        (translate_groups chrono to_lowercase now q') _ _ (translate_groups-SameText s)
        (λ sqls b b'. SameText-ok _ b b') sql sql' h h'
