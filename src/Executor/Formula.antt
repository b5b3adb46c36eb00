-- ===== src/Executor/Formula.antt =====
-- What a WHERE text says, read by SQL's precedence, and what a query says: two views of a formula.
use logdive.Prelude.{◌++◌, [], ◌∷◌, ◌≡◌, List}
use logdive.Query.Ast.{
  AndGroup, Clause, CompareOp, Duration, QueryNode, QueryValue, clauses, compare, contains, group,
  groups, last_duration, no_clauses, no_groups, since_datetime,
}
use logdive.Bytes.{Bytes, codes}
use logdive.Executor.Chrono.{Chrono}
use logdive.Executor.Failure.{SqlValue}
use logdive.Executor.Atoms.{ColumnOf, IsCutoff, IsTime, OpText, PatternOf, ValueOf}

-- `compares field op v`: the field's value stands so to `v`.
pub data Formula : Type 0 where
  truth : Formula
  compares : Bytes → CompareOp → SqlValue → Formula
  is_like : Bytes → SqlValue → Formula
  not_before : SqlValue → Formula
  both : Formula → Formula → Formula
  either : Formula → Formula → Formula

-- The text, the values bound to its placeholders from left to right, and what they say together.
-- AND binds tighter than OR, and parentheses group.
mutual
  pub data SqlOr : Bytes → List SqlValue → Formula → Type 0 where
    or_one : {s : Bytes} {b : List SqlValue} {φ : Formula} → SqlAnd s b φ → SqlOr s b φ
    or_join :
        {s t u : Bytes} {b c d : List SqlValue} {φ ψ : Formula}
        → SqlAnd s b φ
        → SqlOr t c ψ
        → u ≡ s ++ (codes " OR " ++ t)
        → d ≡ b ++ c
        → SqlOr u d (either φ ψ)

  pub data SqlAnd : Bytes → List SqlValue → Formula → Type 0 where
    and_one : {s : Bytes} {b : List SqlValue} {φ : Formula} → SqlTerm s b φ → SqlAnd s b φ
    and_join :
        {s t u : Bytes} {b c d : List SqlValue} {φ ψ : Formula}
        → SqlTerm s b φ
        → SqlAnd t c ψ
        → u ≡ s ++ (codes " AND " ++ t)
        → d ≡ b ++ c
        → SqlAnd u d (both φ ψ)

  pub data SqlTerm : Bytes → List SqlValue → Formula → Type 0 where
    compare_term :
        {field column text s : Bytes} {op : CompareOp} {v : SqlValue}
        → ColumnOf field column
        → OpText text op
        → s ≡ column ++ text
        → SqlTerm s (v ∷ []) (compares field op v)
    like_term :
        {field column s : Bytes} {v : SqlValue}
        → ColumnOf field column
        → s ≡ column ++ codes " LIKE ? ESCAPE '\\'"
        → SqlTerm s (v ∷ []) (is_like field v)
    time_term :
        {s : Bytes} {v : SqlValue} → s ≡ codes "timestamp >= ?" → SqlTerm s (v ∷ []) (not_before v)
    parenthesized :
        {s t : Bytes} {b : List SqlValue} {φ : Formula}
        → SqlOr s b φ
        → t ≡ codes "(" ++ (s ++ codes ")")
        → SqlTerm t b φ

module _ (chrono : Chrono) (to_lowercase : Bytes → Bytes) (now : chrono.DateTime) where
  mutual
    pub data SaysClause : Clause → Formula → Type 0 where
      says_compare :
          {field : Bytes} {op : CompareOp} {value : QueryValue} {v : SqlValue}
          → ValueOf chrono to_lowercase now field value v
          → SaysClause (compare field op value) (compares field op v)
      says_contains :
          {field value : Bytes} {v : SqlValue}
          → PatternOf chrono to_lowercase now field value v
          → SaysClause (contains field value) (is_like field v)
      says_last :
          {d : Duration} {t : chrono.DateTime}
          → IsCutoff chrono to_lowercase now d t
          → SaysClause (last_duration d) (not_before (SqlValue.text (chrono.to_rfc3339 t)))
      says_since :
          {s : Bytes} {t : chrono.DateTime}
          → IsTime chrono to_lowercase now s t
          → SaysClause (since_datetime s) (not_before (SqlValue.text (chrono.to_rfc3339 t)))
      says_group : {node : QueryNode} {φ : Formula} → SaysAny node φ → SaysClause (group node) φ

    pub data SaysAll : AndGroup → Formula → Type 0 where
      says_one : {c : Clause} {φ : Formula} → SaysClause c φ → SaysAll (clauses c no_clauses) φ
      says_both :
          {c d : Clause} {cs : AndGroup} {φ ψ : Formula}
          → SaysClause c φ
          → SaysAll (clauses d cs) ψ
          → SaysAll (clauses c (clauses d cs)) (both φ ψ)

    pub data SaysAny : QueryNode → Formula → Type 0 where
      says_one_group : {g : AndGroup} {φ : Formula} → SaysAll g φ → SaysAny (groups g no_groups) φ
      says_either :
          {g h : AndGroup} {gs : QueryNode} {φ ψ : Formula}
          → SaysAll g φ
          → SaysAny (groups h gs) ψ
          → SaysAny (groups g (groups h gs)) (either φ ψ)
