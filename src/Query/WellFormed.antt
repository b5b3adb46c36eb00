-- ===== src/Query/WellFormed.antt =====
-- The queries that the parser makes.
-- What the parser guarantees: field names by the grammar, and no empty group.
use logdive.Query.Grammar.{
  AndExpr, AndTail, ClauseExpr, IsFieldName, OrExpr, OrTail, and_end, and_expr, and_more,
  compare_expr, contains_expr, group_expr, last_expr, or_end, or_expr, or_more, since_expr,
}
use logdive.Query.Ast.{
  AndGroup, Clause, QueryNode, clauses, compare, contains, group, groups, last_duration, no_clauses,
  no_groups, since_datetime,
}
use logdive.Query.Parser.Leaves.{Tokens}
use logdive.Query.Parser.{parse}
use logdive.Prelude.Result.{ok}
use logdive.Query.Text.{parse-Derives}
use logdive.Prelude.{ℕ, ◌≡◌, Option}
use logdive.Bytes.{Bytes}

abbrev mutual
  pub IsWellFormed : Clause → Type 0
  IsWellFormed (compare field _ _) = IsFieldName field
  IsWellFormed (contains field _) = IsFieldName field
  IsWellFormed (last_duration _) = Unit
  IsWellFormed (since_datetime _) = Unit
  IsWellFormed (group node) = IsWellFormedQuery node

  pub IsWellFormedGroup : AndGroup → Type 0
  IsWellFormedGroup no_clauses = ⊥
  IsWellFormedGroup (clauses c no_clauses) = IsWellFormed c
  IsWellFormedGroup (clauses c (clauses d cs)) = IsWellFormed c × IsWellFormedGroup (clauses d cs)

  pub IsWellFormedQuery : QueryNode → Type 0
  IsWellFormedQuery no_groups = ⊥
  IsWellFormedQuery (groups g no_groups) = IsWellFormedGroup g
  IsWellFormedQuery (groups g (groups h gs)) = IsWellFormedGroup g × IsWellFormedQuery (groups h gs)

module _ (parse_f64 : Bytes → Option ℕ) where
  mutual
    pub OrExpr-IsWellFormed :
        {ts rest : Tokens} {q : QueryNode} → OrExpr parse_f64 ts q rest → IsWellFormedQuery q
    OrExpr-IsWellFormed (or_expr {g} a t) = OrTail-IsWellFormed g t (AndExpr-IsWellFormed a)

    OrTail-IsWellFormed :
        {ts rest : Tokens} {gs : QueryNode} (g : AndGroup)
        → OrTail parse_f64 ts gs rest
        → IsWellFormedGroup g
        → IsWellFormedQuery (groups g gs)
    OrTail-IsWellFormed g or_end h = h
    OrTail-IsWellFormed g (or_more {g = g'} _ a t) h =
        (h, OrTail-IsWellFormed g' t (AndExpr-IsWellFormed a))

    AndExpr-IsWellFormed :
        {ts rest : Tokens} {g : AndGroup} → AndExpr parse_f64 ts g rest → IsWellFormedGroup g
    AndExpr-IsWellFormed (and_expr {c = x} c t) =
        AndTail-IsWellFormed x t (ClauseExpr-IsWellFormed c)

    AndTail-IsWellFormed :
        {ts rest : Tokens} {cs : AndGroup} (c : Clause)
        → AndTail parse_f64 ts cs rest
        → IsWellFormed c
        → IsWellFormedGroup (clauses c cs)
    AndTail-IsWellFormed x and_end h = h
    AndTail-IsWellFormed x (and_more {c = y} _ c t) h =
        (h, AndTail-IsWellFormed y t (ClauseExpr-IsWellFormed c))

    ClauseExpr-IsWellFormed :
        {ts rest : Tokens} {c : Clause} → ClauseExpr parse_f64 ts c rest → IsWellFormed c
    ClauseExpr-IsWellFormed (compare_expr name _ _ _) = name
    ClauseExpr-IsWellFormed (contains_expr name _ _ _) = name
    ClauseExpr-IsWellFormed (last_expr _ _ _ _) = tt
    ClauseExpr-IsWellFormed (since_expr _ _) = tt
    ClauseExpr-IsWellFormed (group_expr o) = OrExpr-IsWellFormed o

-- A query that `parse` returns has no empty group, and its field names are by the grammar.
pub parse-IsWellFormed :
    (parse_f64 : Bytes → Option ℕ) (input : Bytes) (q : QueryNode)
    → parse parse_f64 input ≡ ok q
    → IsWellFormedQuery q
parse-IsWellFormed parse_f64 input q h =
    OrExpr-IsWellFormed parse_f64 (parse-Derives parse_f64 input q h).2
