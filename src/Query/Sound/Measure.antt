-- ===== src/Query/Sound/Measure.antt =====
-- A derivation leaves a shorter list of tokens, from the same input.
use logdive.Prelude.{◌<◌, Option, [], arith, length, ℕ, ◌∷◌, ◌≤◌}
use logdive.Query.Grammar.{
  AndExpr, AndTail, ClauseExpr, OrExpr, OrTail, and_end, and_expr, and_more, compare_expr,
  contains_expr, group_expr, last_expr, or_end, or_expr, or_more, since_expr,
}
use logdive.Query.Ast.{AndGroup, Clause, QueryNode}
use logdive.Bytes.{Bytes}
use logdive.Query.Token.{QueryParseError, spanned}
use logdive.Query.Parser.Leaves.{Tokens}

module _ (parse_f64 : Bytes → Option ℕ) where
  -- A derivation leaves fewer tokens.
  mutual
    pub OrExpr-length :
        {ts rest : Tokens} {q : QueryNode} → OrExpr parse_f64 ts q rest → length rest < length ts
    OrExpr-length (or_expr a t) = omega (arith, AndExpr-length a, OrTail-length t)

    pub OrTail-length :
        {ts rest : Tokens} {q : QueryNode} → OrTail parse_f64 ts q rest → length rest ≤ length ts
    OrTail-length or_end = omega arith
    OrTail-length (or_more w a t) = omega (arith, AndExpr-length a, OrTail-length t)

    pub AndExpr-length :
        {ts rest : Tokens} {g : AndGroup} → AndExpr parse_f64 ts g rest → length rest < length ts
    AndExpr-length (and_expr c t) = omega (arith, ClauseExpr-length c, AndTail-length t)

    pub AndTail-length :
        {ts rest : Tokens} {g : AndGroup} → AndTail parse_f64 ts g rest → length rest ≤ length ts
    AndTail-length and_end = omega arith
    AndTail-length (and_more w c t) = omega (arith, ClauseExpr-length c, AndTail-length t)

    pub ClauseExpr-length :
        {ts rest : Tokens} {c : Clause} → ClauseExpr parse_f64 ts c rest → length rest < length ts
    ClauseExpr-length (compare_expr _ _ _ _) = omega arith
    ClauseExpr-length (contains_expr _ _ _ _) = omega arith
    ClauseExpr-length (last_expr _ _ _ _) = omega arith
    ClauseExpr-length (since_expr _ _) = omega arith
    ClauseExpr-length (group_expr o) = omega (arith, OrExpr-length o)

-- All tokens stand at positions up to `n`.
abbrev pub AllWithin : ℕ → Tokens → Type 0
AllWithin n [] = Unit
AllWithin n (spanned t p ∷ ts) = (p ≤ n) × AllWithin n ts

abbrev pub ErrorWithin : ℕ → QueryParseError → Type 0
ErrorWithin n e = e.position ≤ n

module _ (parse_f64 : Bytes → Option ℕ) (n : ℕ) where
  mutual
    pub OrExpr-AllWithin :
        {ts rest : Tokens} {q : QueryNode}
        → OrExpr parse_f64 ts q rest
        → AllWithin n ts
        → AllWithin n rest
    OrExpr-AllWithin (or_expr a t) h = OrTail-AllWithin t (AndExpr-AllWithin a h)

    pub OrTail-AllWithin :
        {ts rest : Tokens} {q : QueryNode}
        → OrTail parse_f64 ts q rest
        → AllWithin n ts
        → AllWithin n rest
    OrTail-AllWithin or_end h = h
    OrTail-AllWithin (or_more w a t) h = OrTail-AllWithin t (AndExpr-AllWithin a h.1)

    pub AndExpr-AllWithin :
        {ts rest : Tokens} {g : AndGroup}
        → AndExpr parse_f64 ts g rest
        → AllWithin n ts
        → AllWithin n rest
    AndExpr-AllWithin (and_expr c t) h = AndTail-AllWithin t (ClauseExpr-AllWithin c h)

    pub AndTail-AllWithin :
        {ts rest : Tokens} {g : AndGroup}
        → AndTail parse_f64 ts g rest
        → AllWithin n ts
        → AllWithin n rest
    AndTail-AllWithin and_end h = h
    AndTail-AllWithin (and_more w c t) h = AndTail-AllWithin t (ClauseExpr-AllWithin c h.1)

    pub ClauseExpr-AllWithin :
        {ts rest : Tokens} {c : Clause}
        → ClauseExpr parse_f64 ts c rest
        → AllWithin n ts
        → AllWithin n rest
    ClauseExpr-AllWithin (compare_expr _ _ _ _) h = h.1.1.1
    ClauseExpr-AllWithin (contains_expr _ _ _ _) h = h.1.1.1
    ClauseExpr-AllWithin (last_expr _ _ _ _) h = h.1.1.1
    ClauseExpr-AllWithin (since_expr _ _) h = h.1.1
    ClauseExpr-AllWithin (group_expr o) h = (OrExpr-AllWithin o h.1).1
