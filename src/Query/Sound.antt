-- ===== src/Query/Sound.antt =====
-- The parser against the grammar, one direction: what it returns the grammar derives, the fuel is
-- enough, and an error stands at a token or at the end.
pub mod Measure
mod Leaves
mod Clauses
use logdive.Prelude.{◌*◌, ◌+◌, [], arith, if◌then◌else◌, length, suc, zero, ℕ, ◌∷◌, ◌≤◌, Option}
use logdive.Query.Sound.Measure.{
  AllWithin, AndExpr-AllWithin, AndExpr-length, ClauseExpr-AllWithin, ClauseExpr-length,
  ErrorWithin, OrExpr-AllWithin,
}
use logdive.Query.Grammar.{
  AndExpr, AndTail, ClauseExpr, OrExpr, OrTail, and_end, and_expr, and_more, or_end, or_expr,
  or_more,
}
use logdive.Prelude.Result.{Ensures, Ensures-bind, Ensures-if, fails, holds}
use logdive.Query.Parser.Leaves.{
  Parsed, Tokens, and_word, end_of_query, end_position, is_joiner, is_word, last_word, or_word,
  since_word,
}
use logdive.Query.Parser.{
  and_loop, or_loop, parse_and_expr, parse_clause, parse_or_expr, parse_tokens,
}
use logdive.Query.Ast.{QueryNode}
use logdive.Query.Sound.Leaves.{after_joiner-Ensures}
use logdive.Query.Sound.Clauses.{
  close_group-Ensures, parse_field_led_clause-Ensures, parse_last_duration-Ensures,
  parse_since_datetime-Ensures, unreserved,
}
use logdive.Query.Token.{ident, lparen, rparen, spanned}
use logdive.Bytes.{Bytes}

module _ (parse_f64 : Bytes → Option ℕ) (n finish : ℕ) (end_within : finish ≤ n) where
  abbrev Ensured : {A : Type 0} → (A → Tokens → Type 0) → Parsed A → Type 0
  Ensured P r = Ensures (ErrorWithin n) (λ (a, rest). P a rest) r

  -- One induction on the fuel: what a call consumes pays for the calls behind it.
  mutual
    unfolding parse_or_expr

    parse_or_expr-Ensures :
        (fuel : ℕ) (ts : Tokens)
        → 4 * length ts + 3 ≤ fuel
        → AllWithin n ts
        → Ensured (OrExpr parse_f64 ts) (parse_or_expr parse_f64 fuel finish ts)
    parse_or_expr-Ensures zero ts h within = absurd (omega arith)
    parse_or_expr-Ensures (suc fuel) ts h within =
        Ensures-bind (parse_and_expr-Ensures fuel ts (omega arith) within) λ (g, mid) first.
          Ensures-bind
            (or_loop-Ensures fuel mid (omega (arith, AndExpr-length parse_f64 first))
              (AndExpr-AllWithin parse_f64 n first within))
            λ (gs, rest) tail. holds (or_expr first tail)

    or_loop-Ensures :
        (fuel : ℕ) (ts : Tokens)
        → 4 * length ts + 1 ≤ fuel
        → AllWithin n ts
        → Ensured (OrTail parse_f64 ts) (or_loop parse_f64 fuel finish ts)
    or_loop-Ensures zero ts h within = absurd (omega arith)
    or_loop-Ensures (suc fuel) (spanned (ident s) p ∷ ts) h (hp, within) =
        Ensures-if (is_word or_word s)
          (λ word. Ensures-bind (after_joiner-Ensures n or_word p ts hp within) λ _ _.
            Ensures-bind (parse_and_expr-Ensures fuel ts (omega arith) within) λ (g, mid) first.
              Ensures-bind
                (or_loop-Ensures fuel mid (omega (arith, AndExpr-length parse_f64 first))
                  (AndExpr-AllWithin parse_f64 n first within))
                λ (gs, rest) tail. holds (or_more word first tail))
          (λ _. holds or_end)
    or_loop-Ensures (suc fuel) _ h within = holds or_end

    parse_and_expr-Ensures :
        (fuel : ℕ) (ts : Tokens)
        → 4 * length ts + 2 ≤ fuel
        → AllWithin n ts
        → Ensured (AndExpr parse_f64 ts) (parse_and_expr parse_f64 fuel finish ts)
    parse_and_expr-Ensures zero ts h within = absurd (omega arith)
    parse_and_expr-Ensures (suc fuel) ts h within =
        Ensures-bind (parse_clause-Ensures fuel ts (omega arith) within) λ (c, mid) first.
          Ensures-bind
            (and_loop-Ensures fuel mid (omega (arith, ClauseExpr-length parse_f64 first))
              (ClauseExpr-AllWithin parse_f64 n first within))
            λ (cs, rest) tail. holds (and_expr first tail)

    and_loop-Ensures :
        (fuel : ℕ) (ts : Tokens)
        → 4 * length ts + 1 ≤ fuel
        → AllWithin n ts
        → Ensured (AndTail parse_f64 ts) (and_loop parse_f64 fuel finish ts)
    and_loop-Ensures zero ts h within = absurd (omega arith)
    and_loop-Ensures (suc fuel) (spanned (ident s) p ∷ ts) h (hp, within) =
        Ensures-if (is_word and_word s)
          (λ word. Ensures-bind (after_joiner-Ensures n and_word p ts hp within) λ _ _.
            Ensures-bind (parse_clause-Ensures fuel ts (omega arith) within) λ (c, mid) first.
              Ensures-bind
                (and_loop-Ensures fuel mid (omega (arith, ClauseExpr-length parse_f64 first))
                  (ClauseExpr-AllWithin parse_f64 n first within))
                λ (cs, rest) tail. holds (and_more word first tail))
          (λ _. holds and_end)
    and_loop-Ensures (suc fuel) _ h within = holds and_end

    parse_clause-Ensures :
        (fuel : ℕ) (ts : Tokens)
        → 4 * length ts + 1 ≤ fuel
        → AllWithin n ts
        → Ensured (ClauseExpr parse_f64 ts) (parse_clause parse_f64 fuel finish ts)
    parse_clause-Ensures zero ts h within = absurd (omega arith)
    parse_clause-Ensures (suc fuel) [] h within = fails end_within
    parse_clause-Ensures (suc fuel) (spanned lparen p ∷ ts) h (hp, within) =
        Ensures-bind (parse_or_expr-Ensures fuel ts (omega arith) within) λ (node, rest) inner.
          close_group-Ensures parse_f64 n finish end_within node rest hp inner
            (OrExpr-AllWithin parse_f64 n inner within)
    parse_clause-Ensures (suc fuel) (spanned rparen p ∷ ts) h within = fails within.0
    parse_clause-Ensures (suc fuel) (spanned (ident s) p ∷ ts) h (hp, within) =
        Ensures-if (is_word last_word s)
          (λ word. parse_last_duration-Ensures parse_f64 n finish end_within ts word within)
          λ not_last.
            Ensures-if (is_word since_word s)
              (λ word. parse_since_datetime-Ensures parse_f64 n finish end_within ts word within)
              λ not_since.
                Ensures-if (is_joiner s) (λ _. fails hp)
                  λ not_joiner.
                    parse_field_led_clause-Ensures parse_f64 n finish end_within (ident s) p ts
                      (unreserved s not_last not_since not_joiner) hp within
    parse_clause-Ensures (suc fuel) (spanned t p ∷ ts) h (hp, within) =
        parse_field_led_clause-Ensures parse_f64 n finish end_within t p ts (λ s e. cc e) hp within

  end_of_query-Ensures :
      {ts : Tokens} (node : QueryNode) (rest : Tokens)
      → OrExpr parse_f64 ts node rest
      → AllWithin n rest
      → Ensures (ErrorWithin n) (λ q. OrExpr parse_f64 ts q []) (end_of_query node rest)
  unfolding end_of_query
  end_of_query-Ensures node [] derived within = holds derived
  end_of_query-Ensures node (spanned rparen p ∷ rest) derived within = fails within.0
  end_of_query-Ensures node (spanned _ p ∷ rest) derived within = fails within.0

pub parse_tokens-Ensures :
    (parse_f64 : Bytes → Option ℕ) (n : ℕ) (ts : Tokens)
    → AllWithin n ts
    → end_position ts ≤ n
    → Ensures (ErrorWithin n) (λ q. OrExpr parse_f64 ts q []) (parse_tokens parse_f64 ts)
unfolding parse_tokens
parse_tokens-Ensures parse_f64 n [] within h = fails (omega arith)
parse_tokens-Ensures parse_f64 n (t ∷ ts) within h =
    Ensures-bind
      (parse_or_expr-Ensures parse_f64 n _ h (4 * length (t ∷ ts) + 4) (t ∷ ts) (omega arith)
        within)
      λ (node, rest) derived.
        end_of_query-Ensures parse_f64 n _ h node rest derived
          (OrExpr-AllWithin parse_f64 n derived within)
