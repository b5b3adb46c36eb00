-- ===== src/Query/Complete.antt =====
-- The parser against the grammar, the other direction: what the grammar derives it returns.
mod Leaves
-- Behind a complete expression there is nothing, or a closing parenthesis.
use logdive.Prelude.{
  ◌*◌, ◌+◌, [], arith, false, length, refl, suc, true, zero, ℕ, ◌∷◌, ◌≡◌, ◌≢◌, ◌≤◌, Option,
}
use logdive.Query.Grammar.{
  AndExpr, AndTail, ClauseExpr, OrExpr, OrTail, and_end, and_expr, and_more, compare_expr,
  contains_expr, group_expr, is_reserved, last_expr, or_end, or_expr, or_more, since_expr,
}
use logdive.Query.Sound.Measure.{AndExpr-length, ClauseExpr-length, OrExpr-length}
use logdive.Query.Ast.{AndGroup, Clause, QueryNode}
use logdive.Query.Parser.Leaves.{
  Tokens, after_joiner, and_word, close_group, end_of_query, end_position, is_joiner, is_word,
  last_word, or_word, since_word,
}
use logdive.Query.Parser.{
  and_loop, or_loop, parse_and_expr, parse_clause, parse_or_expr, parse_tokens,
}
use logdive.Bytes.Laws.{eq_ignore_ascii_case_other}
use logdive.Query.Token.{ident, rparen, spanned}
use logdive.Prelude.Result.{ok}
use logdive.Query.Complete.Leaves.{
  parse_field_led_clause-compare, parse_field_led_clause-contains, parse_last_duration-UnitToken,
  parse_since_datetime-DatetimeToken,
}
use logdive.Bytes.{to_ascii_lowercase, Bytes}

data Stops : Tokens → Type 0 where
  at_end : Stops []
  at_rparen : (p : ℕ) (ts : Tokens) → Stops (spanned rparen p ∷ ts)

-- Behind an AND-group there may also be an OR.
data StopsAnd : Tokens → Type 0 where
  stop : {ts : Tokens} → Stops ts → StopsAnd ts
  at_or :
      (s : Bytes) (p : ℕ) (ts : Tokens)
      → is_word or_word s ≡ true
      → StopsAnd (spanned (ident s) p ∷ ts)

-- The tests of `parse_clause` on the first word of a field-led clause.
reserved_parts :
    (s : Bytes)
    → is_reserved s ≡ false
    → (is_word last_word s ≡ false) × (is_word since_word s ≡ false) × (is_joiner s ≡ false)
reserved_parts s h = ground arith

unjoined : (s : Bytes) → is_reserved s ≡ false → is_joiner s ≡ false
unjoined s h = (reserved_parts s h).2

keyword_unjoined :
    (s t : Bytes)
    → is_word t s ≡ true
    → to_ascii_lowercase t ≢ to_ascii_lowercase or_word
    → to_ascii_lowercase t ≢ to_ascii_lowercase and_word
    → is_joiner s ≡ false
keyword_unjoined s t e ne_or ne_and = rw (
  eq_ignore_ascii_case_other s t or_word e ne_or,
  eq_ignore_ascii_case_other s t and_word e ne_and,
)

module _ (parse_f64 : Bytes → Option ℕ) where
  OrTail-StopsAnd :
      {ts rest : Tokens} {gs : QueryNode} → OrTail parse_f64 ts gs rest → Stops rest → StopsAnd ts
  OrTail-StopsAnd or_end s = stop s
  OrTail-StopsAnd (or_more {s = w} {p} {ts} e _ _) s = at_or w p ts e

  after_joiner-ClauseExpr :
      {ts rest : Tokens} {c : Clause} (word : Bytes) (p : ℕ)
      → ClauseExpr parse_f64 ts c rest
      → after_joiner word p ts ≡ ok tt
  unfolding after_joiner
  after_joiner-ClauseExpr word p (compare_expr {s} _ free _ _) = rw (unjoined s free)
  after_joiner-ClauseExpr word p (contains_expr {s} _ free _ _) = rw (unjoined s free)
  after_joiner-ClauseExpr word p (last_expr {w} e _ _ _) =
      rw (keyword_unjoined w last_word e (λ q. cc q) (λ q. cc q))
  after_joiner-ClauseExpr word p (since_expr {w} e _) =
      rw (keyword_unjoined w since_word e (λ q. cc q) (λ q. cc q))
  after_joiner-ClauseExpr word p (group_expr _) = refl

  after_joiner-AndExpr :
      {ts rest : Tokens} {g : AndGroup} (word : Bytes) (p : ℕ)
      → AndExpr parse_f64 ts g rest
      → after_joiner word p ts ≡ ok tt
  after_joiner-AndExpr word p (and_expr c _) = after_joiner-ClauseExpr word p c

  module _ (finish : ℕ) where
    mutual
      unfolding parse_or_expr close_group

      parse_or_expr-OrExpr :
          {ts rest : Tokens} {q : QueryNode} (fuel : ℕ)
          → OrExpr parse_f64 ts q rest
          → Stops rest
          → 4 * length ts + 3 ≤ fuel
          → parse_or_expr parse_f64 fuel finish ts ≡ ok (q, rest)
      parse_or_expr-OrExpr zero d s h = absurd (omega arith)
      parse_or_expr-OrExpr (suc fuel) (or_expr a t) s h =
          rw (parse_and_expr-AndExpr fuel a (OrTail-StopsAnd t s) (omega arith))
            (rw (or_loop-OrTail fuel t s (omega (arith, AndExpr-length parse_f64 a))))

      or_loop-OrTail :
          {ts rest : Tokens} {q : QueryNode} (fuel : ℕ)
          → OrTail parse_f64 ts q rest
          → Stops rest
          → 4 * length ts + 1 ≤ fuel
          → or_loop parse_f64 fuel finish ts ≡ ok (q, rest)
      or_loop-OrTail zero d s h = absurd (omega arith)
      or_loop-OrTail (suc fuel) or_end at_end h = refl
      or_loop-OrTail (suc fuel) or_end (at_rparen p ts) h = refl
      or_loop-OrTail (suc fuel) (or_more {p} e a t) s h = rw e (
          rw (after_joiner-AndExpr or_word p a) (
            rw (parse_and_expr-AndExpr fuel a (OrTail-StopsAnd t s) (omega arith))
              (rw (or_loop-OrTail fuel t s (omega (arith, AndExpr-length parse_f64 a))))))

      parse_and_expr-AndExpr :
          {ts rest : Tokens} {g : AndGroup} (fuel : ℕ)
          → AndExpr parse_f64 ts g rest
          → StopsAnd rest
          → 4 * length ts + 2 ≤ fuel
          → parse_and_expr parse_f64 fuel finish ts ≡ ok (g, rest)
      parse_and_expr-AndExpr zero d s h = absurd (omega arith)
      parse_and_expr-AndExpr (suc fuel) (and_expr c t) s h =
          rw (parse_clause-ClauseExpr fuel c (omega arith))
            (rw (and_loop-AndTail fuel t s (omega (arith, ClauseExpr-length parse_f64 c))))

      and_loop-AndTail :
          {ts rest : Tokens} {g : AndGroup} (fuel : ℕ)
          → AndTail parse_f64 ts g rest
          → StopsAnd rest
          → 4 * length ts + 1 ≤ fuel
          → and_loop parse_f64 fuel finish ts ≡ ok (g, rest)
      and_loop-AndTail zero d s h = absurd (omega arith)
      and_loop-AndTail (suc fuel) and_end (stop at_end) h = refl
      and_loop-AndTail (suc fuel) and_end (stop (at_rparen p ts)) h = refl
      and_loop-AndTail (suc fuel) and_end (at_or s p ts e) h =
          rw (eq_ignore_ascii_case_other s or_word and_word e (λ q. cc q))
      and_loop-AndTail (suc fuel) (and_more {p} e c t) s h = rw e (
          rw (after_joiner-ClauseExpr and_word p c) (
            rw (parse_clause-ClauseExpr fuel c (omega arith))
              (rw (and_loop-AndTail fuel t s (omega (arith, ClauseExpr-length parse_f64 c))))))

      parse_clause-ClauseExpr :
          {ts rest : Tokens} {c : Clause} (fuel : ℕ)
          → ClauseExpr parse_f64 ts c rest
          → 4 * length ts + 1 ≤ fuel
          → parse_clause parse_f64 fuel finish ts ≡ ok (c, rest)
      parse_clause-ClauseExpr zero d h = absurd (omega arith)
      parse_clause-ClauseExpr (suc fuel) (compare_expr {s} {p} {q} {r} name free is_op is_value) h =
          rw (reserved_parts s free).0 (
            rw (reserved_parts s free).1 (
              rw (reserved_parts s free).2
                (parse_field_led_clause-compare parse_f64 finish s p q r name is_op is_value)))
      parse_clause-ClauseExpr (suc fuel) (contains_expr {s} {w} {p} {q} {r} name free e is_text) h =
          rw (reserved_parts s free).0 (
            rw (reserved_parts s free).1 (
              rw (reserved_parts s free).2
                (parse_field_led_clause-contains parse_f64 finish s w p q r name e is_text)))
      parse_clause-ClauseExpr (suc fuel) (last_expr {s} {u} {q} {r} e whole parsed is_unit) h =
          rw e (parse_last_duration-UnitToken parse_f64 finish s u q r whole parsed is_unit)
      parse_clause-ClauseExpr (suc fuel) (since_expr {w} {q} {rest} e is_datetime) h =
          rw (eq_ignore_ascii_case_other w since_word last_word e (λ x. cc x))
            (rw e (parse_since_datetime-DatetimeToken finish q rest is_datetime))
      parse_clause-ClauseExpr (suc fuel) (group_expr {q} {rest} o) h =
          rw (parse_or_expr-OrExpr fuel o (at_rparen q rest) (omega arith))

-- What the grammar derives from all the tokens, the parser returns.
pub parse_tokens-OrExpr :
    (parse_f64 : Bytes → Option ℕ) (ts : Tokens) (q : QueryNode)
    → OrExpr parse_f64 ts q []
    → parse_tokens parse_f64 ts ≡ ok q
unfolding parse_tokens end_of_query
parse_tokens-OrExpr parse_f64 [] q d = absurd (omega (arith, OrExpr-length parse_f64 d))
parse_tokens-OrExpr parse_f64 (t ∷ ts) q d = rw (
    parse_or_expr-OrExpr parse_f64 (end_position (t ∷ ts)) (4 * length (t ∷ ts) + 4) d at_end
      (omega arith))
