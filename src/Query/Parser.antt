-- ===== src/Query/Parser.antt =====
-- The recursive descent parser of crates/core/src/query.rs. The cursor into the tokens is the list of
-- the tokens from there on; `finish` is `end_position()`, which does not change. `f64::from_str` is
-- the parameter `parse_f64`, into IEEE bit patterns.
pub mod Leaves
use logdive.Prelude.{
  ℕ, zero, suc, ◌+◌, ◌*◌, Bool, true, false, not, ◌||◌, List, [], ◌∷◌, Option, none, some, ◌==◌,
  if◌then◌else◌, length, all,
}
use logdive.Prelude.Result.{ok, out_of_fuel, ◌>>=◌, ◌>>◌}
use logdive.Bytes.{
  Bytes, codes, is_ascii_alphabetic, is_ascii_alphanumeric, equals, eq_ignore_ascii_case,
  contains_byte, to_ascii_uppercase,
}
use logdive.Bytes.Number.{parse_u64, parse_i64}
use logdive.Query.Ast.{
  QueryValue, string, integer, float, bool, CompareOp, DurationUnit, minutes, hours, days, Clause,
  compare, contains, last_duration, since_datetime, group, AndGroup, no_clauses, clauses, QueryNode,
  no_groups, groups,
}
use logdive.Query.Token.{
  Token, ident, quoted_string, number, eq, not_eq, gt, lt, lparen, rparen, SpannedToken, spanned,
  Message, empty_query, unmatched_rparen, expected_and_or, expected_clause_after,
  expected_clause_after_got, expected_clause, expected_rparen, unclosed_lparen, unexpected_at_start,
  expected_number_after_last, whole_number_wanted, invalid_duration_amount, expected_duration_unit,
  expected_unit_token, unknown_duration_unit, expected_datetime, expected_field_name,
  expected_operator, expected_string_after_contains, contains_requires_string, expected_comparison,
  expected_value_after_operator, empty_field_name, bad_field_start, bad_field_character,
  invalid_number, invalid_integer, expected_value, QueryResult, fail, token_len,
}
use logdive.Query.Tokenizer.{tokenize}
use logdive.Query.Parser.Leaves.{
  Tokens, Parsed, and_word, or_word, last_word, since_word, contains_word, true_word, false_word,
  is_word, is_joiner, end_position, is_field_start, is_field_character, validate_field_name,
  or_fail, duration_amount, duration_unit, parse_last_duration, parse_since_datetime, field_name,
  is_contains, contains_value, compare_op, after_joiner, close_group, end_of_query,
}

module _ (parse_f64 : Bytes → Option ℕ) where
  unfoldable pub token_to_query_value : Token → ℕ → QueryResult QueryValue
  token_to_query_value (quoted_string s) p = ok (string s)
  token_to_query_value (number s) p =
      if contains_byte b'.' s
      then (do f ← or_fail p (invalid_number s) (parse_f64 s); ok (float f))
      else (do n ← or_fail p (invalid_integer s) (parse_i64 s); ok (integer n))
  token_to_query_value (ident s) p =
      if is_word true_word s
      then ok (bool true)
      else if is_word false_word s
      then ok (bool false)
      else ok (string s)
  token_to_query_value _ p = fail p expected_value

  -- From the operator on.
  unfoldable pub parse_operation : ℕ → Bytes → Token → ℕ → Tokens → Parsed Clause
  parse_operation finish field op p [] =
      if is_contains op
      then fail finish expected_string_after_contains
      else (do compare_op op p; fail finish expected_value_after_operator)
  parse_operation finish field op p (spanned v q ∷ ts) =
      if is_contains op then (do s ← contains_value v q; ok (contains field s, ts)) else (do
        o ← compare_op op p
        value ← token_to_query_value v q
        ok (compare field o value, ts))

  unfoldable pub parse_field_led_clause : ℕ → Token → ℕ → Tokens → Parsed Clause
  parse_field_led_clause finish t p [] = do field_name t p; fail finish expected_operator
  parse_field_led_clause finish t p (spanned op q ∷ ts) = do
    field ← field_name t p
    parse_operation finish field op q ts

  unfoldable mutual
    pub parse_or_expr : ℕ → ℕ → Tokens → Parsed QueryNode
    parse_or_expr zero finish ts = out_of_fuel
    parse_or_expr (suc fuel) finish ts = do
      (g, rest) ← parse_and_expr fuel finish ts
      (gs, left) ← or_loop fuel finish rest
      ok (groups g gs, left)

    pub or_loop : ℕ → ℕ → Tokens → Parsed QueryNode
    or_loop zero finish ts = out_of_fuel
    or_loop (suc fuel) finish (spanned (ident s) p ∷ ts) =
        let more = (do
          after_joiner or_word p ts
          (g, rest) ← parse_and_expr fuel finish ts
          (gs, left) ← or_loop fuel finish rest
          ok (groups g gs, left)) in
        if is_word or_word s then more else ok (no_groups, spanned (ident s) p ∷ ts)
    or_loop (suc fuel) finish ts = ok (no_groups, ts)

    pub parse_and_expr : ℕ → ℕ → Tokens → Parsed AndGroup
    parse_and_expr zero finish ts = out_of_fuel
    parse_and_expr (suc fuel) finish ts = do
      (c, rest) ← parse_clause fuel finish ts
      (cs, left) ← and_loop fuel finish rest
      ok (clauses c cs, left)

    pub and_loop : ℕ → ℕ → Tokens → Parsed AndGroup
    and_loop zero finish ts = out_of_fuel
    and_loop (suc fuel) finish (spanned (ident s) p ∷ ts) =
        let more = (do
          after_joiner and_word p ts
          (c, rest) ← parse_clause fuel finish ts
          (cs, left) ← and_loop fuel finish rest
          ok (clauses c cs, left)) in
        if is_word and_word s then more else ok (no_clauses, spanned (ident s) p ∷ ts)
    and_loop (suc fuel) finish ts = ok (no_clauses, ts)

    pub parse_clause : ℕ → ℕ → Tokens → Parsed Clause
    parse_clause zero finish ts = out_of_fuel
    parse_clause (suc fuel) finish [] = fail finish expected_clause
    parse_clause (suc fuel) finish (spanned lparen p ∷ ts) = do
      (inner, rest) ← parse_or_expr fuel finish ts
      close_group p inner rest
    parse_clause (suc fuel) finish (spanned rparen p ∷ ts) = fail p unmatched_rparen
    parse_clause (suc fuel) finish (spanned (ident s) p ∷ ts) =
        if is_word last_word s
        then parse_last_duration finish ts
        else if is_word since_word s
        then parse_since_datetime finish ts
        else if is_joiner s
        then fail p (unexpected_at_start (to_ascii_uppercase s))
        else parse_field_led_clause finish (ident s) p ts
    parse_clause (suc fuel) finish (spanned t p ∷ ts) = parse_field_led_clause finish t p ts

  -- Each token costs four units of fuel at most.
  unfoldable pub parse_tokens : Tokens → QueryResult QueryNode
  parse_tokens [] = fail 0 empty_query
  parse_tokens (t ∷ ts) = do
    (node, rest) ← parse_or_expr (4 * length (t ∷ ts) + 4) (end_position (t ∷ ts)) (t ∷ ts)
    end_of_query node rest

  unfoldable pub parse : Bytes → QueryResult QueryNode
  unfolding parse_tokens tokenize parse_or_expr parse_last_duration duration_amount duration_unit
      parse_u64 parse_i64 eq_ignore_ascii_case contains_byte end_position parse_field_led_clause
      parse_operation field_name validate_field_name contains_value compare_op after_joiner
      close_group end_of_query token_to_query_value
  parse input = do tokens ← tokenize input; parse_tokens tokens
