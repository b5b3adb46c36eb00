-- ===== src/Query/Parser/Leaves.antt =====
-- What the parser of crates/core/src/query.rs does with single tokens, and its clauses without a value.
-- `finish` is `end_position()`, which does not change.
use logdive.Prelude.{
  ℕ, ◌+◌, Bool, false, not, ◌||◌, List, [], ◌∷◌, Option, none, some, ◌==◌, if◌then◌else◌, all,
}
use logdive.Prelude.Result.{ok, ◌>>=◌, ◌>>◌}
use logdive.Bytes.{
  Bytes, codes, is_ascii_alphabetic, is_ascii_alphanumeric, equals, eq_ignore_ascii_case,
  contains_byte, to_ascii_uppercase,
}
use logdive.Bytes.Number.{parse_u64}
use logdive.Query.Ast.{
  CompareOp, DurationUnit, minutes, hours, days, Clause, last_duration, since_datetime, group,
  QueryNode,
}
use logdive.Query.Token.{
  Token, ident, quoted_string, number, eq, not_eq, gt, lt, rparen, SpannedToken, spanned, Message,
  unmatched_rparen, expected_and_or, expected_clause_after, expected_clause_after_got,
  expected_rparen, unclosed_lparen, expected_number_after_last, whole_number_wanted,
  invalid_duration_amount, expected_duration_unit, expected_unit_token, unknown_duration_unit,
  expected_datetime, expected_field_name, contains_requires_string, expected_comparison,
  empty_field_name, bad_field_start, bad_field_character, QueryResult, fail, token_len,
}

abbrev pub Tokens : Type 0
Tokens = List SpannedToken

-- A parsing method returns its value and leaves the tokens behind it.
abbrev pub Parsed : Type 0 → Type 0
Parsed A = QueryResult (A × Tokens)

abbrev pub and_word : Bytes
and_word = codes "and"

abbrev pub or_word : Bytes
or_word = codes "or"

abbrev pub last_word : Bytes
last_word = codes "last"

abbrev pub since_word : Bytes
since_word = codes "since"

abbrev pub contains_word : Bytes
contains_word = codes "contains"

abbrev pub true_word : Bytes
true_word = codes "true"

abbrev pub false_word : Bytes
false_word = codes "false"

abbrev pub is_word : Bytes → Bytes → Bool
is_word word s = eq_ignore_ascii_case s word

abbrev pub is_joiner : Bytes → Bool
is_joiner s = is_word or_word s || is_word and_word s

unfoldable pub end_position : Tokens → ℕ
unfolding token_len
end_position [] = 0
end_position (spanned t p ∷ []) = p + token_len t
end_position (_ ∷ t ∷ ts) = end_position (t ∷ ts)

unfoldable pub is_field_start : ℕ → Bool
is_field_start c = is_ascii_alphabetic c || c == b'_'

unfoldable pub is_field_character : ℕ → Bool
is_field_character c = is_ascii_alphanumeric c || c == b'_' || c == b'.'

unfoldable pub validate_field_name : Bytes → ℕ → QueryResult Unit
unfolding is_field_start is_field_character
validate_field_name [] position = fail position empty_field_name
validate_field_name (first ∷ chars) position =
    if not (is_field_start first)
    then fail position (bad_field_start (first ∷ chars))
    else if all is_field_character chars
    then ok tt
    else fail position (bad_field_character (first ∷ chars))

abbrev pub or_fail : {A : Type 0} → ℕ → Message → Option A → QueryResult A
or_fail p m none = fail p m
or_fail p m (some a) = ok a

-- The number after `last`, and the unit after that.
unfoldable pub duration_amount : Token → ℕ → QueryResult ℕ
duration_amount (number s) p =
    if contains_byte b'.' s
    then fail p whole_number_wanted
    else or_fail p (invalid_duration_amount s) (parse_u64 s)
duration_amount _ p = fail p expected_number_after_last

unfoldable pub duration_unit : Token → ℕ → QueryResult DurationUnit
duration_unit (ident s) p =
    if equals s (codes "m")
    then ok minutes
    else if equals s (codes "h")
    then ok hours
    else if equals s (codes "d")
    then ok days
    else fail p (unknown_duration_unit s)
duration_unit _ p = fail p expected_unit_token

unfoldable pub parse_last_duration : ℕ → Tokens → Parsed Clause
parse_last_duration finish [] = fail finish expected_number_after_last
parse_last_duration finish (spanned n p ∷ []) = do
  duration_amount n p
  fail finish expected_duration_unit
parse_last_duration finish (spanned n p ∷ spanned u q ∷ ts) = do
  amount ← duration_amount n p
  unit ← duration_unit u q
  ok (last_duration (record { amount = amount; unit = unit }), ts)

unfoldable pub parse_since_datetime : ℕ → Tokens → Parsed Clause
parse_since_datetime finish [] = fail finish expected_datetime
parse_since_datetime finish (spanned (quoted_string s) p ∷ ts) = ok (since_datetime s, ts)
parse_since_datetime finish (spanned (ident s) p ∷ ts) = ok (since_datetime s, ts)
parse_since_datetime finish (spanned (number s) p ∷ ts) = ok (since_datetime s, ts)
parse_since_datetime finish (spanned _ p ∷ ts) = fail p expected_datetime

unfoldable pub field_name : Token → ℕ → QueryResult Bytes
field_name (ident s) p = do validate_field_name s p; ok s
field_name _ p = fail p expected_field_name

abbrev pub is_contains : Token → Bool
is_contains (ident s) = is_word contains_word s
is_contains _ = false

unfoldable pub contains_value : Token → ℕ → QueryResult Bytes
contains_value (quoted_string s) p = ok s
contains_value (ident s) p = ok s
contains_value _ p = fail p contains_requires_string

unfoldable pub compare_op : Token → ℕ → QueryResult CompareOp
compare_op eq p = ok CompareOp.eq
compare_op not_eq p = ok CompareOp.not_eq
compare_op gt p = ok CompareOp.gt
compare_op lt p = ok CompareOp.lt
compare_op _ p = fail p expected_comparison

-- The tokens after `OR` or `AND`: neither the end nor another of these words.
unfoldable pub after_joiner : Bytes → ℕ → Tokens → QueryResult Unit
after_joiner word position [] = fail position (expected_clause_after word)
after_joiner word position (spanned (ident s) p ∷ ts) =
    if is_joiner s then fail p (expected_clause_after_got word (to_ascii_uppercase s)) else ok tt
after_joiner word position (spanned _ p ∷ ts) = ok tt

-- The closing parenthesis of a group that began at `open_pos`.
unfoldable pub close_group : ℕ → QueryNode → Tokens → Parsed Clause
close_group open_pos inner [] = fail open_pos unclosed_lparen
close_group open_pos inner (spanned rparen p ∷ ts) = ok (group inner, ts)
close_group open_pos inner (spanned _ p ∷ ts) = fail p expected_rparen

-- What may follow a complete query: nothing.
unfoldable pub end_of_query : QueryNode → Tokens → QueryResult QueryNode
end_of_query node [] = ok node
end_of_query node (spanned rparen p ∷ ts) = fail p unmatched_rparen
end_of_query node (spanned _ p ∷ ts) = fail p expected_and_or
