-- ===== src/Query/Complete/Leaves.antt =====
-- The clause parsers return what the grammar says of their tokens.
use logdive.Bytes.{Bytes, contains_byte, equals}
use logdive.Query.Ast.{
  CompareOp, DurationUnit, QueryValue, compare, contains, last_duration, since_datetime,
}
use logdive.Query.Grammar.{
  CompareToken, DatetimeToken, IsFieldName, StringToken, UnitToken, ValueToken, bare_text,
  bare_value, days_unit, eq_token, false_value, float_value, gt_token, hours_unit, integer_value,
  lt_token, minutes_unit, not_eq_token, number_datetime, quoted_text, string_value, text_datetime,
  true_value,
}
use logdive.Prelude.{Option, [], false, refl, some, true, ℕ, ◌∷◌, ◌≡◌}
use logdive.Query.Token.{Token, ident, number, spanned}
use logdive.Query.Parser.Leaves.{
  Tokens, compare_op, contains_value, contains_word, duration_amount, duration_unit, false_word,
  field_name, is_contains, is_word, parse_last_duration, parse_since_datetime, true_word,
  validate_field_name,
}
use logdive.Query.Parser.{parse_field_led_clause, parse_operation, token_to_query_value}
use logdive.Bytes.Laws.{eq_ignore_ascii_case_other}
use logdive.Prelude.Result.{ok}
use logdive.Bytes.Number.{parse_u64}

pub duration_unit-UnitToken :
    {s : Bytes} {u : DurationUnit} (p : ℕ) → UnitToken s u → duration_unit (ident s) p ≡ ok u
unfolding duration_unit equals
duration_unit-UnitToken p (minutes_unit e) = rw e
duration_unit-UnitToken p (hours_unit e) = rw e
duration_unit-UnitToken p (days_unit e) = rw e

pub duration_amount-number :
    (s : Bytes) {n : ℕ} (p : ℕ)
    → contains_byte b'.' s ≡ false
    → parse_u64 s ≡ some n
    → duration_amount (number s) p ≡ ok n
unfolding duration_amount
duration_amount-number s p whole parsed = rw (whole, parsed)

pub compare_op-CompareToken :
    {t : Token} {op : CompareOp} (p : ℕ) → CompareToken t op → compare_op t p ≡ ok op
unfolding compare_op
compare_op-CompareToken p eq_token = refl
compare_op-CompareToken p not_eq_token = refl
compare_op-CompareToken p gt_token = refl
compare_op-CompareToken p lt_token = refl

pub is_contains-CompareToken :
    {t : Token} {op : CompareOp} → CompareToken t op → is_contains t ≡ false
is_contains-CompareToken eq_token = refl
is_contains-CompareToken not_eq_token = refl
is_contains-CompareToken gt_token = refl
is_contains-CompareToken lt_token = refl

pub contains_value-StringToken :
    {t : Token} {s : Bytes} (p : ℕ) → StringToken t s → contains_value t p ≡ ok s
unfolding contains_value
contains_value-StringToken p quoted_text = refl
contains_value-StringToken p bare_text = refl

pub field_name-IsFieldName : (s : Bytes) (p : ℕ) → IsFieldName s → field_name (ident s) p ≡ ok s
unfolding field_name validate_field_name
field_name-IsFieldName [] p h = absurd h
field_name-IsFieldName (c ∷ s) p (start, more) = rw (start, more)

pub parse_since_datetime-DatetimeToken :
    {t : Token} {s : Bytes} (finish p : ℕ) (ts : Tokens)
    → DatetimeToken t s
    → parse_since_datetime finish (spanned t p ∷ ts) ≡ ok (since_datetime s, ts)
unfolding parse_since_datetime
parse_since_datetime-DatetimeToken finish p ts (text_datetime quoted_text) = refl
parse_since_datetime-DatetimeToken finish p ts (text_datetime bare_text) = refl
parse_since_datetime-DatetimeToken finish p ts number_datetime = refl

module _ (parse_f64 : Bytes → Option ℕ) where
  pub token_to_query_value-ValueToken :
      {t : Token} {v : QueryValue} (p : ℕ)
      → ValueToken parse_f64 t v
      → token_to_query_value parse_f64 t p ≡ ok v
  unfolding token_to_query_value
  token_to_query_value-ValueToken p string_value = refl
  token_to_query_value-ValueToken p (bare_value not_true not_false) = rw (not_true, not_false)
  token_to_query_value-ValueToken p (true_value e) = rw e
  token_to_query_value-ValueToken p (false_value {s} e) =
      rw (eq_ignore_ascii_case_other s false_word true_word e (λ w. cc w), e)
  token_to_query_value-ValueToken p (integer_value whole parsed) = rw (whole, parsed)
  token_to_query_value-ValueToken p (float_value dot parsed) = rw (dot, parsed)

  module _ (finish : ℕ) where
    pub parse_field_led_clause-compare :
        (s : Bytes) {o v : Token} {op : CompareOp} {value : QueryValue} (p q r : ℕ) {rest : Tokens}
        → IsFieldName s
        → CompareToken o op
        → ValueToken parse_f64 v value
        → parse_field_led_clause parse_f64 finish (ident s) p (spanned o q ∷ spanned v r ∷ rest)
          ≡ ok (compare s op value, rest)
    unfolding parse_field_led_clause parse_operation
    parse_field_led_clause-compare s p q r name is_op is_value =
        rw (field_name-IsFieldName s p name) (
          rw (is_contains-CompareToken is_op, compare_op-CompareToken q is_op)
            (rw (token_to_query_value-ValueToken r is_value)))

    pub parse_field_led_clause-contains :
        (s w : Bytes) {text : Bytes} {v : Token} (p q r : ℕ) {rest : Tokens}
        → IsFieldName s
        → is_word contains_word w ≡ true
        → StringToken v text
        → parse_field_led_clause parse_f64 finish
            (ident s)
            p
            (spanned (ident w) q ∷ spanned v r ∷ rest)
          ≡ ok (contains s text, rest)
    unfolding parse_field_led_clause parse_operation
    parse_field_led_clause-contains s w p q r name is_contains is_text =
        rw (field_name-IsFieldName s p name)
          (rw is_contains (rw (contains_value-StringToken r is_text)))

    pub parse_last_duration-UnitToken :
        (s u : Bytes) {n : ℕ} {unit : DurationUnit} (q r : ℕ) {rest : Tokens}
        → contains_byte b'.' s ≡ false
        → parse_u64 s ≡ some n
        → UnitToken u unit
        → parse_last_duration finish (spanned (number s) q ∷ spanned (ident u) r ∷ rest)
          ≡ ok (last_duration (record { amount = n; unit = unit }), rest)
    unfolding parse_last_duration
    parse_last_duration-UnitToken s u q r whole parsed is_unit =
        rw (duration_amount-number s q whole parsed) (rw (duration_unit-UnitToken r is_unit))
