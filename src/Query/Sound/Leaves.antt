-- ===== src/Query/Sound/Leaves.antt =====
-- What the parser's methods that do not recurse ensure: on success the tokens read are as the grammar
-- says, and an error stands at a token or at the end.
use logdive.Query.Sound.Measure.{AllWithin, ErrorWithin}
use logdive.Prelude.{Option, [], all, false, none, refl, some, ℕ, ◌∷◌, ◌≡◌, ◌≤◌, not, not-eq_false}
use logdive.Bytes.{Bytes, codes, contains_byte, equals}
use logdive.Query.Grammar.{
  CompareToken, IsFieldName, StringToken, UnitToken, ValueToken, bare_text, bare_value, days_unit,
  eq_token, false_value, float_value, gt_token, hours_unit, integer_value, lt_token, minutes_unit,
  not_eq_token, quoted_text, string_value, true_value,
}
use logdive.Prelude.Result.{Ensures, Ensures-bind, Ensures-if, Ensures-map, fails, holds}
use logdive.Query.Token.{Message, Token, eq, gt, ident, lt, not_eq, number, quoted_string, spanned}
use logdive.Query.Parser.Leaves.{
  Tokens, after_joiner, compare_op, contains_value, duration_amount, duration_unit, false_word,
  field_name, is_field_character, is_field_start, is_joiner, is_word, or_fail, true_word,
  validate_field_name,
}
use logdive.Query.Parser.{token_to_query_value}
use logdive.Bytes.Laws.{equals_iff}
use logdive.Bytes.Number.{parse_i64, parse_u64}

module _ (n : ℕ) where
  pub or_fail-Ensures :
      {A : Type 0} (p : ℕ) (m : Message) (o : Option A)
      → p ≤ n
      → Ensures (ErrorWithin n) (λ a. o ≡ some a) (or_fail p m o)
  or_fail-Ensures p m none h = fails h
  or_fail-Ensures p m (some a) h = holds refl

  pub duration_amount-Ensures :
      (t : Token) (p : ℕ)
      → p ≤ n
      → Ensures
          (ErrorWithin n)
          (λ a.
            (s : Bytes) × (t ≡ number s) × (contains_byte b'.' s ≡ false) × (parse_u64 s ≡ some a))
          (duration_amount t p)
  unfolding duration_amount
  duration_amount-Ensures (number s) p h =
      Ensures-if (contains_byte b'.' s) (λ _. fails h)
        λ whole. Ensures-map (or_fail-Ensures p _ (parse_u64 s) h) λ a e. (s, refl, whole, e)
  duration_amount-Ensures _ p h = fails h

  pub duration_unit-Ensures :
      (t : Token) (p : ℕ)
      → p ≤ n
      → Ensures
          (ErrorWithin n)
          (λ u. (s : Bytes) × (t ≡ ident s) × UnitToken s u)
          (duration_unit t p)
  unfolding duration_unit
  duration_unit-Ensures (ident s) p h =
      Ensures-if (equals s (codes "m")) (λ e. holds (s, refl, minutes_unit ((equals_iff s _).0 e)))
        λ _.
          Ensures-if (equals s (codes "h"))
            (λ e. holds (s, refl, hours_unit ((equals_iff s _).0 e)))
            λ _.
              Ensures-if (equals s (codes "d"))
                (λ e. holds (s, refl, days_unit ((equals_iff s _).0 e))) λ _. fails h
  duration_unit-Ensures _ p h = fails h

  pub validate_field_name-Ensures :
      (s : Bytes) (p : ℕ)
      → p ≤ n
      → Ensures (ErrorWithin n) (λ _. IsFieldName s) (validate_field_name s p)
  unfolding validate_field_name
  validate_field_name-Ensures [] p h = fails h
  validate_field_name-Ensures (c ∷ s) p h =
      Ensures-if (not (is_field_start c)) (λ _. fails h)
        λ start.
          Ensures-if (all is_field_character s) (λ more. holds (not-eq_false start, more))
            λ _. fails h

  pub field_name-Ensures :
      (t : Token) (p : ℕ)
      → p ≤ n
      → Ensures (ErrorWithin n) (λ s. (t ≡ ident s) × IsFieldName s) (field_name t p)
  unfolding field_name
  field_name-Ensures (ident s) p h =
      Ensures-bind (validate_field_name-Ensures s p h) λ _ valid. holds (refl, valid)
  field_name-Ensures _ p h = fails h

  pub contains_value-Ensures :
      (t : Token) (p : ℕ) → p ≤ n → Ensures (ErrorWithin n) (StringToken t) (contains_value t p)
  unfolding contains_value
  contains_value-Ensures (quoted_string s) p h = holds quoted_text
  contains_value-Ensures (ident s) p h = holds bare_text
  contains_value-Ensures _ p h = fails h

  pub compare_op-Ensures :
      (t : Token) (p : ℕ) → p ≤ n → Ensures (ErrorWithin n) (CompareToken t) (compare_op t p)
  unfolding compare_op
  compare_op-Ensures eq p h = holds eq_token
  compare_op-Ensures not_eq p h = holds not_eq_token
  compare_op-Ensures gt p h = holds gt_token
  compare_op-Ensures lt p h = holds lt_token
  compare_op-Ensures _ p h = fails h

  pub after_joiner-Ensures :
      (word : Bytes) (p : ℕ) (ts : Tokens)
      → p ≤ n
      → AllWithin n ts
      → Ensures (ErrorWithin n) (λ _. Unit {0}) (after_joiner word p ts)
  unfolding after_joiner
  after_joiner-Ensures word p [] h within = fails h
  after_joiner-Ensures word p (spanned (ident s) q ∷ ts) h within =
      Ensures-if (is_joiner s) (λ _. fails within.0) λ _. holds tt
  after_joiner-Ensures word p (spanned _ q ∷ ts) h within = holds tt

module _ (parse_f64 : Bytes → Option ℕ) (n : ℕ) where
  pub token_to_query_value-Ensures :
      (t : Token) (p : ℕ)
      → p ≤ n
      → Ensures (ErrorWithin n) (ValueToken parse_f64 t) (token_to_query_value parse_f64 t p)
  unfolding token_to_query_value
  token_to_query_value-Ensures (quoted_string s) p h = holds string_value
  token_to_query_value-Ensures (number s) p h =
      Ensures-if (contains_byte b'.' s)
        (λ dot.
          Ensures-bind (or_fail-Ensures n p _ (parse_f64 s) h) λ f e. holds (float_value dot e))
        (λ whole.
          Ensures-bind (or_fail-Ensures n p _ (parse_i64 s) h) λ i e. holds (integer_value whole e))
  token_to_query_value-Ensures (ident s) p h =
      Ensures-if (is_word true_word s) (λ e. holds (true_value e))
        λ not_true.
          Ensures-if (is_word false_word s) (λ e. holds (false_value e))
            λ not_false. holds (bare_value not_true not_false)
  token_to_query_value-Ensures _ p h = fails h
