-- ===== src/Query/Sound/Clauses.antt =====
-- What the cla
use logdive.Query.Sound.Measure.{AllWithin, ErrorWithin}
use logdive.Bytes.{Bytes}
use logdive.Query.Grammar.{
  ClauseExpr, IsFieldName, OrExpr, bare_text, compare_expr, contains_expr, group_expr, is_reserved,
  last_expr, number_datetime, quoted_text, since_expr, text_datetime,
}
use logdive.Prelude.Result.{Ensures, Ensures-bind, Ensures-if, fails, holds}
use logdive.Prelude.{Option, [], arith, false, refl, true, ℕ, ◌∷◌, ◌≡◌, ◌≤◌}
use logdive.Query.Ast.{QueryNode}
use logdive.Query.Token.{Token, ident, lparen, number, quoted_string, rparen, spanned}
use logdive.Query.Parser.Leaves.{
  Tokens, close_group, contains_word, is_contains, is_joiner, is_word, last_word,
  parse_last_duration, parse_since_datetime, since_word,
}
use logdive.Query.Parser.{parse_field_led_clause, parse_operation}
use logdive.Query.Sound.Leaves.{
  compare_op-Ensures, contains_value-Ensures, duration_amount-Ensures, duration_unit-Ensures,
  field_name-Ensures, token_to_query_value-Ensures,
}
use mathlib.Core.Path.{subst}

module _ (parse_f64 : Bytes → Option ℕ) (n finish : ℕ) (end_within : finish ≤ n) where
  pub parse_last_duration-Ensures :
      {w : Bytes} {p : ℕ} (ts : Tokens)
      → is_word last_word w ≡ true
      → AllWithin n ts
      → Ensures
          (ErrorWithin n)
          (λ (c, rest). ClauseExpr parse_f64 (spanned (ident w) p ∷ ts) c rest)
          (parse_last_duration finish ts)
  unfolding parse_last_duration
  parse_last_duration-Ensures [] word within = fails end_within
  parse_last_duration-Ensures (spanned t q ∷ []) word within =
      Ensures-bind (duration_amount-Ensures n t q within.0) λ _ _. fails end_within
  parse_last_duration-Ensures (spanned t q ∷ spanned u r ∷ ts) word (hq, (hr, within)) =
      Ensures-bind (duration_amount-Ensures n t q hq) λ amount (s, t_eq, whole, parsed).
        Ensures-bind (duration_unit-Ensures n u r hr)
          λ unit (v, u_eq, is_unit). holds (rw (t_eq, u_eq) (last_expr word whole parsed is_unit))

  pub parse_since_datetime-Ensures :
      {w : Bytes} {p : ℕ} (ts : Tokens)
      → is_word since_word w ≡ true
      → AllWithin n ts
      → Ensures
          (ErrorWithin n)
          (λ (c, rest). ClauseExpr parse_f64 (spanned (ident w) p ∷ ts) c rest)
          (parse_since_datetime finish ts)
  unfolding parse_since_datetime
  parse_since_datetime-Ensures [] word within = fails end_within
  parse_since_datetime-Ensures (spanned (quoted_string s) q ∷ ts) word within =
      holds (since_expr word (text_datetime quoted_text))
  parse_since_datetime-Ensures (spanned (ident s) q ∷ ts) word within =
      holds (since_expr word (text_datetime bare_text))
  parse_since_datetime-Ensures (spanned (number s) q ∷ ts) word within =
      holds (since_expr word number_datetime)
  parse_since_datetime-Ensures (spanned _ q ∷ ts) word within = fails within.0

  is_contains→ident :
      (t : Token)
      → is_contains t ≡ true
      → (w : Bytes) × (t ≡ ident w) × (is_word contains_word w ≡ true)
  is_contains→ident (ident w) h = (w, refl, h)
  is_contains→ident _ h = cc

  pub parse_operation-Ensures :
      {s : Bytes} {p : ℕ} (o : Token) (q : ℕ) (ts : Tokens)
      → IsFieldName s
      → is_reserved s ≡ false
      → q ≤ n
      → AllWithin n ts
      → Ensures
          (ErrorWithin n)
          (λ (c, rest). ClauseExpr parse_f64 (spanned (ident s) p ∷ spanned o q ∷ ts) c rest)
          (parse_operation parse_f64 finish s o q ts)
  unfolding parse_operation
  parse_operation-Ensures o q [] name free hq within =
      Ensures-if (is_contains o) (λ _. fails end_within)
        (λ _. Ensures-bind (compare_op-Ensures n o q hq) λ _ _. fails end_within)
  parse_operation-Ensures o q (spanned v r ∷ ts) name free hq (hr, within) =
      Ensures-if (is_contains o)
        (λ is.
          let (w, o_eq, word) = is_contains→ident o is in
          Ensures-bind (contains_value-Ensures n v r hr)
            λ text is_text. holds (rw o_eq (contains_expr name free word is_text)))
        (λ _. Ensures-bind (compare_op-Ensures n o q hq) λ op is_op.
          Ensures-bind (token_to_query_value-Ensures parse_f64 n v r hr)
            λ value is_value. holds (compare_expr name free is_op is_value))

  pub parse_field_led_clause-Ensures :
      (t : Token) (p : ℕ) (ts : Tokens)
      → ((s : Bytes) → t ≡ ident s → is_reserved s ≡ false)
      → p ≤ n
      → AllWithin n ts
      → Ensures
          (ErrorWithin n)
          (λ (c, rest). ClauseExpr parse_f64 (spanned t p ∷ ts) c rest)
          (parse_field_led_clause parse_f64 finish t p ts)
  unfolding parse_field_led_clause
  parse_field_led_clause-Ensures t p [] free hp within =
      Ensures-bind (field_name-Ensures n t p hp) λ _ _. fails end_within
  parse_field_led_clause-Ensures t p (spanned o q ∷ ts) free hp (hq, within) =
      Ensures-bind (field_name-Ensures n t p hp)
        λ s (t_eq, name). rw t_eq (parse_operation-Ensures o q ts name (free s t_eq) hq within)

  pub close_group-Ensures :
      {p : ℕ} {inside : Tokens} (node : QueryNode) (ts : Tokens)
      → p ≤ n
      → OrExpr parse_f64 inside node ts
      → AllWithin n ts
      → Ensures
          (ErrorWithin n)
          (λ (c, rest). ClauseExpr parse_f64 (spanned lparen p ∷ inside) c rest)
          (close_group p node ts)
  unfolding close_group
  close_group-Ensures node [] hp inner within = fails hp
  close_group-Ensures node (spanned rparen q ∷ ts) hp inner within = holds (group_expr inner)
  close_group-Ensures node (spanned _ q ∷ ts) hp inner within = fails within.0

pub unreserved :
    (s : Bytes)
    → is_word last_word s ≡ false
    → is_word since_word s ≡ false
    → is_joiner s ≡ false
    → (u : Bytes) → ident s ≡ ident u
    → is_reserved u ≡ false
unreserved s not_last not_since not_joiner u e =
    subst (λ v. is_reserved v ≡ false) (let p : s ≡ u = cc e in p) (ground arith)
