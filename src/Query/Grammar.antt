-- ===== src/Query/Grammar.antt =====
-- The grammar of the query language as relations between the tokens that are left, the value that
-- they spell, and the tokens behind it. The words OR, AND, LAST, SINCE cannot begin a clause as a
-- field name.
use logdive.Query.Parser.Leaves.{
  Tokens, and_word, contains_word, false_word, is_field_character, is_field_start, is_joiner,
  is_word, last_word, or_word, since_word, true_word,
}
use logdive.Query.Ast.{
  AndGroup, Clause, CompareOp, DurationUnit, QueryNode, QueryValue, bool, clauses, compare,
  contains, days, float, group, groups, hours, integer, last_duration, minutes, no_clauses,
  no_groups, since_datetime, string,
}
use logdive.Prelude.{Bool, Option, [], all, false, some, true, ◌||◌, ℕ, ◌∷◌, ◌≡◌}
use logdive.Bytes.{Bytes, codes, contains_byte}
use logdive.Query.Token.{
  Token, eq, gt, ident, lparen, lt, not_eq, number, quoted_string, rparen, spanned,
}
use logdive.Bytes.Number.{parse_i64, parse_u64, ℤ}

pub data CompareToken : Token → CompareOp → Type 0 where
  eq_token : CompareToken eq CompareOp.eq
  not_eq_token : CompareToken not_eq CompareOp.not_eq
  gt_token : CompareToken gt CompareOp.gt
  lt_token : CompareToken lt CompareOp.lt

-- A string value, quoted or bare.
pub data StringToken : Token → Bytes → Type 0 where
  quoted_text : {s : Bytes} → StringToken (quoted_string s) s
  bare_text : {s : Bytes} → StringToken (ident s) s

-- `[a-zA-Z_][a-zA-Z0-9_.]*`
abbrev pub IsFieldName : Bytes → Type 0
IsFieldName [] = ⊥
IsFieldName (c ∷ s) = (is_field_start c ≡ true) × (all is_field_character s ≡ true)

abbrev pub is_reserved : Bytes → Bool
is_reserved s = is_word last_word s || is_word since_word s || is_joiner s

pub data UnitToken : Bytes → DurationUnit → Type 0 where
  minutes_unit : {s : Bytes} → s ≡ codes "m" → UnitToken s minutes
  hours_unit : {s : Bytes} → s ≡ codes "h" → UnitToken s hours
  days_unit : {s : Bytes} → s ≡ codes "d" → UnitToken s days

pub data DatetimeToken : Token → Bytes → Type 0 where
  text_datetime : {t : Token} {s : Bytes} → StringToken t s → DatetimeToken t s
  number_datetime : {s : Bytes} → DatetimeToken (number s) s

module _ (parse_f64 : Bytes → Option ℕ) where
  pub data ValueToken : Token → QueryValue → Type 0 where
    string_value : {s : Bytes} → ValueToken (quoted_string s) (string s)
    bare_value :
        {s : Bytes}
        → is_word true_word s ≡ false
        → is_word false_word s ≡ false
        → ValueToken (ident s) (string s)
    true_value : {s : Bytes} → is_word true_word s ≡ true → ValueToken (ident s) (bool true)
    false_value : {s : Bytes} → is_word false_word s ≡ true → ValueToken (ident s) (bool false)
    integer_value :
        {s : Bytes} {n : ℤ}
        → contains_byte b'.' s ≡ false
        → parse_i64 s ≡ some n
        → ValueToken (number s) (integer n)
    float_value :
        {s : Bytes} {f : ℕ}
        → contains_byte b'.' s ≡ true
        → parse_f64 s ≡ some f
        → ValueToken (number s) (float f)

  mutual
    pub data OrExpr : Tokens → QueryNode → Tokens → Type 0 where
      or_expr :
          {ts mid rest : Tokens} {g : AndGroup} {gs : QueryNode}
          → AndExpr ts g mid
          → OrTail mid gs rest
          → OrExpr ts (groups g gs) rest

    pub data OrTail : Tokens → QueryNode → Tokens → Type 0 where
      or_end : {ts : Tokens} → OrTail ts no_groups ts
      or_more :
          {s : Bytes} {p : ℕ} {ts mid rest : Tokens} {g : AndGroup} {gs : QueryNode}
          → is_word or_word s ≡ true
          → AndExpr ts g mid
          → OrTail mid gs rest
          → OrTail (spanned (ident s) p ∷ ts) (groups g gs) rest

    pub data AndExpr : Tokens → AndGroup → Tokens → Type 0 where
      and_expr :
          {ts mid rest : Tokens} {c : Clause} {cs : AndGroup}
          → ClauseExpr ts c mid
          → AndTail mid cs rest
          → AndExpr ts (clauses c cs) rest

    pub data AndTail : Tokens → AndGroup → Tokens → Type 0 where
      and_end : {ts : Tokens} → AndTail ts no_clauses ts
      and_more :
          {s : Bytes} {p : ℕ} {ts mid rest : Tokens} {c : Clause} {cs : AndGroup}
          → is_word and_word s ≡ true
          → ClauseExpr ts c mid
          → AndTail mid cs rest
          → AndTail (spanned (ident s) p ∷ ts) (clauses c cs) rest

    pub data ClauseExpr : Tokens → Clause → Tokens → Type 0 where
      compare_expr :
          {s : Bytes} {o v : Token} {op : CompareOp} {value : QueryValue} {p q r : ℕ}
          {rest : Tokens}
          → IsFieldName s
          → is_reserved s ≡ false
          → CompareToken o op
          → ValueToken v value
          → ClauseExpr
              (spanned (ident s) p ∷ spanned o q ∷ spanned v r ∷ rest)
              (compare s op value)
              rest
      contains_expr :
          {s w text : Bytes} {v : Token} {p q r : ℕ} {rest : Tokens}
          → IsFieldName s
          → is_reserved s ≡ false
          → is_word contains_word w ≡ true
          → StringToken v text
          → ClauseExpr
              (spanned (ident s) p ∷ spanned (ident w) q ∷ spanned v r ∷ rest)
              (contains s text)
              rest
      last_expr :
          {w s u : Bytes} {amount : ℕ} {unit : DurationUnit} {p q r : ℕ} {rest : Tokens}
          → is_word last_word w ≡ true
          → contains_byte b'.' s ≡ false
          → parse_u64 s ≡ some amount
          → UnitToken u unit
          → ClauseExpr
              (spanned (ident w) p ∷ spanned (number s) q ∷ spanned (ident u) r ∷ rest)
              (last_duration (record { amount = amount; unit = unit }))
              rest
      since_expr :
          {w s : Bytes} {t : Token} {p q : ℕ} {rest : Tokens}
          → is_word since_word w ≡ true
          → DatetimeToken t s
          → ClauseExpr (spanned (ident w) p ∷ spanned t q ∷ rest) (since_datetime s) rest
      group_expr :
          {p q : ℕ} {ts rest : Tokens} {node : QueryNode}
          → OrExpr ts node (spanned rparen q ∷ rest)
          → ClauseExpr (spanned lparen p ∷ ts) (group node) rest
