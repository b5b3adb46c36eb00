-- ===== src/Query/Token.antt =====
-- The tokens of crates/core/src/query.rs, its errors, and how long a token is in the input. An error
-- message is a constructor for each text, with what the text quotes.
use logdive.Prelude.{ℕ, ◌+◌, length}
use logdive.Prelude.Result.{Result}
use logdive.Bytes.{Bytes}

pub data Token : Type 0 where
  ident : Bytes → Token
  quoted_string : Bytes → Token
  number : Bytes → Token
  eq not_eq gt lt lparen rparen : Token

-- `spanned token position`
pub data SpannedToken : Type 0 where
  spanned : Token → ℕ → SpannedToken

pub data Message : Type 0 where
  unexpected_bang unterminated_string empty_query unmatched_rparen expected_and_or : Message
  unexpected_character : ℕ → Message
  expected_clause_after : Bytes → Message
  expected_clause_after_got : Bytes → Bytes → Message
  expected_clause expected_rparen unclosed_lparen : Message
  unexpected_at_start : Bytes → Message
  expected_number_after_last whole_number_wanted : Message
  invalid_duration_amount : Bytes → Message
  expected_duration_unit expected_unit_token : Message
  unknown_duration_unit : Bytes → Message
  expected_datetime expected_field_name expected_operator expected_string_after_contains : Message
  contains_requires_string expected_comparison expected_value_after_operator : Message
  empty_field_name : Message
  bad_field_start bad_field_character : Bytes → Message
  invalid_number invalid_integer : Bytes → Message
  expected_value : Message

pub record QueryParseError : Type 0 where
  pub position : ℕ
  pub message : Message

abbrev pub QueryResult : Type 0 → Type 0
QueryResult = Result QueryParseError

abbrev pub fail : {A : Type 0} → ℕ → Message → QueryResult A
fail p m = Result.err (record { position = p; message = m })

-- `token_len`
unfoldable pub token_len : Token → ℕ
token_len (ident s) = length s
token_len (number s) = length s
token_len (quoted_string s) = length s + 2
token_len eq = 1
token_len gt = 1
token_len lt = 1
token_len lparen = 1
token_len rparen = 1
token_len not_eq = 2
