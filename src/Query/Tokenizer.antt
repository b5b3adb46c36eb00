-- ===== src/Query/Tokenizer.antt =====
-- `tokenize` of crates/core/src/query.rs. The index `i` into `bytes` is the position with the bytes
-- that are left from there on. `tokenize` gives one unit of fuel to each byte and one to the end.
pub mod Spelling
use logdive.Prelude.{
  ℕ, zero, suc, ◌+◌, Bool, false, not, ◌&&◌, ◌||◌, List, [], ◌∷◌, ◌++◌, ◌==◌, if◌then◌else◌, length,
  take_while, drop_while,
}
use logdive.Prelude.Result.{ok, out_of_fuel, ◌>>=◌}
use logdive.Bytes.{
  Bytes, is_ascii_digit, is_ascii_alphabetic, is_ascii_alphanumeric, is_ascii_whitespace,
}
use logdive.Query.Token.{
  Token, ident, quoted_string, number, eq, not_eq, gt, lt, lparen, rparen, SpannedToken, spanned,
  unexpected_bang, unterminated_string, unexpected_character, QueryResult, fail, token_len,
}

unfoldable pub is_ident_continuation : ℕ → Bool
is_ident_continuation b =
    b == b'_' || b == b'.' || b == b'-' || b == b':' || is_ascii_alphanumeric b

-- The scan from the opening quote on: the content and what follows the closing quote.
abbrev pub not_quote : ℕ → Bool
not_quote b = not (b == b'"')

quoted : ℕ → Bytes → Bytes → QueryResult (Token × Bytes)
quoted start content [] = fail start unterminated_string
quoted start content (_ ∷ rest) = ok (quoted_string content, rest)

abbrev starts_with_digit : Bytes → Bool
starts_with_digit [] = false
starts_with_digit (c ∷ _) = is_ascii_digit c

-- First phase of a digit-led token: digits and at most one dot, which a digit follows. The flag is
-- `saw_dot`; the pair is what was read and what is left.
digit_run : Bool → Bytes → Bytes × Bytes
digit_run saw_dot [] = ([], [])
digit_run saw_dot (c ∷ rest) =
    let (read, left) = digit_run (saw_dot || c == b'.') rest in
    if is_ascii_digit c || (c == b'.' && not saw_dot && starts_with_digit rest)
    then (c ∷ read, left)
    else ([], c ∷ rest)

-- Second phase: `-`, `:` or `.` behind the run makes it an identifier.
abbrev promotes : Bytes → Bool
promotes [] = false
promotes (c ∷ _) = c == b'-' || c == b':' || c == b'.'

digit_led : Bytes → Token × Bytes
digit_led bytes =
    let (read, left) = digit_run false bytes in
    if promotes left
    then (
      ident (read ++ take_while is_ident_continuation left),
      drop_while is_ident_continuation left,
    )
    else (number read, left)

bang : ℕ → Bytes → QueryResult (Token × Bytes)
bang i [] = fail i unexpected_bang
bang i (c ∷ rest) = if c == b'=' then ok (not_eq, rest) else fail i unexpected_bang

-- The token that begins with byte `c` at `i`, and the bytes behind it.
pub next_token : ℕ → ℕ → Bytes → QueryResult (Token × Bytes)
unfolding bang quoted digit_led digit_run is_ident_continuation
next_token i c rest =
    if c == b'!'
    then bang i rest
    else if c == b'='
    then ok (eq, rest)
    else if c == b'>'
    then ok (gt, rest)
    else if c == b'<'
    then ok (lt, rest)
    else if c == b'('
    then ok (lparen, rest)
    else if c == b')'
    then ok (rparen, rest)
    else if c == b'"'
    then quoted i (take_while not_quote rest) (drop_while not_quote rest)
    else if is_ascii_digit c
    then ok (digit_led (c ∷ rest))
    else if c == b'_' || is_ascii_alphabetic c
    then ok (
      ident (take_while is_ident_continuation (c ∷ rest)),
      drop_while is_ident_continuation (c ∷ rest),
    )
    else fail i (unexpected_character c)

pub tokenize_from : ℕ → ℕ → Bytes → QueryResult (List SpannedToken)
tokenize_from zero i bytes = out_of_fuel
tokenize_from (suc fuel) i [] = ok []
tokenize_from (suc fuel) i (c ∷ rest) =
    let skipped = tokenize_from fuel (i + 1) rest in
    let pushed = (do
      (token, left) ← next_token i c rest
      more ← tokenize_from fuel (i + token_len token) left
      ok (spanned token i ∷ more)) in
    if is_ascii_whitespace c then skipped else pushed

unfoldable pub tokenize : Bytes → QueryResult (List SpannedToken)
unfolding tokenize_from next_token token_len
tokenize input = tokenize_from (length input + 1) 0 input
