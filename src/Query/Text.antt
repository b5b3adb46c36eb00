-- ===== src/Query/Text.antt =====
-- `parse` on the text of a query: the tokenizer's and the parser's guarantees together.
use logdive.Prelude.{◌+◌, [], ap, arith, length, length-append, ℕ, ◌∷◌, ◌≡◌, ◌≢◌, ◌≤◌, Option, ◌↔◌}
use logdive.Query.Sound.Measure.{AllWithin, ErrorWithin}
use logdive.Prelude.Result.{
  Ensures, Ensures-bind, Ensures-eq_err, Ensures-eq_ok, Ensures-map, Ensures-ne_out_of_fuel,
  Ensures-weaken, err, ok, out_of_fuel,
}
use logdive.Query.Grammar.{OrExpr}
use logdive.Query.Ast.{QueryNode}
use logdive.Query.Token.{QueryParseError, spanned, token_len}
use logdive.Query.Tokenizer.Spelling.{
  Spells, spelled_end, spelled_space, spelled_token, token_len-length, token_text,
  tokenize_from-Ensures,
}
use logdive.Query.Parser.Leaves.{Tokens, end_position}
use logdive.Query.Parser.{parse, parse_tokens}
use logdive.Query.Sound.{parse_tokens-Ensures}
use logdive.Query.Tokenizer.{tokenize}
use logdive.Bytes.{Bytes}
use logdive.Query.Complete.{parse_tokens-OrExpr}

Spells-AllWithin :
    {p n : ℕ} {input : Bytes} {ts : Tokens}
    → Spells p input ts
    → p + length input ≤ n
    → AllWithin n ts
Spells-AllWithin spelled_end h = tt
Spells-AllWithin (spelled_space blank s) h = Spells-AllWithin s (omega arith)
Spells-AllWithin (spelled_token {t} {rest} e _ s) h = (
  omega arith,
  Spells-AllWithin s (omega (arith, ap length e, length-append (token_text t) rest)),
)

Spells-end_position :
    {p n : ℕ} {input : Bytes} {ts : Tokens}
    → Spells p input ts
    → p + length input ≤ n
    → end_position ts ≤ n
unfolding end_position
Spells-end_position spelled_end h = omega arith
Spells-end_position (spelled_space blank s) h = Spells-end_position s (omega arith)
Spells-end_position (spelled_token {t} {rest} {ts = []} e _ s) h =
    omega (arith, ap length e, length-append (token_text t) rest, token_len-length t)
Spells-end_position (spelled_token {t} {rest} {ts = u ∷ ts} e _ s) h =
    Spells-end_position s (omega (arith, ap length e, length-append (token_text t) rest))

-- The text spells tokens from which the grammar derives the query.
abbrev pub Derives : (Bytes → Option ℕ) → Bytes → QueryNode → Type 0
Derives parse_f64 input q = (ts : Tokens) × Spells 0 input ts × OrExpr parse_f64 ts q []

pub parse-Ensures :
    (parse_f64 : Bytes → Option ℕ) (input : Bytes)
    → Ensures (ErrorWithin (length input)) (Derives parse_f64 input) (parse parse_f64 input)
unfolding parse tokenize
parse-Ensures parse_f64 input =
    Ensures-bind
      (Ensures-weaken (tokenize_from-Ensures (length input + 1) 0 input (omega arith))
        (λ e p. omega arith) λ a r. r)
      λ ts spelled.
        Ensures-map
          (parse_tokens-Ensures parse_f64 (length input) ts (Spells-AllWithin spelled (omega arith))
            (Spells-end_position spelled (omega arith)))
          λ q derived. (ts, spelled, derived)

-- The parser ends on every input: it returns a query or an error, never running out of fuel.
pub parse-ne_out_of_fuel :
    (parse_f64 : Bytes → Option ℕ) (input : Bytes) → parse parse_f64 input ≢ out_of_fuel
parse-ne_out_of_fuel parse_f64 input h = Ensures-ne_out_of_fuel (parse-Ensures parse_f64 input) h

-- If `parse` returns a query, the input spells, with white space between them, tokens from which the
-- grammar derives that query; each token stands whole at its position.
pub parse-Derives :
    (parse_f64 : Bytes → Option ℕ) (input : Bytes) (q : QueryNode)
    → parse parse_f64 input ≡ ok q
    → Derives parse_f64 input q
parse-Derives parse_f64 input q h = Ensures-eq_ok (parse-Ensures parse_f64 input) h

-- The byte offset of a parse error lies within the input, or at its end.
pub parse_error_position :
    (parse_f64 : Bytes → Option ℕ) (input : Bytes) (e : QueryParseError)
    → parse parse_f64 input ≡ err e
    → e.position ≤ length input
parse_error_position parse_f64 input e h = Ensures-eq_err (parse-Ensures parse_f64 input) h

-- A position that no token passes.
bound : Tokens → ℕ
bound [] = 0
bound (spanned t p ∷ ts) = p + token_len t + bound ts

AllWithin-bound : (n : ℕ) (ts : Tokens) → bound ts ≤ n → AllWithin n ts
unfolding bound
AllWithin-bound n [] h = tt
AllWithin-bound n (spanned t p ∷ ts) h = (omega arith, AllWithin-bound n ts (omega arith))

end_position-bound : (ts : Tokens) → end_position ts ≤ bound ts
unfolding end_position bound
end_position-bound [] = omega arith
end_position-bound (spanned t p ∷ []) = omega arith
end_position-bound (spanned t p ∷ u ∷ ts) = omega (arith, end_position-bound (u ∷ ts))

-- The parser accepts a list of tokens with query `q` exactly when the grammar derives `q` from all of
-- them: `(` … `)` groups, AND binds tighter than OR, the words in any case.
pub parse_tokens-iff-OrExpr :
    (parse_f64 : Bytes → Option ℕ) (ts : Tokens) (q : QueryNode)
    → (parse_tokens parse_f64 ts ≡ ok q) ↔ OrExpr parse_f64 ts q []
parse_tokens-iff-OrExpr parse_f64 ts q = (
  Ensures-eq_ok (
      parse_tokens-Ensures parse_f64 (bound ts) ts (AllWithin-bound (bound ts) ts (omega arith))
        (end_position-bound ts)),
  parse_tokens-OrExpr parse_f64 ts q,
)
