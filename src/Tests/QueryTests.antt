-- ===== src/Tests/QueryTests.antt =====
-- The query language of crates/core/src/query.rs on concrete texts.
use logdive.Bytes.{Bytes, codes}
use logdive.Query.Ast.{
  CompareOp, QueryNode, clauses, compare, contains, group, groups, hours, last_duration, no_clauses,
  no_groups, string, QueryValue,
}
use logdive.Query.Text.{
  Derives, parse-Derives, parse-ne_out_of_fuel, parse_error_position, parse_tokens-iff-OrExpr,
}
use logdive.Query.WellFormed.{IsWellFormedQuery, parse-IsWellFormed}
use logdive.Prelude.{Option, [], none, refl, ℕ, ◌↔◌, ◌∷◌, ◌≡◌, ◌≢◌, ◌≤◌}
use logdive.Query.Grammar.{OrExpr}
use logdive.Query.Parser.Leaves.{Tokens}
use logdive.Query.Parser.{parse, parse_tokens}
use logdive.Query.Token.{eq, expected_number_after_last, fail, ident, spanned, unclosed_lparen}
use logdive.Prelude.Result.{ok, out_of_fuel}
use logdive.Bytes.Number.{pos}

abbrev no_floats : Bytes → Option ℕ
no_floats s = none

abbrev api_query : Bytes
api_query = codes "level=error AND (tag contains \"api x\" OR req_id > 100) AND last 2h"

abbrev api_tree : QueryNode
api_tree =
    groups
      (clauses (compare (codes "level") CompareOp.eq (string (codes "error"))) (
        clauses
          (group (
            groups (clauses (contains (codes "tag") (codes "api x")) no_clauses) (
              groups
                (clauses (compare (codes "req_id") CompareOp.gt (QueryValue.integer (pos 100)))
                  no_clauses)
                no_groups)))
          (clauses (last_duration (record { amount = 2; unit = hours })) no_clauses)))
      no_groups

parse-api_query : parse no_floats api_query ≡ ok api_tree
unfolding parse
parse-api_query = refl

-- AND binds tighter than OR.
parse_precedence :
    parse no_floats (codes "a=1 AND b=2 OR c=3") ≡ parse no_floats (codes "a=1 AND b=2 or c=3")
unfolding parse
parse_precedence = refl

parse_unclosed : parse no_floats (codes "a=1 AND (b=2") ≡ fail 8 unclosed_lparen
unfolding parse
parse_unclosed = refl

-- The word LAST cannot stand as a field name.
parse_last_field : parse no_floats (codes "last contains x") ≡ fail 5 expected_number_after_last
unfolding parse
parse_last_field = refl

parse-Derives_example : Derives no_floats api_query api_tree
parse-Derives_example = parse-Derives no_floats api_query api_tree parse-api_query

parse-ne_out_of_fuel_example : parse no_floats api_query ≢ out_of_fuel
parse-ne_out_of_fuel_example = parse-ne_out_of_fuel no_floats api_query

parse_error_position_example : 8 ≤ 12
parse_error_position_example =
    parse_error_position no_floats (codes "a=1 AND (b=2") _ parse_unclosed

abbrev tag_tokens : Tokens
tag_tokens = spanned (ident (codes "tag")) 0 ∷ spanned eq 3 ∷ spanned (ident (codes "api")) 4 ∷ []

abbrev tag_tree : QueryNode
tag_tree =
    groups (clauses (compare (codes "tag") CompareOp.eq (string (codes "api"))) no_clauses)
      no_groups

parse_tokens-iff-OrExpr_example :
    (parse_tokens no_floats tag_tokens ≡ ok tag_tree) ↔ OrExpr no_floats tag_tokens tag_tree []
parse_tokens-iff-OrExpr_example = parse_tokens-iff-OrExpr no_floats tag_tokens tag_tree

parse-IsWellFormed_example : IsWellFormedQuery api_tree
parse-IsWellFormed_example = parse-IsWellFormed no_floats api_query api_tree parse-api_query
