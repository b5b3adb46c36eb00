-- ===== src/Parsers/Logfmt.antt =====
-- The scanner of crates/core/src/parsers/logfmt.rs. The index `i` into `bytes` is the rest of the bytes
-- from there on. The loop of `parse_pairs` has one unit of fuel for each byte and one more.
pub mod Line
pub mod Scan
pub mod Locality
pub mod RoundTrip
use logdive.Prelude.{
  ◌+◌, ◌++◌, ◌==◌, Bool, List, Option, [], drop_while, false, if◌then◌else◌, length, none, not,
  some, suc, take_while, true, zero, ◌||◌, ℕ, ◌∷◌,
}
use logdive.Bytes.{Bytes, codes, is_ascii_alphabetic, is_ascii_alphanumeric, is_ascii_whitespace}
use logdive.Parsers.Blank.{LineResult, skipped}
use logdive.Prelude.Result.{err, ok, out_of_fuel, ◌>>=◌}

abbrev pub Pair : Type 0
Pair = Bytes × Bytes

unfoldable pub is_key_start : ℕ → Bool
is_key_start b = is_ascii_alphabetic b || b == b'_'

unfoldable pub is_key_continue : ℕ → Bool
is_key_continue b = is_ascii_alphanumeric b || b == b'_' || b == b'-' || b == b'.'

abbrev pub not_white : ℕ → Bool
not_white b = not (is_ascii_whitespace b)

unfoldable pub skip_to_whitespace : Bytes → Bytes
skip_to_whitespace = drop_while not_white

-- These bytes come in front of the value.
abbrev pub push : Bytes → LineResult (Bytes × Bytes) → LineResult (Bytes × Bytes)
push front r = do (value, left) ← r; ok (front ++ value, left)

-- From behind the opening quote on: the value, and what follows the closing quote.
unfoldable mutual
  pub read_quoted_value : Bytes → LineResult (Bytes × Bytes)
  read_quoted_value [] = err skipped
  read_quoted_value (c ∷ s) = elim (c == b'"') [
    | true ↦ ok ([], s)
    | false ↦ elim (c == b'\\') [
      | true ↦ read_escape s
      | false ↦ push (c ∷ []) (read_quoted_value s)
    ]
  ]

  -- From behind a backslash on.
  pub read_escape : Bytes → LineResult (Bytes × Bytes)
  read_escape [] = err skipped
  read_escape (next ∷ s) =
      push (if next == b'"' || next == b'\\' then next ∷ [] else b'\\' ∷ next ∷ [])
        (read_quoted_value s)

-- What a token gives: a pair or nothing, and the rest of the line.
abbrev pub Step : Type 0
Step = Option Pair × Bytes

unfoldable pub quoted_pair : Bytes → LineResult (Bytes × Bytes) → LineResult Step
quoted_pair key r = do (value, left) ← r; ok (some (key, value), left)

unfoldable pub after_equals : Bytes → Bytes → LineResult Step
unfolding quoted_pair read_quoted_value
after_equals key [] = ok (some (key, []), [])
after_equals key (d ∷ rest) =
    if is_ascii_whitespace d
    then ok (some (key, []), d ∷ rest)
    else if d == b'"'
    then quoted_pair key (read_quoted_value rest)
    else ok (some (key, take_while not_white (d ∷ rest)), drop_while not_white (d ∷ rest))

unfoldable pub after_key : Bytes → Bytes → LineResult Step
unfolding after_equals skip_to_whitespace
after_key key [] = ok (some (key, codes "true"), [])
after_key key (d ∷ rest) =
    if is_ascii_whitespace d
    then ok (some (key, codes "true"), d ∷ rest)
    else if not (d == b'=')
    then ok (none, skip_to_whitespace (d ∷ rest))
    else after_equals key rest

-- One round of the loop, from byte `c` that is no white space.
unfoldable pub read_token : ℕ → Bytes → LineResult Step
unfolding after_key is_key_start is_key_continue skip_to_whitespace
read_token c s =
    if not (is_key_start c)
    then ok (none, skip_to_whitespace (c ∷ s))
    else after_key (take_while is_key_continue (c ∷ s)) (drop_while is_key_continue (c ∷ s))

abbrev pub add : Option Pair → List Pair → List Pair
add none ps = ps
add (some p) ps = p ∷ ps

-- The loop from the next byte that is no white space on; `more` are its other rounds.
unfoldable pub pairs_at : (Bytes → LineResult (List Pair)) → Bytes → LineResult (List Pair)
unfolding read_token
pairs_at more [] = ok []
pairs_at more (c ∷ s) = do (pair, left) ← read_token c s; pairs ← more left; ok (add pair pairs)

unfoldable pub pairs_from : ℕ → Bytes → LineResult (List Pair)
unfolding pairs_at
pairs_from zero bytes = out_of_fuel
pairs_from (suc fuel) bytes =
    pairs_at (λ left. pairs_from fuel left) (drop_while is_ascii_whitespace bytes)

unfoldable pub parse_pairs : Bytes → LineResult (List Pair)
unfolding pairs_from
parse_pairs line = pairs_from (length line + 1) line
