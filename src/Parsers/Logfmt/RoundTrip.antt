-- ===== src/Parsers/Logfmt/RoundTrip.antt =====
-- Pairs written out with quoted values, and read back by crates/core/src/parsers/logfmt.rs.
use logdive.Prelude.{
  ◌&&◌, ◌++◌, ◌<◌, ◌==◌, Bool, Bool-cases, List, [], all, arith, false, if◌then◌else◌, inl, inr,
  refl, some, suc, true, zero, ◌||◌, ℕ, ◌∷◌, ◌≡◌, drop_while-all, take_while-all, ◌+◌, length, ◌∙◌,
}
use logdive.Bytes.{Bytes, is_ascii_whitespace}
use logdive.Parsers.Logfmt.{
  Pair, after_equals, after_key, is_key_continue, is_key_start, pairs_at, pairs_from, parse_pairs,
  quoted_pair, read_quoted_value, read_token,
}
use logdive.Prelude.Result.{ok}
use logdive.Parsers.Logfmt.Scan.{is_key_start→continue, run_before}
use logdive.Parsers.Logfmt.Locality.{parse_pairs-append, pairs_from-fuel}

-- A quoted value's body: a backslash before each quote and each backslash.
unfoldable pub escape : Bytes → Bytes
escape [] = []
escape (c ∷ s) =
    let rest = escape s in if c == b'"' || c == b'\\' then b'\\' ∷ c ∷ rest else c ∷ rest

abbrev pub quote : Bytes → Bytes
quote value = b'"' ∷ (escape value ++ b'"' ∷ [])

-- The pairs one after another, each with a space behind it.
unfoldable pub render : List Pair → Bytes
unfolding escape
render [] = []
render ((key, value) ∷ ps) = (key ++ b'=' ∷ quote value) ++ 32 ∷ render ps

abbrev pub is_key : Bytes → Bool
is_key [] = false
is_key (c ∷ s) = is_key_start c && all is_key_continue s

read_quoted_value-escape :
    (value rest : Bytes) → read_quoted_value (escape value ++ b'"' ∷ rest) ≡ ok (value, rest)
unfolding read_quoted_value escape
read_quoted_value-escape [] rest = refl
read_quoted_value-escape (c ∷ s) rest = elim (Bool-cases (c == b'"' || c == b'\\')) [
  | inl e ↦ rw e (rw e (rw (read_quoted_value-escape s rest)))
  | inr e ↦
      (let no_quote : (c == b'"') ≡ false = ground arith in
        let no_backslash : (c == b'\\') ≡ false = ground arith in
        rw e
          (rw (read_quoted_value, no_quote, no_backslash) (rw (read_quoted_value-escape s rest))))
]

after_key-quote :
    (key value : Bytes) → after_key key (b'=' ∷ quote value) ≡ ok (some (key, value), [])
unfolding after_key after_equals quoted_pair
after_key-quote key value = rw (read_quoted_value-escape value [])

is_key_start-dark : (c : ℕ) → is_key_start c ≡ true → is_ascii_whitespace c ≡ false
unfolding is_key_start
is_key_start-dark c h = ground arith

pairs_from_end : (n : ℕ) → 0 < n → pairs_from n [] ≡ ok []
unfolding pairs_from pairs_at
pairs_from_end zero h = absurd (omega arith)
pairs_from_end (suc n) h = refl

-- A key with its quoted value, as one token.
read_token-quote :
    (c : ℕ) (s value : Bytes)
    → is_key_start c ≡ true
    → all is_key_continue s ≡ true
    → read_token c (s ++ b'=' ∷ quote value) ≡ ok (some (c ∷ s, value), [])
unfolding read_token
read_token-quote c s value start more =
    let (taken, left) = run_before is_key_continue s b'=' (quote value) refl in
    rw (start, is_key_start→continue c start)
      (rw (taken, left)
        (rw (take_while-all is_key_continue s more, drop_while-all is_key_continue s more)
          (after_key-quote (c ∷ s) value)))

-- The loop over a single token.
pairs_from_one :
    (n c : ℕ) (s : Bytes) (p : Pair)
    → is_ascii_whitespace c ≡ false
    → read_token c s ≡ ok (some p, [])
    → pairs_from (suc (suc n)) (c ∷ s) ≡ ok (p ∷ [])
unfolding pairs_from pairs_at
pairs_from_one n c s p dark read = rw dark (rw read)

parse_pairs-quote :
    (key value : Bytes)
    → is_key key ≡ true
    → parse_pairs (key ++ b'=' ∷ quote value) ≡ ok ((key, value) ∷ [])
unfolding parse_pairs
parse_pairs-quote [] value h = cc h
parse_pairs-quote (c ∷ s) value h =
    let start : is_key_start c ≡ true = ground arith in
    let line = s ++ b'=' ∷ quote value in
    pairs_from-fuel (length (c ∷ line) + 1) (suc (suc (length line))) (c ∷ line) (omega arith)
      (omega arith)
    ∙ pairs_from_one (length line) c line (c ∷ s, value) (is_key_start-dark c start)
        (read_token-quote c s value start (ground arith))

-- Pairs with proper keys and any values, written one after another with the values quoted and their
-- quotes and backslashes escaped, are read back as they were.
pub parse_pairs-render :
    (ps : List Pair) → all (λ p. is_key p.0) ps ≡ true → parse_pairs (render ps) ≡ ok ps
unfolding render parse_pairs
parse_pairs-render [] h = pairs_from_end 1 (omega arith)
parse_pairs-render ((key, value) ∷ ps) h =
    rw
      (parse_pairs-append (key ++ b'=' ∷ quote value) (render ps) 32 ((key, value) ∷ []) refl
        (parse_pairs-quote key value (ground arith)))
      (rw (parse_pairs-render ps (ground arith)))
