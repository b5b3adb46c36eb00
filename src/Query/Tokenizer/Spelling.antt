-- ===== src/Query/Tokenizer/Spelling.antt =====
-- The tokens spell the input: each stands at its position, whole, and only white space is left out.
use logdive.Prelude.{
  ◌+◌, ◌++◌, ◌<◌, ◌==◌, Bool, [], arith, drop_while, length, length-append, refl, take_while, true,
  ◌||◌, ℕ, ◌∷◌, ◌≡◌, ==_iff, Bool-cases, ap, append_assoc, drop_while-head, false, inl, inr, sym,
  not-eq_false, suc, take_while-append-drop_while, zero, ◌∙◌,
}
use logdive.Bytes.{Bytes, is_ascii_whitespace, is_ascii_alphabetic, is_ascii_digit}
use logdive.Prelude.Result.{Ensures, fails, holds, Ensures-if, Ensures-bind, Ensures-weaken}
use logdive.Query.Token.{
  QueryParseError, Token, eq, gt, ident, lparen, lt, not_eq, number, quoted_string, rparen, spanned,
  token_len,
}
use logdive.Query.Parser.Leaves.{Tokens}
use logdive.Query.Tokenizer.{
  digit_run, not_quote, quoted, bang, digit_led, next_token, promotes, is_ident_continuation,
  tokenize_from,
}

pub token_text : Token → Bytes
token_text (ident s) = s
token_text (number s) = s
token_text (quoted_string s) = b'"' ∷ (s ++ b'"' ∷ [])
token_text eq = b'=' ∷ []
token_text gt = b'>' ∷ []
token_text lt = b'<' ∷ []
token_text lparen = b'(' ∷ []
token_text rparen = b')' ∷ []
token_text not_eq = b'!' ∷ b'=' ∷ []

-- From position `p` on the input spells the tokens.
pub data Spells : ℕ → Bytes → Tokens → Type 0 where
  spelled_end : {p : ℕ} → Spells p [] []
  spelled_space :
      {p c : ℕ} {rest : Bytes} {ts : Tokens}
      → is_ascii_whitespace c ≡ true
      → Spells (p + 1) rest ts
      → Spells p (c ∷ rest) ts
  spelled_token :
      {p : ℕ} {t : Token} {input rest : Bytes} {ts : Tokens}
      → input ≡ token_text t ++ rest
      → 0 < token_len t
      → Spells (p + length (token_text t)) rest ts
      → Spells p input (spanned t p ∷ ts)

pub token_len-length : (t : Token) → token_len t ≡ length (token_text t)
unfolding token_len token_text
token_len-length (quoted_string s) = omega (arith, length-append s (b'"' ∷ []))
token_len-length _ = refl

-- What one step reads: a token of at least one byte, off the front.
record Reads (bytes : Bytes) (read : Token × Bytes) : Type 0 where
  splits : bytes ≡ token_text read.0 ++ read.1
  grows : 0 < token_len read.0

abbrev ErrorAt : ℕ → QueryParseError → Type 0
ErrorAt i e = e.position ≡ i

quoted-Ensures :
    (i : ℕ) (rest : Bytes)
    → Ensures
        (ErrorAt i)
        (Reads (b'"' ∷ rest))
        (quoted i (take_while not_quote rest) (drop_while not_quote rest))
unfolding quoted token_text token_len
quoted-Ensures i rest = go (drop_while not_quote rest) refl
  where
    go :
        (left : Bytes)
        → drop_while not_quote rest ≡ left
        → Ensures (ErrorAt i) (Reads (b'"' ∷ rest)) (quoted i (take_while not_quote rest) left)
    go [] e = fails refl
    go (c ∷ left) e = holds (record {
      splits = rw append_assoc (ap (◌∷◌ b'"') (closes (drop_while-head not_quote rest e) e));
      grows = omega arith;
    })
      where
        closes :
            not_quote c ≡ false
            → drop_while not_quote rest ≡ c ∷ left
            → rest ≡ take_while not_quote rest ++ (b'"' ∷ left)
        closes h e' =
            sym (take_while-append-drop_while not_quote rest)
            ∙ rw e' (
                ap (λ q. take_while not_quote rest ++ (q ∷ left))
                  ((==_iff c b'"').0 (not-eq_false h)))

digit_run-splits :
    (saw_dot : Bool) (bytes : Bytes)
    → (digit_run saw_dot bytes).0 ++ (digit_run saw_dot bytes).1 ≡ bytes
unfolding digit_run
digit_run-splits saw_dot [] = refl
digit_run-splits saw_dot (c ∷ rest) = ground (arith, digit_run-splits (saw_dot || c == b'.') rest)

digit_run_pos :
    (c : ℕ) (rest : Bytes) → is_ascii_digit c ≡ true → 0 < length (digit_run false (c ∷ rest)).0
unfolding digit_run
digit_run_pos c rest h = rw h (omega arith)

digit_led-Reads :
    (c : ℕ) (rest : Bytes) → is_ascii_digit c ≡ true → Reads (c ∷ rest) (digit_led (c ∷ rest))
unfolding digit_led token_text token_len
digit_led-Reads c rest h =
    let left = (digit_run false (c ∷ rest)).1 in
    elim (Bool-cases (promotes left)) [
      | inl e ↦ rw e (record {
        splits =
            rw append_assoc
              (rw take_while-append-drop_while (sym (digit_run-splits false (c ∷ rest))));
        grows = omega (
          arith,
          length-append (digit_run false (c ∷ rest)).0 (take_while is_ident_continuation left),
          digit_run_pos c rest h,
        );
      })
      | inr e ↦ rw e (record {
        splits = sym (digit_run-splits false (c ∷ rest));
        grows = digit_run_pos c rest h;
      })
    ]

bang-Ensures : (i : ℕ) (rest : Bytes) → Ensures (ErrorAt i) (Reads (b'!' ∷ rest)) (bang i rest)
unfolding bang token_text token_len
bang-Ensures i [] = fails refl
bang-Ensures i (c ∷ rest) =
    Ensures-if (c == b'=')
      (λ e. holds (record { splits = rw ((==_iff c b'=').0 e); grows = omega arith }))
      λ _. fails refl

is_ident_continuation_start :
    (c : ℕ) → (c == b'_' || is_ascii_alphabetic c) ≡ true → is_ident_continuation c ≡ true
unfolding is_ident_continuation
is_ident_continuation_start c h = ground arith

next_token-Ensures :
    (i c : ℕ) (rest : Bytes) → Ensures (ErrorAt i) (Reads (c ∷ rest)) (next_token i c rest)
unfolding next_token token_text token_len
next_token-Ensures i c rest =
    Ensures-if (c == b'!') (λ e. rw ((==_iff c b'!').0 e) (bang-Ensures i rest))
      λ _.
        Ensures-if (c == b'=')
          (λ e. holds (record { splits = rw ((==_iff c b'=').0 e); grows = omega arith }))
          λ _.
            Ensures-if (c == b'>')
              (λ e. holds (record { splits = rw ((==_iff c b'>').0 e); grows = omega arith }))
              λ _.
                Ensures-if (c == b'<')
                  (λ e. holds (record { splits = rw ((==_iff c b'<').0 e); grows = omega arith }))
                  λ _.
                    Ensures-if (c == b'(')
                      (λ e.
                        holds (record { splits = rw ((==_iff c b'(').0 e); grows = omega arith }))
                      λ _.
                        Ensures-if (c == b')')
                          (λ e.
                            holds
                              (record { splits = rw ((==_iff c b')').0 e); grows = omega arith }))
                          λ _.
                            Ensures-if (c == b'"')
                              (λ e. rw ((==_iff c b'"').0 e) (quoted-Ensures i rest))
                              λ _.
                                Ensures-if (is_ascii_digit c)
                                  (λ e. holds (digit_led-Reads c rest e))
                                  λ _.
                                    Ensures-if (c == b'_' || is_ascii_alphabetic c)
                                      (λ e. holds (record {
                                        splits = sym (
                                            take_while-append-drop_while is_ident_continuation
                                              (c ∷ rest));
                                        grows = rw (is_ident_continuation_start c e) (omega arith);
                                      }))
                                      λ _. fails refl

-- From position `i` on: what is returned spells the input, and an error stands inside it.
pub tokenize_from-Ensures :
    (fuel i : ℕ) (bytes : Bytes)
    → length bytes < fuel
    → Ensures (λ e. e.position < i + length bytes) (Spells i bytes) (tokenize_from fuel i bytes)
unfolding tokenize_from
tokenize_from-Ensures zero i bytes h = absurd (omega arith)
tokenize_from-Ensures (suc fuel) i [] h = holds spelled_end
tokenize_from-Ensures (suc fuel) i (c ∷ rest) h =
    Ensures-if (is_ascii_whitespace c)
      (λ blank.
        Ensures-weaken (tokenize_from-Ensures fuel (i + 1) rest (omega arith)) (λ e p. omega arith)
          λ ts spelled. spelled_space blank spelled)
      (λ _.
        Ensures-bind (Ensures-weaken (next_token-Ensures i c rest) (λ e p. omega arith) λ a r. r)
          λ (t, left) read.
            let shorter = ap length read.splits in
            let counted = length-append (token_text t) left in
            Ensures-bind
              (Ensures-weaken
                (tokenize_from-Ensures fuel (i + token_len t) left
                  (omega (arith, shorter, counted, read.grows, token_len-length t)))
                (λ e p. omega (arith, shorter, counted, token_len-length t)) λ a r. r)
              λ ts spelled.
                holds
                  (spelled_token read.splits read.grows (rw (sym (token_len-length t)) spelled)))
