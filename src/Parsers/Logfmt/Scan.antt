-- ===== src/Parsers/Logfmt/Scan.antt =====
-- Laws of the scanner of crates/core/src/parsers/logfmt.rs: each step goes on, and white space behind its
-- input does not change what it reads.
use logdive.Prelude.{
  ◌++◌, ◌==◌, Bool-cases, [], arith, inl, inr, length, true, ℕ, ◌∷◌, ◌≡◌, ◌≤◌, Bool, drop_while,
  false, length-drop_while, not, refl, take_while, take_while-append, not-eq_false,
}
use logdive.Bytes.{Bytes, is_ascii_whitespace}
use logdive.Prelude.Result.{Ensures, Ensures-bind, Ensures-map, fails, holds, ok, Ensures-if}
use logdive.Parsers.Blank.{LineResult, Skipped}
use logdive.Parsers.Logfmt.{
  read_escape, read_quoted_value, after_equals, after_key, is_key_continue, not_white, quoted_pair,
  skip_to_whitespace, is_key_start, read_token,
}

abbrev pub Any : Skipped → Type 0
Any _ = Unit

-- What `f` reads off `s`: no more than `s` is left, and with white space behind `s` it reads the same.
pub record Extends {A : Type 0} (f : Bytes → LineResult (A × Bytes)) (s : Bytes) (r : A × Bytes)
    : Type 0 where
  pub shorter : length r.1 ≤ length s
  pub extends :
      (w : ℕ) (b : Bytes) → is_ascii_whitespace w ≡ true → f (s ++ w ∷ b) ≡ ok (r.0, r.1 ++ w ∷ b)

mutual
  unfolding read_quoted_value

  read_quoted_value-Extends :
      (s : Bytes) → Ensures Any (Extends read_quoted_value s) (read_quoted_value s)
  read_quoted_value-Extends [] = fails tt
  read_quoted_value-Extends (c ∷ s) = elim (Bool-cases (c == b'"')) [
    | inl e ↦
        rw (read_quoted_value, e)
          (holds (record { shorter = omega arith; extends = λ w b h. rw (read_quoted_value, e) }))
    | inr e ↦ elim (Bool-cases (c == b'\\')) [
      | inl e' ↦
          rw (read_quoted_value, e, e')
            (Ensures-map (read_escape-Extends s) λ r x. record {
              shorter = omega (arith, x.shorter);
              extends = λ w b h. rw (read_quoted_value, e, e') (x.extends w b h);
            })
      | inr e' ↦
          rw (read_quoted_value, e, e')
            (Ensures-bind (read_quoted_value-Extends s) λ r x. holds (record {
              shorter = omega (arith, x.shorter);
              extends = λ w b h. rw (read_quoted_value, e, e') (rw (x.extends w b h));
            }))
    ]
  ]

  read_escape-Extends : (s : Bytes) → Ensures Any (Extends read_escape s) (read_escape s)
  read_escape-Extends [] = fails tt
  read_escape-Extends (d ∷ s) = Ensures-bind (read_quoted_value-Extends s) λ r x.
      holds (record { shorter = omega (arith, x.shorter); extends = λ w b h. rw (x.extends w b h) })

stops_at_white :
    (p : ℕ → Bool) (w : ℕ) (b : Bytes)
    → p w ≡ false
    → (drop_while p (w ∷ b) ≡ w ∷ b) × (take_while p (w ∷ b) ≡ [])
stops_at_white p w b h = rw h (refl, refl)

pub run_before :
    (p : ℕ → Bool) (s : Bytes) (w : ℕ) (b : Bytes)
    → p w ≡ false
    → (take_while p (s ++ w ∷ b) ≡ take_while p s)
      × (drop_while p (s ++ w ∷ b) ≡ drop_while p s ++ w ∷ b)
run_before p s w b h =
    let (stop, none_taken) = stops_at_white p w b h in take_while-append p s (w ∷ b) stop none_taken

white-not_white : (w : ℕ) → is_ascii_whitespace w ≡ true → not_white w ≡ false
white-not_white w h = rw h

white-is_key_continue : (w : ℕ) → is_ascii_whitespace w ≡ true → is_key_continue w ≡ false
unfolding is_key_continue
white-is_key_continue w h = ground arith

after_equals-Extends :
    (key s : Bytes) → Ensures Any (Extends (after_equals key) s) (after_equals key s)
unfolding after_equals quoted_pair
after_equals-Extends key [] = holds (record { shorter = omega arith; extends = λ w b h. rw h })
after_equals-Extends key (d ∷ rest) =
    Ensures-if (is_ascii_whitespace d)
      (λ white. holds (record { shorter = omega arith; extends = λ w b h. rw white }))
      λ dark.
        Ensures-if (d == b'"')
          (λ e. Ensures-bind (read_quoted_value-Extends rest) λ r x. holds (record {
            shorter = omega (arith, x.shorter);
            extends = λ w b h. rw (dark, e) (rw (x.extends w b h));
          }))
          λ e. holds (record {
            shorter = length-drop_while not_white (d ∷ rest);
            extends = λ w b h.
                let (taken, left) = run_before not_white rest w b (white-not_white w h) in
                rw (dark, e) (rw (taken, left));
          })

after_key-Extends : (key s : Bytes) → Ensures Any (Extends (after_key key) s) (after_key key s)
unfolding after_key skip_to_whitespace
after_key-Extends key [] = holds (record { shorter = omega arith; extends = λ w b h. rw h })
after_key-Extends key (d ∷ rest) =
    Ensures-if (is_ascii_whitespace d)
      (λ white. holds (record { shorter = omega arith; extends = λ w b h. rw white }))
      λ dark.
        Ensures-if (not (d == b'='))
          (λ e. holds (record {
            shorter = length-drop_while not_white (d ∷ rest);
            extends = λ w b h.
                let (_, left) = run_before not_white rest w b (white-not_white w h) in
                rw (dark, e) (rw left);
          }))
          λ e. Ensures-map (after_equals-Extends key rest) λ r x. record {
            shorter = omega (arith, x.shorter);
            extends = λ w b h. rw (dark, e) (x.extends w b h);
          }

pub is_key_start→continue : (c : ℕ) → is_key_start c ≡ true → is_key_continue c ≡ true
unfolding is_key_start is_key_continue
is_key_start→continue c h = ground arith

pub read_token-Extends :
    (c : ℕ) (s : Bytes)
    → is_ascii_whitespace c ≡ false
    → Ensures Any (Extends (read_token c) s) (read_token c s)
unfolding read_token skip_to_whitespace
read_token-Extends c s dark =
    Ensures-if (not (is_key_start c))
      (λ e. holds (record {
        shorter = rw dark (length-drop_while not_white s);
        extends = λ w b h.
            let (_, left) = run_before not_white s w b (white-not_white w h) in
            rw e (rw (dark, left));
      }))
      λ e.
        let start = is_key_start→continue c (not-eq_false e) in
        rw start (
          Ensures-map
            (after_key-Extends (c ∷ take_while is_key_continue s) (drop_while is_key_continue s))
            λ r x. record {
              shorter = omega (arith, x.shorter, length-drop_while is_key_continue s);
              extends = λ w b h.
                  let (taken, left) =
                    run_before is_key_continue s w b (white-is_key_continue w h) in
                  rw (e, start) (rw (taken, left) (x.extends w b h));
            })
