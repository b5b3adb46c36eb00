-- ===== src/Parsers/Logfmt/Locality.antt =====
-- The loop of `parse_pairs` of crates/core/src/parsers/logfmt.rs: its end, and lines in parts.
use logdive.Prelude.{
  ◌+◌, ◌++◌, ◌<◌, Bool-cases, [], ap, arith, drop_while, false, inl, inr, length, length-drop_while,
  none, refl, some, suc, true, zero, ℕ, ◌∷◌, ◌≡◌, ◌≤◌, Option, List, List-cases,
  drop_while-append_cons, drop_while-append_nil, drop_while-head, ◌∙◌, length-append, ◌≢◌,
}
use logdive.Prelude.Result.{
  ◌>>=◌, Ensures, Ensures-bind, bind-congr, err, holds, ok, out_of_fuel, Ensures-eq_ok, bind-ok,
  Ensures-ne_out_of_fuel, ok_eq,
}
use logdive.Parsers.Logfmt.Scan.{Any, read_token-Extends}
use logdive.Parsers.Logfmt.{Pair, add, pairs_at, pairs_from, read_token, parse_pairs}
use logdive.Bytes.{is_ascii_whitespace, Bytes}
use logdive.Parsers.Blank.{LineResult}

abbrev StartsDark : Bytes → Type 0
StartsDark [] = Unit
StartsDark (c ∷ s) = is_ascii_whitespace c ≡ false

drop_while-StartsDark : (s : Bytes) → StartsDark (drop_while is_ascii_whitespace s)
drop_while-StartsDark [] = tt
drop_while-StartsDark (c ∷ s) = elim (Bool-cases (is_ascii_whitespace c)) [
  | inl e ↦ rw e (drop_while-StartsDark s)
  | inr e ↦ rw e e
]

-- The other rounds only get texts that are shorter.
pairs_at-congr :
    (f g : Bytes → LineResult (List Pair)) (s : Bytes)
    → StartsDark s
    → ((left : Bytes) → length left < length s → f left ≡ g left)
    → pairs_at f s ≡ pairs_at g s
unfolding pairs_at
pairs_at-congr f g [] dark same = refl
pairs_at-congr f g (c ∷ s) dark same =
    bind-congr (read_token-Extends c s dark) λ r x. rw (same r.1 (omega (arith, x.shorter)))

-- More fuel than a text needs does not change what the loop returns.
pub pairs_from-fuel : (n m : ℕ) (s : Bytes) → length s < m → m ≤ n → pairs_from n s ≡ pairs_from m s
unfolding pairs_from
pairs_from-fuel n zero s h k = absurd (omega arith)
pairs_from-fuel zero (suc m) s h k = absurd (omega arith)
pairs_from-fuel (suc n) (suc m) s h k =
    pairs_at-congr _ _ (drop_while is_ascii_whitespace s) (drop_while-StartsDark s) λ left shorter.
      pairs_from-fuel n m left (omega (arith, length-drop_while is_ascii_whitespace s))
        (omega arith)

pairs_at-Ensures :
    (f : Bytes → LineResult (List Pair)) (s : Bytes)
    → StartsDark s
    → ((left : Bytes) → length left < length s → Ensures Any (λ ps. Unit) (f left))
    → Ensures Any (λ ps. Unit) (pairs_at f s)
unfolding pairs_at
pairs_at-Ensures f [] dark more = holds tt
pairs_at-Ensures f (c ∷ s) dark more =
    Ensures-bind (read_token-Extends c s dark)
      λ r x. Ensures-bind (more r.1 (omega (arith, x.shorter))) λ ps _. holds tt

pairs_from-Ensures : (n : ℕ) (s : Bytes) → length s < n → Ensures Any (λ ps. Unit) (pairs_from n s)
unfolding pairs_from
pairs_from-Ensures zero s h = absurd (omega arith)
pairs_from-Ensures (suc n) s h =
    pairs_at-Ensures _ (drop_while is_ascii_whitespace s) (drop_while-StartsDark s) λ left shorter.
      pairs_from-Ensures n left (omega (arith, length-drop_while is_ascii_whitespace s))

add-append : (p : Option Pair) (ps qs : List Pair) → add p (ps ++ qs) ≡ add p ps ++ qs
add-append none ps qs = refl
add-append (some p) ps qs = refl

-- What the loop returns on the rest comes behind the pairs `ps`.
abbrev behind : List Pair → LineResult (List Pair) → LineResult (List Pair)
behind ps r = do qs ← r; ok (ps ++ qs)

behind_nothing : (r : LineResult (List Pair)) → r ≡ behind [] r
behind_nothing (ok qs) = refl
behind_nothing (err e) = refl
behind_nothing out_of_fuel = refl

behind-add :
    (p : Option Pair) (ps : List Pair) (r : LineResult (List Pair))
    → (behind ps r >>= λ qs. ok (add p qs)) ≡ behind (add p ps) r
behind-add p ps (ok qs) = ap ok (add-append p ps qs)
behind-add p ps (err e) = refl
behind-add p ps out_of_fuel = refl

-- A round that reads a token of the first part.
pairs_at-split :
    (f g : Bytes → LineResult (List Pair)) (c w : ℕ) (s b : Bytes) (ps : List Pair)
    (r : LineResult (List Pair))
    → is_ascii_whitespace c ≡ false
    → is_ascii_whitespace w ≡ true
    → pairs_at f (c ∷ s) ≡ ok ps
    → ((left : Bytes) (qs : List Pair) → f left ≡ ok qs → g (left ++ w ∷ b) ≡ behind qs r)
    → pairs_at g (c ∷ (s ++ w ∷ b)) ≡ behind ps r
unfolding pairs_at
pairs_at-split f g c w s b ps r dark white h more =
    let (step, read, h') = bind-ok (read_token c s) h in
    let (qs, others, whole) = bind-ok (f step.1) h' in
    let x = Ensures-eq_ok (read_token-Extends c s dark) read in
    rw (x.extends w b white)
      (rw (more step.1 qs others) (behind-add step.0 qs r ∙ ap (λ l. behind l r) (ok_eq whole)))

-- The loop over `a`, white space and `b`.
pairs_from-split :
    (n m k : ℕ) (a b : Bytes) (w : ℕ) (ps : List Pair)
    → is_ascii_whitespace w ≡ true
    → pairs_from n a ≡ ok ps
    → length b < m
    → n + m ≤ k
    → pairs_from k (a ++ w ∷ b) ≡ behind ps (pairs_from m b)
unfolding pairs_from pairs_at
pairs_from-split zero m k a b w ps white h shorter enough = cc h
pairs_from-split (suc n) m zero a b w ps white h shorter enough = absurd (omega arith)
pairs_from-split (suc n) m (suc k) a b w ps white h shorter enough =
    elim (List-cases (drop_while is_ascii_whitespace a)) [
      | inl e ↦
          let none_read : [] ≡ ps = ok_eq (rw e at h) in
          let rest = pairs_from-fuel (suc k) m b shorter (omega arith) in
          rw (drop_while-append_nil is_ascii_whitespace a (w ∷ b) e) (
            rw white (
              rest
              ∙ behind_nothing (pairs_from m b)
              ∙ ap (λ l. behind l (pairs_from m b)) none_read))
      | inr (c, s, e) ↦ rw (drop_while-append_cons is_ascii_whitespace a (w ∷ b) e) (
          pairs_at-split _ _ c w s b ps (pairs_from m b) (drop_while-head is_ascii_whitespace a e)
            white (rw e at h)
            λ left qs read. pairs_from-split n m k left b w qs white read shorter (omega arith))
    ]

-- The scan of a logfmt line ends: it gives pairs, or nothing for an unterminated quote.
pub parse_pairs-ne_out_of_fuel : (line : Bytes) → parse_pairs line ≢ out_of_fuel
unfolding parse_pairs
parse_pairs-ne_out_of_fuel line h =
    Ensures-ne_out_of_fuel (pairs_from-Ensures (length line + 1) line (omega arith)) h

-- If a text gives pairs, then with white space and any text behind it the scan gives those pairs and
-- then what it gives for the text behind, an error included: a malformed token costs no pair beside
-- it.
pub parse_pairs-append :
    (a b : Bytes) (w : ℕ) (ps : List Pair)
    → is_ascii_whitespace w ≡ true
    → parse_pairs a ≡ ok ps
    → parse_pairs (a ++ w ∷ b) ≡ (do qs ← parse_pairs b; ok (ps ++ qs))
unfolding parse_pairs
parse_pairs-append a b w ps white h =
    pairs_from-split (length a + 1) (length b + 1) (length (a ++ w ∷ b) + 1) a b w ps white h
      (omega arith) (omega (arith, length-append a (w ∷ b)))
