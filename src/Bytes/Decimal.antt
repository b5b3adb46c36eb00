-- ===== src/Bytes/Decimal.antt =====
-- `Display` of an unsigned number. The fuel is more than the number, and a number has fewer digits.
use logdive.Prelude.{
  ◌%◌, ◌+◌, ◌/◌, ◌==◌, [], if◌then◌else◌, refl, suc, zero, ℕ, ◌∷◌, ◌≡◌, &&-eq_true, ◌<◌, Bool-cases,
  all, arith, inl, inr, length, true, ◌≤◌,
}
use logdive.Bytes.{Bytes, codes, is_ascii_digit}
use mathlib.Core.Path.{subst}

digits_onto : ℕ → ℕ → Bytes → Bytes
digits_onto zero n acc = acc
digits_onto (suc fuel) n acc =
    let digit = b'0' + n % 10 in
    let more = digits_onto fuel (n / 10) (digit ∷ acc) in if n / 10 == 0 then digit ∷ acc else more

unfoldable pub decimal : ℕ → Bytes
unfolding digits_onto
decimal n = digits_onto (n + 1) n []

decimal_runs : decimal 1_000_307 ≡ codes "1000307"
unfolding decimal
decimal_runs = refl

digit_of : (n : ℕ) → is_ascii_digit (b'0' + n % 10) ≡ true
digit_of n = ground arith

digits_onto-all :
    (fuel n : ℕ) (acc : Bytes)
    → all is_ascii_digit acc ≡ true
    → all is_ascii_digit (digits_onto fuel n acc) ≡ true
unfolding digits_onto
digits_onto-all zero n acc h = h
digits_onto-all (suc fuel) n acc h =
    let more : all is_ascii_digit ((b'0' + n % 10) ∷ acc) ≡ true = &&-eq_true (digit_of n) h in
    elim (Bool-cases (n / 10 == 0)) [
      | inl e ↦ rw e more
      | inr e ↦ rw e (digits_onto-all fuel (n / 10) ((b'0' + n % 10) ∷ acc) more)
    ]

digits_onto-grows : (fuel n : ℕ) (acc : Bytes) → length acc ≤ length (digits_onto fuel n acc)
unfolding digits_onto
digits_onto-grows zero n acc = omega arith
digits_onto-grows (suc fuel) n acc = elim (Bool-cases (n / 10 == 0)) [
  | inl e ↦ rw e (omega arith)
  | inr e ↦ rw e (omega (arith, digits_onto-grows fuel (n / 10) ((b'0' + n % 10) ∷ acc)))
]

digits_onto-some : (fuel n : ℕ) → 0 < length (digits_onto (suc fuel) n [])
unfolding digits_onto
digits_onto-some fuel n = elim (Bool-cases (n / 10 == 0)) [
  | inl e ↦ rw e (omega arith)
  | inr e ↦ rw e (omega (arith, digits_onto-grows fuel (n / 10) ((b'0' + n % 10) ∷ [])))
]

-- A number has a digit at least, and nothing but digits.
pub decimal-digits : (n : ℕ) → (all is_ascii_digit (decimal n) ≡ true) × (0 < length (decimal n))
unfolding decimal
decimal-digits n =
    let next : suc n ≡ n + 1 = omega arith in
    (
      digits_onto-all (n + 1) n [] refl,
      subst (λ fuel. 0 < length (digits_onto fuel n [])) next (digits_onto-some n n),
    )
