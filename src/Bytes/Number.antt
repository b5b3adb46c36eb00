-- ===== src/Bytes/Number.antt =====
-- `str::parse` for `u64` and `i64`, and the 64-bit bounds.
use logdive.Prelude.{
  ℕ, zero, suc, ◌+◌, ◌-◌, ◌*◌, ◌^◌, [], ◌∷◌, Option, none, some, ltb, ◌==◌, if◌then◌else◌,
}
use logdive.Bytes.{Bytes, is_ascii_digit}

-- `negsuc n` is -(n + 1).
pub data ℤ : Type 0 where
  pos : ℕ → ℤ
  negsuc : ℕ → ℤ

abbrev pub u64_max : ℕ
u64_max = 2 ^ 64 - 1

abbrev pub i64_max : ℕ
i64_max = 2 ^ 63 - 1

-- The digits behind those of `n`, unless one is no digit or the value passes `max`.
unfoldable pub digits_from : ℕ → ℕ → Bytes → Option ℕ
digits_from max n [] = some n
digits_from max n (c ∷ s) =
    let n' = n * 10 + (c - 48) in
    let rest = digits_from max n' s in
    if is_ascii_digit c then (if ltb max n' then none else rest) else none

unfoldable pub parse_digits : ℕ → Bytes → Option ℕ
unfolding digits_from
parse_digits max [] = none
parse_digits max (c ∷ s) = digits_from max 0 (c ∷ s)

-- A leading plus sign is accepted.
unfoldable pub parse_u64 : Bytes → Option ℕ
unfolding parse_digits
parse_u64 [] = none
parse_u64 (c ∷ s) = if c == b'+' then parse_digits u64_max s else parse_digits u64_max (c ∷ s)

abbrev positive : Option ℕ → Option ℤ
positive none = none
positive (some n) = some (pos n)

abbrev negative : Option ℕ → Option ℤ
negative none = none
negative (some zero) = some (pos 0)
negative (some (suc n)) = some (negsuc n)

unfoldable pub parse_i64 : Bytes → Option ℤ
unfolding parse_digits
parse_i64 [] = none
parse_i64 (c ∷ s) =
    if c == b'-'
    then negative (parse_digits (i64_max + 1) s)
    else if c == b'+'
    then positive (parse_digits i64_max s)
    else positive (parse_digits i64_max (c ∷ s))
