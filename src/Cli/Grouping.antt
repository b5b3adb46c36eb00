-- ===== src/Cli/Grouping.antt =====
-- The thousands separators of crates/cli/src/stats_cmd.rs.
use logdive.Prelude.{
  ◌%◌, ◌&&◌, ◌==◌, Bool, Bool-cases, [], all, arith, false, if◌then◌else◌, inl, inr, length, not,
  refl, suc, true, ℕ, ◌∷◌, ◌≡◌, ◌<◌,
}
use logdive.Bytes.{Bytes, is_ascii_digit}
use logdive.Cli.Stats.{separate, with_thousands_separator}
use logdive.Bytes.Decimal.{decimal, decimal-digits}

-- Groups of a comma and three digits.
pub data Triples : Bytes → Type 0 where
  no_triples : Triples []
  triple : (a b c : ℕ) {s : Bytes} → Triples s → Triples (b',' ∷ a ∷ b ∷ c ∷ s)

-- One, two or three digits, and the groups behind them.
pub data IsGrouped : Bytes → Type 0 where
  one : (a : ℕ) {s : Bytes} → Triples s → IsGrouped (a ∷ s)
  two : (a b : ℕ) {s : Bytes} → Triples s → IsGrouped (a ∷ b ∷ s)
  three : (a b c : ℕ) {s : Bytes} → Triples s → IsGrouped (a ∷ b ∷ c ∷ s)

unfoldable pub without_commas : Bytes → Bytes
without_commas [] = []
without_commas (b ∷ s) = let rest = without_commas s in if b == b',' then rest else b ∷ rest

without_commas-separate :
    (is_first : Bool) (ds : Bytes)
    → all is_ascii_digit ds ≡ true
    → without_commas (separate is_first ds) ≡ ds
unfolding without_commas separate
without_commas-separate is_first [] h = refl
without_commas-separate is_first (d ∷ ds) h =
    elim (Bool-cases (not is_first && length (d ∷ ds) % 3 == 0)) [
      | inl comma ↦ rw comma (ground (arith, without_commas-separate false ds))
      | inr bare ↦ rw bare (ground (arith, without_commas-separate false ds))
    ]

third_test : (n : ℕ) → n % 3 ≡ 0 → (suc (suc (suc n)) % 3 == 0) ≡ true
third_test n h = ground arith

second_test : (n : ℕ) → n % 3 ≡ 0 → (suc (suc n) % 3 == 0) ≡ false
second_test n h = ground arith

first_test : (n : ℕ) → n % 3 ≡ 0 → (suc n % 3 == 0) ≡ false
first_test n h = ground arith

separate-Triples : (ds : Bytes) → length ds % 3 ≡ 0 → Triples (separate false ds)
unfolding separate
separate-Triples [] h = no_triples
separate-Triples (a ∷ []) h = absurd (omega (arith, h))
separate-Triples (a ∷ b ∷ []) h = absurd (omega (arith, h))
separate-Triples (a ∷ b ∷ c ∷ ds) h =
    let m : length ds % 3 ≡ 0 = omega (arith, h) in
    rw (third_test (length ds) m, second_test (length ds) m, first_test (length ds) m)
      (triple a b c (separate-Triples ds m))

middle_test : (n : ℕ) → n % 3 ≡ 2 → (suc (suc n) % 3 == 0) ≡ false
middle_test n h = ground arith

-- What a number leaves when divided by 3.
data Thirds (n : ℕ) : Type 0 where
  third : n % 3 ≡ 0 → Thirds n
  second : n % 3 ≡ 1 → Thirds n
  first : n % 3 ≡ 2 → Thirds n

thirds : (n : ℕ) → Thirds n
thirds n = elim (Bool-cases (n % 3 == 0)) [
  | inl h ↦ third (ground arith)
  | inr h ↦ elim (Bool-cases (n % 3 == 1)) [
    | inl h' ↦ second (ground arith)
    | inr h' ↦ first (ground arith)
  ]
]

separate-IsGrouped : (d : ℕ) (ds : Bytes) → IsGrouped (separate true (d ∷ ds))
unfolding separate
separate-IsGrouped d [] = one d no_triples
separate-IsGrouped d (a ∷ []) = two d a no_triples
separate-IsGrouped d (a ∷ b ∷ ds) = elim (thirds (length ds)) [
  | third h ↦
      rw (second_test (length ds) h, first_test (length ds) h) (three d a b (separate-Triples ds h))
  | second h ↦ one d (separate-Triples (a ∷ b ∷ ds) (omega (arith, h)))
  | first h ↦
      rw (middle_test (length ds) h) (two d a (separate-Triples (b ∷ ds) (omega (arith, h))))
]

separate-IsGrouped_nonempty : (ds : Bytes) → 0 < length ds → IsGrouped (separate true ds)
separate-IsGrouped_nonempty [] h = absurd (omega (arith, h))
separate-IsGrouped_nonempty (d ∷ ds) h = separate-IsGrouped d ds

-- A number with separators is one to three bytes and then groups of a comma and three bytes, and
-- without the commas it is the decimal number.
pub with_thousands_separator-IsGrouped :
    (n : ℕ)
    → IsGrouped (with_thousands_separator n)
      × (without_commas (with_thousands_separator n) ≡ decimal n)
unfolding with_thousands_separator
with_thousands_separator-IsGrouped n =
    let (digits, some_digit) = decimal-digits n in
    (
      separate-IsGrouped_nonempty (decimal n) some_digit,
      without_commas-separate true (decimal n) digits,
    )
