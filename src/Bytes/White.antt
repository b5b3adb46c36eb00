-- ===== src/Bytes/White.antt =====
-- `trim` of Rust's standard library: Unicode's white space at both ends, here by its UTF-8 bytes.
use logdive.Prelude.{◌&&◌, ◌==◌, Bool, [], false, if◌then◌else◌, leb, suc, true, zero, ◌||◌, ℕ, ◌∷◌}
use logdive.Bytes.{Bytes}

is_white_byte : ℕ → Bool
is_white_byte b = leb 9 b && leb b 13 || b == 32

is_white_triple : ℕ → ℕ → ℕ → Bool
is_white_triple a b c =
    a == 0xE1 && b == 0x9A && c == 0x80
    || a == 0xE2 && b == 0x80 && (leb 0x80 c && leb c 0x8A || c == 0xA8 || c == 0xA9 || c == 0xAF)
    || a == 0xE2 && b == 0x81 && c == 0x9F
    || a == 0xE3 && b == 0x80 && c == 0x80

-- How many bytes the white space character at the front has, 0 if there is none: U+0009 to U+000D, the
-- space, U+0085, U+00A0, U+1680, U+2000 to U+200A, U+2028, U+2029, U+202F, U+205F and U+3000.
white_width : Bytes → ℕ
unfolding is_white_byte is_white_triple
white_width [] = 0
white_width (a ∷ []) = if is_white_byte a then 1 else 0
white_width (a ∷ b ∷ []) =
    if is_white_byte a then 1 else if a == 0xC2 && (b == 0x85 || b == 0xA0) then 2 else 0
white_width (a ∷ b ∷ c ∷ _) =
    if is_white_byte a
    then 1
    else if a == 0xC2 && (b == 0x85 || b == 0xA0)
    then 2
    else if is_white_triple a b c
    then 3
    else 0

-- The number says how many bytes of a white space character are still to come.
blank_from : ℕ → Bytes → Bool
unfolding white_width
blank_from _ [] = true
blank_from (suc n) (_ ∷ s) = blank_from n s
blank_from zero (c ∷ s) = elim (white_width (c ∷ s)) [ zero ↦ false | suc n ↦ blank_from n s ]

unfoldable pub is_blank : Bytes → Bool
unfolding blank_from
is_blank = blank_from 0

trim_start_from : ℕ → Bytes → Bytes
unfolding white_width
trim_start_from _ [] = []
trim_start_from (suc n) (_ ∷ s) = trim_start_from n s
trim_start_from zero (c ∷ s) = elim (white_width (c ∷ s)) [
  | zero ↦ c ∷ s
  | suc n ↦ trim_start_from n s
]

trim_end : Bytes → Bytes
unfolding is_blank
trim_end [] = []
trim_end (c ∷ s) = let rest = trim_end s in if is_blank (c ∷ s) then [] else c ∷ rest

unfoldable pub trim : Bytes → Bytes
unfolding trim_start_from trim_end
trim s = trim_end (trim_start_from 0 s)
