-- ===== src/Bytes.antt =====
-- Text as the program walks it: the bytes of a UTF-8 `&str`, and what the code uses of the standard
-- library on them. A loop over `chars()` that only tests for ASCII characters does the same on the
-- bytes, since all bytes of another character are at least 128.
pub mod Laws
pub mod Number
pub mod Decimal
pub mod White
use Prim.Native.Char.{code}
use logdive.Prelude.{
  ℕ, ◌+◌, ◌-◌, String, Bool, true, false, ◌&&◌, ◌||◌, List, [], ◌∷◌, ◌++◌, leb, ◌==◌, if◌then◌else◌,
}

abbrev pub Bytes : Type 0
Bytes = List ℕ

-- The bytes of an ASCII literal.
abbrev pub codes : String → Bytes
codes String.[] = []
codes (String.◌∷◌ c s) = code c ∷ codes s

abbrev pub is_ascii_digit : ℕ → Bool
is_ascii_digit b = leb b'0' b && leb b b'9'

abbrev pub is_ascii_lowercase : ℕ → Bool
is_ascii_lowercase b = leb b'a' b && leb b b'z'

abbrev pub is_ascii_uppercase : ℕ → Bool
is_ascii_uppercase b = leb b'A' b && leb b b'Z'

abbrev pub is_ascii_alphabetic : ℕ → Bool
is_ascii_alphabetic b = is_ascii_lowercase b || is_ascii_uppercase b

abbrev pub is_ascii_alphanumeric : ℕ → Bool
is_ascii_alphanumeric b = is_ascii_alphabetic b || is_ascii_digit b

-- Space, tab, newline, form feed and carriage return.
abbrev pub is_ascii_whitespace : ℕ → Bool
is_ascii_whitespace b = b == 32 || b == 9 || b == 10 || b == 12 || b == 13

abbrev pub to_ascii_lower : ℕ → ℕ
to_ascii_lower b = if is_ascii_uppercase b then b + 32 else b

abbrev pub to_ascii_lowercase : Bytes → Bytes
to_ascii_lowercase [] = []
to_ascii_lowercase (b ∷ s) = to_ascii_lower b ∷ to_ascii_lowercase s

abbrev pub to_ascii_uppercase : Bytes → Bytes
to_ascii_uppercase [] = []
to_ascii_uppercase (b ∷ s) = (if is_ascii_lowercase b then b - 32 else b) ∷ to_ascii_uppercase s

-- `==` on texts.
unfoldable pub equals : Bytes → Bytes → Bool
equals [] [] = true
equals (a ∷ s) (b ∷ t) = a == b && equals s t
equals _ _ = false

unfoldable pub eq_ignore_ascii_case : Bytes → Bytes → Bool
unfolding equals
eq_ignore_ascii_case s t = equals (to_ascii_lowercase s) (to_ascii_lowercase t)

unfoldable pub contains_byte : ℕ → Bytes → Bool
contains_byte b [] = false
contains_byte b (c ∷ s) = c == b || contains_byte b s

unfoldable pub is_empty : Bytes → Bool
is_empty [] = true
is_empty (_ ∷ _) = false
