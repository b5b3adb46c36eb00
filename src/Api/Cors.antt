-- ===== src/Api/Cors.antt =====
-- The CORS origins of the server: `parse_cors_origins` and `cors_summary` of crates/api/src/main.rs, and
-- `build_cors_layer` of crates/api/src/router.rs. `HeaderValue::from_str` is a parameter, which says what
-- texts it takes.
use logdive.Prelude.{
  ◌++◌, ◌==◌, Bool, List, Option, [], false, if◌then◌else◌, length, none, not, some, ◌||◌, ℕ, ◌∷◌,
}
use logdive.Bytes.{Bytes, codes, equals, is_empty}
use logdive.Prelude.Result.{Result, err, ok, ◌>>=◌}
use logdive.Bytes.Decimal.{decimal}
use logdive.Bytes.White.{trim}

abbrev pub star : Bytes
star = b'*' ∷ []

pub data CorsError : Type 0 where
  star_with_others : CorsError
  bad_origin : Bytes → CorsError

abbrev pub push : ℕ → List Bytes → List Bytes
push b [] = (b ∷ []) ∷ []
push b (w ∷ ws) = (b ∷ w) ∷ ws

-- `str::split` at a byte
unfoldable pub split : ℕ → Bytes → List Bytes
split c [] = [] ∷ []
split c (b ∷ s) = let rest = split c s in if b == c then [] ∷ rest else push b rest

-- The parts, trimmed, without the empty ones.
unfoldable pub trimmed : List Bytes → List Bytes
unfolding trim is_empty
trimmed [] = []
trimmed (w ∷ ws) = let rest = trimmed ws in if is_empty (trim w) then rest else trim w ∷ rest

unfoldable pub parts_of : Bytes → List Bytes
unfolding split trimmed
parts_of s = trimmed (split b',' s)

unfoldable pub has_part : Bytes → List Bytes → Bool
has_part o [] = false
has_part o (w ∷ ws) = equals w o || has_part o ws

abbrev pub CorsResult : Type 0
CorsResult = Result CorsError (List Bytes)

module _ (is_header_value : Bytes → Bool) where
  unfoldable pub header_values : List Bytes → CorsResult
  header_values [] = ok []
  header_values (w ∷ ws) =
      if is_header_value w then (do vs ← header_values ws; ok (w ∷ vs)) else err (bad_origin w)

  -- The parts of the option's text.
  unfoldable pub parse_parts : List Bytes → CorsResult
  unfolding header_values has_part
  parse_parts [] = ok []
  parse_parts (w ∷ ws) =
      if has_part star (w ∷ ws)
      then (if not (length (w ∷ ws) == 1) then err star_with_others else ok (star ∷ []))
      else header_values (w ∷ ws)

  unfoldable pub parse_cors_origins : Option Bytes → CorsResult
  unfolding parts_of parse_parts
  parse_cors_origins none = ok []
  parse_cors_origins (some s) = parse_parts (parts_of s)

-- `CorsLayer::new().allow_methods([GET])` with one of the two `allow_origin`.
pub data CorsLayer : Type 0 where
  get_from_any : CorsLayer
  get_from : List Bytes → CorsLayer

abbrev pub is_star : List Bytes → Bool
is_star (w ∷ []) = equals w star
is_star _ = false

unfoldable pub build_cors_layer : List Bytes → Option CorsLayer
build_cors_layer [] = none
build_cors_layer (w ∷ ws) = if is_star (w ∷ ws) then some get_from_any else some (get_from (w ∷ ws))

unfoldable pub cors_summary : List Bytes → Bytes
unfolding decimal
cors_summary [] = codes "disabled"
cors_summary (w ∷ ws) =
    if is_star (w ∷ ws)
    then codes "any origin (*)"
    else decimal (length (w ∷ ws)) ++ codes " specific origin(s)"
