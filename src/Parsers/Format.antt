-- ===== src/Parsers/Format.antt =====
-- `LogFormat` and the dispatch of crates/core/src/parsers/mod.rs, with crates/core/src/parsers/plain.rs.
use logdive.Parsers.Logfmt.Scan.{Any}
use logdive.Bytes.{Bytes, codes, eq_ignore_ascii_case, equals, to_ascii_lowercase}
use logdive.Prelude.Result.{
  Ensures, Ensures-if, err, fails, holds, ok, Ensures-eq_ok, Ensures-map, Ensures-ne_out_of_fuel,
  out_of_fuel,
}
use logdive.Entry.{JsonValue, LogEntry, new}
use logdive.Bytes.White.{is_blank}
use logdive.Parsers.Blank.{LineResult, skipped}
use logdive.Prelude.{
  Option, false, if◌then◌else◌, none, refl, some, true, ◌↔◌, ◌≡◌, arith, ◌≢◌, List, [], ◌∷◌,
}
use logdive.Parsers.Json.{parse_json, parse_json-Ensures}
use logdive.Parsers.Logfmt.Line.{parse_logfmt, parse_logfmt-Ensures}
use logdive.Bytes.Laws.{equals_both}

pub data LogFormat : Type 0 where
  json logfmt plain : LogFormat

unfoldable pub from_name : Bytes → Option LogFormat
from_name s =
    let lower = to_ascii_lowercase s in
    if equals lower (codes "json")
    then some json
    else if equals lower (codes "logfmt")
    then some logfmt
    else if equals lower (codes "plain")
    then some plain
    else none

-- `LogFormat::ALL`
abbrev pub all_formats : List LogFormat
all_formats = json ∷ logfmt ∷ plain ∷ []

unfoldable pub name : LogFormat → Bytes
name json = codes "json"
name logfmt = codes "logfmt"
name plain = codes "plain"

unfoldable pub parse_plain : Bytes → LineResult LogEntry
unfolding is_blank
parse_plain line =
    if is_blank line then err skipped else ok (record (new line) { message = some line })

module _ (from_str : Bytes → Option JsonValue) where
  unfoldable pub parse_line : LogFormat → Bytes → LineResult LogEntry
  parse_line json line = parse_json from_str line
  parse_line logfmt line = parse_logfmt line
  parse_line plain line = parse_plain line

-- A text names a format exactly when it is the format's name in any case.
pub from_name-iff-name :
    (s : Bytes) (f : LogFormat) → (from_name s ≡ some f) ↔ (eq_ignore_ascii_case s (name f) ≡ true)
unfolding from_name name eq_ignore_ascii_case
from_name-iff-name s json = ground arith
from_name-iff-name s logfmt =
    ground (arith, equals_both (to_ascii_lowercase s) (codes "json") (codes "logfmt"))
from_name-iff-name s plain = ground (
  arith,
  equals_both (to_ascii_lowercase s) (codes "json") (codes "plain"),
  equals_both (to_ascii_lowercase s) (codes "logfmt") (codes "plain"),
)

-- An entry keeps its line, which is not blank.
abbrev pub Keeps : Bytes → LogEntry → Type 0
Keeps line e = (is_blank line ≡ false) × (e.raw ≡ line)

parse_plain-Ensures : (line : Bytes) → Ensures Any (Keeps line) (parse_plain line)
unfolding parse_plain
parse_plain-Ensures line = Ensures-if (is_blank line) (λ _. fails tt) λ dark. holds (dark, refl)

module _ (from_str : Bytes → Option JsonValue) where
  pub parse_line-Ensures :
      (f : LogFormat) (line : Bytes) → Ensures Any (Keeps line) (parse_line from_str f line)
  unfolding parse_line
  parse_line-Ensures json line = parse_json-Ensures from_str line
  parse_line-Ensures logfmt line =
      Ensures-map (parse_logfmt-Ensures line) λ e x. (x.dark, x.keeps_line)
  parse_line-Ensures plain line = parse_plain-Ensures line

  -- In every format, a line that gives an entry is not blank, and the entry keeps it unchanged.
  pub parse_line-keeps :
      (f : LogFormat) (line : Bytes) (e : LogEntry)
      → parse_line from_str f line ≡ ok e
      → (is_blank line ≡ false) × (e.raw ≡ line)
  parse_line-keeps f line e h = Ensures-eq_ok (parse_line-Ensures f line) h

  -- In every format, parsing a line ends with an entry or with none.
  pub parse_line-ne_out_of_fuel :
      (f : LogFormat) (line : Bytes) → parse_line from_str f line ≢ out_of_fuel
  parse_line-ne_out_of_fuel f line h = Ensures-ne_out_of_fuel (parse_line-Ensures f line) h
