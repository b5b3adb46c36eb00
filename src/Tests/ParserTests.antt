-- ===== src/Tests/ParserTests.antt =====
-- Lines for the parsers of crates/core/src/parsers.
use logdive.Prelude.{◌++◌, List, Option, [], all, false, none, refl, some, true, ◌∷◌, ◌≡◌, ◌≢◌}
use logdive.Bytes.{Bytes, codes, equals}
use logdive.Parsers.Logfmt.Line.{IsEntryOf, parse_logfmt, parse_logfmt-IsEntryOf}
use logdive.Entry.{
  JsonValue, LogEntry, fields, insert, new, no_fields, null, number, object, Fields,
}
use logdive.Parsers.Logfmt.{Pair, parse_pairs, is_key_continue, is_key_start}
use logdive.Prelude.Result.{err, ok, out_of_fuel, ◌>>=◌}
use logdive.Parsers.Format.{
  logfmt, parse_line, parse_line-keeps, parse_line-ne_out_of_fuel, parse_plain, plain,
}
use logdive.Bytes.White.{is_blank}
use logdive.Parsers.Blank.{skipped}
use logdive.Parsers.Logfmt.RoundTrip.{is_key, parse_pairs-render, render}
use logdive.Parsers.Logfmt.Locality.{parse_pairs-append}

abbrev simple : Bytes
simple = codes "level=info"

abbrev request : Bytes
request = codes "path=a.b ok"

parse_simple : parse_pairs simple ≡ ok ((codes "level", codes "info") ∷ [])
unfolding parse_pairs
parse_simple = refl

parse_malformed :
    parse_pairs (codes "9x a:b c= d") ≡ ok ((codes "c", []) ∷ (codes "d", codes "true") ∷ [])
unfolding parse_pairs
parse_malformed = refl

-- No white space is needed between a quoted value and the next pair.
parse_adjacent :
    parse_pairs (codes "a=\"x\"b=1") ≡ ok ((codes "a", codes "x") ∷ (codes "b", codes "1") ∷ [])
unfolding parse_pairs
parse_adjacent = refl

parse_unterminated : parse_pairs (codes "a=\"x") ≡ err skipped
unfolding parse_pairs
parse_unterminated = refl

parse_pairs-append_example :
    parse_pairs (simple ++ 32 ∷ request)
    ≡ (do qs ← parse_pairs request; ok ((codes "level", codes "info") ∷ qs))
parse_pairs-append_example =
    parse_pairs-append simple request 32 ((codes "level", codes "info") ∷ []) refl parse_simple

abbrev quoted_pairs : List Pair
quoted_pairs = (codes "msg", codes "a \"b\" \\") ∷ (codes "n", []) ∷ []

quoted_pairs_keys : all (λ p. is_key p.0) quoted_pairs ≡ true
unfolding is_key_start is_key_continue
quoted_pairs_keys = refl

parse_pairs-render_example : parse_pairs (render quoted_pairs) ≡ ok quoted_pairs
parse_pairs-render_example = parse_pairs-render quoted_pairs quoted_pairs_keys

abbrev twice : Bytes
twice = codes "level=a n=1 level=b"

abbrev twice_entry : LogEntry
twice_entry = record {
  timestamp = none;
  level = some (codes "b");
  message = none;
  tag = none;
  others = fields (codes "n") (JsonValue.string (codes "1")) no_fields;
  raw = twice;
}

parse_twice : parse_logfmt twice ≡ ok twice_entry
unfolding parse_logfmt insert equals
parse_twice = refl

parse_logfmt-IsEntryOf_example : IsEntryOf twice twice_entry
parse_logfmt-IsEntryOf_example = parse_logfmt-IsEntryOf twice twice_entry parse_twice

abbrev pub tagged : Fields
tagged = fields (codes "tag") (number (codes "7")) (fields (codes "x") null no_fields)

abbrev pub object_of : Bytes → Option JsonValue
object_of _ = some (object tagged)

parse_started :
    parse_line object_of plain (codes "started")
    ≡ ok (record (new (codes "started")) { message = some (codes "started") })
unfolding parse_line parse_plain
parse_started = refl

parse_line-keeps_example :
    (is_blank (codes "started") ≡ false) × (codes "started" ≡ codes "started")
parse_line-keeps_example = parse_line-keeps object_of plain (codes "started") _ parse_started

parse_line-ne_out_of_fuel_example : parse_line object_of logfmt twice ≢ out_of_fuel
parse_line-ne_out_of_fuel_example = parse_line-ne_out_of_fuel object_of logfmt twice
