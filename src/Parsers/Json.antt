-- ===== src/Parsers/Json.antt =====
-- crates/core/src/parsers/json.rs. `serde_json::from_str` is the parameter `from_str`.
pub mod Columns
pub mod Kept
use logdive.Bytes.{Bytes, codes, equals}
use logdive.Entry.{
  Fields, JsonValue, LogEntry, array, bool, fields, insert, new, no_fields, null, number, object,
  string,
}
use logdive.Bytes.White.{is_blank}
use logdive.Parsers.Blank.{LineResult, skipped}
use logdive.Prelude.{Option, if◌then◌else◌, none, some, arith, false, refl, ◌∙◌, ◌≡◌}
use logdive.Prelude.Result.{err, ok, Ensures, Ensures-if, Ensures-map, fails, holds}
use logdive.Parsers.Logfmt.Scan.{Any}

unfoldable pub coerce_scalar_to_string : JsonValue → Option Bytes
coerce_scalar_to_string (string s) = some s
coerce_scalar_to_string (number n) = some n
coerce_scalar_to_string (bool b) = some (if b then codes "true" else codes "false")
coerce_scalar_to_string null = some (codes "null")
coerce_scalar_to_string (object _) = none
coerce_scalar_to_string (array _) = none

-- One round of the loop over the object.
unfoldable pub store_value : Bytes → JsonValue → LogEntry → LogEntry
store_value key v e =
    let other = record e { others = insert key v e.others } in
    let scalar = coerce_scalar_to_string v in
    if equals key (codes "timestamp")
    then elim scalar [ some s ↦ record e { timestamp = some s } | none ↦ other ]
    else if equals key (codes "level")
    then elim scalar [ some s ↦ record e { level = some s } | none ↦ other ]
    else if equals key (codes "message")
    then elim scalar [ some s ↦ record e { message = some s } | none ↦ other ]
    else if equals key (codes "tag")
    then elim scalar [ some s ↦ record e { tag = some s } | none ↦ other ]
    else other

unfoldable pub store_fields : Fields → LogEntry → LogEntry
unfolding store_value
store_fields no_fields e = e
store_fields (fields key v fs) e = store_fields fs (store_value key v e)

-- The entry of a line with this value.
unfoldable pub entry_of_value : Bytes → Option JsonValue → LineResult LogEntry
unfolding store_fields
entry_of_value line (some (object obj)) = ok (store_fields obj (new line))
entry_of_value line _ = err skipped

module _ (from_str : Bytes → Option JsonValue) where
  unfoldable pub parse_json : Bytes → LineResult LogEntry
  unfolding is_blank entry_of_value
  parse_json line = if is_blank line then err skipped else entry_of_value line (from_str line)

raw-store_value : (key : Bytes) (v : JsonValue) (e : LogEntry) → (store_value key v e).raw ≡ e.raw
unfolding store_value
raw-store_value key v e = ground arith

pub raw-store_fields : (fs : Fields) (e : LogEntry) → (store_fields fs e).raw ≡ e.raw
unfolding store_fields
raw-store_fields no_fields e = refl
raw-store_fields (fields key v fs) e =
    raw-store_fields fs (store_value key v e) ∙ raw-store_value key v e

entry_of_value-Ensures :
    (line : Bytes) (v : Option JsonValue) → Ensures Any (λ e. e.raw ≡ line) (entry_of_value line v)
unfolding entry_of_value
entry_of_value-Ensures line (some (object obj)) = holds (raw-store_fields obj (new line))
entry_of_value-Ensures line _ = fails tt

pub parse_json-Ensures :
    (from_str : Bytes → Option JsonValue) (line : Bytes)
    → Ensures Any (λ e. (is_blank line ≡ false) × (e.raw ≡ line)) (parse_json from_str line)
unfolding parse_json
parse_json-Ensures from_str line =
    Ensures-if (is_blank line) (λ _. fails tt)
      λ dark. Ensures-map (entry_of_value-Ensures line (from_str line)) λ e same. (dark, same)
