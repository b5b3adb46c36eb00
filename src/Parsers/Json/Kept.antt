-- ===== src/Parsers/Json/Kept.antt =====
-- What crates/core/src/parsers/json.rs makes of an object: its four columns, and its other fields.
use logdive.Prelude.{none, ◌≡◌, ◌≢◌}
use logdive.Bytes.{Bytes}
use logdive.Entry.{LogEntry, get, Fields, fields, no_fields}
use logdive.Parsers.Json.Columns.{Column, column, key_of, placed}

-- What serde_json guarantees of a map: a key stands in it once.
abbrev pub Distinct : Fields → Type 0
Distinct no_fields = Unit
Distinct (fields key v fs) = (get key fs ≡ none) × Distinct fs

-- What an entry read from an object has: the columns with their texts, every other value under its key,
-- nothing else, and the line.
pub record IsReadFrom (line : Bytes) (obj : Fields) (e : LogEntry) : Type 0 where
  pub columns : (c : Column) → (column c e, get (key_of c) e.others) ≡ placed (get (key_of c) obj)
  pub rest : (key : Bytes) → ((c : Column) → key ≢ key_of c) → get key e.others ≡ get key obj
  pub raw_line : e.raw ≡ line
