-- ===== src/Parsers/Json/Columns.antt =====
-- The columns of an entry in crates/core/src/parsers/json.rs, and one round of its loop.
use logdive.Prelude.{Option, arith, false, none, some, ◌≡◌, if◌then◌else◌, refl, true}
use logdive.Bytes.{Bytes, codes, equals}
use logdive.Entry.{JsonValue, LogEntry, array, bool, get, get-insert, null, number, string, object}
use logdive.Parsers.Json.{coerce_scalar_to_string, store_value}
use logdive.Bytes.Laws.{equals_trans, equals_join, equals_refl}

-- The columns of an entry, with their keys.
pub data Column : Type 0 where
  of_timestamp : Column
  of_level : Column
  of_message : Column
  of_tag : Column

unfoldable pub key_of : Column → Bytes
key_of of_timestamp = codes "timestamp"
key_of of_level = codes "level"
key_of of_message = codes "message"
key_of of_tag = codes "tag"

abbrev pub column : Column → LogEntry → Option Bytes
column of_timestamp e = e.timestamp
column of_level e = e.level
column of_message e = e.message
column of_tag e = e.tag

-- Where the value of a column's key goes: a scalar's text to the column, an array or an object to the
-- other fields.
unfoldable pub placed : Option JsonValue → Option Bytes × Option JsonValue
placed none = (none, none)
placed (some (string s)) = (some s, none)
placed (some (number n)) = (some n, none)
placed (some (bool true)) = (some (codes "true"), none)
placed (some (bool false)) = (some (codes "false"), none)
placed (some null) = (some (codes "null"), none)
placed (some (array vs)) = (none, some (array vs))
placed (some (object fs)) = (none, some (object fs))

-- What the entry has for a column, in the column and among the other fields.
abbrev pub held : Column → LogEntry → Option Bytes × Option JsonValue
held c e = (column c e, get (key_of c) e.others)

abbrev pub IsOther : Bytes → Type 0
IsOther key = (c : Column) → equals key (key_of c) ≡ false

pub placed-coerce :
    (v : JsonValue)
    → placed (some v)
      ≡ elim (coerce_scalar_to_string v) [ some s ↦ (some s, none) | none ↦ (none, some v) ]
unfolding placed coerce_scalar_to_string
placed-coerce (string s) = refl
placed-coerce (number n) = refl
placed-coerce (bool true) = refl
placed-coerce (bool false) = refl
placed-coerce null = refl
placed-coerce (array vs) = refl
placed-coerce (object fs) = refl

abbrev pub IsVacant : Column → LogEntry → Type 0
IsVacant c e = (column c e ≡ none) × (get (key_of c) e.others ≡ none)

pub held-store_value :
    (c : Column) (v : JsonValue) (e : LogEntry)
    → IsVacant c e
    → held c (store_value (key_of c) v e) ≡ placed (some v)
unfolding store_value key_of equals
held-store_value of_timestamp v e h =
    rw placed-coerce
      (ground (arith, h, get-insert (codes "timestamp") (codes "timestamp") v e.others))
held-store_value of_level v e h =
    rw placed-coerce (ground (arith, h, get-insert (codes "level") (codes "level") v e.others))
held-store_value of_message v e h =
    rw placed-coerce (ground (arith, h, get-insert (codes "message") (codes "message") v e.others))
held-store_value of_tag v e h =
    rw placed-coerce (ground (arith, h, get-insert (codes "tag") (codes "tag") v e.others))

pub held-store_value_other :
    (c : Column) (k : Bytes) (v : JsonValue) (e : LogEntry)
    → equals (key_of c) k ≡ false
    → held c (store_value k v e) ≡ held c e
unfolding store_value key_of
held-store_value_other of_timestamp k v e h = ground (
  arith,
  h,
  equals_join (codes "timestamp") k (codes "timestamp"),
  equals_refl (codes "timestamp"),
  get-insert (codes "timestamp") k v e.others,
)
held-store_value_other of_level k v e h = ground (
  arith,
  h,
  equals_join (codes "level") k (codes "level"),
  equals_refl (codes "level"),
  get-insert (codes "level") k v e.others,
)
held-store_value_other of_message k v e h = ground (
  arith,
  h,
  equals_join (codes "message") k (codes "message"),
  equals_refl (codes "message"),
  get-insert (codes "message") k v e.others,
)
held-store_value_other of_tag k v e h = ground (
  arith,
  h,
  equals_join (codes "tag") k (codes "tag"),
  equals_refl (codes "tag"),
  get-insert (codes "tag") k v e.others,
)

pub others-store_value :
    (key k : Bytes) (v : JsonValue) (e : LogEntry)
    → IsOther key
    → get key (store_value k v e).others ≡ (if equals key k then some v else get key e.others)
unfolding store_value key_of
others-store_value key k v e h =
    let a : equals key (codes "timestamp") ≡ false = h of_timestamp in
    let b : equals key (codes "level") ≡ false = h of_level in
    let c : equals key (codes "message") ≡ false = h of_message in
    let d : equals key (codes "tag") ≡ false = h of_tag in
    ground (
      arith,
      equals_trans key k (codes "timestamp"),
      equals_trans key k (codes "level"),
      equals_trans key k (codes "message"),
      equals_trans key k (codes "tag"),
      get-insert key k v e.others,
    )
