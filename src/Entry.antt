-- ===== src/Entry.antt =====
-- `LogEntry` of crates/core/src/entry.rs, with the JSON values that it holds: a number is the text that
-- serde_json prints for it. A map is a list of keys with values, of which `insert` keeps one for each
-- key; the order of its keys is not serde_json's.
use logdive.Prelude.{
  Bool, Option, if◌then◌else◌, none, refl, some, ◌≡◌, Bool-cases, arith, inl, inr, map_option,
}
use logdive.Bytes.{Bytes, equals, codes}
use logdive.Bytes.Laws.{equals_iff, equals_both}

mutual
  pub data JsonValue : Type 0 where
    null : JsonValue
    bool : Bool → JsonValue
    number string : Bytes → JsonValue
    array : Values → JsonValue
    object : Fields → JsonValue

  pub data Values : Type 0 where
    no_values : Values
    values : JsonValue → Values → Values

  pub data Fields : Type 0 where
    no_fields : Fields
    fields : Bytes → JsonValue → Fields → Fields

-- `Map::insert` and `Map::get`
unfoldable pub insert : Bytes → JsonValue → Fields → Fields
insert key v no_fields = fields key v no_fields
insert key v (fields k w fs) =
    let rest = insert key v fs in if equals key k then fields k v fs else fields k w rest

unfoldable pub get : Bytes → Fields → Option JsonValue
get key no_fields = none
get key (fields k w fs) = let rest = get key fs in if equals key k then some w else rest

pub record LogEntry : Type 0 where
  pub timestamp : Option Bytes
  pub level : Option Bytes
  pub message : Option Bytes
  pub tag : Option Bytes
  pub others : Fields
  pub raw : Bytes

-- `LogEntry::new`
abbrev pub new : Bytes → LogEntry
new raw = record {
  timestamp = none;
  level = none;
  message = none;
  tag = none;
  others = no_fields;
  raw = raw;
}

unfoldable pub with_tag : Option Bytes → LogEntry → LogEntry
with_tag none e = e
with_tag (some t) e = record e { tag = some t }

pub get-insert :
    (key k : Bytes) (v : JsonValue) (fs : Fields)
    → get key (insert k v fs) ≡ (if equals key k then some v else get key fs)
unfolding get insert
get-insert key k v no_fields = refl
get-insert key k v (fields j w fs) = elim (Bool-cases (equals k j)) [
  | inl e ↦ let same : k ≡ j = (equals_iff k j).0 e in rw e (rw same (ground arith))
  | inr e ↦ rw (e, get-insert key k v fs) (ground (arith, equals_both key k j))
]

-- What an entry has under a key: a known key's text, or what stands among the others.
unfoldable pub find : Bytes → LogEntry → Option JsonValue
find key e =
    if equals key (codes "timestamp")
    then map_option JsonValue.string e.timestamp
    else if equals key (codes "level")
    then map_option JsonValue.string e.level
    else if equals key (codes "message")
    then map_option JsonValue.string e.message
    else if equals key (codes "tag")
    then map_option JsonValue.string e.tag
    else get key e.others
