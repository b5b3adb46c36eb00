-- ===== src/Parsers/Logfmt/Line.antt =====
-- `parse_line` of crates/core/src/parsers/logfmt.rs: the pairs of a line stored in its entry.
use logdive.Prelude.{
  Bool-cases, List, Option, [], if◌then◌else◌, inl, inr, some, ◌∷◌, ◌≡◌, arith, ap, false, none,
  refl, ◌∙◌, ◌≢◌,
}
use logdive.Bytes.{Bytes, codes, equals}
use logdive.Entry.{JsonValue, LogEntry, find, insert, new, get-insert, get}
use logdive.Bytes.White.{is_blank}
use logdive.Parsers.Blank.{LineResult, skipped}
use logdive.Parsers.Logfmt.{Pair, parse_pairs}
use logdive.Bytes.Laws.{equals_iff, equals_refl, equals_join}
use logdive.Prelude.Result.{
  err, ok, ◌>>=◌, Ensures, Ensures-bind, Ensures-eq_ok, Ensures-if, Ensures-self, fails, holds,
}
use logdive.Parsers.Logfmt.Scan.{Any}
use logdive.Parsers.Logfmt.Locality.{parse_pairs-ne_out_of_fuel}
use logdive.Indexer.Table.{before}

-- One round of the loop over the pairs.
unfoldable pub store : Pair → LogEntry → LogEntry
store (key, value) e =
    if equals key (codes "timestamp")
    then record e { timestamp = some value }
    else if equals key (codes "level")
    then record e { level = some value }
    else if equals key (codes "message")
    then record e { message = some value }
    else if equals key (codes "tag")
    then record e { tag = some value }
    else record e { others = insert key (JsonValue.string value) e.others }

unfoldable pub store_all : List Pair → LogEntry → LogEntry
unfolding store
store_all [] e = e
store_all (p ∷ ps) e = store_all ps (store p e)

unfoldable pub entry_of : Bytes → List Pair → LineResult LogEntry
unfolding store_all
entry_of line [] = err skipped
entry_of line (p ∷ ps) = ok (store_all (p ∷ ps) (new line))

unfoldable pub parse_logfmt : Bytes → LineResult LogEntry
unfolding is_blank parse_pairs entry_of
parse_logfmt line =
    if is_blank line then err skipped else (do pairs ← parse_pairs line; entry_of line pairs)

-- The value of the last pair with the key, or else `before`.
unfoldable pub last_of : Bytes → List Pair → Option JsonValue → Option JsonValue
last_of key [] before = before
last_of key ((k, value) ∷ ps) before =
    last_of key ps (if equals key k then some (JsonValue.string value) else before)

find-store :
    (key k value : Bytes) (e : LogEntry)
    → find key (store (k, value) e)
      ≡ (if equals key k then some (JsonValue.string value) else find key e)
unfolding find store
find-store key k value e = elim (Bool-cases (equals key k)) [
  | inl same ↦
      let eq' : key ≡ k = (equals_iff key k).0 same in
      rw (eq', equals_refl k)
        (ground (arith, get-insert k k (JsonValue.string value) e.others, equals_refl k))
  | inr other ↦ rw other (
      ground (
        arith,
        equals_join key k (codes "timestamp"),
        equals_join key k (codes "level"),
        equals_join key k (codes "message"),
        equals_join key k (codes "tag"),
        get-insert key k (JsonValue.string value) e.others,
        other,
      ))
]

find-store_all :
    (key : Bytes) (ps : List Pair) (e : LogEntry)
    → find key (store_all ps e) ≡ last_of key ps (find key e)
unfolding store_all last_of
find-store_all key [] e = refl
find-store_all key ((k, value) ∷ ps) e =
    find-store_all key ps (store (k, value) e) ∙ ap (last_of key ps) (find-store key k value e)

raw-store : (p : Pair) (e : LogEntry) → (store p e).raw ≡ e.raw
unfolding store
raw-store (key, value) e = ground arith

raw-store_all : (ps : List Pair) (e : LogEntry) → (store_all ps e).raw ≡ e.raw
unfolding store_all
raw-store_all [] e = refl
raw-store_all (p ∷ ps) e = raw-store_all ps (store p e) ∙ raw-store p e

find-new : (key raw : Bytes) → find key (new raw) ≡ none
unfolding find get
find-new key raw = ground arith

-- What the entry of a line is, by its pairs.
pub record IsEntryOf (line : Bytes) (e : LogEntry) : Type 0 where
  pub pairs : List Pair
  pub scanned : parse_pairs line ≡ ok pairs
  pub has_pairs : pairs ≢ []
  pub dark : is_blank line ≡ false
  pub keeps_line : e.raw ≡ line
  pub last_wins : (key : Bytes) → find key e ≡ last_of key pairs none

entry_of-IsEntryOf :
    (line : Bytes) (ps : List Pair)
    → is_blank line ≡ false
    → parse_pairs line ≡ ok ps
    → Ensures Any (IsEntryOf line) (entry_of line ps)
unfolding entry_of
entry_of-IsEntryOf line [] dark h = fails tt
entry_of-IsEntryOf line (p ∷ ps) dark h = holds (record {
  pairs = p ∷ ps;
  scanned = h;
  has_pairs = λ k. cc k;
  dark = dark;
  keeps_line = raw-store_all (p ∷ ps) (new line);
  last_wins =
      λ key. find-store_all key (p ∷ ps) (new line) ∙ ap (last_of key (p ∷ ps)) (find-new key line);
})

pub parse_logfmt-Ensures : (line : Bytes) → Ensures Any (IsEntryOf line) (parse_logfmt line)
unfolding parse_logfmt
parse_logfmt-Ensures line =
    Ensures-if (is_blank line) (λ _. fails tt)
      λ dark.
        Ensures-bind (Ensures-self (parse_pairs line) (λ e h. tt) (parse_pairs-ne_out_of_fuel line))
          λ ps scanned. entry_of-IsEntryOf line ps dark scanned

-- An entry from a logfmt line is that of the pairs scanned from it, of which there is one at least: it
-- keeps the line, which is not blank, and under every key, known or not, it has the value of the last
-- pair with that key, or nothing if there is none.
pub parse_logfmt-IsEntryOf :
    (line : Bytes) (e : LogEntry) → parse_logfmt line ≡ ok e → IsEntryOf line e
parse_logfmt-IsEntryOf line e h = Ensures-eq_ok (parse_logfmt-Ensures line) h
