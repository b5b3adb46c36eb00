-- ===== src/Executor/Atoms.antt =====
-- What the SQL texts of single clauses and the values bound to them mean, written from the documentation of
-- the query language and of SQL, not from the code of crates/core/src/executor.rs.
use logdive.Prelude.{
  ◌*◌, ◌++◌, ◌<◌, ◌==◌, Bool, Option, [], false, none, some, true, ◌||◌, ℕ, ◌∷◌, ◌≡◌, ◌≢◌, ◌⊎◌,
}
use logdive.Bytes.{Bytes, codes}
use logdive.Executor.Chrono.{Chrono}
use logdive.Query.Ast.{
  CompareOp, Duration, DurationUnit, QueryValue, bool, days, eq, float, gt, hours, lt, minutes,
  not_eq, string,
}
use logdive.Query.Grammar.{IsFieldName}
use logdive.Executor.Failure.{SqlValue}
use logdive.Bytes.Decimal.{decimal}
use Prim.Native.Nat.{min}
use logdive.Bytes.Number.{pos, ℤ}

-- The operator in SQL, with the placeholder behind it.
pub data OpText : Bytes → CompareOp → Type 0 where
  equal_text : OpText (codes " = ?") eq
  unequal_text : OpText (codes " != ?") not_eq
  greater_text : OpText (codes " > ?") gt
  less_text : OpText (codes " < ?") lt

abbrev pub IsLevel : Bytes → Type 0
IsLevel field = field ≡ codes "level"

-- None of the columns of the table.
abbrev pub IsOther : Bytes → Type 0
IsOther field =
    (field ≢ codes "timestamp")
    × (field ≢ codes "level")
    × (field ≢ codes "message")
    × (field ≢ codes "tag")

-- The SQL expression of a field: `level` without its case, the other columns, or a key of the JSON object in
-- `fields`.
pub data ColumnOf : Bytes → Bytes → Type 0 where
  level_column_of : ColumnOf (codes "level") (codes "lower(level)")
  timestamp_column_of : ColumnOf (codes "timestamp") (codes "timestamp")
  message_column_of : ColumnOf (codes "message") (codes "message")
  tag_column_of : ColumnOf (codes "tag") (codes "tag")
  key_of :
      {field : Bytes}
      → IsFieldName field
      → IsOther field
      → ColumnOf field (codes "json_extract(fields, '$." ++ (field ++ codes "')"))

-- A special character of LIKE: `%`, `_`, and the backslash of ESCAPE.
abbrev pub is_special : ℕ → Bool
is_special c = c == 0x5C || c == 0x25 || c == 0x5F

-- The text in a LIKE pattern, every character literally.
pub data Escaped : Bytes → Bytes → Type 0 where
  nothing_escaped : Escaped [] []
  special_escaped :
      {c : ℕ} {s e : Bytes} → is_special c ≡ true → Escaped s e → Escaped (c ∷ s) (0x5C ∷ c ∷ e)
  plain_kept : {c : ℕ} {s e : Bytes} → is_special c ≡ false → Escaped s e → Escaped (c ∷ s) (c ∷ e)

-- LIMIT and OFFSET; SQLite takes no OFFSET without a LIMIT, and -1 is none.
abbrev pub IsNoOffset : Option ℕ → Type 0
IsNoOffset o = (o ≡ none) ⊎ (o ≡ some 0)

pub data IsPaging : Option ℕ → Option ℕ → Bytes → Type 0 where
  all_rows : {o : Option ℕ} → IsNoOffset o → IsPaging none o []
  from_row :
      {n : ℕ}
      → 0 < n
      → IsPaging none (some n) (codes " LIMIT -1" ++ (codes " OFFSET " ++ decimal n))
  first_rows :
      {l : ℕ} {o : Option ℕ} → IsNoOffset o → IsPaging (some l) o (codes " LIMIT " ++ decimal l)
  page :
      {l n : ℕ}
      → 0 < n
      → IsPaging
          (some l)
          (some n)
          ((codes " LIMIT " ++ decimal l) ++ (codes " OFFSET " ++ decimal n))

abbrev pub unit_length : DurationUnit → ℕ
unit_length minutes = 60
unit_length hours = 3600
unit_length days = 86400

module _ (chrono : Chrono) (to_lowercase : Bytes → Bytes) (now : chrono.DateTime) where
  -- A text that a field is compared with or searched for: for `level` without its case.
  pub data StringOf (field s : Bytes) : Bytes → Type 0 where
    level_string : IsLevel field → StringOf field s (to_lowercase s)
    other_string : field ≢ codes "level" → StringOf field s s

  -- SQLite has no Booleans: 1 and 0.
  pub data ValueOf (field : Bytes) : QueryValue → SqlValue → Type 0 where
    string_of : {s t : Bytes} → StringOf field s t → ValueOf field (string s) (SqlValue.text t)
    integer_of : {n : ℤ} → ValueOf field (QueryValue.integer n) (SqlValue.integer n)
    float_of : {f : ℕ} → ValueOf field (float f) (SqlValue.real f)
    true_of : ValueOf field (bool true) (SqlValue.integer (pos 1))
    false_of : ValueOf field (bool false) (SqlValue.integer (pos 0))

  -- The pattern that finds a text anywhere.
  pub data PatternOf (field s : Bytes) : SqlValue → Type 0 where
    anywhere :
        {t e : Bytes}
        → StringOf field s t
        → Escaped t e
        → PatternOf field s (SqlValue.text (codes "%" ++ (e ++ codes "%")))

  -- So long before now, with the seconds that an i64 holds at most; the epoch where chrono has no such time.
  pub data IsCutoff (d : Duration) : chrono.DateTime → Type 0 where
    back :
        {n : ℕ} {delta : chrono.Delta} {t : chrono.DateTime}
        → n ≡ min (d.amount * unit_length d.unit) 9223372036854775807
        → chrono.seconds n ≡ some delta
        → chrono.checked_sub_signed now delta ≡ some t
        → IsCutoff d t
    too_far_back :
        {n : ℕ} {delta : chrono.Delta}
        → n ≡ min (d.amount * unit_length d.unit) 9223372036854775807
        → chrono.seconds n ≡ some delta
        → chrono.checked_sub_signed now delta ≡ none
        → IsCutoff d chrono.unix_epoch

  -- The first of the four forms that the text has.
  pub data IsTime (s : Bytes) : chrono.DateTime → Type 0 where
    as_rfc3339 : {t : chrono.DateTime} → chrono.parse_from_rfc3339 s ≡ some t → IsTime s t
    with_t :
        {n : chrono.NaiveDateTime}
        → chrono.parse_from_rfc3339 s ≡ none
        → chrono.parse_naive_datetime s (codes "%Y-%m-%dT%H:%M:%S") ≡ some n
        → IsTime s (chrono.from_utc_datetime n)
    with_space :
        {n : chrono.NaiveDateTime}
        → chrono.parse_from_rfc3339 s ≡ none
        → chrono.parse_naive_datetime s (codes "%Y-%m-%dT%H:%M:%S") ≡ none
        → chrono.parse_naive_datetime s (codes "%Y-%m-%d %H:%M:%S") ≡ some n
        → IsTime s (chrono.from_utc_datetime n)
    as_date :
        {d : chrono.NaiveDate}
        → chrono.parse_from_rfc3339 s ≡ none
        → chrono.parse_naive_datetime s (codes "%Y-%m-%dT%H:%M:%S") ≡ none
        → chrono.parse_naive_datetime s (codes "%Y-%m-%d %H:%M:%S") ≡ none
        → chrono.parse_naive_date s (codes "%Y-%m-%d") ≡ some d
        → IsTime s (chrono.from_utc_datetime (chrono.at_midnight d))
