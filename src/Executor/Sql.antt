-- ===== src/Executor/Sql.antt =====
-- The pieces of SQL text that crates/core/src/executor.rs builds.
use logdive.Prelude.{
  ◌&&◌, ◌*◌, ◌++◌, ◌==◌, Bool, List, Option, [], all, false, if◌then◌else◌, ltb, none, not, some,
  ◌||◌, ℕ, ◌∷◌,
}
use logdive.Bytes.{Bytes, codes, equals, is_ascii_alphabetic, is_ascii_alphanumeric}
use logdive.Query.Ast.{
  CompareOp, Duration, QueryValue, bool, eq, float, gt, lt, not_eq, seconds, string,
}
use logdive.Executor.Failure.{Failure, QueryOptions, SqlValue, unsafe_field_name}
use logdive.Prelude.Result.{Result, err, ok}
use logdive.Bytes.Decimal.{decimal}
use logdive.Bytes.Number.{i64_max, pos}
use Prim.Native.Nat.{min}

abbrev pub Fragment : Type 0
Fragment = Bytes × List SqlValue

abbrev pub Fragments : Type 0
Fragments = List Bytes × List SqlValue

-- `[String]::join`
unfoldable pub join : Bytes → List Bytes → Bytes
join sep [] = []
join sep (s ∷ []) = s
join sep (s ∷ t ∷ rest) = s ++ (sep ++ join sep (t ∷ rest))

abbrev pub level_field : Bytes
level_field = codes "level"

-- `LogEntry::KNOWN_KEYS`
abbrev pub known_keys : List Bytes
known_keys = codes "timestamp" ∷ codes "level" ∷ codes "message" ∷ codes "tag" ∷ []

unfoldable pub is_known_key : Bytes → List Bytes → Bool
is_known_key field [] = false
is_known_key field (k ∷ ks) = equals k field || is_known_key field ks

unfoldable pub is_safe_json_path_segment : Bytes → Bool
is_safe_json_path_segment [] = false
is_safe_json_path_segment (c ∷ s) =
    (is_ascii_alphabetic c || c == b'_')
    && all (λ d. is_ascii_alphanumeric d || d == b'_' || d == b'.') (c ∷ s)

unfoldable pub json_extract : Bytes → Bytes
json_extract field = codes "json_extract(fields, '$." ++ (field ++ codes "')")

unfoldable pub column_for_field : Bytes → Result Failure Bytes
column_for_field field =
    if is_known_key field known_keys
    then ok field
    else if not (is_safe_json_path_segment field)
    then err (unsafe_field_name field)
    else ok (json_extract field)

unfoldable pub value_to_bind : QueryValue → SqlValue
value_to_bind (string s) = SqlValue.text s
value_to_bind (QueryValue.integer n) = SqlValue.integer n
value_to_bind (float f) = SqlValue.real f
value_to_bind (bool b) = SqlValue.integer (pos (if b then 1 else 0))

unfoldable pub escape_like : Bytes → Bytes
escape_like [] = []
escape_like (c ∷ s) =
    let rest = escape_like s in
    if c == b'\\' || c == b'%' || c == b'_' then b'\\' ∷ c ∷ rest else c ∷ rest

-- `CompareOp`'s `Display`
unfoldable pub op_text : CompareOp → Bytes
op_text eq = codes "="
op_text not_eq = codes "!="
op_text gt = codes ">"
op_text lt = codes "<"

unfoldable pub compare_sql : Bytes → CompareOp → Bytes
compare_sql column op = column ++ (codes " " ++ (op_text op ++ codes " ?"))

unfoldable pub like_sql : Bytes → Bytes
like_sql column = column ++ codes " LIKE ? ESCAPE '\\'"

abbrev pub timestamp_sql : Bytes
timestamp_sql = codes "timestamp >= ?"

abbrev pub level_column : Bytes
level_column = codes "lower(level)"

-- The text of an AND-group.
unfoldable pub and_group_sql : List Bytes → Bytes
and_group_sql [] = codes "(1=1)"
and_group_sql (s ∷ ss) = codes "(" ++ (join (codes " AND ") (s ∷ ss) ++ codes ")")

-- The text of `Clause::Group`.
unfoldable pub group_sql : List Bytes → Bytes
group_sql (s ∷ []) = s
group_sql ss = codes "(" ++ (join (codes " OR ") ss ++ codes ")")

unfoldable pub where_sql : List Bytes → Bytes
where_sql [] = codes "1=1"
where_sql (s ∷ ss) = join (codes " OR ") (s ∷ ss)

-- `i64::try_from(amount).unwrap_or(i64::MAX)` and `saturating_mul`
unfoldable pub cutoff_seconds : Duration → ℕ
cutoff_seconds d = min (min d.amount i64_max * seconds d.unit) i64_max

abbrev pub positive : Option ℕ → Bool
positive none = false
positive (some n) = ltb 0 n

abbrev pub limit_clause : ℕ → Bytes
limit_clause n = codes " LIMIT " ++ decimal n

abbrev pub offset_clause : Option ℕ → Bytes
offset_clause none = []
offset_clause (some n) = codes " OFFSET " ++ decimal n

-- What `build_sql` appends for paging: SQLite takes no OFFSET without a LIMIT.
unfoldable pub paging : Option ℕ → Option ℕ → Bytes
paging none offset = if positive offset then codes " LIMIT -1" ++ offset_clause offset else []
paging (some n) offset = limit_clause n ++ (if positive offset then offset_clause offset else [])

unfoldable pub paging_sql : QueryOptions → Bytes
unfolding paging
paging_sql o = paging o.limit o.offset

abbrev pub select_sql : Bytes
select_sql = codes "SELECT timestamp, level, message, tag, fields, raw FROM log_entries WHERE "

abbrev pub order_sql : Bytes
order_sql = codes " ORDER BY timestamp DESC, id DESC"
