-- ===== src/Tests/LikeTests.antt =====
-- CONTAINS patterns of crates/core/src/executor.rs under a LIKE on bytes, and queries that differ in their
-- values.
use logdive.Prelude.{◌++◌, ◌==◌, [], arith, false, if◌then◌else◌, refl, ◌||◌, ℕ, ◌↔◌, ◌∷◌, ◌≡◌}
use logdive.Executor.Like.{BindsPattern, Like, searched, translate_contains-matches}
use logdive.Bytes.{Bytes, equals, to_ascii_lower, codes}
use logdive.Query.Ast.{
  CompareOp, QueryNode, QueryValue, clauses, compare, groups, no_clauses, no_groups, string,
}
use logdive.Executor.Sql.{
  Fragment, and_group_sql, column_for_field, compare_sql, escape_like, is_known_key, join, like_sql,
  op_text, paging_sql, value_to_bind, where_sql,
}
use logdive.Executor.Shape.{
  SameQuery, build_sql-SameQuery, no_more_clauses, no_more_groups, one_more_clause, one_more_group,
  same_compare,
}
use logdive.Executor.Translate.{
  build_sql, like_bind, translate_clause, translate_compare, translate_contains,
}
use logdive.Tests.ExecutorTests.{
  build_sql-level_tree, clock, level_sql, level_tree, ascii_lower, no_options,
}
use logdive.Bytes.Decimal.{decimal}
use logdive.Prelude.Result.{ok}
use logdive.Bytes.Number.{pos}
use logdive.Executor.Failure.{text, SqlValue}

-- One byte that matches `c`, and then the rest.
abbrev One : ℕ → (Bytes → Type 0) → Bytes → Type 0
One c Rest t = (d : ℕ) × (u : Bytes) × (t ≡ d ∷ u) × (to_ascii_lower d ≡ to_ascii_lower c) × Rest u

abbrev Some : (Bytes → Type 0) → Bytes → Type 0
Some Rest t = (a : Bytes) × (b : Bytes) × (t ≡ a ++ b) × Rest b

-- The pattern's first byte, with what matches the rest of the pattern, and what does after a backslash.
abbrev Step : ℕ → (Bytes → Type 0) → (Bytes → Type 0) → Bytes → Type 0
Step c Rest Escaped t =
    if c == b'%' then Some Rest t else if c == b'\\' then Escaped t else One c Rest t

abbrev IsLike : Bytes → Bytes → Type 0
IsLike [] t = t ≡ []
IsLike (c ∷ []) t = Step c (λ u. u ≡ []) (λ _. ⊥) t
IsLike (c ∷ d ∷ p) t = Step c (IsLike (d ∷ p)) (One d (IsLike p)) t

IsLike-percent : (p t : Bytes) → IsLike (b'%' ∷ p) t ↔ Some (IsLike p) t
IsLike-percent [] t = (λ h. h, λ h. h)
IsLike-percent (d ∷ p) t = (λ h. h, λ h. h)

IsLike-literal :
    (c : ℕ) (p t : Bytes)
    → (c == b'\\' || c == b'%' || c == b'_') ≡ false
    → IsLike (c ∷ p) t ↔ One c (IsLike p) t
IsLike-literal c p t h =
    let no_percent : (c == b'%') ≡ false = ground arith in
    let no_backslash : (c == b'\\') ≡ false = ground arith in literal p no_percent no_backslash
  where
    literal :
        (p : Bytes)
        → (c == b'%') ≡ false
        → (c == b'\\') ≡ false
        → IsLike (c ∷ p) t ↔ One c (IsLike p) t
    literal [] e e' = rw (e, e') (λ h. h, λ h. h)
    literal (d ∷ p) e e' = rw (e, e') (λ h. h, λ h. h)

abbrev like_bytes : Like
like_bytes = record {
  Matches = IsLike;
  at_end = λ t. (λ h. h, λ h. h);
  at_percent = IsLike-percent;
  at_escaped = λ c p t. (λ h. h, λ h. h);
  at_literal = IsLike-literal;
}

abbrev half_sql : Fragment
half_sql = (codes "message LIKE ? ESCAPE '\\'", text (codes "%50\\%%") ∷ [])

translate_half :
    translate_contains clock ascii_lower 5 (codes "message") (codes "50%") ≡ ok half_sql
unfolding translate_contains escape_like like_sql column_for_field is_known_key equals like_bind
translate_half = refl

translate_contains-matches_example :
    BindsPattern like_bytes clock ascii_lower 5
      (searched like_bytes clock ascii_lower 5 (codes "message") (codes "50%"))
      (text (codes "%50\\%%") ∷ [])
translate_contains-matches_example =
    translate_contains-matches like_bytes clock ascii_lower 5 (codes "message") (codes "50%")
      half_sql translate_half

abbrev other_tree : QueryNode
other_tree =
    groups
      (clauses (compare (codes "level") CompareOp.eq (string (codes "x' OR 1=1 --"))) no_clauses)
      (groups (clauses (compare (codes "tag") CompareOp.eq (QueryValue.integer (pos 3))) no_clauses)
        no_groups)

trees_SameQuery : SameQuery level_tree other_tree
trees_SameQuery =
    one_more_group (one_more_clause same_compare no_more_clauses)
      (one_more_group (one_more_clause same_compare no_more_clauses) no_more_groups)

abbrev other_sql : Fragment
other_sql = (level_sql.0, text (codes "x' or 1=1 --") ∷ SqlValue.integer (pos 3) ∷ [])

build_sql-other_tree : build_sql clock ascii_lower 5 other_tree no_options ≡ ok other_sql
unfolding build_sql translate_clause translate_compare column_for_field is_known_key equals
    value_to_bind compare_sql op_text and_group_sql where_sql join paging_sql decimal
build_sql-other_tree = refl

build_sql-SameQuery_example : level_sql.0 ≡ other_sql.0
build_sql-SameQuery_example =
    build_sql-SameQuery clock ascii_lower 5 level_tree other_tree no_options level_sql other_sql
      trees_SameQuery build_sql-level_tree build_sql-other_tree
