-- ===== src/Executor/Meaning/Texts.antt =====
-- The pieces of SQL text of crates/core/src/executor.rs, read as formulas.
use logdive.Prelude.{◌++◌, [], refl, true, ◌∷◌, ◌≡◌, ◌≢◌, List, &&-eq_true, arith, ℕ}
use logdive.Bytes.{Bytes, codes}
use logdive.Executor.Failure.{Failure, SqlValue, unsafe_field_name}
use logdive.Executor.Formula.{
  Formula, SqlAnd, SqlOr, SqlTerm, and_join, and_one, both, either, or_join, or_one, parenthesized,
}
use logdive.Query.Grammar.{IsFieldName}
use logdive.Executor.Sql.{and_group_sql, group_sql, is_safe_json_path_segment, join, where_sql}
use logdive.Query.Parser.Leaves.{is_field_character, is_field_start}

is_field_start→character : (c : ℕ) → is_field_start c ≡ true → is_field_character c ≡ true
unfolding is_field_start is_field_character
is_field_start→character c h = ground arith

pub IsFieldName→is_safe : (s : Bytes) → IsFieldName s → is_safe_json_path_segment s ≡ true
unfolding is_safe_json_path_segment is_field_start is_field_character
IsFieldName→is_safe [] h = absurd h
IsFieldName→is_safe (c ∷ s) (start, more) =
    &&-eq_true start (&&-eq_true (is_field_start→character c start) more)

abbrev pub NotUnsafe : Failure → Type 0
NotUnsafe e = (s : Bytes) → e ≢ unsafe_field_name s

pub data ClausesSay : List Bytes → List SqlValue → Formula → Type 0 where
  clauses_say :
      (s : Bytes) (ss : List Bytes) {b : List SqlValue} {φ : Formula}
      → SqlAnd (join (codes " AND ") (s ∷ ss)) b φ
      → ClausesSay (s ∷ ss) b φ

pub data GroupsSay : List Bytes → List SqlValue → Formula → Type 0 where
  single : (s : Bytes) {b : List SqlValue} {φ : Formula} → SqlTerm s b φ → GroupsSay (s ∷ []) b φ
  several :
      (s t : Bytes) (ss : List Bytes) {b : List SqlValue} {φ : Formula}
      → SqlOr (join (codes " OR ") (s ∷ t ∷ ss)) b φ
      → GroupsSay (s ∷ t ∷ ss) b φ

pub and_group_sql-SqlTerm :
    {ss : List Bytes} {b : List SqlValue} {φ : Formula}
    → ClausesSay ss b φ
    → SqlTerm (and_group_sql ss) b φ
unfolding and_group_sql
and_group_sql-SqlTerm (clauses_say s ss h) = parenthesized (or_one h) refl

pub group_sql-SqlTerm :
    {ss : List Bytes} {b : List SqlValue} {φ : Formula}
    → GroupsSay ss b φ
    → SqlTerm (group_sql ss) b φ
unfolding group_sql
group_sql-SqlTerm (single s h) = h
group_sql-SqlTerm (several s t ss h) = parenthesized h refl

pub where_sql-SqlOr :
    {ss : List Bytes} {b : List SqlValue} {φ : Formula}
    → GroupsSay ss b φ
    → SqlOr (where_sql ss) b φ
unfolding where_sql join
where_sql-SqlOr (single s h) = or_one (and_one h)
where_sql-SqlOr (several s t ss h) = h

pub GroupsSay-cons :
    {s : Bytes} {ss : List Bytes} {b c : List SqlValue} {φ ψ : Formula}
    → SqlTerm s b φ
    → GroupsSay ss c ψ
    → GroupsSay (s ∷ ss) (b ++ c) (either φ ψ)
unfolding join
GroupsSay-cons {s} h (single t k) =
    several s t [] (or_join (and_one h) (or_one (and_one k)) refl refl)
GroupsSay-cons {s} h (several t u ss k) = several s t (u ∷ ss) (or_join (and_one h) k refl refl)

pub ClausesSay-one :
    {s : Bytes} {b : List SqlValue} {φ : Formula} → SqlTerm s b φ → ClausesSay (s ∷ []) b φ
unfolding join
ClausesSay-one {s} h = clauses_say s [] (and_one h)

pub ClausesSay-cons :
    {s : Bytes} {ss : List Bytes} {b c : List SqlValue} {φ ψ : Formula}
    → SqlTerm s b φ
    → ClausesSay ss c ψ
    → ClausesSay (s ∷ ss) (b ++ c) (both φ ψ)
unfolding join
ClausesSay-cons {s} h (clauses_say t ss k) = clauses_say s (t ∷ ss) (and_join h k refl refl)
