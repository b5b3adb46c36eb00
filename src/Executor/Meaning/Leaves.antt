-- ===== src/Executor/Meaning/Leaves.antt =====
-- The SQL of single clauses in crates/core/src/executor.rs is what the atoms ask for.
use logdive.Prelude.{
  append-nil, Option-cases, ◌*◌, Bool-cases, Option, [], arith, false, inl, inr, none, refl, some,
  suc, sym, true, zero, ℕ, ◌∙◌, ◌∷◌, ◌≡◌, ◌≢◌, ltb,
}
use logdive.Bytes.{Bytes, codes, equals}
use logdive.Executor.Chrono.{Chrono}
use logdive.Executor.Atoms.{
  ColumnOf, Escaped, IsCutoff, IsOther, IsPaging, IsTime, PatternOf, StringOf, ValueOf, all_rows,
  anywhere, equal_text, false_of, float_of, from_row, greater_text, integer_of, is_special, key_of,
  less_text, level_column_of, level_string, message_column_of, nothing_escaped, other_string, page,
  plain_kept, special_escaped, string_of, tag_column_of, timestamp_column_of, true_of, unequal_text,
  unit_length, as_date, as_rfc3339, back, first_rows, too_far_back, with_space, with_t,
}
use logdive.Query.Ast.{
  CompareOp, Duration, DurationUnit, QueryValue, bool, days, eq, float, gt, hours, lt, minutes,
  not_eq, seconds, string,
}
use logdive.Prelude.Result.{Ensures, ok, Ensures-map, Ensures-self, ok_eq}
use logdive.Query.Grammar.{IsFieldName}
use logdive.Executor.Meaning.Texts.{IsFieldName→is_safe, NotUnsafe}
use logdive.Executor.Failure.{QueryOptions, SqlValue}
use logdive.Executor.Formula.{SqlTerm, compare_term, compares, is_like, like_term}
use logdive.Executor.Sql.{
  column_for_field, compare_sql, cutoff_seconds, escape_like, is_known_key, json_extract,
  known_keys, level_column, level_field, like_sql, op_text, paging_sql, value_to_bind, paging,
}
use logdive.Executor.Translate.{compute_last_cutoff, level_bind, like_bind, parse_datetime}
use logdive.Bytes.Laws.{equals_iff}
use logdive.Bytes.Number.{i64_max}
use Prim.Native.Nat.{min}
use mathlib.Core.Path.{subst}

pub ColumnOf-level : (s : Bytes) → equals s level_field ≡ true → ColumnOf s level_column
ColumnOf-level s h =
    subst (λ x. ColumnOf x level_column) (sym ((equals_iff s level_field).0 h)) level_column_of

pub not_level : (s : Bytes) → equals s level_field ≡ false → s ≢ codes "level"
not_level s h e = cc (sym ((equals_iff s level_field).1 e) ∙ h)

ColumnOf-known :
    (s : Bytes) → equals s level_field ≡ false → is_known_key s known_keys ≡ true → ColumnOf s s
unfolding is_known_key
ColumnOf-known s other h = elim (Bool-cases (equals (codes "timestamp") s)) [
  | inl e ↦ subst (λ x. ColumnOf x x) ((equals_iff (codes "timestamp") s).0 e) timestamp_column_of
  | inr e ↦ elim (Bool-cases (equals (codes "message") s)) [
    | inl e' ↦ subst (λ x. ColumnOf x x) ((equals_iff (codes "message") s).0 e') message_column_of
    | inr e' ↦ elim (Bool-cases (equals (codes "tag") s)) [
      | inl e'' ↦ subst (λ x. ColumnOf x x) ((equals_iff (codes "tag") s).0 e'') tag_column_of
      | inr e'' ↦ absurd (ground (arith, equals_iff (codes "level") s, equals_iff s level_field))
    ]
  ]
]

unknown-IsOther : (s : Bytes) → is_known_key s known_keys ≡ false → IsOther s
unfolding is_known_key equals
unknown-IsOther s h =
    (λ e. cc (rw e at h), λ e. cc (rw e at h), λ e. cc (rw e at h), λ e. cc (rw e at h))

-- The column that the code takes for a field.
pub column_for_field-ColumnOf :
    (s : Bytes)
    → IsFieldName s
    → equals s level_field ≡ false
    → (column : Bytes) × (column_for_field s ≡ ok column) × ColumnOf s column
unfolding column_for_field json_extract
column_for_field-ColumnOf s h other = elim (Bool-cases (is_known_key s known_keys)) [
  | inl e ↦ (s, rw e refl, ColumnOf-known s other e)
  | inr e ↦
      (json_extract s, rw e (rw (IsFieldName→is_safe s h) refl), key_of h (unknown-IsOther s e))
]

pub compare_sql-SqlTerm :
    {field column : Bytes} (op : CompareOp) {v : SqlValue}
    → ColumnOf field column
    → SqlTerm (compare_sql column op) (v ∷ []) (compares field op v)
unfolding compare_sql op_text
compare_sql-SqlTerm eq h = compare_term h equal_text refl
compare_sql-SqlTerm not_eq h = compare_term h unequal_text refl
compare_sql-SqlTerm gt h = compare_term h greater_text refl
compare_sql-SqlTerm lt h = compare_term h less_text refl

pub like_sql-SqlTerm :
    {field column : Bytes} {v : SqlValue}
    → ColumnOf field column
    → SqlTerm (like_sql column) (v ∷ []) (is_like field v)
unfolding like_sql
like_sql-SqlTerm h = like_term h refl

escape_like-Escaped : (s : Bytes) → Escaped s (escape_like s)
unfolding escape_like
escape_like-Escaped [] = nothing_escaped
escape_like-Escaped (c ∷ s) = elim (Bool-cases (is_special c)) [
  | inl e ↦ subst (Escaped (c ∷ s)) (rw e refl) (special_escaped e (escape_like-Escaped s))
  | inr e ↦ subst (Escaped (c ∷ s)) (rw e refl) (plain_kept e (escape_like-Escaped s))
]

positive_suc : (n : ℕ) → ltb 0 (suc n) ≡ true
positive_suc n = ground arith

pub paging_sql-IsPaging : (o : QueryOptions) → IsPaging o.limit o.offset (paging_sql o)
unfolding paging_sql paging
paging_sql-IsPaging o = go o.limit o.offset
  where
    go : (l n : Option ℕ) → IsPaging l n (paging l n)
    go none none = all_rows (inl refl)
    go none (some zero) = all_rows (inr refl)
    go none (some (suc n)) = rw (positive_suc n) (from_row (omega arith))
    go (some l) none = subst (IsPaging (some l) none) (sym (append-nil _)) (first_rows (inl refl))
    go (some l) (some zero) =
        subst (IsPaging (some l) (some zero)) (sym (append-nil _)) (first_rows (inr refl))
    go (some l) (some (suc n)) = rw (positive_suc n) (page (omega arith))

module _ (chrono : Chrono) (to_lowercase : Bytes → Bytes) (now : chrono.DateTime) where
  abbrev Value : Bytes → QueryValue → SqlValue → Type 0
  Value = ValueOf chrono to_lowercase now

  pub level_bind-ValueOf :
      (field : Bytes) (v : QueryValue)
      → equals field level_field ≡ true
      → Value field v (level_bind chrono to_lowercase now v)
  unfolding level_bind value_to_bind
  level_bind-ValueOf field (string s) e =
      string_of (level_string ((equals_iff field level_field).0 e))
  level_bind-ValueOf field (QueryValue.integer n) e = integer_of
  level_bind-ValueOf field (float f) e = float_of
  level_bind-ValueOf field (bool true) e = true_of
  level_bind-ValueOf field (bool false) e = false_of

  pub value_to_bind-ValueOf :
      (field : Bytes) (v : QueryValue)
      → equals field level_field ≡ false
      → Value field v (value_to_bind v)
  unfolding value_to_bind
  value_to_bind-ValueOf field (string s) e = string_of (other_string (not_level field e))
  value_to_bind-ValueOf field (QueryValue.integer n) e = integer_of
  value_to_bind-ValueOf field (float f) e = float_of
  value_to_bind-ValueOf field (bool true) e = true_of
  value_to_bind-ValueOf field (bool false) e = false_of

  pub like_bind-PatternOf :
      {field s t : Bytes}
      → StringOf chrono to_lowercase now field s t
      → PatternOf chrono to_lowercase now field s (like_bind chrono to_lowercase now t)
  unfolding like_bind
  like_bind-PatternOf {t} h = anywhere h (escape_like-Escaped t)

  cutoff_seconds-eq :
      (d : Duration) → cutoff_seconds d ≡ min (d.amount * unit_length d.unit) 9223372036854775807
  unfolding cutoff_seconds seconds
  cutoff_seconds-eq d = go d.unit
    where
      go :
          (u : DurationUnit)
          → min (min d.amount i64_max * seconds u) i64_max
            ≡ min (d.amount * unit_length u) 9223372036854775807
      go minutes = omega arith
      go hours = omega arith
      go days = omega arith

  pub compute_last_cutoff-IsCutoff :
      (d : Duration)
      → Ensures NotUnsafe (IsCutoff chrono to_lowercase now d) (compute_last_cutoff chrono d now)
  unfolding compute_last_cutoff
  compute_last_cutoff-IsCutoff d =
      Ensures-map
        (Ensures-self (compute_last_cutoff chrono d now) (λ e h s. ground arith) (ground arith))
        λ t h. elim (Option-cases (chrono.seconds (cutoff_seconds d))) [
          | inl e ↦ cc (rw (compute_last_cutoff, e) at h)
          | inr (delta, e) ↦ elim (Option-cases (chrono.checked_sub_signed now delta)) [
            | inl e' ↦
                subst (IsCutoff chrono to_lowercase now d)
                  (ok_eq (rw (compute_last_cutoff, e, e') at h))
                  (too_far_back (cutoff_seconds-eq d) e e')
            | inr (back_then, e') ↦
                subst (IsCutoff chrono to_lowercase now d)
                  (ok_eq (rw (compute_last_cutoff, e, e') at h)) (back (cutoff_seconds-eq d) e e')
          ]
        ]

  pub parse_datetime-IsTime :
      (s : Bytes) → Ensures NotUnsafe (IsTime chrono to_lowercase now s) (parse_datetime chrono s)
  unfolding parse_datetime
  parse_datetime-IsTime s =
      let long = codes "%Y-%m-%dT%H:%M:%S" in
      let spaced = codes "%Y-%m-%d %H:%M:%S" in
      Ensures-map (Ensures-self (parse_datetime chrono s) (λ e h u. ground arith) (ground arith))
        λ t h. elim (Option-cases (chrono.parse_from_rfc3339 s)) [
          | inr (_, e) ↦
              subst (IsTime chrono to_lowercase now s) (ok_eq (rw (parse_datetime, e) at h))
                (as_rfc3339 e)
          | inl e ↦ elim (Option-cases (chrono.parse_naive_datetime s long)) [
            | inr (_, f) ↦
                subst (IsTime chrono to_lowercase now s) (ok_eq (rw (parse_datetime, e, f) at h))
                  (with_t e f)
            | inl f ↦ elim (Option-cases (chrono.parse_naive_datetime s spaced)) [
              | inr (_, g) ↦
                  subst (IsTime chrono to_lowercase now s)
                    (ok_eq (rw (parse_datetime, e, f, g) at h)) (with_space e f g)
              | inl g ↦ elim (Option-cases (chrono.parse_naive_date s (codes "%Y-%m-%d"))) [
                | inr (_, k) ↦
                    subst (IsTime chrono to_lowercase now s)
                      (ok_eq (rw (parse_datetime, e, f, g, k) at h)) (as_date e f g k)
                | inl k ↦ cc (rw (parse_datetime, e, f, g, k) at h)
              ]
            ]
          ]
        ]
