-- ===== src/Executor/Like.antt =====
-- The patterns that crates/core/src/executor.rs binds for CONTAINS, under SQLite's LIKE.
use logdive.Prelude.{
  ◌++◌, ◌==◌, Bool-cases, [], ap, false, head_eq, inl, inr, refl, tail_eq, ◌||◌, ℕ, ◌↔◌, ◌∙◌, ◌∷◌,
  ◌≡◌, append-nil, if◌then◌else◌, not, sym, List,
}
use logdive.Bytes.{Bytes, to_ascii_lower, to_ascii_lowercase, codes, equals}
use logdive.Executor.Sql.{
  escape_like, Fragment, column_for_field, is_known_key, is_safe_json_path_segment, known_keys,
  level_field,
}
use logdive.Executor.Chrono.{Chrono}
use logdive.Prelude.Result.{Ensures, Ensures-bind, Ensures-eq_ok, Ensures-if, fails, holds, ok}
use logdive.Executor.Failure.{SqlValue}
use logdive.Executor.Translate.{like_bind, translate_contains}

-- `text LIKE pattern ESCAPE '\'` as SQLite documents it: `%` matches any text, a backslash takes the next
-- character literally, ASCII letters match in either case. `_` is not needed. The texts are UTF-8, where a
-- match of whole characters and a match of bytes are the same.
pub record Like : Type 1 where
  pub Matches : Bytes → Bytes → Type 0
  pub at_end : (t : Bytes) → Matches [] t ↔ (t ≡ [])
  pub at_percent :
      (p t : Bytes)
      → Matches (b'%' ∷ p) t ↔ ((a : Bytes) × (b : Bytes) × (t ≡ a ++ b) × Matches p b)
  pub at_escaped :
      (c : ℕ) (p t : Bytes)
      → Matches (b'\\' ∷ c ∷ p) t ↔ (
          (d : ℕ) × (u : Bytes) × (t ≡ d ∷ u) × (to_ascii_lower d ≡ to_ascii_lower c) × Matches p u)
  pub at_literal :
      (c : ℕ) (p t : Bytes)
      → (c == b'\\' || c == b'%' || c == b'_') ≡ false
      → Matches (c ∷ p) t ↔ (
          (d : ℕ) × (u : Bytes) × (t ≡ d ∷ u) × (to_ascii_lower d ≡ to_ascii_lower c) × Matches p u)

-- The text begins with `s`, or has it somewhere, in any case of the ASCII letters.
abbrev BeginsWith : Bytes → Bytes → Type 0
BeginsWith s t =
    (m : Bytes) × (b : Bytes) × (t ≡ m ++ b) × (to_ascii_lowercase m ≡ to_ascii_lowercase s)

abbrev pub OccursIn : Bytes → Bytes → Type 0
OccursIn s t =
    (a : Bytes) × (m : Bytes) × (b : Bytes) × (t ≡ a ++ (m ++ b))
    × (to_ascii_lowercase m ≡ to_ascii_lowercase s)

cons_eq : {a b : ℕ} {s t : Bytes} → a ≡ b → s ≡ t → ◌≡◌ {A = Bytes} (a ∷ s) (b ∷ t)
cons_eq h k = rw (h, k) refl

column_for_field-Ensures :
    (field : Bytes) → Ensures (λ _. Unit) (λ _. Unit) (column_for_field field)
unfolding column_for_field
column_for_field-Ensures field =
    Ensures-if (is_known_key field known_keys) (λ _. holds tt)
      λ _. Ensures-if (not (is_safe_json_path_segment field)) (λ _. fails tt) λ _. holds tt

module _ (like : Like) where
  open like use {Matches, at_end, at_percent, at_escaped, at_literal}

  -- One literal character in front.
  BeginsWith-cons :
      (c : ℕ) (s p t : Bytes)
      → ((u : Bytes) → Matches p u ↔ BeginsWith s u)
      → ((d : ℕ) × (u : Bytes) × (t ≡ d ∷ u) × (to_ascii_lower d ≡ to_ascii_lower c) × Matches p u)
        ↔ BeginsWith (c ∷ s) t
  BeginsWith-cons c s p t rest = (
    λ (d, u, e, same, m).
        let (front, b, e', same') = (rest u).0 m in
        (d ∷ front, b, e ∙ ap (λ v. d ∷ v) e', cons_eq same same'),
    back,
  )
    where
      back :
          BeginsWith (c ∷ s) t
          → (d : ℕ) × (u : Bytes) × (t ≡ d ∷ u)
            × (to_ascii_lower d ≡ to_ascii_lower c)
            × Matches p u
      back ([], b, e, same) = cc same
      back (d ∷ front, b, e, same) =
          (d, front ++ b, e, head_eq same, (rest (front ++ b)).1 (front, b, refl, tail_eq same))

  escape_like-BeginsWith : (s t : Bytes) → Matches (escape_like s ++ b'%' ∷ []) t ↔ BeginsWith s t
  unfolding escape_like
  escape_like-BeginsWith [] t = (
    λ _. ([], t, refl, refl),
    λ _. (at_percent [] t).1 (t, [], sym (append-nil t), (at_end []).1 refl),
  )
  escape_like-BeginsWith (c ∷ s) t = elim (Bool-cases (c == b'\\' || c == b'%' || c == b'_')) [
    | inl special ↦
        let (to, from) = at_escaped c (escape_like s ++ b'%' ∷ []) t in
        let (to', from') = BeginsWith-cons c s _ t (escape_like-BeginsWith s) in
        rw special (λ m. to' (to m), λ x. from (from' x))
    | inr literal ↦
        let (to, from) = at_literal c (escape_like s ++ b'%' ∷ []) t literal in
        let (to', from') = BeginsWith-cons c s _ t (escape_like-BeginsWith s) in
        rw literal (λ m. to' (to m), λ x. from (from' x))
  ]

  pattern-OccursIn :
      (s t : Bytes) → Matches (codes "%" ++ (escape_like s ++ codes "%")) t ↔ OccursIn s t
  pattern-OccursIn s t =
      let (to, from) = at_percent (escape_like s ++ codes "%") t in
      (
        λ h.
            let (a, r, e, m) = to h in
            let (front, b, e', same) = (escape_like-BeginsWith s r).0 m in
            (a, front, b, e ∙ ap (λ v. a ++ v) e', same),
        λ (a, front, b, e, same).
            from
              (a, front ++ b, e, (escape_like-BeginsWith s (front ++ b)).1 (front, b, refl, same)),
      )

  module _ (chrono : Chrono) (to_lowercase : Bytes → Bytes) (now : chrono.DateTime) where
    -- The text that is searched for in a field.
    abbrev pub searched : Bytes → Bytes → Bytes
    searched field value = if equals field level_field then to_lowercase value else value

    -- The one value bound is a pattern that matches where the text occurs.
    abbrev pub BindsPattern : Bytes → List SqlValue → Type 0
    BindsPattern s binds =
        (pattern_text : Bytes) × (binds ≡ SqlValue.text pattern_text ∷ [])
        × ((t : Bytes) → Matches pattern_text t ↔ OccursIn s t)

    like_bind-BindsPattern : (s : Bytes) → BindsPattern s (like_bind chrono to_lowercase now s ∷ [])
    unfolding like_bind
    like_bind-BindsPattern s = (codes "%" ++ (escape_like s ++ codes "%"), refl, pattern-OccursIn s)

    translate_contains-Ensures :
        (field value : Bytes)
        → Ensures
            (λ _. Unit)
            (λ sql. BindsPattern (searched field value) sql.1)
            (translate_contains chrono to_lowercase now field value)
    unfolding translate_contains
    translate_contains-Ensures field value = elim (Bool-cases (equals field level_field)) [
      | inl e ↦ rw e (holds (like_bind-BindsPattern (to_lowercase value)))
      | inr e ↦ rw e (
          Ensures-bind (column_for_field-Ensures field)
            λ column _. holds (like_bind-BindsPattern value))
    ]

    -- If a CONTAINS clause gives SQL, it binds one pattern, which under a LIKE with the documented
    -- laws matches exactly the texts in which the searched text occurs, percent signs, underscores and
    -- backslashes literally and ASCII letters in either case; for `level` the searched text is
    -- lower-cased.
    pub translate_contains-matches :
        (field value : Bytes) (sql : Fragment)
        → translate_contains chrono to_lowercase now field value ≡ ok sql
        → BindsPattern (searched field value) sql.1
    translate_contains-matches field value sql h =
        Ensures-eq_ok (translate_contains-Ensures field value) h
