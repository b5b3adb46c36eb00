-- ===== src/Cli/Colour.antt =====
-- Colour adds nothing to the lines of crates/cli/src/render.rs but the texts of its styles.
use logdive.Prelude.{
  ◌++◌, [], ap, append_assoc, sym, ℕ, ◌∙◌, ◌∷◌, ◌≡◌, Bool-cases, List, Option, append-nil, false,
  inl, inr, none, refl, some, true,
}
use logdive.Bytes.{Bytes, codes, is_empty}
use logdive.Cli.Render.{
  Escapes, Style, cyan, dimmed, format_fields, format_level, format_pretty_line, format_rest,
  format_tag, styled,
}
use logdive.Entry.{Fields, JsonValue, LogEntry, fields, no_fields}
use mathlib.Core.Path.{subst}

-- The second text is the first with texts of styles put in.
pub data IsStyled (escapes : Escapes) : Bytes → Bytes → Type 0 where
  end : IsStyled escapes [] []
  keep : (b : ℕ) {s t : Bytes} → IsStyled escapes s t → IsStyled escapes (b ∷ s) (b ∷ t)
  put_on :
      (style : Style) {s t u : Bytes}
      → IsStyled escapes s t
      → escapes.on style ++ t ≡ u
      → IsStyled escapes s u
  put_off :
      (style : Style) {s t u : Bytes}
      → IsStyled escapes s t
      → escapes.off style ++ t ≡ u
      → IsStyled escapes s u

module _ (escapes : Escapes) where
  IsStyled-refl : (s : Bytes) → IsStyled escapes s s
  IsStyled-refl [] = end
  IsStyled-refl (b ∷ s) = keep b (IsStyled-refl s)

  IsStyled-append :
      {s t u v : Bytes}
      → IsStyled escapes s t
      → IsStyled escapes u v
      → IsStyled escapes (s ++ u) (t ++ v)
  IsStyled-append end k = k
  IsStyled-append (keep b h) k = keep b (IsStyled-append h k)
  IsStyled-append {v} (put_on style {t} h e) k =
      put_on style (IsStyled-append h k)
        (sym (append_assoc (escapes.on style) t v) ∙ ap (λ x. x ++ v) e)
  IsStyled-append {v} (put_off style {t} h e) k =
      put_off style (IsStyled-append h k)
        (sym (append_assoc (escapes.off style) t v) ∙ ap (λ x. x ++ v) e)

  only_off : (style : Style) → IsStyled escapes [] (escapes.off style)
  only_off style = put_off style end (append-nil (escapes.off style))

  wrapped :
      (style : Style) (s : Bytes)
      → IsStyled escapes s (escapes.on style ++ (s ++ escapes.off style))
  wrapped style s =
      put_on style
        (subst (λ t. IsStyled escapes t (s ++ escapes.off style)) (append-nil s)
          (IsStyled-append (IsStyled-refl s) (only_off style)))
        refl

  module _ (to_json_text : JsonValue → Bytes) (entries_of : Fields → List (Bytes × JsonValue))
      (to_uppercase : Bytes → Bytes) where
    styled-IsStyled :
        (style : Style) (s : Bytes)
        → IsStyled escapes
            (styled to_json_text entries_of to_uppercase escapes false style s)
            (styled to_json_text entries_of to_uppercase escapes true style s)
    unfolding styled
    styled-IsStyled style s = wrapped style s

    format_tag-IsStyled :
        (tag : Option Bytes)
        → IsStyled escapes
            (format_tag to_json_text entries_of to_uppercase escapes false tag)
            (format_tag to_json_text entries_of to_uppercase escapes true tag)
    unfolding format_tag
    format_tag-IsStyled none = end
    format_tag-IsStyled (some t) = elim (Bool-cases (is_empty t)) [
      | inl e ↦ rw e end
      | inr e ↦ rw e (
          IsStyled-append (IsStyled-refl (codes "  "))
            (styled-IsStyled cyan (codes "[" ++ (t ++ codes "]"))))
    ]

    format_rest-IsStyled :
        (fs : Fields)
        → IsStyled escapes
            (format_rest to_json_text entries_of to_uppercase escapes false fs)
            (format_rest to_json_text entries_of to_uppercase escapes true fs)
    unfolding format_rest
    format_rest-IsStyled no_fields = end
    format_rest-IsStyled (fields k v fs) = IsStyled-append (IsStyled-refl (codes "  ")) (
        styled-IsStyled dimmed
          (codes "{" ++ (format_fields to_json_text entries_of (fields k v fs) ++ codes "}")))

    -- The coloured line of an entry is the plain one with texts of styles put in.
    pub format_pretty_line-IsStyled :
        (e : LogEntry)
        → IsStyled escapes
            (format_pretty_line to_json_text entries_of to_uppercase escapes false e)
            (format_pretty_line to_json_text entries_of to_uppercase escapes true e)
    unfolding format_pretty_line format_level
    format_pretty_line-IsStyled e = IsStyled-append (styled-IsStyled dimmed _) (
        IsStyled-append (IsStyled-refl (codes "  ")) (
          IsStyled-append (styled-IsStyled _ _) (
            IsStyled-append (format_tag-IsStyled e.tag) (
              IsStyled-append (IsStyled-refl (codes "  "))
                (IsStyled-append (IsStyled-refl _) (format_rest-IsStyled e.others))))))
