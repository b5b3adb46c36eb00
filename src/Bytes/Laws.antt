-- ===== src/Bytes/Laws.antt =====
-- Comparison of texts decides equality, with and without case.
use logdive.Prelude.{◌≡◌, refl, sym, ◌∙◌, ◌↔◌, true, ◌∷◌, arith, Bool-cases, false, inl, inr, ◌≢◌}
use logdive.Bytes.{Bytes, equals, eq_ignore_ascii_case, to_ascii_lowercase}

pub equals_iff : (s t : Bytes) → (equals s t ≡ true) ↔ (s ≡ t)
unfolding equals
equals_iff (a ∷ s) (b ∷ t) = ground (arith, equals_iff s t)
equals_iff _ _ = ground arith

pub equals_refl : (s : Bytes) → equals s s ≡ true
equals_refl s = (equals_iff s s).1 refl

pub eq_ignore_ascii_case_iff :
    (s t : Bytes)
    → (eq_ignore_ascii_case s t ≡ true) ↔ (to_ascii_lowercase s ≡ to_ascii_lowercase t)
unfolding eq_ignore_ascii_case
eq_ignore_ascii_case_iff s t = equals_iff (to_ascii_lowercase s) (to_ascii_lowercase t)

-- One text matches at most one of two words that differ beyond case.
pub eq_ignore_ascii_case_unique :
    (s t u : Bytes)
    → eq_ignore_ascii_case s t ≡ true
    → eq_ignore_ascii_case s u ≡ true
    → to_ascii_lowercase t ≡ to_ascii_lowercase u
eq_ignore_ascii_case_unique s t u h k =
    sym ((eq_ignore_ascii_case_iff s t).0 h) ∙ (eq_ignore_ascii_case_iff s u).0 k

pub eq_ignore_ascii_case_other :
    (s t u : Bytes)
    → eq_ignore_ascii_case s t ≡ true
    → to_ascii_lowercase t ≢ to_ascii_lowercase u
    → eq_ignore_ascii_case s u ≡ false
eq_ignore_ascii_case_other s t u h ne = elim (Bool-cases (eq_ignore_ascii_case s u)) [
  | inl e ↦ absurd (ne (eq_ignore_ascii_case_unique s t u h e))
  | inr e ↦ e
]

pub equals_both : (s t u : Bytes) → equals s t ≡ true → equals s u ≡ true → equals t u ≡ true
equals_both s t u h k = (equals_iff t u).1 (sym ((equals_iff s t).0 h) ∙ (equals_iff s u).0 k)

pub equals_trans : (s t u : Bytes) → equals s t ≡ true → equals t u ≡ true → equals s u ≡ true
equals_trans s t u h k = (equals_iff s u).1 ((equals_iff s t).0 h ∙ (equals_iff t u).0 k)

pub equals_join : (s t u : Bytes) → equals s u ≡ true → equals t u ≡ true → equals s t ≡ true
equals_join s t u h k = (equals_iff s t).1 ((equals_iff s u).0 h ∙ sym ((equals_iff t u).0 k))
