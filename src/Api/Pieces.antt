-- ===== src/Api/Pieces.antt =====
-- The text of the origins of crates/api/src/main.rs, cut at its commas.
use logdive.Prelude.{
  List, [], arith, false, refl, true, ◌↔◌, ◌∷◌, ◌≡◌, Bool-cases, ap, inl, inr, sym, ◌∙◌, ◌==◌, ◌++◌,
  ◌≢◌, ==_iff, ℕ,
}
use logdive.Bytes.{Bytes, contains_byte, equals, is_empty}
use logdive.Api.Cors.{has_part, parts_of, push, split, trimmed}
use logdive.Bytes.White.{trim}
use mathlib.Core.List.{Memᴰ}
use logdive.Bytes.Laws.{equals_iff}

-- A text cut at its commas, in some pieces without one.
pub data Pieces : Bytes → List Bytes → Type 0 where
  whole : {s : Bytes} → contains_byte b',' s ≡ false → Pieces s (s ∷ [])
  cut :
      {s rest : Bytes} {ws : List Bytes} (w : Bytes)
      → contains_byte b',' w ≡ false
      → s ≡ w ++ (b',' ∷ rest)
      → Pieces rest ws
      → Pieces s (w ∷ ws)

-- What is left of pieces: each without the white space around it, unless that is all of it.
pub data Left : List Bytes → List Bytes → Type 0 where
  none_left : Left [] []
  blank : {ws vs : List Bytes} (w : Bytes) → trim w ≡ [] → Left ws vs → Left (w ∷ ws) vs
  dark : {ws vs : List Bytes} (w : Bytes) → trim w ≢ [] → Left ws vs → Left (w ∷ ws) (trim w ∷ vs)

-- The parts between the commas of a text.
pub record Parts (s : Bytes) (vs : List Bytes) : Type 0 where
  pub pieces : List Bytes
  pub cuts : Pieces s pieces
  pub leaves : Left pieces vs

split_whole : (c : ℕ) (s : Bytes) → contains_byte c s ≡ false → split c s ≡ s ∷ []
unfolding split contains_byte
split_whole c [] h = refl
split_whole c (b ∷ s) h = ground (arith, split_whole c s)

split_cut :
    (c : ℕ) (w rest : Bytes)
    → contains_byte c w ≡ false
    → split c (w ++ (c ∷ rest)) ≡ w ∷ split c rest
unfolding split contains_byte
split_cut c [] rest h = ground arith
split_cut c (b ∷ w) rest h = ground (arith, split_cut c w rest)

Pieces-split : (s : Bytes) (ws : List Bytes) → Pieces s ws → split b',' s ≡ ws
Pieces-split s _ (whole h) = split_whole b',' s h
Pieces-split s _ (cut {rest} {ws} w h e p) =
    ap (split b',') e ∙ split_cut b',' w rest h ∙ ap (λ vs. w ∷ vs) (Pieces-split rest ws p)

Pieces-push :
    (b : ℕ) (s : Bytes) (ws : List Bytes)
    → (b == b',') ≡ false
    → Pieces s ws
    → Pieces (b ∷ s) (push b ws)
unfolding contains_byte
Pieces-push b s _ other (whole h) = whole (rw other h)
Pieces-push b s _ other (cut w h e p) = cut (b ∷ w) (rw other h) (ap (λ x. b ∷ x) e) p

split-Pieces : (s : Bytes) → Pieces s (split b',' s)
unfolding split contains_byte
split-Pieces [] = whole refl
split-Pieces (b ∷ s) = elim (Bool-cases (b == b',')) [
  | inl comma ↦ rw comma (cut [] refl (ap (λ c. c ∷ s) ((==_iff b b',').0 comma)) (split-Pieces s))
  | inr other ↦ rw other (Pieces-push b s (split b',' s) other (split-Pieces s))
]

is_empty_iff : (s : Bytes) → (is_empty s ≡ true) ↔ (s ≡ [])
unfolding is_empty
is_empty_iff [] = (λ _. refl, λ _. refl)
is_empty_iff (_ ∷ _) = (λ h. cc h, λ h. cc h)

Left-trimmed : (ws vs : List Bytes) → Left ws vs → trimmed ws ≡ vs
unfolding trimmed
Left-trimmed _ _ none_left = refl
Left-trimmed _ vs (blank {ws} w e l) = rw ((is_empty_iff (trim w)).1 e) (Left-trimmed ws vs l)
Left-trimmed _ _ (dark {ws} {vs} w n l) = elim (Bool-cases (is_empty (trim w))) [
  | inl e ↦ absurd (n ((is_empty_iff (trim w)).0 e))
  | inr e ↦ rw e (ap (λ us. trim w ∷ us) (Left-trimmed ws vs l))
]

trimmed-Left : (ws : List Bytes) → Left ws (trimmed ws)
unfolding trimmed
trimmed-Left [] = none_left
trimmed-Left (w ∷ ws) = elim (Bool-cases (is_empty (trim w))) [
  | inl e ↦ rw e (blank w ((is_empty_iff (trim w)).0 e) (trimmed-Left ws))
  | inr e ↦ rw e (dark w (λ h. cc ((is_empty_iff (trim w)).1 h, e)) (trimmed-Left ws))
]

-- The parts of a text are those that the code finds.
pub parts_of-Parts : (s : Bytes) → Parts s (parts_of s)
unfolding parts_of
parts_of-Parts s = record {
  pieces = split b',' s;
  cuts = split-Pieces s;
  leaves = trimmed-Left (split b',' s);
}

pub Parts-parts_of : (s : Bytes) (vs : List Bytes) → Parts s vs → parts_of s ≡ vs
unfolding parts_of
Parts-parts_of s vs p =
    ap trimmed (Pieces-split s p.pieces p.cuts) ∙ Left-trimmed p.pieces vs p.leaves

pub has_part-iff-Mem : (o : Bytes) (ws : List Bytes) → (has_part o ws ≡ true) ↔ Memᴰ o ws
unfolding has_part
has_part-iff-Mem o [] = (λ h. cc h, λ m. elim m [ ])
has_part-iff-Mem o (w ∷ ws) = elim (Bool-cases (equals w o)) [
  | inl e ↦ rw e (λ _. Memᴰ.head (sym ((equals_iff w o).0 e)), λ _. refl)
  | inr e ↦ rw e (
    λ h. Memᴰ.tail ((has_part-iff-Mem o ws).0 h),
    λ m. elim m [
      | Memᴰ.head same ↦ cc ((equals_iff w o).1 (sym same), e)
      | Memᴰ.tail later ↦ (has_part-iff-Mem o ws).1 later
    ],
  )
]
