-- ===== src/Api/Policy.antt =====
-- Which origins the options of crates/api/src/main.rs let in.
use logdive.Prelude.{
  Bool, List, Option, [], arith, false, none, refl, some, true, ◌↔◌, ◌∷◌, ◌≡◌, ◌⊎◌, Bool-cases, ap,
  inl, inr, sym, ◌||◌, ◌∙◌, ◌==◌, if◌then◌else◌, length, not, suc, ℕ,
}
use logdive.Bytes.{Bytes, equals}
use logdive.Api.Cors.{
  CorsLayer, build_cors_layer, has_part, get_from, get_from_any, header_values, parse_parts,
  parts_of, star, parse_cors_origins, CorsResult, star_with_others,
}
use mathlib.Core.List.{Memᴰ}
use logdive.Prelude.Result.{ok, ok_eq, bind-ok, err}
use logdive.Bytes.Laws.{equals_iff}
use mathlib.Core.Path.{subst}
use logdive.Api.Pieces.{Parts, Parts-parts_of, has_part-iff-Mem, parts_of-Parts}

-- What tower-http documents of a layer: whether it lets the origin in.
abbrev pub allows : Option CorsLayer → Bytes → Bool
allows none o = false
allows (some get_from_any) o = true
allows (some (get_from ws)) o = has_part o ws

-- The text asks for any origin, by a star and nothing else, or names this one between its commas.
abbrev pub Names : Option Bytes → Bytes → Type 0
Names none o = ⊥
Names (some s) o = (vs : List Bytes) × Parts s vs × ((vs ≡ star ∷ []) ⊎ Memᴰ o vs)

IsNamed : List Bytes → Bytes → Type 0
IsNamed ws o = (ws ≡ star ∷ []) ⊎ (has_part o ws ≡ true)

-- No star among the parts: the layer has them as they are.
listed_layer :
    (ws : List Bytes) (o : Bytes)
    → has_part star ws ≡ false
    → allows (build_cors_layer ws) o ≡ has_part o ws
unfolding build_cors_layer has_part
listed_layer [] o h = refl
listed_layer (w ∷ []) o h = ground arith
listed_layer (w ∷ v ∷ ws) o h = refl

star_is_not_listed : (ws : List Bytes) → has_part star ws ≡ false → ws ≡ star ∷ [] → ⊥
unfolding has_part equals
star_is_not_listed ws h e = cc (rw e at h)

or_false : {b : Bool} → (b || false) ≡ true → b ≡ true
or_false {b = true} h = refl
or_false {b = false} h = h

star_among_others :
    (n : ℕ) {origins : List Bytes}
    → ◌≡◌ {A = CorsResult}
        (if not (suc (suc n) == 1) then err star_with_others else ok (star ∷ []))
        (ok origins)
    → ⊥
star_among_others n h = ground arith

nothing_allowed : (o : Bytes) → (allows (build_cors_layer []) o ≡ true) ↔ ⊥
unfolding build_cors_layer
nothing_allowed o = (λ h. cc h, λ x. absurd x)

module _ (is_header_value : Bytes → Bool) where
  header_values-eq : (ws vs : List Bytes) → header_values is_header_value ws ≡ ok vs → ws ≡ vs
  unfolding header_values
  header_values-eq [] vs h = ok_eq h
  header_values-eq (w ∷ ws) vs h = elim (Bool-cases (is_header_value w)) [
    | inl good ↦
        (let (us, e, e') = bind-ok (header_values is_header_value ws) (rw good at h) in
          ap (λ xs. w ∷ xs) (header_values-eq ws us e) ∙ ok_eq e')
    | inr bad ↦ cc (rw bad at h)
  ]

  -- The layer of parts without a star.
  listed :
      (ws origins : List Bytes) (o : Bytes)
      → has_part star ws ≡ false
      → ws ≡ origins
      → (allows (build_cors_layer origins) o ≡ true) ↔ IsNamed ws o
  unfolding IsNamed
  listed ws origins o no_star same =
      let l = ap (λ us. allows (build_cors_layer us) o) (sym same) ∙ listed_layer ws o no_star in
      (
        λ h. inr (sym l ∙ h),
        λ n. elim n [ inl e ↦ absurd (star_is_not_listed ws no_star e) | inr h ↦ l ∙ h ],
      )

  starred :
      (w : Bytes) (o : Bytes)
      → has_part star (w ∷ []) ≡ true
      → (allows (build_cors_layer (star ∷ [])) o ≡ true) ↔ IsNamed (w ∷ []) o
  unfolding IsNamed build_cors_layer has_part equals
  starred w o h = (λ _. inl (ap (λ x. x ∷ []) ((equals_iff w star).0 (or_false h))), λ _. refl)

  parse_parts-iff-IsNamed :
      (ws origins : List Bytes) (o : Bytes)
      → parse_parts is_header_value ws ≡ ok origins
      → (allows (build_cors_layer origins) o ≡ true) ↔ IsNamed ws o
  unfolding parse_parts IsNamed
  parse_parts-iff-IsNamed [] origins o h = listed [] origins o refl (ok_eq h)
  parse_parts-iff-IsNamed (w ∷ []) origins o h = elim (Bool-cases (has_part star (w ∷ []))) [
    | inl has ↦
        subst (λ us. (allows (build_cors_layer us) o ≡ true) ↔ IsNamed (w ∷ []) o)
          (ok_eq (rw has at h)) (starred w o has)
    | inr no_star ↦
        listed (w ∷ []) origins o no_star (header_values-eq (w ∷ []) origins (rw no_star at h))
  ]
  parse_parts-iff-IsNamed (w ∷ v ∷ ws) origins o h =
      elim (Bool-cases (has_part star (w ∷ v ∷ ws))) [
        | inl has ↦ absurd (star_among_others (length ws) (rw has at h))
        | inr no_star ↦
            listed (w ∷ v ∷ ws) origins o no_star
              (header_values-eq (w ∷ v ∷ ws) origins (rw no_star at h))
      ]

  IsNamed-iff-Names : (s o : Bytes) → IsNamed (parts_of s) o ↔ Names (some s) o
  unfolding IsNamed
  IsNamed-iff-Names s o = (
    λ h. (
      parts_of s,
      parts_of-Parts s,
      elim h [ inl e ↦ inl e | inr e ↦ inr ((has_part-iff-Mem o (parts_of s)).0 e) ],
    ),
    λ (vs, p, h). elim h [
      | inl e ↦ inl (Parts-parts_of s vs p ∙ e)
      | inr m ↦
          inr ((has_part-iff-Mem o (parts_of s)).1 (subst (Memᴰ o) (sym (Parts-parts_of s vs p)) m))
    ],
  )

  -- If the origins of the option are accepted, the layer lets an origin in exactly when the option
  -- names it among its parts, or is a star and nothing else; without the option, none.
  pub parse_cors_origins-iff-Names :
      (raw : Option Bytes) (origins : List Bytes) (o : Bytes)
      → parse_cors_origins is_header_value raw ≡ ok origins
      → (allows (build_cors_layer origins) o ≡ true) ↔ Names raw o
  unfolding parse_cors_origins IsNamed
  parse_cors_origins-iff-Names none origins o h =
      subst (λ us. (allows (build_cors_layer us) o ≡ true) ↔ ⊥) (ok_eq h) (nothing_allowed o)
  parse_cors_origins-iff-Names (some s) origins o h =
      let listed_parts = parse_parts-iff-IsNamed (parts_of s) origins o h in
      let named = IsNamed-iff-Names s o in
      (λ a. named.0 (listed_parts.0 a), λ n. listed_parts.1 (named.1 n))
