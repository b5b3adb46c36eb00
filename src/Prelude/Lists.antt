-- ===== src/Prelude/Lists.antt =====
-- Lists measured by native numbers, under the library's names.
use Prim.Native.Nat.{ℕ, suc, ◌+◌, ◌≤◌}
use mathlib.Core.Path.{◌≡◌, refl, subst, ap}
use mathlib.Core.Bool.{Bool, true, false, ◌&&◌}
use mathlib.Core.List.{List, [], ◌∷◌, ◌++◌}
use mathlib.Core.Logic.{◌⊎◌, inl, inr}
use native.Mathlib.Omega.{arith}
use logdive.Prelude.Tests.{if◌then◌else◌, Bool-cases}

module _ {ℓ} {A : Type ℓ} where
  abbrev pub length : List A → ℕ
  length [] = 0
  length (x ∷ xs) = suc (length xs)

  pub length-append : (xs ys : List A) → length (xs ++ ys) ≡ length xs + length ys
  length-append [] ys = omega arith
  length-append (x ∷ xs) ys = omega (arith, length-append xs ys)

  -- Every item passes the test.
  abbrev pub all : (A → Bool) → List A → Bool
  all p [] = true
  all p (x ∷ xs) = p x && all p xs

  -- The longest prefix of items that pass the test, as a scanning loop leaves it.
  abbrev pub take_while : (A → Bool) → List A → List A
  take_while p [] = []
  take_while p (x ∷ xs) = if p x then x ∷ take_while p xs else []

  abbrev pub drop_while : (A → Bool) → List A → List A
  drop_while p [] = []
  drop_while p (x ∷ xs) = if p x then drop_while p xs else x ∷ xs

  pub take_while-append-drop_while :
      (p : A → Bool) (xs : List A) → take_while p xs ++ drop_while p xs ≡ xs
  take_while-append-drop_while p [] = refl
  take_while-append-drop_while p (x ∷ xs) = ground (arith, take_while-append-drop_while p xs)

  pub head_eq : {x y : A} {xs ys : List A} → x ∷ xs ≡ y ∷ ys → x ≡ y
  head_eq h = cc

  pub tail_eq : {x y : A} {xs ys : List A} → x ∷ xs ≡ y ∷ ys → xs ≡ ys
  tail_eq h = cc

  pub drop_while-head :
      (p : A → Bool) (xs : List A) {c : A} {rest : List A}
      → drop_while p xs ≡ c ∷ rest
      → p c ≡ false
  drop_while-head p [] h = cc
  drop_while-head p (x ∷ xs) {c} h = elim (Bool-cases (p x)) [
    | inl e ↦ drop_while-head p xs (rw e at h)
    | inr e ↦ subst (λ y. p y ≡ false) (head_eq (rw e at h)) e
  ]

  pub all-append :
      (p : A → Bool) (xs ys : List A) → all p xs ≡ true → all p ys ≡ true → all p (xs ++ ys) ≡ true
  all-append p [] ys h k = k
  all-append p (x ∷ xs) ys h k = ground (arith, all-append p xs ys)

  pub drop_while-all : (p : A → Bool) (xs : List A) → all p xs ≡ true → drop_while p xs ≡ []
  drop_while-all p [] h = refl
  drop_while-all p (x ∷ xs) h = ground (arith, drop_while-all p xs)

  pub all-take_while : (p : A → Bool) (xs : List A) → all p (take_while p xs) ≡ true
  all-take_while p [] = refl
  all-take_while p (x ∷ xs) = elim (Bool-cases (p x)) [
    | inl e ↦ rw e (rw e (all-take_while p xs))
    | inr e ↦ rw e
  ]

  pub length-drop_while : (p : A → Bool) (xs : List A) → length (drop_while p xs) ≤ length xs
  length-drop_while p [] = omega arith
  length-drop_while p (x ∷ xs) = elim (Bool-cases (p x)) [
    | inl e ↦ rw e (omega (arith, length-drop_while p xs))
    | inr e ↦ rw e (omega arith)
  ]

  pub take_while-append :
      (p : A → Bool) (xs ys : List A)
      → drop_while p ys ≡ ys
      → take_while p ys ≡ []
      → (take_while p (xs ++ ys) ≡ take_while p xs)
        × (drop_while p (xs ++ ys) ≡ drop_while p xs ++ ys)
  take_while-append p [] ys h k = (k, h)
  take_while-append p (x ∷ xs) ys h k = elim (Bool-cases (p x)) [
    | inl e ↦ let (i, j) = take_while-append p xs ys h k in rw e (ap (λ r. x ∷ r) i, j)
    | inr e ↦ rw e (refl, refl)
  ]

  pub take_while-all : (p : A → Bool) (xs : List A) → all p xs ≡ true → take_while p xs ≡ xs
  take_while-all p [] h = refl
  take_while-all p (x ∷ xs) h = ground (arith, take_while-all p xs)

  pub drop_while-append_nil :
      (p : A → Bool) (xs ys : List A)
      → drop_while p xs ≡ []
      → drop_while p (xs ++ ys) ≡ drop_while p ys
  drop_while-append_nil p [] ys h = refl
  drop_while-append_nil p (x ∷ xs) ys h = elim (Bool-cases (p x)) [
    | inl e ↦ rw e (drop_while-append_nil p xs ys (rw e at h))
    | inr e ↦ cc (rw e at h)
  ]

  pub drop_while-append_cons :
      (p : A → Bool) (xs ys : List A) {c : A} {rest : List A}
      → drop_while p xs ≡ c ∷ rest
      → drop_while p (xs ++ ys) ≡ c ∷ (rest ++ ys)
  drop_while-append_cons p [] ys h = cc h
  drop_while-append_cons p (x ∷ xs) ys h = elim (Bool-cases (p x)) [
    | inl e ↦ rw e (drop_while-append_cons p xs ys (rw e at h))
    | inr e ↦ rw e (ap (λ zs. zs ++ ys) (rw e at h))
  ]

  pub List-cases : (xs : List A) → (xs ≡ []) ⊎ ((x : A) × (rest : List A) × (xs ≡ x ∷ rest))
  List-cases [] = inl refl
  List-cases (x ∷ xs) = inr (x, xs, refl)
