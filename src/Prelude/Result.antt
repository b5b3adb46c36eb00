-- ===== src/Prelude/Result.antt =====
-- Results of fallible code. A loop on fuel may also run out of it, which is no result of the
-- program's: the theorems exclude it.
use mathlib.Core.Path.{◌≡◌, refl, subst}
use mathlib.Core.Bool.{Bool, true, false}
use logdive.Prelude.Tests.{if◌then◌else◌}

pub data Result (E : Type 0) (A : Type 0) : Type 0 where
  ok : A → Result E A
  err : E → Result E A
  out_of_fuel : Result E A

module _ {E A B : Type 0} where
  infixl 5 ◌>>=◌ ◌>>◌
  abbrev pub ◌>>=◌ : Result E A → (A → Result E B) → Result E B
  ok a >>= f = f a
  err e >>= f = err e
  out_of_fuel >>= f = out_of_fuel

  abbrev pub ◌>>◌ : Result E A → Result E B → Result E B
  m >> k = m >>= λ _. k

-- What a result ensures: the loop had enough fuel, an error satisfies `Q`, a value satisfies `P`.
pub data Ensures {E A : Type 0} (Q : E → Type 0) (P : A → Type 0) : Result E A → Type 0 where
  holds : {a : A} → P a → Ensures Q P (ok a)
  fails : {e : E} → Q e → Ensures Q P (err e)

module _ {E A : Type 0} {Q : E → Type 0} {P : A → Type 0} where
  pub Ensures-if :
      (b : Bool) {m n : Result E A}
      → (b ≡ true → Ensures Q P m)
      → (b ≡ false → Ensures Q P n)
      → Ensures Q P (if b then m else n)
  Ensures-if true hm hn = hm refl
  Ensures-if false hm hn = hn refl

module _ {E A B : Type 0} {Q : E → Type 0} {P : A → Type 0} {R : B → Type 0} where
  pub Ensures-bind :
      {m : Result E A} {f : A → Result E B}
      → Ensures Q P m
      → ((a : A) → P a → Ensures Q R (f a))
      → Ensures Q R (m >>= f)
  Ensures-bind (holds {a} h) k = k a h
  Ensures-bind (fails h) k = fails h

module _ {E A : Type 0} {Q : E → Type 0} {P : A → Type 0} where
  pub Ensures-eq_ok : {r : Result E A} {a : A} → Ensures Q P r → r ≡ ok a → P a
  Ensures-eq_ok (holds h) e = subst P (cc e) h
  Ensures-eq_ok (fails h) e = cc e

  pub Ensures-eq_err : {r : Result E A} {e : E} → Ensures Q P r → r ≡ err e → Q e
  Ensures-eq_err (holds h) p = cc p
  Ensures-eq_err (fails h) p = subst Q (cc p) h

  pub Ensures-ne_out_of_fuel : {r : Result E A} → Ensures Q P r → r ≡ out_of_fuel → ⊥
  Ensures-ne_out_of_fuel (holds h) p = cc p
  Ensures-ne_out_of_fuel (fails h) p = cc p

module _ {E A : Type 0} {Q : E → Type 0} {P R : A → Type 0} where
  pub Ensures-map : {m : Result E A} → Ensures Q P m → ((a : A) → P a → R a) → Ensures Q R m
  Ensures-map (holds {a} h) k = holds (k a h)
  Ensures-map (fails h) k = fails h

module _ {E A : Type 0} {Q S : E → Type 0} {P R : A → Type 0} where
  pub Ensures-weaken :
      {m : Result E A}
      → Ensures Q P m
      → ((e : E) → Q e → S e)
      → ((a : A) → P a → R a)
      → Ensures S R m
  Ensures-weaken (holds {a} h) j k = holds (k a h)
  Ensures-weaken (fails {e} h) j k = fails (j e h)

module _ {E A : Type 0} {Q : E → Type 0} where
  -- What a result ensures of itself.
  pub Ensures-self :
      (r : Result E A)
      → ((e : E) → r ≡ err e → Q e)
      → (r ≡ out_of_fuel → ⊥)
      → Ensures Q (λ a. r ≡ ok a) r
  Ensures-self (ok a) errors fuel = holds refl
  Ensures-self (err e) errors fuel = fails (errors e refl)
  Ensures-self out_of_fuel errors fuel = absurd (fuel refl)

module _ {E A B : Type 0} {Q : E → Type 0} {P : A → Type 0} where
  -- What follows a result only matters on the values that the result can have.
  pub bind-congr :
      {m : Result E A} {f g : A → Result E B}
      → Ensures Q P m
      → ((a : A) → P a → f a ≡ g a)
      → (m >>= f) ≡ (m >>= g)
  bind-congr (holds {a} h) k = k a h
  bind-congr (fails h) k = refl

module _ {E A B : Type 0} where
  -- The value behind a step that went well.
  pub bind-ok :
      (m : Result E A) {f : A → Result E B} {b : B}
      → (m >>= f) ≡ ok b
      → (a : A) × (m ≡ ok a) × (f a ≡ ok b)
  bind-ok m {f} {b} h =
      elim m as (λ r. (r >>= f) ≡ ok b → (a : A) × (r ≡ ok a) × (f a ≡ ok b)) [
        | ok a ↦ λ e. (a, refl, e)
        | err x ↦ λ e. cc e
        | out_of_fuel ↦ λ e. cc e
      ]
        h

module _ {E A : Type 0} where
  pub ok_eq : {a b : A} → ◌≡◌ {A = Result E A} (ok a) (ok b) → a ≡ b
  ok_eq h = cc
