-- ===== src/Indexer/Chunks.antt =====
-- The chunks of `insert_batch` of crates/core/src/indexer.rs: `slice::chunks` on fuel, which the length of
-- the slice is enough of.
use logdive.Prelude.{◌++◌, ◌<◌, List, [], ap, arith, length, refl, suc, zero, ℕ, ◌∙◌, ◌∷◌, ◌≡◌, ◌≤◌}

abbrev pub batch_size : ℕ
batch_size = 1000

module _ {A : Type 0} where
  abbrev pub take : ℕ → List A → List A
  take zero xs = []
  take (suc n) [] = []
  take (suc n) (x ∷ xs) = x ∷ take n xs

  abbrev pub drop : ℕ → List A → List A
  drop zero xs = xs
  drop (suc n) [] = []
  drop (suc n) (x ∷ xs) = drop n xs

  unfoldable pub chunks_on : ℕ → ℕ → List A → List (List A)
  chunks_on zero size xs = []
  chunks_on (suc fuel) size [] = []
  chunks_on (suc fuel) size (x ∷ xs) = take size (x ∷ xs) ∷ chunks_on fuel size (drop size (x ∷ xs))

  unfoldable pub chunks : ℕ → List A → List (List A)
  unfolding chunks_on
  chunks size xs = chunks_on (length xs) size xs

  abbrev pub concat : List (List A) → List A
  concat [] = []
  concat (xs ∷ xss) = xs ++ concat xss

  pub take-append-drop : (n : ℕ) (xs : List A) → take n xs ++ drop n xs ≡ xs
  take-append-drop zero xs = refl
  take-append-drop (suc n) [] = refl
  take-append-drop (suc n) (x ∷ xs) = ap (λ ys. x ∷ ys) (take-append-drop n xs)

  pub length-drop : (n : ℕ) (xs : List A) → length (drop n xs) ≤ length xs
  length-drop zero xs = omega arith
  length-drop (suc n) [] = omega arith
  length-drop (suc n) (x ∷ xs) = omega (arith, length-drop n xs)

  concat-chunks_on :
      (fuel size : ℕ) (xs : List A) → length xs ≤ fuel → concat (chunks_on fuel (suc size) xs) ≡ xs
  unfolding chunks_on
  concat-chunks_on zero size [] h = refl
  concat-chunks_on zero size (x ∷ xs) h = absurd (omega arith)
  concat-chunks_on (suc fuel) size [] h = refl
  concat-chunks_on (suc fuel) size (x ∷ xs) h =
      ap (λ ys. x ∷ (take size xs ++ ys))
        (concat-chunks_on fuel size (drop size xs) (omega (arith, length-drop size xs)))
      ∙ ap (λ ys. x ∷ ys) (take-append-drop size xs)

  -- The chunks of a list are the list.
  pub concat-chunks : (size : ℕ) (xs : List A) → 0 < size → concat (chunks size xs) ≡ xs
  unfolding chunks
  concat-chunks zero xs h = absurd (omega arith)
  concat-chunks (suc size) xs h = concat-chunks_on (length xs) size xs (omega arith)
