-- ===== src/Settlement/Settler/Batches.antt =====
-- src/internal/settlement/settler.go: what `splitBatches` gives.
use openmodel_gateway.Prelude.{
  ℕ, zero, suc, ◌≤◌, ◌≡◌, refl, ap, ◌∙◌, List, [], ◌∷◌, ◌++◌, if◌then◌else◌, if-holds, leb, ◌==◌,
  nat_eq, length, take, drop, All, arith,
}
use mathlib.Core.List.{append-nil}
use openmodel_gateway.Prelude.Int.{ℤ, pos_part, is_pos}
use openmodel_gateway.Settlement.Settler.{split_loop, split_batches}

abbrev pub size_of : ℤ → ℕ
size_of max_size = if is_pos max_size then pos_part max_size else 50

module _ {ℓ} {A : Type ℓ} where
  abbrev pub concat : List (List A) → List A
  concat [] = []
  concat (xs ∷ xss) = xs ++ concat xss

  take-drop : (n : ℕ) (xs : List A) → take n xs ++ drop n xs ≡ xs
  take-drop zero xs = refl
  take-drop (suc n) [] = refl
  take-drop (suc n) (x ∷ xs) = ap (λ ys. x ∷ ys) (take-drop n xs)

  length-drop : (n : ℕ) (xs : List A) → length (drop n xs) ≤ length xs
  length-drop zero xs = omega arith
  length-drop (suc n) [] = omega arith
  length-drop (suc n) (x ∷ xs) = omega (arith, length-drop n xs)

  length-take : (n : ℕ) (xs : List A) → length (take n xs) ≤ n
  length-take zero xs = omega arith
  length-take (suc n) [] = omega arith
  length-take (suc n) (x ∷ xs) = omega (arith, length-take n xs)

  -- A batch that the contract takes: not empty, and not above the size.
  abbrev pub IsSized : ℕ → List A → Type 0
  IsSized size xs = (1 ≤ length xs) × (length xs ≤ size)

  split_loop-concat :
      (fuel n : ℕ) (items : List A)
      → length items ≤ fuel
      → concat (split_loop fuel (suc n) items) ≡ items
  unfolding split_loop
  split_loop-concat zero n [] h = refl
  split_loop-concat zero n (x ∷ xs) h = ground arith
  split_loop-concat (suc fuel) n [] h = refl
  split_loop-concat (suc fuel) n (x ∷ xs) h =
      ap (λ ys. x ∷ take n xs ++ ys)
        (split_loop-concat fuel n (drop n xs) (omega (arith, length-drop n xs)))
      ∙ ap (λ ys. x ∷ ys) (take-drop n xs)

  split_loop-IsSized :
      (fuel n : ℕ) (items : List A) → All (IsSized (suc n)) (split_loop fuel (suc n) items)
  unfolding split_loop
  split_loop-IsSized zero n items = tt
  split_loop-IsSized (suc fuel) n [] = tt
  split_loop-IsSized (suc fuel) n (x ∷ xs) =
      ((omega arith, omega (arith, length-take n xs)), split_loop-IsSized fuel n (drop n xs))

  abbrev IsPartition : ℕ → List A → List (List A) → Type ℓ
  IsPartition size items bs = (concat bs ≡ items) × All (IsSized size) bs

  split_batches-IsPartition :
      (items : List A) (size : ℕ)
      → 1 ≤ size
      → IsPartition size items (
          if length items == 0
          then []
          else if leb (length items) size
          then items ∷ []
          else split_loop (length items) size items)
  split_batches-IsPartition [] size h = (refl, tt)
  split_batches-IsPartition (x ∷ xs) zero h = ground arith
  split_batches-IsPartition (x ∷ xs) (suc n) h =
      if-holds (IsPartition (suc n) (x ∷ xs)) (length (x ∷ xs) == 0) (λ empty. ground arith)
        (λ some_items.
          if-holds (IsPartition (suc n) (x ∷ xs)) (leb (suc (length xs)) (suc n))
            (λ fits. (ap (λ ys. x ∷ ys) (append-nil xs), ((omega arith, ground arith), tt)))
            (λ long. (
              split_loop-concat (suc (length xs)) n (x ∷ xs) (omega arith),
              split_loop-IsSized (suc (length xs)) n (x ∷ xs),
            )))

  -- The batches are the items in order, none is empty, and none is above the size; no items give no
  -- batch.
  pub split_batches_complete :
      (items : List A) (max_size : ℤ)
      → (concat (split_batches items max_size) ≡ items)
        × All (IsSized (size_of max_size)) (split_batches items max_size)
  unfolding split_batches
  split_batches_complete items max_size =
      split_batches-IsPartition items (size_of max_size) (ground arith)
