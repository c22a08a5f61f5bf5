-- ===== src/Settlement/Scanner/Lines.antt =====
-- src/internal/settlement/scanner.go: how a text falls into lines.
use openmodel_gateway.Prelude.{
  ℕ, zero, suc, ◌≡◌, refl, Bool, true, false, List, [], ◌∷◌, ◌++◌, ◌==◌, nat_eq, drop, allb,
  contains, arith, if-holds,
}
use openmodel_gateway.Settlement.Scanner.{lines, newline, is_short}

-- A text of whole lines: nothing, or its last byte is a newline.
unfoldable pub is_whole : List ℕ → Bool
is_whole [] = true
is_whole (x ∷ []) = x == newline
is_whole (x ∷ y ∷ ys) = is_whole (y ∷ ys)

unfoldable pub are_short : List ℕ → Bool
are_short xs = allb is_short (lines xs)

is_whole_tail : (x : ℕ) (xs : List ℕ) → is_whole (x ∷ xs) ≡ true → is_whole xs ≡ true
unfolding is_whole
is_whole_tail x [] h = refl
is_whole_tail x (y ∷ ys) h = h

pub is_whole-drop : (n : ℕ) (xs : List ℕ) → is_whole xs ≡ true → is_whole (drop n xs) ≡ true
unfolding is_whole
is_whole-drop zero xs h = h
is_whole-drop (suc n) [] h = refl
is_whole-drop (suc n) (x ∷ xs) h = is_whole-drop n xs (is_whole_tail x xs h)

pub is_whole_end : (xs : List ℕ) → is_whole (xs ++ newline ∷ []) ≡ true
unfolding is_whole
is_whole_end [] = refl
is_whole_end (x ∷ []) = refl
is_whole_end (x ∷ y ∷ ys) = is_whole_end (y ∷ ys)

lines_cons : (x : ℕ) (xs : List ℕ) → (l : List ℕ) × (ls : List (List ℕ)) × (lines (x ∷ xs) ≡ l ∷ ls)
unfolding lines
lines_cons x xs =
    if-holds {A = List (List ℕ)} (λ r. (l : List ℕ) × (ls : List (List ℕ)) × (r ≡ l ∷ ls))
      (x == newline) (λ yes. ([], lines xs, refl))
      (λ no.
        elim (lines xs)
          as (λ r.
            (l : List ℕ) × (ls : List (List ℕ)) × (elim r as (λ _. List (List ℕ)) [
              | [] ↦ (x ∷ []) ∷ []
              | l ∷ ls ↦ (x ∷ l) ∷ ls
            ]
              ≡ l ∷ ls)) [ [] ↦ (x ∷ [], [], refl) | l ∷ ls ↦ (x ∷ l, ls, refl) ])

-- Whole lines before a text are lines before its lines.
pub lines_append : (xs ys : List ℕ) → is_whole xs ≡ true → lines (xs ++ ys) ≡ lines xs ++ lines ys
unfolding lines is_whole
lines_append [] ys h = refl
lines_append (x ∷ []) ys h = ground (arith, nat_eq.same_iff x newline)
lines_append (x ∷ y ∷ zs) ys h = ground (arith, lines_append (y ∷ zs) ys h, lines_cons y zs)

-- A line without a newline in it, with one after it, is read back.
pub lines_line : (l : List ℕ) → contains newline l ≡ false → lines (l ++ newline ∷ []) ≡ l ∷ []
unfolding lines
lines_line [] h = refl
lines_line (x ∷ xs) h = ground (arith, lines_line xs)

are_short_tail : (x : ℕ) (xs : List ℕ) → are_short (x ∷ xs) ≡ true → are_short xs ≡ true
unfolding are_short lines
are_short_tail x [] h = refl
are_short_tail x (y ∷ ys) h = ground (arith, lines_cons y ys)

-- What is left of short lines is short.
pub are_short-drop : (n : ℕ) (xs : List ℕ) → are_short xs ≡ true → are_short (drop n xs) ≡ true
unfolding are_short lines
are_short-drop zero xs h = h
are_short-drop (suc n) [] h = refl
are_short-drop (suc n) (x ∷ xs) h = are_short-drop n xs (are_short_tail x xs h)
