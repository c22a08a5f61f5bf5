-- ===== src/Prelude/Int.antt =====
-- Signed integers over the native numbers, under the library's names.
use Prim.Native.Nat.{ℕ, suc, ◌+◌, ◌-◌, ◌*◌, ◌%◌, ◌^◌, ◌≤◌}
use mathlib.Core.Path.{◌≡◌}
use mathlib.Core.Bool.{Bool}
use native.Mathlib.Omega.{arith}
use openmodel_gateway.Prelude.Tests.{ltb, leb, if◌then◌else◌}

-- `negsuc n` is -(n + 1).
pub data ℤ : Type 0 where
  pos : ℕ → ℤ
  negsuc : ℕ → ℤ

abbrev pub pos_part : ℤ → ℕ
pos_part (pos n) = n
pos_part (negsuc n) = 0

abbrev pub neg_part : ℤ → ℕ
neg_part (pos n) = 0
neg_part (negsuc n) = suc n

abbrev pub sub_ℕ : ℕ → ℕ → ℤ
sub_ℕ a b = if leb b a then pos (a - b) else negsuc (b - a - 1)

infixl 65 ◌+ℤ◌ ◌-ℤ◌
infixl 70 ◌*ℤ◌
infix 50 ◌≤ℤ◌
unfoldable pub ◌+ℤ◌ : ℤ → ℤ → ℤ
a +ℤ b = sub_ℕ (pos_part a + pos_part b) (neg_part a + neg_part b)

unfoldable pub ◌-ℤ◌ : ℤ → ℤ → ℤ
a -ℤ b = sub_ℕ (pos_part a + neg_part b) (neg_part a + pos_part b)

unfoldable pub ◌*ℤ◌ : ℤ → ℤ → ℤ
a *ℤ b =
    sub_ℕ (pos_part a * pos_part b + neg_part a * neg_part b)
      (pos_part a * neg_part b + neg_part a * pos_part b)

abbrev pub ◌≤ℤ◌ : ℤ → ℤ → Type 0
a ≤ℤ b = pos_part a + neg_part b ≤ pos_part b + neg_part a

abbrev pub ltb_ℤ : ℤ → ℤ → Bool
ltb_ℤ a b = ltb (pos_part a + neg_part b) (pos_part b + neg_part a)

abbrev pub leb_ℤ : ℤ → ℤ → Bool
leb_ℤ a b = leb (pos_part a + neg_part b) (pos_part b + neg_part a)

-- A result of `int64` arithmetic, which wraps around.
unfoldable pub wrap_64 : ℤ → ℤ
wrap_64 (pos n) = let u = n % 2 ^ 64 in if ltb u (2 ^ 63) then pos u else sub_ℕ u (2 ^ 64)
wrap_64 (negsuc n) = let u = n % 2 ^ 64 in if ltb u (2 ^ 63) then negsuc u else pos (2 ^ 64 - 1 - u)

-- `x > 0` on an `int`.
abbrev pub is_pos : ℤ → Bool
is_pos a = ltb 0 (pos_part a)

pub +ℤ_parts :
    (a b : ℤ)
    → pos_part (a +ℤ b) + neg_part a + neg_part b ≡ neg_part (a +ℤ b) + pos_part a + pos_part b
unfolding ◌+ℤ◌
+ℤ_parts a b = ground arith

pub -ℤ_parts :
    (a b : ℤ)
    → pos_part (a -ℤ b) + neg_part a + pos_part b ≡ neg_part (a -ℤ b) + pos_part a + neg_part b
unfolding ◌-ℤ◌
-ℤ_parts a b = ground arith

pub eq_of_parts : (a b : ℤ) → pos_part a + neg_part b ≡ pos_part b + neg_part a → a ≡ b
eq_of_parts a b h = ground arith

pub ruleset int_laws = (arith, +ℤ_parts, -ℤ_parts, eq_of_parts)

pub +ℤ_assoc : (a b c : ℤ) → (a +ℤ b) +ℤ c ≡ a +ℤ (b +ℤ c)
+ℤ_assoc a b c = grind int_laws

pub +ℤ_zero : (a : ℤ) → a +ℤ pos 0 ≡ a
+ℤ_zero a = grind int_laws

pub zero_+ℤ : (a : ℤ) → pos 0 +ℤ a ≡ a
zero_+ℤ a = grind int_laws

-- What is moved from one side to the other.
pub +ℤ_move : (a c x : ℤ) → (a -ℤ x) +ℤ (c +ℤ x) ≡ a +ℤ c
+ℤ_move a c x = grind int_laws

pub -ℤ_nonneg : (a x : ℤ) → x ≤ℤ a → pos 0 ≤ℤ a -ℤ x
-ℤ_nonneg a x h = grind int_laws

pub +ℤ_swap : (a b c : ℤ) → a +ℤ (b +ℤ c) ≡ (a +ℤ c) +ℤ b
+ℤ_swap a b c = grind int_laws

pub +ℤ_rotate : (a b c : ℤ) → (a +ℤ b) +ℤ c ≡ (c +ℤ b) +ℤ a
+ℤ_rotate a b c = grind int_laws

-- A sum that is changed under another term.
pub +ℤ_under : (w a h b v : ℤ) → a +ℤ h ≡ b +ℤ v → (w +ℤ a) +ℤ h ≡ (w +ℤ b) +ℤ v
+ℤ_under w a h b v e = grind int_laws

pub +ℤ_cancel : (a h b x : ℤ) → a +ℤ h ≡ b +ℤ (h +ℤ x) → a ≡ b +ℤ x
+ℤ_cancel a h b x e = grind int_laws
