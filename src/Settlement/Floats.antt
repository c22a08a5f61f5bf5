-- ===== src/Settlement/Floats.antt =====
-- The operations of `big.Float` that the settlement uses. Its rounding is the library's own: the type
-- is a parameter, and what is proved of amounts in a token's smallest unit does not depend on it.
use openmodel_gateway.Prelude.{ℕ, zero, suc, ◌*◌, Bool}
use openmodel_gateway.Prelude.Int.{ℤ, pos}

pub record BigFloat : Type 1 where
  pub F : Type 0
  pub nought : F
  pub of_int : ℤ → F
  -- `Int(nil)`: towards zero.
  pub to_int : F → ℤ
  pub add : F → F → F
  pub sub : F → F → F
  pub mul : F → F → F
  pub quo : F → F → F
  -- `Sign() > 0` and `Sign() < 0`
  pub is_positive : F → Bool
  pub is_negative : F → Bool
  -- `Cmp(b) < 0`
  pub less : F → F → Bool
  -- `NewFloat(1e-12)`
  pub dust : F

abbrev pub pow10 : ℕ → ℕ
pow10 zero = 1
pow10 (suc n) = pow10 n * 10

module _ (b : BigFloat) where
  open b use {F, of_int, to_int, mul, quo}

  unfoldable pub float_to_wei : F → ℕ → ℤ
  float_to_wei f decimals = to_int (mul f (of_int (pos (pow10 decimals))))

  unfoldable pub wei_to_float : ℤ → ℕ → F
  wei_to_float wei decimals = quo (of_int wei) (of_int (pos (pow10 decimals)))
