-- ===== src/Prelude/Maps.antt =====
-- Go maps as association lists. A write replaces the entry of its key in place, a delete drops every
-- entry of the key; the order of the list stands for one order of iteration.
use mathlib.Core.Path.{◌≡◌, refl}
use mathlib.Core.Option.{Option, none, some}
use mathlib.Core.List.{List, [], ◌∷◌}
use native.Mathlib.Omega.{arith}
use openmodel_gateway.Prelude.Tests.{Comparable, ◌==◌, if◌then◌else◌}

abbrev pub Dict {ℓ κ} : Type ℓ → Type κ → Type (ℓ ⊔ κ)
Dict K V = List (K × V)

module _ {ℓ κ} {K : Type ℓ} {V : Type κ} ⦃c : Comparable K⦄ where
  abbrev pub insert : K → V → Dict K V → Dict K V
  insert key value [] = (key, value) ∷ []
  insert key value ((k, v) ∷ rest) =
      if k == key then (key, value) ∷ rest else (k, v) ∷ insert key value rest

  abbrev pub lookup : K → Dict K V → Option V
  lookup key [] = none
  lookup key ((k, v) ∷ rest) = if k == key then some v else lookup key rest

  abbrev pub erase : K → Dict K V → Dict K V
  erase key [] = []
  erase key ((k, v) ∷ rest) = if k == key then erase key rest else (k, v) ∷ erase key rest

  -- A write to the value that is there, if any.
  abbrev pub update : K → (V → V) → Dict K V → Dict K V
  update key f [] = []
  update key f ((k, v) ∷ rest) = if k == key then (k, f v) ∷ rest else (k, v) ∷ update key f rest

  pub lookup-insert :
      (key other : K) (value : V) (m : Dict K V)
      → lookup other (insert key value m) ≡ (if key == other then some value else lookup other m)
  lookup-insert key other value [] = refl
  lookup-insert key other value ((k, v) ∷ rest) = ground (
    arith,
    c.same_iff k key,
    c.same_iff k other,
    c.same_iff key other,
    lookup-insert key other value rest,
  )

  pub lookup-erase :
      (key other : K) (m : Dict K V)
      → lookup other (erase key m) ≡ (if key == other then none else lookup other m)
  lookup-erase key other [] = ground arith
  lookup-erase key other ((k, v) ∷ rest) = ground (
    arith,
    c.same_iff k key,
    c.same_iff k other,
    c.same_iff key other,
    lookup-erase key other rest,
  )
