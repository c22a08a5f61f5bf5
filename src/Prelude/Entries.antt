-- ===== src/Prelude/Entries.antt =====
-- Predicates on the entries of a map, and what its operations keep of them.
use mathlib.Core.Path.{◌≡◌, refl}
use mathlib.Core.Logic.{inl, inr}
use mathlib.Core.Bool.{false}
use mathlib.Core.Option.{none, some}
use mathlib.Core.List.{[], ◌∷◌, map}
use native.Mathlib.Omega.{arith}
use openmodel_gateway.Prelude.Tests.{Comparable, ◌==◌, Bool-cases, eq_refl}
use openmodel_gateway.Prelude.Maps.{Dict, lookup, insert, erase}

-- A predicate on the entries, as a tuple of one fact for each.
abbrev pub Entries {ℓ κ μ} : {K : Type ℓ} {V : Type κ} → (K → V → Type μ) → Dict K V → Type μ
Entries P [] = Unit
Entries P ((k, v) ∷ m) = P k v × Entries P m

module _ {ℓ κ} {K : Type ℓ} {V : Type κ} ⦃e : Comparable K⦄ where
  pub Entries-lookup {μ} :
      (P : K → V → Type μ) (k : K) {v : V} (m : Dict K V)
      → Entries P m
      → lookup k m ≡ some v
      → P k v
  Entries-lookup P k [] h p = cc
  Entries-lookup P k ((j, w) ∷ m) h p = elim (Bool-cases (j == k)) [
    | inl hit ↦ ground (arith, e.same_iff j k)
    | inr miss ↦ Entries-lookup P k m h.1 (ground arith)
  ]

  pub Entries-insert {μ} :
      (P : K → V → Type μ) (k : K) (v : V) (m : Dict K V)
      → Entries P m
      → P k v
      → Entries P (insert k v m)
  Entries-insert P k v [] h p = (p, tt)
  Entries-insert P k v ((j, w) ∷ m) h p = ground (arith, Entries-insert P k v m h.1 p)

  pub Entries-erase {μ} :
      (P : K → V → Type μ) (k : K) (m : Dict K V) → Entries P m → Entries P (erase k m)
  Entries-erase P k [] h = tt
  Entries-erase P k ((j, w) ∷ m) h = ground (arith, Entries-erase P k m h.1)

  -- No key stands twice.
  abbrev pub IsUnique : Dict K V → Type κ
  IsUnique [] = Unit
  IsUnique ((k, v) ∷ m) = (lookup k m ≡ none) × IsUnique m

  pub lookup-insert_ne :
      (k j : K) (v : V) (m : Dict K V) → (k == j) ≡ false → lookup j (insert k v m) ≡ lookup j m
  lookup-insert_ne k j v [] h = ground arith
  lookup-insert_ne k j v ((i, w) ∷ m) h =
      ground (arith, e.same_iff k j, e.same_iff i k, e.same_iff i j, lookup-insert_ne k j v m h)

  pub lookup-erase-none : (k j : K) (m : Dict K V) → lookup j m ≡ none → lookup j (erase k m) ≡ none
  lookup-erase-none k j [] h = refl
  lookup-erase-none k j ((i, w) ∷ m) h =
      ground (arith, e.same_iff i k, e.same_iff i j, lookup-erase-none k j m)

  pub insert-IsUnique : (k : K) (v : V) (m : Dict K V) → IsUnique m → IsUnique (insert k v m)
  insert-IsUnique k v [] h = (refl, tt)
  insert-IsUnique k v ((j, w) ∷ m) h =
      ground
        (arith, e.same_iff j k, e.same_iff k j, insert-IsUnique k v m h.1, lookup-insert_ne k j v m)

  pub erase-IsUnique : (k : K) (m : Dict K V) → IsUnique m → IsUnique (erase k m)
  erase-IsUnique k [] h = tt
  erase-IsUnique k ((j, w) ∷ m) h = ground (arith, erase-IsUnique k m h.1, lookup-erase-none k j m)

  -- The values seen through a function that a write does not change.
  pub map-insert_same {μ} :
      {B : Type μ} (f : V → B) (k : K) (old v : V) (m : Dict K V)
      → IsUnique m
      → lookup k m ≡ some old
      → f v ≡ f old
      → map (λ e. f e.1) (insert k v m) ≡ map (λ e. f e.1) m
  map-insert_same f k old v [] u h p = cc
  map-insert_same f k old v ((j, w) ∷ m) u h p = elim (Bool-cases (j == k)) [
    | inl hit ↦ ground (arith)
    | inr miss ↦ ground (arith, map-insert_same f k old v m u.1 (ground arith) p)
  ]

  -- A key that is new goes to the end.
  pub insert_fresh-lookup : (k : K) (v : V) (m : Dict K V) → lookup k (insert k v m) ≡ some v
  insert_fresh-lookup k v [] = ground (arith, eq_refl k)
  insert_fresh-lookup k v ((j, w) ∷ m) = ground (arith, eq_refl k, insert_fresh-lookup k v m)
