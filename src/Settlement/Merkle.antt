-- ===== src/Settlement/Merkle.antt =====
-- src/internal/settlement/merkle.go: the Merkle tree over a batch's leaves. A digest is the list of
-- its bytes; SHA-256 is a parameter, a function on bytes.
pub mod Proofs
pub mod Binding
use openmodel_gateway.Prelude.{
  ℕ, zero, suc, ◌+◌, ◌-◌, ◌*◌, ◌/◌, ◌%◌, ◌≤◌, ◌<◌, ◌≡◌, refl, Bool, true, false, ◌&&◌, List, [],
  ◌∷◌, ◌++◌, length, nat_eq, Comparable, ◌==◌, if◌then◌else◌, ltb, leb, arith, ◌↔◌, Option, none,
  some,
}

abbrev pub Digest : Type 0
Digest = List ℕ

abbrev pub digest_beq : Digest → Digest → Bool
digest_beq [] [] = true
digest_beq [] (y ∷ ys) = false
digest_beq (x ∷ xs) [] = false
digest_beq (x ∷ xs) (y ∷ ys) = x == y && digest_beq xs ys

pub digest_beq_iff : (a b : Digest) → (digest_beq a b ≡ true) ↔ (a ≡ b)
digest_beq_iff [] [] = (λ e. refl, λ e. refl)
digest_beq_iff [] (y ∷ ys) = (λ e. cc, λ e. cc)
digest_beq_iff (x ∷ xs) [] = (λ e. cc, λ e. cc)
digest_beq_iff (x ∷ xs) (y ∷ ys) =
    let rest = digest_beq_iff xs ys in (λ e. ground (arith, rest.0), λ e. ground (arith, rest.1))

instance abbrev pub digest_eq : Comparable Digest
digest_eq = record { same = digest_beq; same_iff = digest_beq_iff }

abbrev zeros : ℕ → Digest
zeros zero = []
zeros (suc n) = 0 ∷ zeros n

abbrev pub zero_digest : Digest
zero_digest = zeros 32

-- `level[i]`, for an index in range.
abbrev pub digest_at : List Digest → ℕ → Digest
digest_at [] i = zero_digest
digest_at (x ∷ xs) zero = x
digest_at (x ∷ xs) (suc i) = digest_at xs i

-- `idx ^ 1`
abbrev pub flip_low_bit : ℕ → ℕ
flip_low_bit i = if i % 2 == 0 then i + 1 else i - 1

-- The index of the node that the node `i` of a level is hashed with; an odd one out has itself.
unfoldable pub sibling : ℕ → ℕ → ℕ
sibling len i = if leb len (flip_low_bit i) then i else flip_low_bit i

module _ (sha256 : List ℕ → Digest) where
  unfoldable pub hash_pair : Digest → Digest → Digest
  hash_pair a b = sha256 (a ++ b)

  unfoldable pub combined_details_hash : Digest → Digest → Digest
  combined_details_hash legacy root = sha256 (legacy ++ root)

  -- One round of the loop: `i` goes up by 2, and `j` is `i + 1`, or `i` at the end.
  unfoldable pub next_level : List Digest → List Digest
  next_level [] = []
  next_level (a ∷ []) = hash_pair a a ∷ []
  next_level (a ∷ b ∷ r) = hash_pair a b ∷ next_level r

  -- `for len(level) > 1`, on fuel; it ends by its test if the fuel is the number of leaves.
  unfoldable pub reduce : ℕ → List Digest → List Digest
  reduce zero level = level
  reduce (suc f) level =
      let rest = reduce f (next_level level) in if ltb 1 (length level) then rest else level

  unfoldable pub merkle_root : List Digest → Digest
  merkle_root leaves = digest_at (reduce (length leaves) leaves) 0

  unfoldable pub proof_loop : ℕ → List Digest → ℕ → List Digest
  proof_loop zero level i = []
  proof_loop (suc f) level i =
      let rest = proof_loop f (next_level level) (i / 2) in
      if ltb 1 (length level) then digest_at level (sibling (length level) i) ∷ rest else []

  -- An index out of range has no proof.
  unfoldable pub merkle_proof_for : List Digest → ℕ → List Digest
  merkle_proof_for leaves i =
      if ltb i (length leaves) then proof_loop (length leaves) leaves i else []

  unfoldable pub fold_up : Digest → ℕ → List Digest → Digest
  fold_up h i [] = h
  fold_up h i (s ∷ p) = fold_up (if i % 2 == 0 then hash_pair h s else hash_pair s h) (i / 2) p

  unfoldable pub verify_merkle_proof : Digest → ℕ → List Digest → Digest → Bool
  verify_merkle_proof leaf i proof root = fold_up leaf i proof == root
