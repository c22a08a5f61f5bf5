-- ===== src/Settlement/Merkle/Proofs.antt =====
-- A proof that the gateway serves is accepted.
use openmodel_gateway.Prelude.{
  ℕ, zero, suc, ◌+◌, ◌/◌, ◌%◌, ◌≤◌, ◌<◌, ◌≡◌, refl, sym, ap, ◌∙◌, true, List, [], ◌∷◌, length,
  nat_eq, ◌==◌, if◌then◌else◌, ltb, arith, Bool-cases, inl, inr,
}
use openmodel_gateway.Settlement.Merkle.{
  Digest, digest_eq, digest_at, sibling, hash_pair, next_level, reduce, merkle_root, proof_loop,
  merkle_proof_for, fold_up, verify_merkle_proof,
}

module _ (sha256 : List ℕ → Digest) where
  pub length-next_level : (l : List Digest) → length (next_level sha256 l) ≡ (length l + 1) / 2
  unfolding next_level
  length-next_level [] = refl
  length-next_level (a ∷ []) = refl
  length-next_level (a ∷ b ∷ r) = omega (arith, length-next_level r)

  -- The rounds end with one node, or with none if there are no leaves.
  pub length-reduce : (f : ℕ) (l : List Digest) → length l ≤ f → length (reduce sha256 f l) ≤ 1
  unfolding reduce
  length-reduce zero l h = omega arith
  length-reduce (suc f) l h =
      ground (arith, length-reduce f (next_level sha256 l), length-next_level l)

  -- The hash of a node with its sibling, in their order, as `fold_up` forms it.
  abbrev pub parent : ℕ → Digest → Digest → Digest
  parent i h s = if i % 2 == 0 then hash_pair sha256 h s else hash_pair sha256 s h

  sibling_shift : (n i : ℕ) → sibling (suc (suc n)) (suc (suc i)) ≡ suc (suc (sibling n i))
  unfolding sibling
  sibling_shift n i = ground arith

  parent_shift : (i : ℕ) (h s : Digest) → parent (suc (suc i)) h s ≡ parent i h s
  parent_shift i h s = ground arith

  -- A node's parent on the next level.
  pub digest_at-next_level :
      (l : List Digest) (i : ℕ)
      → i < length l
      → digest_at (next_level sha256 l) (i / 2)
        ≡ parent i (digest_at l i) (digest_at l (sibling (length l) i))
  unfolding next_level
  digest_at-next_level [] i h = absurd (omega arith)
  digest_at-next_level (a ∷ []) zero h = unfold sibling in refl
  digest_at-next_level (a ∷ []) (suc i) h = absurd (omega arith)
  digest_at-next_level (a ∷ b ∷ r) zero h = unfold sibling in ground arith
  digest_at-next_level (a ∷ b ∷ r) (suc zero) h = unfold sibling in ground arith
  digest_at-next_level (a ∷ b ∷ r) (suc (suc i)) h =
      let half : suc (suc i) / 2 ≡ suc (i / 2) = omega arith in
      rw (half, sibling_shift (length r) i, parent_shift i) (digest_at-next_level r i (omega arith))

  -- Folding the proof of a leaf up from it ends at the last node of the rounds.
  pub fold_up-proof_loop :
      (f : ℕ) (l : List Digest) (i : ℕ)
      → i < length l
      → length l ≤ f
      → fold_up sha256 (digest_at l i) i (proof_loop sha256 f l i) ≡ digest_at (reduce sha256 f l) 0
  unfolding fold_up proof_loop reduce
  fold_up-proof_loop zero l i h k = absurd (omega arith)
  fold_up-proof_loop (suc f) l i h k = elim (Bool-cases (ltb 1 (length l))) [
    | inl more ↦
        let up = length-next_level l in
        rw more (
          ap (λ d. fold_up sha256 d (i / 2) (proof_loop sha256 f (next_level sha256 l) (i / 2)))
            (sym (digest_at-next_level l i h))
          ∙ fold_up-proof_loop f (next_level sha256 l) (i / 2) (ground arith) (ground arith))
    | inr last ↦ let e : i ≡ 0 = ground arith in rw (last, e) refl
  ]

  -- The proof of any leaf of a batch is accepted for its place and the batch's root.
  pub verify-merkle_proof_for :
      (leaves : List Digest) (i : ℕ)
      → i < length leaves
      → verify_merkle_proof sha256
          (digest_at leaves i)
          i
          (merkle_proof_for sha256 leaves i)
          (merkle_root sha256 leaves)
        ≡ true
  unfolding verify_merkle_proof merkle_proof_for merkle_root
  verify-merkle_proof_for leaves i h = ground (
    arith,
    fold_up-proof_loop (length leaves) leaves i h,
    digest_eq.same_iff
        (fold_up sha256 (digest_at leaves i) i (proof_loop sha256 (length leaves) leaves i))
        (digest_at (reduce sha256 (length leaves) leaves) 0),
  )
