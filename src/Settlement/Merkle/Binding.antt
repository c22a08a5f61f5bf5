-- ===== src/Settlement/Merkle/Binding.antt =====
-- What an accepted proof says of a leaf: another leaf can only be passed off with a collision of the
-- hash.
use openmodel_gateway.Prelude.{
  ℕ, zero, suc, ◌/◌, ◌%◌, ◌<◌, ◌≡◌, ◌≢◌, refl, sym, ◌∙◌, ◌⊎◌, inl, inr, true, List, [], ◌∷◌, ◌++◌,
  length, nat_eq, ◌==◌, arith, Bool-cases, All,
}
use openmodel_gateway.Settlement.Merkle.{
  Digest, digest_eq, digest_at, hash_pair, merkle_root, merkle_proof_for, fold_up, next_level,
  proof_loop, sibling, verify_merkle_proof, combined_details_hash,
}
use openmodel_gateway.Settlement.Merkle.Proofs.{parent, verify-merkle_proof_for}

abbrev pub IsDigest : Digest → Type 0
IsDigest d = length d ≡ 32

append_split : (a b c d : Digest) → length a ≡ length b → a ++ c ≡ b ++ d → (a ≡ b) × (c ≡ d)
append_split [] [] c d e h = (refl, h)
append_split [] (y ∷ b) c d e h = absurd (omega arith)
append_split (x ∷ a) [] c d e h = absurd (omega arith)
append_split (x ∷ a) (y ∷ b) c d e h =
    let rest = append_split a b c d (omega arith) (cc) in ground (arith, rest)

-- Two texts that the hash does not tell apart.
pub record Collision (sha256 : List ℕ → Digest) : Type 0 where
  pub one : List ℕ
  pub other : List ℕ
  pub distinct : one ≢ other
  pub same_hash : sha256 one ≡ sha256 other

module _ (sha256 : List ℕ → Digest) (sized : (x : List ℕ) → IsDigest (sha256 x)) where
  -- Equal hashes come from equal texts, or there is a collision.
  pub hash_cases : (x y : List ℕ) → sha256 x ≡ sha256 y → (x ≡ y) ⊎ Collision sha256
  hash_cases x y e = elim (Bool-cases (x == y)) [
    | inl same ↦ inl ((digest_eq.same_iff x y).0 same)
    | inr differ ↦ inr (record {
      one = x;
      other = y;
      distinct = λ p. cc ((digest_eq.same_iff x y).1 p);
      same_hash = e;
    })
  ]

  pub concat_cases :
      (a b c d : Digest)
      → IsDigest a
      → IsDigest b
      → sha256 (a ++ c) ≡ sha256 (b ++ d)
      → ((a ≡ b) × (c ≡ d)) ⊎ Collision sha256
  concat_cases a b c d p q e = elim (hash_cases (a ++ c) (b ++ d) e) [
    | inl same ↦ inl (append_split a b c d (p ∙ sym q) same)
    | inr clash ↦ inr clash
  ]

  parent-IsDigest : (i : ℕ) (h s : Digest) → IsDigest (parent sha256 i h s)
  unfolding hash_pair
  parent-IsDigest i h s = ground (arith, sized (h ++ s), sized (s ++ h))

  parent_cases :
      (i : ℕ) (h h' s s' : Digest)
      → IsDigest h
      → IsDigest h'
      → IsDigest s
      → IsDigest s'
      → parent sha256 i h s ≡ parent sha256 i h' s'
      → ((h ≡ h') × (s ≡ s')) ⊎ Collision sha256
  unfolding hash_pair
  parent_cases i h h' s s' p p' q q' e = elim (Bool-cases (i % 2 == 0)) [
    | inl even ↦ concat_cases h h' s s' p p' (rw even at e)
    | inr odd ↦ elim (concat_cases s s' h h' q q' (rw odd at e)) [
      | inl same ↦ inl (same.1, same.0)
      | inr clash ↦ inr clash
    ]
  ]

  -- Two leaves whose proofs of one length lead to one root are one leaf.
  fold_up_cases :
      (i : ℕ) (h h' : Digest) (p p' : List Digest)
      → IsDigest h
      → IsDigest h'
      → All IsDigest p
      → All IsDigest p'
      → length p ≡ length p'
      → fold_up sha256 h i p ≡ fold_up sha256 h' i p'
      → ((h ≡ h') × (p ≡ p')) ⊎ Collision sha256
  unfolding fold_up
  fold_up_cases i h h' [] [] d d' q q' n e = inl (e, refl)
  fold_up_cases i h h' [] (s' ∷ p') d d' q q' n e = absurd (omega arith)
  fold_up_cases i h h' (s ∷ p) [] d d' q q' n e = absurd (omega arith)
  fold_up_cases i h h' (s ∷ p) (s' ∷ p') d d' q q' n e =
      elim (fold_up_cases (i / 2) (parent sha256 i h s) (parent sha256 i h' s') p p'
        (parent-IsDigest i h s) (parent-IsDigest i h' s') q.1 q'.1 (omega arith) e) [
          | inl same ↦ elim (parent_cases i h h' s s' d d' q.0 q'.0 same.0) [
            | inl equal ↦ inl (equal.0, ground arith)
            | inr clash ↦ inr clash
          ]
          | inr clash ↦ inr clash
        ]

  digest_at-IsDigest : (l : List Digest) (i : ℕ) → All IsDigest l → IsDigest (digest_at l i)
  digest_at-IsDigest [] i h = refl
  digest_at-IsDigest (x ∷ l) zero h = h.0
  digest_at-IsDigest (x ∷ l) (suc i) h = digest_at-IsDigest l i h.1

  next_level-IsDigest : (l : List Digest) → All IsDigest (next_level sha256 l)
  unfolding next_level hash_pair
  next_level-IsDigest [] = tt
  next_level-IsDigest (a ∷ []) = (sized (a ++ a), tt)
  next_level-IsDigest (a ∷ b ∷ r) = (sized (a ++ b), next_level-IsDigest r)

  proof_loop-IsDigest :
      (f : ℕ) (l : List Digest) (i : ℕ) → All IsDigest l → All IsDigest (proof_loop sha256 f l i)
  unfolding proof_loop
  proof_loop-IsDigest zero l i h = tt
  proof_loop-IsDigest (suc f) l i h = ground (
    arith,
    digest_at-IsDigest l (sibling (length l) i) h,
    proof_loop-IsDigest f (next_level sha256 l) (i / 2) (next_level-IsDigest l),
  )

  merkle_proof_for-IsDigest :
      (leaves : List Digest) (i : ℕ)
      → All IsDigest leaves
      → All IsDigest (merkle_proof_for sha256 leaves i)
  unfolding merkle_proof_for
  merkle_proof_for-IsDigest leaves i h =
      ground (arith, proof_loop-IsDigest (length leaves) leaves i h)

  -- A leaf that is accepted for a place and the root of a batch, with a proof as long as the batch's,
  -- is the batch's leaf at that place and the proof is the one that the batch gives, or else the two
  -- exhibit texts that collide. All digests have 32 bytes.
  pub verify_binds :
      (leaves : List Digest) (i : ℕ) (leaf : Digest) (proof : List Digest)
      → i < length leaves
      → All IsDigest leaves
      → IsDigest leaf
      → All IsDigest proof
      → length proof ≡ length (merkle_proof_for sha256 leaves i)
      → verify_merkle_proof sha256 leaf i proof (merkle_root sha256 leaves) ≡ true
      → ((leaf ≡ digest_at leaves i) × (proof ≡ merkle_proof_for sha256 leaves i))
        ⊎ Collision sha256
  unfolding verify_merkle_proof
  verify_binds leaves i leaf proof h all d q n e =
      fold_up_cases i leaf (digest_at leaves i) proof (merkle_proof_for sha256 leaves i) d
        (digest_at-IsDigest leaves i all) q (merkle_proof_for-IsDigest leaves i all) n
        ((digest_eq.same_iff _ _).0 e
          ∙ sym ((digest_eq.same_iff _ _).0 (verify-merkle_proof_for sha256 leaves i h)))

  -- The hash on the chain fixes both of its parts, or there is a collision.
  pub combined_details_hash_binds :
      (legacy legacy' root root' : Digest)
      → IsDigest legacy
      → IsDigest legacy'
      → combined_details_hash sha256 legacy root ≡ combined_details_hash sha256 legacy' root'
      → ((legacy ≡ legacy') × (root ≡ root')) ⊎ Collision sha256
  unfolding combined_details_hash
  combined_details_hash_binds legacy legacy' root root' p q e =
      concat_cases legacy legacy' root root' p q e
