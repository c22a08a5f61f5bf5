-- ===== src/Gateway/Receipt/Verdict.antt =====
-- src/internal/gateway/receipt.go: which receipts count as verified.
use openmodel_gateway.Prelude.{
  ℕ, ◌≡◌, refl, ◌≢◌, ◌↔◌, Bool, true, false, not, List, String, Option, none, some, string_eq,
  nat_eq, length, Option-cases, is_some, inl, inr, arith,
}
use openmodel_gateway.Gateway.Proxy.{TokenUsage}
use openmodel_gateway.Gateway.Receipt.{
  ReceiptInfo, Crypto, same_usage, canonical_receipt_payload, signature_fault, usage_fault,
  content_fault, fault, verify_receipt,
}

module _ (c : Crypto) where
  -- The signature is one of the receipt's content, by the key that is advertised.
  abbrev pub IsSigned : ReceiptInfo → String → Type 0
  IsSigned r expect =
      (key : List ℕ) × (sig : List ℕ) × (c.unhex expect ≡ some key)
      × (length key ≡ 32)
      × (c.unhex r.sig ≡ some sig)
      × (length sig ≡ 64)
      × (c.signed key (canonical_receipt_payload c r) sig ≡ true)

  -- The receipt is for the body that was sent, if one is given.
  abbrev pub IsFor : ReceiptInfo → Option (List ℕ) → Type 0
  IsFor r body = (b : List ℕ) → body ≡ some b → r.request_sha256 ≡ c.sha256_hex b

  abbrev pub IsAttested : ReceiptInfo → String → Option (List ℕ) → TokenUsage → Bool → Type 0
  IsAttested r expect body u check_usage =
      (expect ≢ "")
      × (r.pubkey ≡ expect)
      × IsSigned r expect
      × IsFor r body
      × (check_usage ≡ true → same_usage r u ≡ true)

  signature_fault-none :
      (r : ReceiptInfo) (key sig : List ℕ)
      → c.unhex r.sig ≡ some sig
      → length key ≡ 32
      → length sig ≡ 64
      → c.signed key (canonical_receipt_payload c r) sig ≡ true
      → signature_fault c r key ≡ none
  unfolding signature_fault
  signature_fault-none r key sig e k s h = ground (arith, nat_eq.same_iff (length key) 32)

  signature_fault-some :
      (r : ReceiptInfo) (key : List ℕ)
      → c.unhex r.sig ≡ none
      → is_some (signature_fault c r key) ≡ true
  unfolding signature_fault
  signature_fault-some r key e = ground arith

  signature_fault-signed :
      (r : ReceiptInfo) (key sig : List ℕ)
      → c.unhex r.sig ≡ some sig
      → is_some (signature_fault c r key) ≡ false
      → (length key ≡ 32)
        × (length sig ≡ 64)
        × (c.signed key (canonical_receipt_payload c r) sig ≡ true)
  unfolding signature_fault
  signature_fault-signed r key sig e h = ground arith

  content_fault-none :
      (r : ReceiptInfo) (body : Option (List ℕ)) (u : TokenUsage) (check_usage : Bool)
      → (is_some (content_fault c r body u check_usage) ≡ false)
        ↔ (IsFor r body × (check_usage ≡ true → same_usage r u ≡ true))
  unfolding content_fault usage_fault
  content_fault-none r none u check_usage =
      (λ h. ((λ b e. ground arith), λ on. ground arith), λ h. ground (arith, h.1))
  content_fault-none r (some body) u check_usage = (
    λ h. (
      (λ b e. ground (arith, string_eq.same_iff r.request_sha256 (c.sha256_hex body))),
      λ on. ground (arith, string_eq.same_iff r.request_sha256 (c.sha256_hex body)),
    ),
    λ h.
        ground (arith, h.0 body refl, h.1, string_eq.same_iff r.request_sha256 (c.sha256_hex body)),
  )

  fault-none :
      (r : ReceiptInfo) (expect : String) (body : Option (List ℕ)) (u : TokenUsage)
      (check_usage : Bool)
      → IsAttested r expect body u check_usage
      → is_some (fault c r expect body u check_usage) ≡ false
  unfolding fault
  fault-none r expect body u check_usage (named, same, (key, sig, a, b, d, e, f), for_body, usage) =
      ground (
        arith,
        signature_fault-none r key sig d b e f,
        (content_fault-none r body u check_usage).1 (for_body, usage),
        string_eq.same_iff expect "",
        string_eq.same_iff r.pubkey expect,
      )

  verified-fault :
      (r : ReceiptInfo) (expect : String) (body : Option (List ℕ)) (u : TokenUsage)
      (check_usage : Bool)
      → (verify_receipt c r expect body u check_usage).verified
        ≡ not (is_some (fault c r expect body u check_usage))
  unfolding verify_receipt
  verified-fault r expect body u check_usage = ground arith

  fault-IsAttested :
      (r : ReceiptInfo) (expect : String) (body : Option (List ℕ)) (u : TokenUsage)
      (check_usage : Bool)
      → is_some (fault c r expect body u check_usage) ≡ false
      → IsAttested r expect body u check_usage
  unfolding fault
  fault-IsAttested r expect body u check_usage h = elim (Option-cases (c.unhex expect)) [
    | inl e ↦ ground arith
    | inr (key, e) ↦ elim (Option-cases (c.unhex r.sig)) [
      | inl d ↦ ground (arith, signature_fault-some r key d)
      | inr (sig, d) ↦
          let sound : is_some (signature_fault c r key) ≡ false = ground arith in
          let content : is_some (content_fault c r body u check_usage) ≡ false = ground arith in
          let signed = signature_fault-signed r key sig d sound in
          let rest = (content_fault-none r body u check_usage).0 content in
          (
            ground (arith, string_eq.same_iff expect ""),
            ground (arith, string_eq.same_iff r.pubkey expect),
            (key, sig, e, signed.0, d, signed.1, signed.2),
            rest.0,
            rest.1,
          )
    ]
  ]

  -- A receipt counts as verified exactly when the worker's advertised key is there and is the
  -- receipt's, the signature is one of the receipt's content by that key, the hash is that of the
  -- body that was sent, if one is given, and the tokens are those of the response, if they are compared.
  pub verify_receipt-IsAttested :
      (r : ReceiptInfo) (expect : String) (body : Option (List ℕ)) (u : TokenUsage)
      (check_usage : Bool)
      → ((verify_receipt c r expect body u check_usage).verified ≡ true)
        ↔ IsAttested r expect body u check_usage
  verify_receipt-IsAttested r expect body u check_usage = (
    λ h.
        fault-IsAttested r expect body u check_usage
          (ground (arith, verified-fault r expect body u check_usage)),
    λ h. ground (
      arith,
      verified-fault r expect body u check_usage,
      fault-none r expect body u check_usage h,
    ),
  )
