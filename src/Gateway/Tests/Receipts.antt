-- ===== src/Gateway/Tests/Receipts.antt =====
-- Instances of the theorems on receipts.
use mathlib.Core.Bool.{false≢true}
use openmodel_gateway.Prelude.{
  ℕ, zero, suc, ◌≡◌, refl, true, false, List, [], ◌∷◌, none, some, ◌==◌, string_eq, if◌then◌else◌,
}
use openmodel_gateway.Prelude.Int.{pos}
use openmodel_gateway.Gateway.Proxy.{TokenUsage}
use openmodel_gateway.Gateway.Receipt.{
  ReceiptInfo, Crypto, good, bad, no_receipt, canonical_receipt_payload, verify_receipt,
  capture_receipt, parse_receipt_header, fault, signature_fault, content_fault, usage_fault,
}
use openmodel_gateway.Gateway.Receipt.Verdict.{IsAttested, verify_receipt-IsAttested}

abbrev zeros : ℕ → List ℕ
zeros zero = []
zeros (suc n) = 0 ∷ zeros n

abbrev presented : ReceiptInfo
presented = record {
  v = pos 1;
  request_id = "r1";
  model = "m";
  request_sha256 = "00";
  response_sha256 = "11";
  prompt_tokens = pos 3;
  completion_tokens = pos 2;
  cached_tokens = pos 0;
  ts = pos 7;
  pubkey = "aa";
  sig = "bb";
  verified = false;
  verify_error = "";
}

-- "aa" is a key of 32 bytes, "bb" a signature of 64.
abbrev pub toy_crypto : Crypto
toy_crypto = record {
  json = λ s. 34 ∷ 34 ∷ [];
  decimal = λ n. 48 ∷ [];
  base64 = λ s. if s == "!" then bad "illegal data" else good (1 ∷ []);
  unmarshal = λ raw. good presented;
  unhex = λ s. if s == "aa" then some (zeros 32) else if s == "bb" then some (zeros 64) else none;
  sha256_hex = λ bytes. "00";
  signed = λ key payload sig. true;
}

abbrev reported : TokenUsage
reported = record {
  prompt_tokens = pos 3;
  completion_tokens = pos 2;
  cached_tokens = pos 0;
  total_tokens = pos 5;
}

receipt_captured :
    capture_receipt toy_crypto "receipt" "aa" (some (1 ∷ [])) reported true "r1"
    ≡ some (record presented { verified = true })
unfolding capture_receipt parse_receipt_header verify_receipt fault signature_fault content_fault
    usage_fault canonical_receipt_payload
receipt_captured = refl

receipt_unreadable :
    capture_receipt toy_crypto "!" "aa" (some (1 ∷ [])) reported true "r1"
    ≡ some (no_receipt "r1" "base64: illegal data")
unfolding capture_receipt parse_receipt_header
receipt_unreadable = refl

attested : IsAttested toy_crypto presented "aa" (some (1 ∷ [])) reported true
unfolding canonical_receipt_payload
attested = (
  λ e. false≢true ((string_eq.same_iff "aa" "").1 e),
  refl,
  (zeros 32, zeros 64, refl, refl, refl, refl, refl),
  λ b e. refl,
  λ on. refl,
)

verify_receipt-IsAttested_example :
    (verify_receipt toy_crypto presented "aa" (some (1 ∷ [])) reported true).verified ≡ true
verify_receipt-IsAttested_example =
    (verify_receipt-IsAttested toy_crypto presented "aa" (some (1 ∷ [])) reported true).1 attested
