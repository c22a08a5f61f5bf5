-- ===== src/Gateway/Receipt.antt =====
-- src/internal/gateway/receipt.go: the receipt that a worker signs for a request, and the gateway's
-- verdict on it. The decoders, SHA-256 and Ed25519 are parameters.
pub mod Verdict
use openmodel_gateway.Prelude.{
  ℕ, Bool, true, false, ◌&&◌, ◌||◌, not, List, ◌++◌, String, Option, none, some, ◌==◌, ◌/=◌,
  string_eq, nat_eq, if◌then◌else◌, length, arith,
}
use openmodel_gateway.Prelude.Int.{ℤ, leb_ℤ}
use openmodel_gateway.Settlement.Leaves.{bytes_of}
use openmodel_gateway.Gateway.Proxy.{TokenUsage}

pub record ReceiptInfo : Type 0 where
  pub v : ℤ
  pub request_id : String
  pub model : String
  pub request_sha256 : String
  pub response_sha256 : String
  pub prompt_tokens : ℤ
  pub completion_tokens : ℤ
  pub cached_tokens : ℤ
  pub ts : ℤ
  pub pubkey : String
  pub sig : String
  pub verified : Bool
  pub verify_error : String

-- What a decoder gives: a value, or the text of its error.
pub data Decoded {ℓ} (A : Type ℓ) : Type ℓ where
  good : A → Decoded A
  bad : String → Decoded A

-- The libraries for texts, hashes and signatures.
pub record Crypto : Type 0 where
  pub json : String → List ℕ
  pub decimal : ℤ → List ℕ
  pub base64 : String → Decoded (List ℕ)
  pub unmarshal : List ℕ → Decoded ReceiptInfo
  pub unhex : String → Option (List ℕ)
  pub sha256_hex : List ℕ → String
  pub signed : List ℕ → List ℕ → List ℕ → Bool

abbrev pub append_text : String → String → String
append_text String.[] t = t
append_text (String.◌∷◌ c s) t = String.◌∷◌ c (append_text s t)

abbrev same_int : ℤ → ℤ → Bool
same_int a b = leb_ℤ a b && leb_ℤ b a

-- The receipt of a header that cannot be read: only the request's name and the reason.
abbrev pub no_receipt : String → String → ReceiptInfo
no_receipt request_id why = record {
  v = ℤ.pos 0;
  request_id = request_id;
  model = "";
  request_sha256 = "";
  response_sha256 = "";
  prompt_tokens = ℤ.pos 0;
  completion_tokens = ℤ.pos 0;
  cached_tokens = ℤ.pos 0;
  ts = ℤ.pos 0;
  pubkey = "";
  sig = "";
  verified = false;
  verify_error = append_text "unparseable: " why;
}

-- The usage that the response reports, against the receipt's.
abbrev pub same_usage : ReceiptInfo → TokenUsage → Bool
same_usage r u =
    same_int r.prompt_tokens u.prompt_tokens
    && same_int r.completion_tokens u.completion_tokens
    && same_int r.cached_tokens u.cached_tokens

module _ (c : Crypto) where
  unfoldable pub canonical_receipt_payload : ReceiptInfo → List ℕ
  canonical_receipt_payload r =
      bytes_of "{\"cached_tokens\":"
      ++ c.decimal r.cached_tokens
      ++ bytes_of ",\"completion_tokens\":"
      ++ c.decimal r.completion_tokens
      ++ bytes_of ",\"model\":"
      ++ c.json r.model
      ++ bytes_of ",\"prompt_tokens\":"
      ++ c.decimal r.prompt_tokens
      ++ bytes_of ",\"pubkey\":"
      ++ c.json r.pubkey
      ++ bytes_of ",\"request_id\":"
      ++ c.json r.request_id
      ++ bytes_of ",\"request_sha256\":"
      ++ c.json r.request_sha256
      ++ bytes_of ",\"response_sha256\":"
      ++ c.json r.response_sha256
      ++ bytes_of ",\"ts\":"
      ++ c.decimal r.ts
      ++ bytes_of ",\"v\":1}"

  unfoldable pub parse_receipt_header : String → Decoded ReceiptInfo
  parse_receipt_header text = elim (c.base64 text) as (λ _. Decoded ReceiptInfo) [
    | bad why ↦ bad (append_text "base64: " why)
    | good raw ↦ elim (c.unmarshal raw) as (λ _. Decoded ReceiptInfo) [
      | bad why ↦ bad (append_text "json: " why)
      | good r ↦ good r
    ]
  ]

  -- The checks once the key is known to be the advertised one: first those of the signature.
  unfoldable pub signature_fault : ReceiptInfo → List ℕ → Option String
  signature_fault r key =
      if length key /= 32
      then some "bad advertised pubkey encoding"
      else elim (c.unhex r.sig) as (λ _. Option String) [
        | none ↦ some "bad signature encoding"
        | some sig ↦
            if length sig /= 64
            then some "bad signature encoding"
            else if not (c.signed key (canonical_receipt_payload r) sig)
            then some "signature does not verify"
            else none
      ]

  unfoldable pub usage_fault : ReceiptInfo → TokenUsage → Bool → Option String
  usage_fault r u check_usage =
      if check_usage && not (same_usage r u)
      then some "receipt token counts differ from response usage"
      else none

  -- `none` is a body that is not given.
  unfoldable pub content_fault : ReceiptInfo → Option (List ℕ) → TokenUsage → Bool → Option String
  content_fault r none u check_usage = usage_fault r u check_usage
  content_fault r (some body) u check_usage =
      if r.request_sha256 /= c.sha256_hex body
      then some "request hash mismatch (worker attested different request bytes)"
      else usage_fault r u check_usage

  -- The first check that fails.
  unfoldable pub fault : ReceiptInfo → String → Option (List ℕ) → TokenUsage → Bool → Option String
  fault r expect body u check_usage =
      if expect == ""
      then some "worker advertises no receipt pubkey"
      else if r.pubkey /= expect
      then some "receipt pubkey differs from /health-advertised pubkey"
      else elim (c.unhex expect) as (λ _. Option String) [
        | none ↦ some "bad advertised pubkey encoding"
        | some key ↦ elim (signature_fault r key) as (λ _. Option String) [
          | some why ↦ some why
          | none ↦ content_fault r body u check_usage
        ]
      ]

  unfoldable pub verify_receipt :
      ReceiptInfo → String → Option (List ℕ) → TokenUsage → Bool → ReceiptInfo
  verify_receipt r expect body u check_usage =
      elim (fault r expect body u check_usage) as (λ _. ReceiptInfo) [
        | some why ↦ record r { verified = false; verify_error = why }
        | none ↦ record r { verified = true }
      ]

  unfoldable pub capture_receipt :
      String → String → Option (List ℕ) → TokenUsage → Bool → String → Option ReceiptInfo
  capture_receipt header expect body u check_usage request_id =
      if header == ""
      then none
      else elim (parse_receipt_header header) as (λ _. Option ReceiptInfo) [
        | bad why ↦ some (no_receipt request_id why)
        | good r ↦ some (verify_receipt r expect body u check_usage)
      ]
