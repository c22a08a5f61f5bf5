-- ===== src/Settlement/Records.antt =====
-- src/internal/settlement/scanner.go: the records of the request log.
use openmodel_gateway.Prelude.{ℕ, Bool, ◌&&◌, String, Option, ◌==◌, ◌/=◌, nat_eq, string_eq}
use openmodel_gateway.Prelude.Int.{ℤ, is_pos}

-- The fields that the settlement reads. The receipt is present with its signature.
pub record RequestRecord : Type 0 where
  pub request_id : String
  pub timestamp : ℕ
  pub wallet : String
  pub worker_id : String
  pub model : String
  pub status : ℕ
  pub error_reason : String
  pub prompt_tokens : ℤ
  pub completion_tokens : ℤ
  pub cached_tokens : ℤ
  pub total_tokens : ℤ
  pub receipt_sig : Option String

unfoldable pub is_billable : RequestRecord → Bool
is_billable rec =
    rec.status == 200 && is_pos rec.total_tokens && rec.wallet /= "" && rec.error_reason == ""
