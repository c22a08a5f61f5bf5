-- ===== src/Gateway/Tests/Keys.antt =====
-- Instances of the theorems on registered keys.
use openmodel_gateway.Prelude.{
  ℕ, zero, suc, ◌≡◌, refl, true, false, List, [], ◌∷◌, String, some, ◌==◌, string_eq, eq_refl,
  if◌then◌else◌, arith,
}
use openmodel_gateway.Prelude.Int.{pos, ◌-ℤ◌, ◌*ℤ◌, wrap_64}
use openmodel_gateway.Gateway.Receipt.{append_text}
use openmodel_gateway.Gateway.Registration.{
  Kit, KeyStore, Call, RegisterRequest, RegistrationRecord, handle_register, register_locked,
  create_key, append_registration, load_registrations, wallet_already_registered,
  verify_eth_signature, is_fresh, prune_seen_sigs,
}
use openmodel_gateway.Gateway.Keys.{KeysRequest, delete, handle_keys}
use openmodel_gateway.Gateway.Keys.Remembering.{
  registers, manages, serve_key, run_keys, is_accepted,
}
use openmodel_gateway.Gateway.Keys.Replay.{accepted_once}
use openmodel_gateway.Gateway.Keys.Ownership.{others, handle_keys-others}

abbrev bytes_with : ℕ → ℕ → List ℕ
bytes_with zero v = v ∷ []
bytes_with (suc n) v = 7 ∷ bytes_with n v

-- Two texts of one signature, whose last bytes are 27 and 0.
abbrev toy_kit : Kit
toy_kit = record {
  hash_key = λ s. append_text "h" s;
  canonical = λ w. some w;
  equal_fold = λ v w. v == w;
  trim = λ s. s;
  lower = λ s. s;
  decimal = λ n. "9";
  unhex = λ s. some (bytes_with 64 (if s == "aa1b" then 27 else 0));
  signer = λ message bytes. some "w";
}

abbrev no_keys : KeyStore
no_keys = record {
  api_keys = [];
  rows = [];
  persists = true;
  seen_sigs = [];
  max_keys = pos 0;
  watched = [];
}

abbrev call_at : ℕ → Call
call_at now = record {
  now = now;
  is_post = true;
  allowed = true;
  new_key = some "key";
  new_id = some "id";
  writable = true;
}

abbrev wish : RegisterRequest
wish = record { wallet = "w"; issued_at = pos 1; signature = "aa1b"; name = "me" }

abbrev removal : KeysRequest
removal = record {
  wallet = "w";
  action = some delete;
  issued_at = pos 1;
  signature = "bb";
  name = "";
  key_id = "id";
}

-- A key is registered, another request deletes it, and the first one is sent again.
accepted_once_example :
    is_accepted
      (serve_key toy_kit (registers (call_at 3_000_000_000) (some wish)) (
        run_keys toy_kit
          (manages (call_at 2_000_000_000) (some removal) ∷ [])
          (serve_key toy_kit (registers (call_at 1_500_000_000) (some wish)) no_keys).1)).0
    ≡ false
unfolding serve_key handle_register register_locked create_key append_registration
    load_registrations wallet_already_registered verify_eth_signature is_fresh prune_seen_sigs ◌-ℤ◌
    ◌*ℤ◌
accepted_once_example =
    accepted_once toy_kit "aa1b" 1 (registers (call_at 1_500_000_000) (some wish))
      (manages (call_at 2_000_000_000) (some removal) ∷ [])
      (registers (call_at 3_000_000_000) (some wish)) no_keys refl (omega arith) refl
      (omega arith, tt) (omega arith) refl

-- The two texts of the signature verify alike, and are remembered apart.
same_signature :
    verify_eth_signature toy_kit "m" "aa1b" "w" ≡ verify_eth_signature toy_kit "m" "aa00" "w"
unfolding verify_eth_signature
same_signature = refl

-- A message from the year 33658, in 2026.
far_from_fresh : is_fresh 1_795_000_000_000_000_000 (pos 1_000_000_000_000) ≡ true
unfolding is_fresh ◌-ℤ◌ ◌*ℤ◌ wrap_64
far_from_fresh = refl

abbrev row_of : String → String → RegistrationRecord
row_of wallet secret = record {
  id = "id";
  name = "n";
  wallet = wallet;
  key_hash = "h";
  display = "d";
  created_at = 4;
  key = secret;
}

abbrev two_rows : KeyStore
two_rows = record no_keys { rows = row_of "v" "sk" ∷ row_of "w" "" ∷ [] }

handle_keys-others_example :
    others toy_kit "w" (handle_keys toy_kit (call_at 2_000_000_000) (some removal) two_rows).1.rows
    ≡ others toy_kit "w" two_rows.rows
handle_keys-others_example =
    handle_keys-others toy_kit (λ w. eq_refl w) (call_at 2_000_000_000) removal "w" two_rows refl
