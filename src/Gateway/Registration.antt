-- ===== src/Gateway/Registration.antt =====
-- src/internal/gateway/registration.go: signed messages that register a wallet, and the file of registrations with its keys.
-- The text and hash libraries, the recovery of a signer and the random texts are parameters.
use openmodel_gateway.Prelude.{
  ℕ, zero, suc, ◌+◌, ◌-◌, ◌^◌, Bool, false, ◌&&◌, ◌||◌, not, List, [], ◌∷◌, ◌++◌, map, String, Dict,
  insert, lookup, Option, none, some, ◌==◌, ◌/=◌, nat_eq, string_eq, if◌then◌else◌, ltb, leb,
  length, anyb, get_elem?, take,
}
use openmodel_gateway.Prelude.Int.{ℤ, pos, negsuc, ◌-ℤ◌, ◌*ℤ◌, ltb_ℤ, wrap_64}
use openmodel_gateway.Gateway.Proxy.{ApiKeyEntry}
use openmodel_gateway.Gateway.Receipt.{append_text}

-- The libraries: `sha256` of a text in hexadecimals, the canonical form of an address, `EqualFold`, trimming, the
-- decoding of hexadecimals, and who signed a text.
pub record Kit : Type 0 where
  pub hash_key : String → String
  pub canonical : String → Option String
  pub equal_fold : String → String → Bool
  pub trim : String → String
  pub lower : String → String
  pub decimal : ℤ → String
  pub unhex : String → Option (List ℕ)
  pub signer : String → List ℕ → Option String

-- `key` is the secret of a row of the first version.
pub record RegistrationRecord : Type 0 where
  pub id : String
  pub name : String
  pub wallet : String
  pub key_hash : String
  pub display : String
  pub created_at : ℕ
  pub key : String

-- `rows` are those of the file, none where it is missing or does not parse; `watched` are the wallets that the
-- balance cache is told of.
pub record KeyStore : Type 0 where
  pub api_keys : Dict String ApiKeyEntry
  pub rows : List RegistrationRecord
  pub persists : Bool
  pub seen_sigs : Dict String ℕ
  pub max_keys : ℤ
  pub watched : List String

-- What a request meets: the clock, the limiter of its address, the random texts, and whether writes succeed.
pub record Call : Type 0 where
  pub now : ℕ
  pub is_post : Bool
  pub allowed : Bool
  pub new_key : Option String
  pub new_id : Option String
  pub writable : Bool

pub record RegisterRequest : Type 0 where
  pub wallet : String
  pub issued_at : ℤ
  pub signature : String
  pub name : String

pub record KeyInfo : Type 0 where
  pub id : String
  pub name : String
  pub display : String
  pub created_at : ℕ
  pub static : Bool

pub data KeyReply : Type 0 where
  refused : ℕ → KeyReply
  registered : String → KeyReply
  created : String → KeyReply
  listed : List KeyInfo → KeyReply
  deleted : String → KeyReply

-- Five minutes.
abbrev pub registration_window : ℕ
registration_window = 300_000_000_000

abbrev take_text : ℕ → String → String
take_text zero s = ""
take_text (suc n) String.[] = ""
take_text (suc n) (String.◌∷◌ c s) = String.◌∷◌ c (take_text n s)

abbrev text_length : String → ℕ
text_length String.[] = 0
text_length (String.◌∷◌ c s) = suc (text_length s)

abbrev drop_text : ℕ → String → String
drop_text zero s = s
drop_text (suc n) String.[] = ""
drop_text (suc n) (String.◌∷◌ c s) = drop_text n s

unfoldable pub key_display : String → String
key_display key =
    if leb (text_length key) 14
    then key
    else append_text (take_text 10 key) (append_text "…" (drop_text (text_length key - 4) key))

-- `strings.TrimPrefix(s, "0x")`
abbrev trim_0x : String → String
trim_0x s = if take_text 2 s == "0x" then drop_text 2 s else s

-- A duration is an `int64`, and a difference of times stops at its bounds.
abbrev saturate_64 : ℤ → ℤ
saturate_64 (pos n) = if ltb n (2 ^ 63) then pos n else pos (2 ^ 63 - 1)
saturate_64 (negsuc n) = if ltb n (2 ^ 63) then negsuc n else negsuc (2 ^ 63 - 1)

-- `if skew < 0 { skew = -skew }`
abbrev abs_64 : ℤ → ℤ
abs_64 d = if ltb_ℤ d (pos 0) then wrap_64 (pos 0 -ℤ d) else d

abbrev is_unset : ℤ → Bool
is_unset (pos n) = n == 0
is_unset (negsuc n) = false

unfoldable pub is_fresh : ℕ → ℤ → Bool
is_fresh now issued_at =
    let skew = abs_64 (saturate_64 (pos now -ℤ issued_at *ℤ pos 1_000_000_000)) in
    not (is_unset issued_at) && not (ltb_ℤ (pos registration_window) skew)

unfoldable pub prune_seen_sigs : ℕ → Dict String ℕ → Dict String ℕ
prune_seen_sigs now [] = []
prune_seen_sigs now ((sig, exp) ∷ rest) =
    let kept = prune_seen_sigs now rest in if ltb exp now then kept else (sig, exp) ∷ kept

module _ (kit : Kit) where
  -- The last byte of a signature is 0 or 1, or 27 or 28.
  abbrev pub recovery_id : ℕ → ℕ
  recovery_id v = if leb 27 v then v - 27 else v

  unfoldable pub verify_eth_signature : String → String → String → Bool
  verify_eth_signature message sig want = elim (kit.unhex (trim_0x (kit.trim sig))) [
    | none ↦ false
    | some bytes ↦ elim (get_elem? bytes 64) [
      | none ↦ false
      | some v ↦
          if length bytes /= 65 || not (recovery_id v == 0 || recovery_id v == 1)
          then false
          else (elim (kit.signer message (take 64 bytes ++ recovery_id v ∷ [])) [
            | none ↦ false
            | some address ↦ kit.equal_fold address want
          ])
    ]
  ]

  abbrev pub sig_key : String → String
  sig_key sig = kit.lower (trim_0x (kit.trim sig))

  unfoldable pub registration_message : String → ℤ → String
  registration_message wallet issued_at =
      append_text "OpenModel API key registration\nwallet: "
        (append_text wallet (append_text "\nissued_at: " (kit.decimal issued_at)))

  -- A row of the first version loses its secret.
  unfoldable pub migrate_record : RegistrationRecord → RegistrationRecord
  migrate_record rec =
      let hash = kit.hash_key rec.key in
      if rec.key == "" then rec else record rec {
        key_hash = hash;
        display = key_display rec.key;
        id = if rec.id == "" then append_text "k-" (take_text 12 hash) else rec.id;
        key = "";
      }

  abbrev pub has_secret : RegistrationRecord → Bool
  has_secret rec = rec.key /= ""

  -- The rows as they are used, and the store once they are written back without their secrets.
  unfoldable pub load_registrations : Call → KeyStore → List RegistrationRecord × KeyStore
  load_registrations c st =
      let rows = map migrate_record st.rows in
      if not st.persists
      then ([], st)
      else (rows, if anyb has_secret st.rows && c.writable then record st { rows = rows } else st)

  abbrev pub owned_by : String → RegistrationRecord → Bool
  owned_by wallet rec = kit.equal_fold rec.wallet wallet

  -- The file with one row more; nothing where there is no file, and `none` where it cannot be written.
  unfoldable pub append_registration : Call → RegistrationRecord → KeyStore → Option KeyStore
  append_registration c rec st =
      let loaded = load_registrations c st in
      if not st.persists
      then some st
      else if c.writable
      then some (record st { rows = loaded.0 ++ rec ∷ [] })
      else none

  -- A key for the wallet: its row is written first, then it is let in.
  unfoldable pub create_key : Call → String → String → KeyStore → Option (String × KeyStore)
  create_key c wallet name st = elim (c.new_key) as (λ _. Option (String × KeyStore)) [
    | none ↦ none
    | some key ↦ elim (c.new_id) as (λ _. Option (String × KeyStore)) [
      | none ↦ none
      | some id ↦
          let hash = kit.hash_key key in
          let rec : RegistrationRecord = record {
            id = id;
            name = name;
            wallet = wallet;
            key_hash = hash;
            display = key_display key;
            created_at = c.now;
            key = "";
          } in
          elim (append_registration c rec st) as (λ _. Option (String × KeyStore)) [
            | none ↦ none
            | some st' ↦ some (
              key,
              record st' {
                api_keys =
                    insert hash (record { name = name; wallet = wallet; id = id; static = false })
                      st'.api_keys;
              },
            )
          ]
    ]
  ]

  abbrev pub watch : String → KeyStore → KeyStore
  watch wallet st =
      if anyb (λ w. kit.equal_fold w wallet) st.watched
      then st
      else record st { watched = st.watched ++ wallet ∷ [] }

  unfoldable pub wallet_already_registered : String → KeyStore → Bool
  wallet_already_registered wallet st = anyb (λ e. kit.equal_fold e.1.wallet wallet) st.api_keys

  abbrev pub pruned : ℕ → KeyStore → KeyStore
  pruned now st = record st { seen_sigs = prune_seen_sigs now st.seen_sigs }

  abbrev pub with_sig : String → ℕ → KeyStore → KeyStore
  with_sig sig now st = record st {
    seen_sigs = insert sig (now + registration_window) st.seen_sigs;
  }

  abbrev pub user_name : String → String → String
  user_name name wallet =
      if name == ""
      then append_text "user-" (kit.lower (take_text 6 (drop_text 2 wallet)))
      else name

  -- With the signature verified and not used before.
  unfoldable pub register_locked : Call → String → String → String → KeyStore → KeyReply × KeyStore
  register_locked c wallet name sig st =
      if wallet_already_registered wallet st
      then (refused 409, st)
      else (elim (create_key c wallet (user_name (kit.trim name) wallet) st)
          as (λ _. KeyReply × KeyStore) [
            | none ↦ (refused 500, st)
            | some (key, st') ↦ (registered key, watch wallet (with_sig sig c.now st'))
          ])

  unfoldable pub handle_register : Call → Option RegisterRequest → KeyStore → KeyReply × KeyStore
  handle_register c none st =
      if not c.is_post
      then (refused 405, st)
      else if not c.allowed
      then (refused 429, st)
      else (refused 400, st)
  handle_register c (some q) st =
      if not c.is_post
      then (refused 405, st)
      else if not c.allowed
      then (refused 429, st)
      else (elim (kit.canonical q.wallet) as (λ _. KeyReply × KeyStore) [
        | none ↦ (refused 400, st)
        | some wallet ↦
            let open_to = pruned c.now st in
            if not (is_fresh c.now q.issued_at)
            then (refused 400, st)
            else if not
                (verify_eth_signature (registration_message wallet q.issued_at) q.signature wallet)
            then (refused 401, st)
            else (elim (lookup (sig_key q.signature) open_to.seen_sigs)
                as (λ _. KeyReply × KeyStore) [
                  | some exp ↦ (refused 409, open_to)
                  | none ↦ register_locked c wallet q.name (sig_key q.signature) open_to
                ])
      ])
