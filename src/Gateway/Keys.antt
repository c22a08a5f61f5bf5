-- ===== src/Gateway/Keys.antt =====
-- src/internal/gateway/keys.go: the keys that a wallet creates, lists and deletes by signed messages.
pub mod Remembering
pub mod Replay
pub mod Ownership
use openmodel_gateway.Prelude.{
  ℕ, zero, suc, ◌+◌, ◌*◌, ◌-◌, ◌^◌, Bool, true, false, ◌&&◌, ◌||◌, not, List, [], ◌∷◌, ◌++◌, map,
  String, Dict, insert, lookup, erase, Option, none, some, ◌==◌, ◌/=◌, nat_eq, string_eq,
  if◌then◌else◌, ltb, leb, length, anyb, get_elem?, take,
}
use openmodel_gateway.Prelude.Int.{ℤ, pos, negsuc, ◌-ℤ◌, ◌*ℤ◌, ltb_ℤ, is_pos, wrap_64}
use openmodel_gateway.Gateway.Proxy.{ApiKeyEntry}
use openmodel_gateway.Gateway.Receipt.{append_text}
use openmodel_gateway.Gateway.Registration.{
  Kit, RegistrationRecord, KeyStore, Call, RegisterRequest, KeyInfo, KeyReply, registration_window,
  key_display, is_fresh, prune_seen_sigs, recovery_id, verify_eth_signature, sig_key,
  registration_message, migrate_record, has_secret, load_registrations, owned_by,
  append_registration, create_key, watch, wallet_already_registered, pruned, with_sig, user_name,
  register_locked, handle_register, refused, registered, created, listed, deleted,
}

pub data Action : Type 0 where
  create : Action
  list_keys : Action
  delete : Action

-- `action` is `none` for a word that is not known.
pub record KeysRequest : Type 0 where
  pub wallet : String
  pub action : Option Action
  pub issued_at : ℤ
  pub signature : String
  pub name : String
  pub key_id : String

module _ (kit : Kit) where
  abbrev action_text : Action → String
  action_text create = "create"
  action_text list_keys = "list"
  action_text delete = "delete"

  abbrev unless_empty : String → String → String
  unless_empty label value = if value == "" then "" else append_text label value

  unfoldable pub key_management_message : Action → String → ℤ → String → String → String
  key_management_message action wallet issued_at name key_id =
      append_text "OpenModel key management\naction: " (
        append_text (action_text action) (
          append_text "\nwallet: " (
            append_text wallet (
              append_text "\nissued_at: " (
                append_text (kit.decimal issued_at) (
                  append_text (unless_empty "\nname: " name)
                    (unless_empty "\nkey_id: " key_id)))))))

  abbrev pub count_owned : String → List RegistrationRecord → ℕ
  count_owned wallet [] = 0
  count_owned wallet (r ∷ rs) =
      let rest = count_owned wallet rs in if owned_by kit wallet r then suc rest else rest

  abbrev pub most_keys : KeyStore → ℤ
  most_keys st = if is_pos st.max_keys then st.max_keys else pos 10

  unfoldable pub keys_create : Call → String → String → KeyStore → KeyReply × KeyStore
  keys_create c wallet name st =
      let loaded = load_registrations kit c st in
      let owned = count_owned wallet loaded.0 in
      if not (ltb_ℤ (pos owned) (most_keys st))
      then (refused 409, loaded.1)
      else (elim (create_key kit c wallet
            (if name == "" then append_text "key-" (kit.decimal (pos (suc owned))) else name)
            loaded.1)
          as (λ _. KeyReply × KeyStore) [
            | none ↦ (refused 500, loaded.1)
            | some (key, st') ↦ (created key, watch kit wallet st')
          ])

  abbrev infos_of : String → List RegistrationRecord → List KeyInfo
  infos_of wallet [] = []
  infos_of wallet (r ∷ rs) =
      let rest = infos_of wallet rs in
      if owned_by kit wallet r
      then record {
        id = r.id;
        name = r.name;
        display = r.display;
        created_at = r.created_at;
        static = false;
      }
        ∷ rest
      else rest

  abbrev static_infos : String → Dict String ApiKeyEntry → List KeyInfo
  static_infos wallet [] = []
  static_infos wallet ((k, e) ∷ es) =
      let rest = static_infos wallet es in
      if e.static && kit.equal_fold e.wallet wallet
      then record {
        id = "";
        name = e.name;
        display = "(operator-configured)";
        created_at = 0;
        static = true;
      }
        ∷ rest
      else rest

  unfoldable pub keys_list : Call → String → KeyStore → KeyReply × KeyStore
  keys_list c wallet st =
      let loaded = load_registrations kit c st in
      (listed (infos_of wallet loaded.0 ++ static_infos wallet st.api_keys), loaded.1)

  -- The wallet's row with this name, and the others.
  unfoldable pub take_row :
      String
      → String
      → List RegistrationRecord
      → Option (RegistrationRecord × List RegistrationRecord)
  take_row wallet key_id [] = none
  take_row wallet key_id (r ∷ rs) =
      let rest = take_row wallet key_id rs in
      if r.id == key_id && owned_by kit wallet r
      then some (r, rs)
      else (elim rest as (λ _. Option (RegistrationRecord × List RegistrationRecord)) [
        | none ↦ none
        | some (found, others) ↦ some (found, r ∷ others)
      ])

  unfoldable pub keys_delete : Call → String → String → KeyStore → KeyReply × KeyStore
  keys_delete c wallet key_id st =
      let loaded = load_registrations kit c st in
      elim (take_row wallet key_id loaded.0) as (λ _. KeyReply × KeyStore) [
        | none ↦ (refused 404, loaded.1)
        | some (removed, others) ↦
            if st.persists && not c.writable then (refused 500, loaded.1) else (
              deleted key_id,
              record (loaded.1) {
                rows = if st.persists then others else (loaded.1).rows;
                api_keys = erase removed.key_hash (loaded.1).api_keys;
              },
            )
      ]

  abbrev pub dispatch : Call → Action → String → String → String → KeyStore → KeyReply × KeyStore
  dispatch c create wallet name key_id st = keys_create c wallet name st
  dispatch c list_keys wallet name key_id st = keys_list c wallet st
  dispatch c delete wallet name key_id st = keys_delete c wallet key_id st

  abbrev pub needs_id : Action → Bool
  needs_id delete = true
  needs_id _ = false

  -- With the action known.
  unfoldable pub manage : Call → Action → String → KeysRequest → KeyStore → KeyReply × KeyStore
  manage c action wallet q st =
      let name = kit.trim q.name in
      let key_id = kit.trim q.key_id in
      let open_to = pruned kit c.now st in
      if needs_id action && key_id == ""
      then (refused 400, st)
      else if not (is_fresh c.now q.issued_at)
      then (refused 400, st)
      else if not (
          verify_eth_signature kit (key_management_message action wallet q.issued_at name key_id)
            q.signature wallet)
      then (refused 401, st)
      else (elim (lookup (sig_key kit q.signature) open_to.seen_sigs)
          as (λ _. KeyReply × KeyStore) [
            | some exp ↦ (refused 409, open_to)
            | none ↦
                dispatch c action wallet name key_id
                  (with_sig kit (sig_key kit q.signature) c.now open_to)
          ])

  unfoldable pub handle_keys : Call → Option KeysRequest → KeyStore → KeyReply × KeyStore
  handle_keys c none st =
      if not c.is_post
      then (refused 405, st)
      else if not c.allowed
      then (refused 429, st)
      else (refused 400, st)
  handle_keys c (some q) st =
      if not c.is_post
      then (refused 405, st)
      else if not c.allowed
      then (refused 429, st)
      else (elim (q.action) as (λ _. KeyReply × KeyStore) [
        | none ↦ (refused 400, st)
        | some action ↦ elim (kit.canonical q.wallet) as (λ _. KeyReply × KeyStore) [
          | none ↦ (refused 400, st)
          | some wallet ↦ manage c action wallet q st
        ]
      ])
