-- ===== src/Gateway/Keys/Ownership.antt =====
-- src/internal/gateway/keys.go: a management request touches the keys of its own wallet only.
use mathlib.Core.List.{append-nil}
use openmodel_gateway.Prelude.{
  suc, ◌≡◌, refl, sym, ap, subst, ◌∙◌, inl, inr, Bool, true, ◌&&◌, not, List, [], ◌∷◌, ◌++◌, map,
  String, some, ◌==◌, string_eq, if◌then◌else◌, if-holds, option-holds, anyb, lookup, filterb,
  arith,
}
use openmodel_gateway.Prelude.Int.{pos, ltb_ℤ}
use openmodel_gateway.Prelude.{Bool-cases, Option-cases}
use openmodel_gateway.Gateway.Registration.{has_secret, key_display}
use openmodel_gateway.Gateway.Receipt.{append_text}
use openmodel_gateway.Gateway.Registration.{
  Kit, KeyStore, Call, KeyReply, RegistrationRecord, is_fresh, verify_eth_signature, sig_key,
  owned_by, migrate_record, load_registrations, append_registration, create_key, pruned, with_sig,
  watch,
}
use openmodel_gateway.Gateway.Keys.{
  KeysRequest, Action, create, list_keys, delete, key_management_message, take_row, most_keys,
  count_owned, keys_create, keys_list, keys_delete, dispatch, needs_id, manage, handle_keys,
}

module _ (kit : Kit) where
  -- The rows of the wallets other than this one, as they are used.
  abbrev pub others : String → List RegistrationRecord → List RegistrationRecord
  others wallet rows = filterb (λ r. not (owned_by kit wallet r)) (map (migrate_record kit) rows)

  migrate_clean : (r : RegistrationRecord) → r.key == "" ≡ true → migrate_record kit r ≡ r
  unfolding migrate_record
  migrate_clean r h = ground (arith, h)

  migrated_key : (r : RegistrationRecord) → (migrate_record kit r).key == "" ≡ true
  unfolding migrate_record
  migrated_key r =
      if-holds {A = RegistrationRecord} (λ x. x.key == "" ≡ true) (r.key == "") (λ e. e) (λ e. refl)

  migrate_again :
      (r : RegistrationRecord) → migrate_record kit (migrate_record kit r) ≡ migrate_record kit r
  migrate_again r = migrate_clean (migrate_record kit r) (migrated_key r)

  migrate_all_again :
      (rows : List RegistrationRecord)
      → map (migrate_record kit) (map (migrate_record kit) rows) ≡ map (migrate_record kit) rows
  migrate_all_again [] = refl
  migrate_all_again (r ∷ rs) = simp (migrate_again, migrate_all_again rs)

  load-others :
      (c : Call) (wallet : String) (st : KeyStore)
      → others wallet (load_registrations kit c st).1.rows ≡ others wallet st.rows
  unfolding load_registrations
  load-others c wallet st =
      let P : KeyStore → Type 0 = λ s. others wallet s.rows ≡ others wallet st.rows in
      if-holds {A = List RegistrationRecord × KeyStore} (λ p. P p.1) (not st.persists) (λ a. refl)
        (λ a.
          if-holds {A = KeyStore} P (anyb (has_secret kit) st.rows && c.writable)
            (λ b. ap (filterb (λ r. not (owned_by kit wallet r))) (migrate_all_again st.rows))
            (λ b. refl))

  loaded-others :
      (c : Call) (wallet : String) (st : KeyStore)
      → st.persists ≡ true
      → others wallet (load_registrations kit c st).0 ≡ others wallet st.rows
  unfolding load_registrations
  loaded-others c wallet st on =
      let same : (load_registrations kit c st).0 ≡ map (migrate_record kit) st.rows =
        ground (arith, on) in
      ap (others wallet) same
      ∙ ap (filterb (λ r. not (owned_by kit wallet r))) (migrate_all_again st.rows)

  filterb-append :
      (p : RegistrationRecord → Bool) (xs ys : List RegistrationRecord)
      → filterb p (xs ++ ys) ≡ filterb p xs ++ filterb p ys
  filterb-append p [] ys = refl
  filterb-append p (x ∷ xs) ys = ground (arith, filterb-append p xs ys)

  map-append :
      (g : RegistrationRecord → RegistrationRecord) (xs ys : List RegistrationRecord)
      → map g (xs ++ ys) ≡ map g xs ++ map g ys
  map-append g [] ys = refl
  map-append g (x ∷ xs) ys = ap (◌∷◌ (g x)) (map-append g xs ys)

  owned_migrated :
      (wallet : String) (r : RegistrationRecord)
      → owned_by kit wallet (migrate_record kit r) ≡ owned_by kit wallet r
  unfolding migrate_record
  owned_migrated wallet r =
      if-holds {A = RegistrationRecord} (λ x. owned_by kit wallet x ≡ owned_by kit wallet r)
        (r.key == "") (λ e. refl) (λ e. refl)

  -- Where a row of the wallet is taken out, the rows of the others are all there.
  take_row-others :
      (wallet key_id : String) (rows : List RegistrationRecord)
      (p : RegistrationRecord × List RegistrationRecord)
      → take_row kit wallet key_id rows ≡ some p
      → others wallet p.1 ≡ others wallet rows
  unfolding take_row
  take_row-others wallet key_id [] p e = ground (arith, e)
  take_row-others wallet key_id (r ∷ rs) p e =
      elim (Bool-cases (r.id == key_id && owned_by kit wallet r)) [
        | inl here ↦
            let same : p.1 ≡ rs = ground (arith, here, e) in
            ap (others wallet) same ∙ ground (arith, here, owned_migrated wallet r)
        | inr on ↦ elim (Option-cases (take_row kit wallet key_id rs)) [
          | inl gone ↦ ground (arith, on, gone, e)
          | inr (q, found) ↦
              let same : p.1 ≡ r ∷ q.1 = ground (arith, on, found, e) in
              let rest = take_row-others wallet key_id rs q found in
              ap (others wallet) same ∙ ground (arith, rest)
        ]
      ]

  module _ (itself : (w : String) → kit.equal_fold w w ≡ true) where
    abbrev KeepsOthers : String → KeyStore → KeyReply × KeyStore → Type 0
    KeepsOthers wallet st out = others wallet out.1.rows ≡ others wallet st.rows

    -- A row of the wallet at the end of the others.
    others-added :
        (wallet : String) (rec : RegistrationRecord) (rows : List RegistrationRecord)
        → owned_by kit wallet rec ≡ true
        → rec.key == "" ≡ true
        → others wallet (map (migrate_record kit) rows ++ rec ∷ []) ≡ others wallet rows
    others-added wallet rec rows own clean =
        let p : RegistrationRecord → Bool = λ r. not (owned_by kit wallet r) in
        let mig = migrate_record kit in
        let hidden : filterb p (mig rec ∷ []) ≡ [] =
          ap (λ x. filterb p (x ∷ [])) (migrate_clean rec clean) ∙ ground (arith, own) in
        ap (filterb p) (map-append mig (map mig rows) (rec ∷ []))
        ∙ filterb-append p (map mig (map mig rows)) (mig rec ∷ [])
        ∙ ap (◌++◌ (filterb p (map mig (map mig rows)))) hidden
        ∙ append-nil (filterb p (map mig (map mig rows)))
        ∙ ap (filterb p) (migrate_all_again rows)

    append-others :
        (c : Call) (wallet : String) (rec : RegistrationRecord) (st st' : KeyStore)
        → owned_by kit wallet rec ≡ true
        → rec.key == "" ≡ true
        → append_registration kit c rec st ≡ some st'
        → others wallet st'.rows ≡ others wallet st.rows
    unfolding append_registration load_registrations
    append-others c wallet rec st st' own clean e = elim (Bool-cases st.persists) [
      | inr off ↦
          let same : st ≡ st' = ground (arith, off, e) in ap (λ s. others wallet s.rows) (sym same)
      | inl on ↦ elim (Bool-cases c.writable) [
        | inr off ↦ ground (arith, on, off, e)
        | inl able ↦
            let same : st'.rows ≡ map (migrate_record kit) st.rows ++ rec ∷ [] =
              ground (arith, on, able, e) in
            ap (others wallet) same ∙ others-added wallet rec st.rows own clean
      ]
    ]

    create_key-others :
        (c : Call) (wallet name : String) (st : KeyStore) (p : String × KeyStore)
        → create_key kit c wallet name st ≡ some p
        → others wallet p.1.rows ≡ others wallet st.rows
    unfolding create_key
    create_key-others c wallet name st p e = elim (Option-cases c.new_key) [
      | inl gone ↦ ground (arith, gone, e)
      | inr (key, k) ↦ elim (Option-cases c.new_id) [
        | inl gone ↦ ground (arith, k, gone, e)
        | inr (id, i) ↦
            let rec : RegistrationRecord = record {
              id = id;
              name = name;
              wallet = wallet;
              key_hash = kit.hash_key key;
              display = key_display key;
              created_at = c.now;
              key = "";
            } in
            elim (Option-cases (append_registration kit c rec st)) [
              | inl gone ↦ ground (arith, k, i, gone, e)
              | inr (st', made) ↦
                  let same : p.1.rows ≡ st'.rows = ground (arith, k, i, made, e) in
                  ap (others wallet) same
                  ∙ append-others c wallet rec st st' (itself wallet) refl made
            ]
      ]
    ]

    dispatch-others :
        (c : Call) (action : Action) (wallet name key_id : String) (st : KeyStore)
        → KeepsOthers wallet st (dispatch kit c action wallet name key_id st)
    unfolding keys_create keys_list keys_delete
    dispatch-others c create wallet name key_id st =
        let P : KeyReply × KeyStore → Type 0 = KeepsOthers wallet st in
        let loaded = load_registrations kit c st in
        let owned = count_owned kit wallet loaded.0 in
        let named =
          if name == "" then append_text "key-" (kit.decimal (pos (suc owned))) else name in
        if-holds {A = KeyReply × KeyStore} P (not (ltb_ℤ (pos owned) (most_keys kit st)))
          (λ full. load-others c wallet st)
          (λ room.
            option-holds {B = KeyReply × KeyStore} P (create_key kit c wallet named loaded.1)
              (λ e. load-others c wallet st)
              (λ p e.
                let watched : (watch kit wallet p.1).rows ≡ p.1.rows = ground arith in
                ap (others wallet) watched
                ∙ create_key-others c wallet named loaded.1 p e
                ∙ load-others c wallet st))
    dispatch-others c list_keys wallet name key_id st = load-others c wallet st
    dispatch-others c delete wallet name key_id st =
        let P : KeyReply × KeyStore → Type 0 = KeepsOthers wallet st in
        let loaded = load_registrations kit c st in
        let kept = load-others c wallet st in
        option-holds {B = KeyReply × KeyStore} P (take_row kit wallet key_id loaded.0) (λ e. kept)
          (λ p e.
            if-holds {A = KeyReply × KeyStore} P (st.persists && not c.writable) (λ stuck. kept)
              (λ able.
                if-holds {A = List RegistrationRecord}
                  (λ rows. others wallet rows ≡ others wallet st.rows) st.persists
                  (λ on. take_row-others wallet key_id loaded.0 p e ∙ loaded-others c wallet st on)
                  (λ off. kept)))

    manage-others :
        (c : Call) (action : Action) (wallet : String) (q : KeysRequest) (st : KeyStore)
        → KeepsOthers wallet st (manage kit c action wallet q st)
    unfolding manage
    manage-others c action wallet q st =
        let P : KeyReply × KeyStore → Type 0 = KeepsOthers wallet st in
        let name = kit.trim q.name in
        let key_id = kit.trim q.key_id in
        if-holds {A = KeyReply × KeyStore} P (needs_id kit action && key_id == "") (λ a. refl)
          (λ a.
            if-holds {A = KeyReply × KeyStore} P (not (is_fresh c.now q.issued_at)) (λ b. refl)
              (λ b.
                if-holds {A = KeyReply × KeyStore} P
                  (not (
                    verify_eth_signature kit
                      (key_management_message kit action wallet q.issued_at name key_id) q.signature
                      wallet))
                  (λ forged. refl)
                  (λ signed.
                    option-holds {B = KeyReply × KeyStore} P
                      (lookup (sig_key kit q.signature) (pruned kit c.now st).seen_sigs)
                      (λ new.
                        dispatch-others c action wallet name key_id
                          (with_sig kit (sig_key kit q.signature) c.now (pruned kit c.now st)))
                      (λ exp used. refl))))

    -- Whether a management request is carried out or refused: the rows of the wallets other than the one that it
    -- names are those that were there, in their order, where a wallet's name is the same as itself
    -- up to case. A row of the first version may only be migrated: its secret is replaced by
    -- the hash, with what is displayed of it and an id if it had none.
    pub handle_keys-others :
        (c : Call) (q : KeysRequest) (wallet : String) (st : KeyStore)
        → kit.canonical q.wallet ≡ some wallet
        → others wallet (handle_keys kit c (some q) st).1.rows ≡ others wallet st.rows
    unfolding handle_keys
    handle_keys-others c q wallet st named =
        let P : KeyReply × KeyStore → Type 0 = KeepsOthers wallet st in
        if-holds {A = KeyReply × KeyStore} P (not c.is_post) (λ a. refl)
          (λ a.
            if-holds {A = KeyReply × KeyStore} P (not c.allowed) (λ b. refl)
              (λ b.
                option-holds {B = KeyReply × KeyStore} P q.action (λ e. refl)
                  (λ action e.
                    option-holds {B = KeyReply × KeyStore} P (kit.canonical q.wallet) (λ e. refl)
                      (λ w e.
                        let same : wallet ≡ w = ground (arith, named, e) in
                        subst (λ v. KeepsOthers wallet st (manage kit c action v q st)) same
                          (manage-others c action wallet q st)))))
