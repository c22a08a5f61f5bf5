-- ===== src/Gateway/Keys/Remembering.antt =====
-- src/internal/gateway/registration.go and keys.go: the signatures that a request leaves remembered.
use openmodel_gateway.Prelude.{
  ℕ, suc, ◌+◌, ◌*◌, ◌≤◌, ◌<◌, ◌≡◌, refl, subst, ◌⊎◌, inl, inr, Bool, true, false, ◌&&◌, not, List,
  [], ◌∷◌, String, Dict, insert, lookup, lookup-insert, Option, none, some, ◌==◌, string_eq, nat_eq,
  if◌then◌else◌, if-holds, option-holds, ltb, arith,
}
use openmodel_gateway.Prelude.Int.{ℤ, pos, ◌-ℤ◌, ◌*ℤ◌, ltb_ℤ}
use openmodel_gateway.Gateway.Receipt.{append_text}
use openmodel_gateway.Gateway.Registration.{
  user_name, watch, Kit, KeyStore, Call, RegisterRequest, KeyReply, refused, registered,
  registration_window, is_fresh, prune_seen_sigs, verify_eth_signature, sig_key,
  registration_message, load_registrations, append_registration, create_key,
  wallet_already_registered, pruned, with_sig, register_locked, handle_register,
}
use openmodel_gateway.Gateway.Keys.{
  needs_id, most_keys, count_owned, KeysRequest, Action, create, list_keys, delete,
  key_management_message, keys_create, keys_list, keys_delete, dispatch, manage, handle_keys,
}

pub data KeyEvent : Type 0 where
  registers : Call → Option RegisterRequest → KeyEvent
  manages : Call → Option KeysRequest → KeyEvent

abbrev pub time_of : KeyEvent → ℕ
time_of (registers c q) = c.now
time_of (manages c q) = c.now

abbrev pub is_accepted : KeyReply → Bool
is_accepted (refused status) = false
is_accepted _ = true

-- The events come one after the other, the first at `t` or later.
abbrev pub IsOrdered : ℕ → List KeyEvent → Type 0
IsOrdered t [] = Unit
IsOrdered t (e ∷ es) = (t ≤ time_of e) × IsOrdered (time_of e) es

abbrev pub last_time : ℕ → List KeyEvent → ℕ
last_time t [] = t
last_time t (e ∷ es) = last_time (time_of e) es

pub lookup-prune :
    (now exp : ℕ) (k : String) (m : Dict String ℕ)
    → lookup k m ≡ some exp
    → ltb exp now ≡ false
    → lookup k (prune_seen_sigs now m) ≡ some exp
unfolding prune_seen_sigs
lookup-prune now exp k [] h l = ground (arith, h)
lookup-prune now exp k ((sig, e) ∷ rest) h l = ground (arith, h, l, lookup-prune now exp k rest)

-- More than the window after it was issued, a message is not fresh.
pub not_fresh :
    (s t now : ℕ)
    → s * 1_000_000_000 ≤ t
    → t + registration_window < now
    → is_fresh now (pos s) ≡ false
unfolding is_fresh ◌-ℤ◌ ◌*ℤ◌
not_fresh s t now h k = ground (arith, h, k)

module _ (kit : Kit) where
  unfoldable pub serve_key : KeyEvent → KeyStore → KeyReply × KeyStore
  serve_key (registers c q) st = handle_register kit c q st
  serve_key (manages c q) st = handle_keys kit c q st

  -- The signature that an event is signed with, and when its message was issued.
  abbrev pub signature_of : KeyEvent → Option (String × ℤ)
  signature_of (registers c (some q)) = some (sig_key kit q.signature, q.issued_at)
  signature_of (manages c (some q)) = some (sig_key kit q.signature, q.issued_at)
  signature_of _ = none

  unfoldable pub run_keys : List KeyEvent → KeyStore → KeyStore
  run_keys [] st = st
  run_keys (e ∷ es) st = run_keys es (serve_key e st).1

  abbrev KeepsSeen : KeyStore → Option (String × KeyStore) → Type 0
  KeepsSeen st none = Unit
  KeepsSeen st (some p) = p.1.seen_sigs ≡ st.seen_sigs

  load-seen : (c : Call) (st : KeyStore) → (load_registrations kit c st).1.seen_sigs ≡ st.seen_sigs
  unfolding load_registrations
  load-seen c st = ground arith

  create_key-seen :
      (c : Call) (wallet name : String) (st : KeyStore)
      → KeepsSeen st (create_key kit c wallet name st)
  unfolding create_key append_registration
  create_key-seen c wallet name st = ground (arith, load-seen c st)

  KeepsSeen-at :
      (st : KeyStore) (o : Option (String × KeyStore)) (p : String × KeyStore)
      → KeepsSeen st o
      → o ≡ some p
      → p.1.seen_sigs ≡ st.seen_sigs
  KeepsSeen-at st none p h e = ground (arith, e)
  KeepsSeen-at st (some r) p h e =
      let same : r ≡ p = ground (arith, e) in
      subst (λ (x : String × KeyStore). x.1.seen_sigs ≡ st.seen_sigs) same h

  -- Where a key is made of a store, the store keeps its signatures.
  created-seen :
      (c : Call) (wallet name : String) (st : KeyStore) (p : String × KeyStore)
      → create_key kit c wallet name st ≡ some p
      → p.1.seen_sigs ≡ st.seen_sigs
  created-seen c wallet name st p e =
      KeepsSeen-at st (create_key kit c wallet name st) p (create_key-seen c wallet name st) e

  dispatch-seen :
      (c : Call) (action : Action) (wallet name key_id : String) (st : KeyStore)
      → (dispatch kit c action wallet name key_id st).1.seen_sigs ≡ st.seen_sigs
  unfolding keys_create keys_list keys_delete
  dispatch-seen c create wallet name key_id st =
      let loaded = load_registrations kit c st in
      let owned = count_owned kit wallet loaded.0 in
      let named = if name == "" then append_text "key-" (kit.decimal (pos (suc owned))) else name in
      if-holds {A = KeyReply × KeyStore} (λ p. p.1.seen_sigs ≡ st.seen_sigs)
        (not (ltb_ℤ (pos owned) (most_keys kit st))) (λ full. load-seen c st)
        (λ room.
          option-holds {B = KeyReply × KeyStore} (λ p. p.1.seen_sigs ≡ st.seen_sigs)
            (create_key kit c wallet named loaded.1) (λ e. load-seen c st)
            (λ p e.
              let kept = created-seen c wallet named loaded.1 p e in
              ground (arith, kept, load-seen c st)))
  dispatch-seen c list_keys wallet name key_id st = load-seen c st
  dispatch-seen c delete wallet name key_id st = ground (arith, load-seen c st)

  -- What an event may do to the signatures that are remembered: nothing, drop those that have run out,
  -- or add one that was not there.
  abbrev Remembers : ℕ → Dict String ℕ → Dict String ℕ → Type 0
  Remembers now before after =
      (after ≡ before)
      ⊎ (after ≡ prune_seen_sigs now before)
      ⊎ ((k : String) × (lookup k (prune_seen_sigs now before) ≡ none)
          × (after ≡ insert k (now + registration_window) (prune_seen_sigs now before)))

  -- What an event leaves: the reply and what is remembered, with the signature that was accepted, if one was.
  abbrev Leaves : Call → String → Dict String ℕ → KeyReply × KeyStore → Type 0
  Leaves c sig before out =
      Remembers c.now before out.1.seen_sigs
      × (is_accepted out.0 ≡ true → lookup sig out.1.seen_sigs ≡ some (c.now + registration_window))

  refused-Leaves :
      (c : Call) (sig : String) (before : Dict String ℕ) (status : ℕ) (st : KeyStore)
      → (st.seen_sigs ≡ before) ⊎ (st.seen_sigs ≡ prune_seen_sigs c.now before)
      → Leaves c sig before (refused status, st)
  refused-Leaves c sig before status st (inl e) = (inl e, λ h. ground (arith, h))
  refused-Leaves c sig before status st (inr e) = (inr (inl e), λ h. ground (arith, h))

  added-Leaves :
      (c : Call) (sig : String) (before : Dict String ℕ) (out : KeyReply × KeyStore)
      → lookup sig (prune_seen_sigs c.now before) ≡ none
      → out.1.seen_sigs ≡ insert sig (c.now + registration_window) (prune_seen_sigs c.now before)
      → Leaves c sig before out
  added-Leaves c sig before out h e = (
    inr (inr (sig, h, e)),
    λ yes. ground (
      arith,
      e,
      string_eq.same_iff sig sig,
      lookup-insert sig sig (c.now + registration_window) (prune_seen_sigs c.now before),
    ),
  )

  register_locked-Leaves :
      (c : Call) (wallet name sig : String) (st : KeyStore)
      → lookup sig (prune_seen_sigs c.now st.seen_sigs) ≡ none
      → Leaves c sig st.seen_sigs (register_locked kit c wallet name sig (pruned kit c.now st))
  unfolding register_locked
  register_locked-Leaves c wallet name sig st h =
      let P : KeyReply × KeyStore → Type 0 = Leaves c sig st.seen_sigs in
      let open_to = pruned kit c.now st in
      let named = user_name kit (kit.trim name) wallet in
      if-holds {A = KeyReply × KeyStore} P (wallet_already_registered kit wallet open_to)
        (λ there. refused-Leaves c sig st.seen_sigs 409 open_to (inr refl))
        (λ new.
          option-holds {B = KeyReply × KeyStore} P (create_key kit c wallet named open_to)
            (λ e. refused-Leaves c sig st.seen_sigs 500 open_to (inr refl))
            (λ p e.
              let kept = created-seen c wallet named open_to p e in
              added-Leaves c sig st.seen_sigs
                (registered p.0, watch kit wallet (with_sig kit sig c.now p.1)) h
                (ground (arith, kept))))

  pub handle_register-Leaves :
      (c : Call) (q : RegisterRequest) (st : KeyStore)
      → Leaves c (sig_key kit q.signature) st.seen_sigs (handle_register kit c (some q) st)
  unfolding handle_register
  handle_register-Leaves c q st =
      let P : KeyReply × KeyStore → Type 0 = Leaves c (sig_key kit q.signature) st.seen_sigs in
      let no : (status : ℕ) → P (refused status, st) =
        λ status. refused-Leaves c (sig_key kit q.signature) st.seen_sigs status st (inl refl) in
      if-holds {A = KeyReply × KeyStore} P (not c.is_post) (λ a. no 405)
        (λ a.
          if-holds {A = KeyReply × KeyStore} P (not c.allowed) (λ b. no 429)
            (λ b.
              option-holds {B = KeyReply × KeyStore} P (kit.canonical q.wallet) (λ e. no 400)
                (λ wallet e.
                  if-holds {A = KeyReply × KeyStore} P (not (is_fresh c.now q.issued_at))
                    (λ stale. no 400)
                    (λ fresh.
                      if-holds {A = KeyReply × KeyStore} P
                        (not (
                          verify_eth_signature kit (registration_message kit wallet q.issued_at)
                            q.signature wallet))
                        (λ forged. no 401)
                        (λ signed.
                          option-holds {B = KeyReply × KeyStore} P
                            (lookup (sig_key kit q.signature) (pruned kit c.now st).seen_sigs)
                            (λ new.
                              register_locked-Leaves c wallet q.name (sig_key kit q.signature) st
                                new)
                            (λ exp used.
                              refused-Leaves c (sig_key kit q.signature) st.seen_sigs 409
                                (pruned kit c.now st) (inr refl)))))))

  manage-Leaves :
      (c : Call) (action : Action) (wallet : String) (q : KeysRequest) (st : KeyStore)
      → Leaves c (sig_key kit q.signature) st.seen_sigs (manage kit c action wallet q st)
  unfolding manage
  manage-Leaves c action wallet q st =
      let sig = sig_key kit q.signature in
      let name = kit.trim q.name in
      let key_id = kit.trim q.key_id in
      let P : KeyReply × KeyStore → Type 0 = Leaves c sig st.seen_sigs in
      let no : (status : ℕ) → P (refused status, st) =
        λ status. refused-Leaves c sig st.seen_sigs status st (inl refl) in
      if-holds {A = KeyReply × KeyStore} P (needs_id kit action && key_id == "") (λ a. no 400)
        (λ a.
          if-holds {A = KeyReply × KeyStore} P (not (is_fresh c.now q.issued_at)) (λ b. no 400)
            (λ b.
              if-holds {A = KeyReply × KeyStore} P
                (not (
                  verify_eth_signature kit
                    (key_management_message kit action wallet q.issued_at name key_id) q.signature
                    wallet))
                (λ forged. no 401)
                (λ signed.
                  option-holds {B = KeyReply × KeyStore} P
                    (lookup sig (pruned kit c.now st).seen_sigs)
                    (λ new.
                      added-Leaves c sig st.seen_sigs
                        (dispatch kit c action wallet name key_id
                          (with_sig kit sig c.now (pruned kit c.now st)))
                        new
                        (dispatch-seen c action wallet name key_id
                          (with_sig kit sig c.now (pruned kit c.now st))))
                    (λ exp used.
                      refused-Leaves c sig st.seen_sigs 409 (pruned kit c.now st) (inr refl)))))

  pub handle_keys-Leaves :
      (c : Call) (q : KeysRequest) (st : KeyStore)
      → Leaves c (sig_key kit q.signature) st.seen_sigs (handle_keys kit c (some q) st)
  unfolding handle_keys
  handle_keys-Leaves c q st =
      let P : KeyReply × KeyStore → Type 0 = Leaves c (sig_key kit q.signature) st.seen_sigs in
      let no : (status : ℕ) → P (refused status, st) =
        λ status. refused-Leaves c (sig_key kit q.signature) st.seen_sigs status st (inl refl) in
      if-holds {A = KeyReply × KeyStore} P (not c.is_post) (λ a. no 405)
        (λ a.
          if-holds {A = KeyReply × KeyStore} P (not c.allowed) (λ b. no 429)
            (λ b.
              option-holds {B = KeyReply × KeyStore} P q.action (λ e. no 400)
                (λ action e.
                  option-holds {B = KeyReply × KeyStore} P (kit.canonical q.wallet) (λ e. no 400)
                    (λ wallet e. manage-Leaves c action wallet q st))))

  -- What holds of an event as a whole.
  pub serve_key-Remembers :
      (e : KeyEvent) (st : KeyStore)
      → Remembers (time_of e) st.seen_sigs (serve_key e st).1.seen_sigs
  unfolding serve_key handle_register handle_keys
  serve_key-Remembers (registers c none) st = inl (ground arith)
  serve_key-Remembers (registers c (some q)) st = (handle_register-Leaves c q st).0
  serve_key-Remembers (manages c none) st = inl (ground arith)
  serve_key-Remembers (manages c (some q)) st = (handle_keys-Leaves c q st).0
