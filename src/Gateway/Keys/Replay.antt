-- ===== src/Gateway/Keys/Replay.antt =====
-- src/internal/gateway/registration.go and keys.go: the text of a signature that was accepted is not accepted again.
use openmodel_gateway.Prelude.{
  ℕ, ◌+◌, ◌*◌, ◌≤◌, ◌<◌, ◌≡◌, refl, ap, subst, ◌∙◌, ◌⊎◌, inl, inr, true, false, not, List, [], ◌∷◌,
  String, lookup, lookup-insert, none, some, string_eq, nat_eq, if-holds, option-holds, ltb,
  Bool-cases, arith,
}
use openmodel_gateway.Prelude.Int.{ℤ, pos}
use openmodel_gateway.Gateway.Registration.{
  Kit, KeyStore, Call, RegisterRequest, KeyReply, registration_window, is_fresh, prune_seen_sigs,
  sig_key, handle_register,
}
use openmodel_gateway.Gateway.Keys.{KeysRequest, Action, manage, handle_keys}
use openmodel_gateway.Gateway.Keys.Remembering.{
  KeyEvent, time_of, is_accepted, IsOrdered, last_time, lookup-prune, not_fresh, registers, manages,
  serve_key, signature_of, run_keys, handle_register-Leaves, handle_keys-Leaves,
  serve_key-Remembers,
}

module _ (kit : Kit) where
  -- The signature is remembered until `exp`, or that has passed at the time `now`.
  abbrev IsSpent : String → ℕ → ℕ → KeyStore → Type 0
  IsSpent sig exp now st = (lookup sig st.seen_sigs ≡ some exp) ⊎ (exp < now)

  serve_key-IsSpent :
      (sig : String) (exp now : ℕ) (e : KeyEvent) (st : KeyStore)
      → now ≤ time_of e
      → IsSpent sig exp now st
      → IsSpent sig exp (time_of e) (serve_key kit e st).1
  serve_key-IsSpent sig exp now e st o (inr past) = inr (omega (arith, o, past))
  serve_key-IsSpent sig exp now e st o (inl known) = elim (Bool-cases (ltb exp (time_of e))) [
    | inl late ↦ inr (ground (arith, late))
    | inr early ↦
        let stays = lookup-prune (time_of e) exp sig st.seen_sigs known early in
        inl (elim (serve_key-Remembers kit e st) [
          | inl same ↦ ap (lookup sig) same ∙ known
          | inr (inl shed) ↦ ap (lookup sig) shed ∙ stays
          | inr (inr (k, new, added)) ↦
              ap (lookup sig) added
              ∙ ground (
                arith,
                stays,
                new,
                string_eq.same_iff k sig,
                lookup-insert k sig (time_of e + registration_window)
                    (prune_seen_sigs (time_of e) st.seen_sigs),
              )
        ])
  ]

  run_keys-IsSpent :
      (sig : String) (exp : ℕ) (es : List KeyEvent) (now : ℕ) (st : KeyStore)
      → IsOrdered now es
      → IsSpent sig exp now st
      → IsSpent sig exp (last_time now es) (run_keys kit es st)
  unfolding run_keys
  run_keys-IsSpent sig exp [] now st o h = h
  run_keys-IsSpent sig exp (e ∷ es) now st o h =
      run_keys-IsSpent sig exp es (time_of e) (serve_key kit e st).1 o.1
        (serve_key-IsSpent sig exp now e st o.0 h)

  -- The message is no longer fresh, or its signature is remembered.
  spent_or_stale :
      (sig : String) (s t now : ℕ) (st : KeyStore)
      → s * 1_000_000_000 ≤ t
      → IsSpent sig (t + registration_window) now st
      → (is_fresh now (pos s) ≡ false)
        ⊎ (lookup sig (prune_seen_sigs now st.seen_sigs) ≡ some (t + registration_window))
  spent_or_stale sig s t now st old (inr past) = inl (not_fresh s t now old past)
  spent_or_stale sig s t now st old (inl known) =
      elim (Bool-cases (ltb (t + registration_window) now)) [
        | inl late ↦ inl (not_fresh s t now old (ground (arith, late)))
        | inr early ↦ inr (lookup-prune now (t + registration_window) sig st.seen_sigs known early)
      ]

  -- Such a request is refused.
  abbrev IsBarred : Call → String → ℤ → KeyStore → Type 0
  IsBarred c sig issued_at st =
      (is_fresh c.now issued_at ≡ false)
      ⊎ ((exp : ℕ) × (lookup sig (prune_seen_sigs c.now st.seen_sigs) ≡ some exp))

  handle_register-barred :
      (c : Call) (q : RegisterRequest) (st : KeyStore)
      → IsBarred c (sig_key kit q.signature) q.issued_at st
      → is_accepted (handle_register kit c (some q) st).0 ≡ false
  unfolding handle_register
  handle_register-barred c q st (inl stale) = ground (arith, stale)
  handle_register-barred c q st (inr (exp, used)) = ground (arith, used)

  manage-barred :
      (c : Call) (action : Action) (wallet : String) (q : KeysRequest) (st : KeyStore)
      → IsBarred c (sig_key kit q.signature) q.issued_at st
      → is_accepted (manage kit c action wallet q st).0 ≡ false
  unfolding manage
  manage-barred c action wallet q st (inl stale) = ground (arith, stale)
  manage-barred c action wallet q st (inr (exp, used)) = ground (arith, used)

  handle_keys-barred :
      (c : Call) (q : KeysRequest) (st : KeyStore)
      → IsBarred c (sig_key kit q.signature) q.issued_at st
      → is_accepted (handle_keys kit c (some q) st).0 ≡ false
  unfolding handle_keys
  handle_keys-barred c q st h =
      let P : KeyReply × KeyStore → Type 0 = λ o. is_accepted o.0 ≡ false in
      if-holds {A = KeyReply × KeyStore} P (not c.is_post) (λ a. refl)
        (λ a.
          if-holds {A = KeyReply × KeyStore} P (not c.allowed) (λ b. refl)
            (λ b.
              option-holds {B = KeyReply × KeyStore} P q.action (λ e. refl)
                (λ action e.
                  option-holds {B = KeyReply × KeyStore} P (kit.canonical q.wallet) (λ e. refl)
                    (λ wallet e. manage-barred c action wallet q st h))))

  spent-IsBarred :
      (c : Call) (sig key : String) (s t : ℕ) (issued_at : ℤ) (st : KeyStore)
      → s * 1_000_000_000 ≤ t
      → key ≡ sig
      → issued_at ≡ pos s
      → IsSpent sig (t + registration_window) c.now st
      → IsBarred c key issued_at st
  spent-IsBarred c sig key s t issued_at st old a b spent =
      elim (spent_or_stale sig s t c.now st old spent) [
        | inl stale ↦ inl (ap (is_fresh c.now) b ∙ stale)
        | inr used ↦ inr (
          t + registration_window,
          ap (λ k. lookup k (prune_seen_sigs c.now st.seen_sigs)) a ∙ used,
        )
      ]

  refused_again :
      (sig : String) (s t : ℕ) (e : KeyEvent) (st : KeyStore)
      → s * 1_000_000_000 ≤ t
      → signature_of kit e ≡ some (sig, pos s)
      → IsSpent sig (t + registration_window) (time_of e) st
      → is_accepted (serve_key kit e st).0 ≡ false
  unfolding serve_key
  refused_again sig s t (registers c none) st old signed spent = ground (arith, signed)
  refused_again sig s t (registers c (some q)) st old signed spent = handle_register-barred c q st (
      spent-IsBarred c sig (sig_key kit q.signature) s t q.issued_at st old (ground (arith, signed))
        (ground (arith, signed)) spent)
  refused_again sig s t (manages c none) st old signed spent = ground (arith, signed)
  refused_again sig s t (manages c (some q)) st old signed spent = handle_keys-barred c q st (
      spent-IsBarred c sig (sig_key kit q.signature) s t q.issued_at st old (ground (arith, signed))
        (ground (arith, signed)) spent)

  accepted-lookup :
      (sig : String) (i : ℤ) (e : KeyEvent) (st : KeyStore)
      → signature_of kit e ≡ some (sig, i)
      → is_accepted (serve_key kit e st).0 ≡ true
      → lookup sig (serve_key kit e st).1.seen_sigs ≡ some (time_of e + registration_window)
  unfolding serve_key
  accepted-lookup sig i (registers c none) st signed taken = ground (arith, signed)
  accepted-lookup sig i (registers c (some q)) st signed taken =
      let name : sig_key kit q.signature ≡ sig = ground (arith, signed) in
      subst
        (λ k.
          lookup k (handle_register kit c (some q) st).1.seen_sigs
          ≡ some (c.now + registration_window))
        name ((handle_register-Leaves kit c q st).1 taken)
  accepted-lookup sig i (manages c none) st signed taken = ground (arith, signed)
  accepted-lookup sig i (manages c (some q)) st signed taken =
      let name : sig_key kit q.signature ≡ sig = ground (arith, signed) in
      subst
        (λ k.
          lookup k (handle_keys kit c (some q) st).1.seen_sigs ≡ some (c.now + registration_window))
        name ((handle_keys-Leaves kit c q st).1 taken)

  -- A request was accepted whose message was issued from 1970 on and not after that. From then on, a request with the same
  -- time of issue and the same text of a signature, up to case, the space around it and a leading 0x, is refused, at either of the
  -- two endpoints and whatever requests come between, as long as time does not go back. Another text of the same signature
  -- is another one here.
  pub accepted_once :
      (sig : String) (s : ℕ) (e : KeyEvent) (es : List KeyEvent) (again : KeyEvent) (st : KeyStore)
      → signature_of kit e ≡ some (sig, pos s)
      → s * 1_000_000_000 ≤ time_of e
      → is_accepted (serve_key kit e st).0 ≡ true
      → IsOrdered (time_of e) es
      → last_time (time_of e) es ≤ time_of again
      → signature_of kit again ≡ some (sig, pos s)
      → is_accepted (serve_key kit again (run_keys kit es (serve_key kit e st).1)).0 ≡ false
  accepted_once sig s e es again st signed old taken order late same =
      let exp = time_of e + registration_window in
      let after = run_keys kit es (serve_key kit e st).1 in
      let spent =
        run_keys-IsSpent sig exp es (time_of e) (serve_key kit e st).1 order
          (inl (accepted-lookup sig (pos s) e st signed taken)) in
      refused_again sig s (time_of e) again after old same
        (elim spent [ inl known ↦ inl known | inr past ↦ inr (omega (arith, past, late)) ])
