-- ===== src/Gateway/Session/Sticky.antt =====
-- src/internal/gateway/session.go: how long a conversation keeps its worker.
use openmodel_gateway.Prelude.{
  ℕ, ◌+◌, ◌≤◌, ◌≡◌, false, ◌||◌, List, [], ◌∷◌, String, Dict, lookup, lookup-insert, lookup-erase,
  some, ◌==◌, string_eq, if-holds, eq_refl, All, Option-cases, inl, inr, arith,
}
use openmodel_gateway.Gateway.Session.{
  SessionEntry, SessionAffinity, get_worker, evict, evict_all, put_worker,
}

-- The entry of a key, which is good until a time.
abbrev pub IsStuck : String → String → ℕ → Dict String SessionEntry → Type 0
IsStuck key worker until m = lookup key m ≡ some (record { worker_id = worker; expiry = until })

evict-IsStuck :
    (key worker : String) (until now : ℕ) (k : String) (m : Dict String SessionEntry)
    → now ≤ until
    → IsStuck key worker until m
    → IsStuck key worker until (evict now k m)
unfolding evict
evict-IsStuck key worker until now k m early h = elim (Option-cases (lookup k m)) [
  | inl gone ↦ ground arith
  | inr (e, found) ↦ ground (arith, lookup-erase k key m, string_eq.same_iff k key)
]

evict_all-IsStuck :
    (key worker : String) (until now : ℕ) (ks : List String) (m : Dict String SessionEntry)
    → now ≤ until
    → IsStuck key worker until m
    → IsStuck key worker until (evict_all now ks m)
unfolding evict_all
evict_all-IsStuck key worker until now [] m early h = h
evict_all-IsStuck key worker until now (k ∷ ks) m early h =
    evict_all-IsStuck key worker until now ks (evict now k m) early
      (evict-IsStuck key worker until now k m early h)

put_other-IsStuck :
    (key worker : String) (until made now : ℕ) (scan : List String) (k w : String)
    (s : SessionAffinity)
    → now ≤ until
    → (k == key) ≡ false
    → IsStuck key worker until s.sessions
    → IsStuck key worker until (put_worker made now scan k w s).sessions
unfolding put_worker
put_other-IsStuck key worker until made now scan k w s early other h =
    if-holds {A = SessionAffinity} (λ s'. IsStuck key worker until s'.sessions) (k == "" || w == "")
      (λ void. h)
      (λ real. evict_all-IsStuck key worker until now scan _ early (
        ground (
          arith,
          lookup-insert k key (record { worker_id = w; expiry = made + s.ttl }) s.sessions,
        )))

get-IsStuck :
    (key worker : String) (until now : ℕ) (k : String) (s : SessionAffinity)
    → now ≤ until
    → IsStuck key worker until s.sessions
    → IsStuck key worker until (get_worker now k s).1.sessions
unfolding get_worker
get-IsStuck key worker until now k s early h = elim (Option-cases (lookup k s.sessions)) [
  | inl gone ↦ ground arith
  | inr (e, found) ↦ ground (arith, lookup-erase k key s.sessions, string_eq.same_iff k key)
]

pub data SessionCall : Type 0 where
  gets : ℕ → String → SessionCall
  puts : ℕ → ℕ → List String → String → String → SessionCall

unfoldable pub run_calls : List SessionCall → SessionAffinity → SessionAffinity
run_calls [] s = s
run_calls (gets now k ∷ cs) s = run_calls cs (get_worker now k s).1
run_calls (puts made now scan k w ∷ cs) s = run_calls cs (put_worker made now scan k w s)

-- A call in time that gives the key no other worker.
abbrev pub IsBystander : String → ℕ → SessionCall → Type 0
IsBystander key until (gets now k) = now ≤ until
IsBystander key until (puts made now scan k w) = (now ≤ until) × ((k == key) ≡ false)

run_calls-IsStuck :
    (key worker : String) (until : ℕ) (cs : List SessionCall) (s : SessionAffinity)
    → All (IsBystander key until) cs
    → IsStuck key worker until s.sessions
    → IsStuck key worker until (run_calls cs s).sessions
unfolding run_calls
run_calls-IsStuck key worker until [] s all h = h
run_calls-IsStuck key worker until (gets now k ∷ cs) s all h =
    run_calls-IsStuck key worker until cs _ all.1 (get-IsStuck key worker until now k s all.0 h)
run_calls-IsStuck key worker until (puts made now scan k w ∷ cs) s all h =
    run_calls-IsStuck key worker until cs _ all.1
      (put_other-IsStuck key worker until made now scan k w s all.0.0 all.0.1 h)

put_worker-IsStuck :
    (key worker : String) (made now : ℕ) (scan : List String) (s : SessionAffinity)
    → (key == "") ≡ false
    → (worker == "") ≡ false
    → now ≤ made + s.ttl
    → IsStuck key worker (made + s.ttl) (put_worker made now scan key worker s).sessions
unfolding put_worker
put_worker-IsStuck key worker made now scan s named given early =
    if-holds {A = SessionAffinity} (λ s'. IsStuck key worker (made + s.ttl) s'.sessions)
      (key == "" || worker == "") (λ void. ground arith)
      (λ real. evict_all-IsStuck key worker (made + s.ttl) now scan _ early (
        ground (
          arith,
          eq_refl key,
          lookup-insert key key (record { worker_id = worker; expiry = made + s.ttl }) s.sessions,
        )))

-- After a put of a key, gets of any keys and puts of others, whatever they evict, leave its worker to
-- be found until the entry's time is over.
pub get_worker_sticks :
    (key worker : String) (made now later : ℕ) (scan : List String) (cs : List SessionCall)
    (s : SessionAffinity)
    → (key == "") ≡ false
    → (worker == "") ≡ false
    → now ≤ made + s.ttl
    → All (IsBystander key (made + s.ttl)) cs
    → later ≤ made + s.ttl
    → (get_worker later key (run_calls cs (put_worker made now scan key worker s))).0 ≡ some worker
unfolding get_worker
get_worker_sticks key worker made now later scan cs s named given early all late =
    let h =
      run_calls-IsStuck key worker (made + s.ttl) cs (put_worker made now scan key worker s) all
        (put_worker-IsStuck key worker made now scan s named given early) in
    ground (arith, h)
