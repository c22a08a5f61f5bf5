-- ===== src/Worker/Registry/Identity.antt =====
-- src/internal/worker/registry.go: who a token stands for, and what a second registration keeps.
use openmodel_gateway.Prelude.{
  ℕ, ◌≡◌, ◌≢◌, refl, Bool, true, String, none, some, lookup, insert, lookup-insert, arith,
  string_eq, eq_refl, [], ◌∷◌, Dict,
}
use openmodel_gateway.Prelude.Entries.{Entries}
use openmodel_gateway.Worker.State.{Worker}
use openmodel_gateway.Worker.Registry.Core.{Registry, save_to_disk}
use openmodel_gateway.Worker.Registry.Admin.{
  WorkerRegistration, RegisterError, update_worker, check_registration, register,
}
use openmodel_gateway.Worker.Registry.Views.{find_by_token, first_with_token}

-- The worker holds this token.
abbrev pub Holds : String → Worker → Type 0
Holds token w = w.auth_token ≡ token

first_with_token_sound :
    (token : String) (ws : Dict String Worker) (w : Worker)
    → first_with_token token ws ≡ some w
    → (w.auth_token ≡ token) × (w.auth_token ≢ "")
unfolding first_with_token
first_with_token_sound token [] w e = cc
first_with_token_sound token ((id, v) ∷ ws) w e = ground (
  arith,
  string_eq.same_iff v.auth_token "",
  string_eq.same_iff v.auth_token token,
  first_with_token_sound token ws w,
)

first_with_token_complete :
    (token : String) (ws : Dict String Worker)
    → token ≢ ""
    → first_with_token token ws ≡ none
    → Entries (λ (_ : String) w. w.auth_token ≢ token) ws
unfolding first_with_token
first_with_token_complete token [] t e = tt
first_with_token_complete token ((id, v) ∷ ws) t e = ground (
  arith,
  string_eq.same_iff v.auth_token "",
  string_eq.same_iff v.auth_token token,
  first_with_token_complete token ws t,
)

-- A worker found by a token holds that very token, which is not empty; and if none is found for a
-- token that is not empty, no registered worker holds it.
pub find_by_token_exact :
    (token : String) (r : Registry)
    → ((w : Worker) → find_by_token token r ≡ some w → (w.auth_token ≡ token) × (token ≢ ""))
      × (token ≢ ""
          → find_by_token token r ≡ none
          → Entries (λ (_ : String) w. w.auth_token ≢ token) r.workers)
unfolding find_by_token
find_by_token_exact token r = (
  (λ w e. ground (arith, first_with_token_sound token r.workers w)),
  (λ t e. ground (arith, string_eq.same_iff token "", first_with_token_complete token r.workers t)),
)

-- A registration that is refused changes nothing, and is refused for an error that the checks give.
pub register_refused :
    (valid_url : String → Bool) (reg : WorkerRegistration) (now : ℕ) (r : Registry)
    (e : RegisterError)
    → (register valid_url reg now r).1.0 ≡ some e
    → ((register valid_url reg now r).0 ≡ r) × (check_registration valid_url reg ≡ some e)
unfolding register
register_refused valid_url reg now r e h = ground arith

-- What a routine registration of a known worker must not lose.
pub record IsKeptBy (w v : Worker) : Type 0 where
  pub verified : (v.verified_models ≡ w.verified_models) × (v.verified_at ≡ w.verified_at)
  pub ban : (v.banned_until ≡ w.banned_until) × (v.ban_reason ≡ w.ban_reason)
  pub runtime : (v.state ≡ w.state) × (v.registered_at ≡ w.registered_at)
  pub self : w.self_registered ≡ true → v.self_registered ≡ true

save_to_disk-workers : (r : Registry) → (save_to_disk r).workers ≡ r.workers
unfolding save_to_disk
save_to_disk-workers r = ground arith

update_worker-IsKeptBy : (reg : WorkerRegistration) (w : Worker) → IsKeptBy w (update_worker reg w)
unfolding update_worker
update_worker-IsKeptBy reg w = ground arith

-- A registration that passes the checks leaves a known worker's proofs, ban, state and time of
-- registration alone, and its signed payout address too if it names none.
pub register_again_keeps :
    (valid_url : String → Bool) (reg : WorkerRegistration) (now : ℕ) (r : Registry) (w : Worker)
    → check_registration valid_url reg ≡ none
    → lookup reg.id r.workers ≡ some w
    → (v : Worker) × (lookup reg.id (register valid_url reg now r).0.workers ≡ some v)
      × IsKeptBy w v
      × (reg.payout_address ≡ "" → v.payout_address ≡ w.payout_address)
      × (v.endpoint ≡ reg.endpoint)
unfolding register
register_again_keeps valid_url reg now r w ok known = (
  update_worker reg w,
  ground (
    arith,
    save_to_disk-workers (record r { workers = insert reg.id (update_worker reg w) r.workers }),
    lookup-insert reg.id reg.id (update_worker reg w) r.workers,
    eq_refl reg.id,
  ),
  update_worker-IsKeptBy reg w,
  (λ e. unfold update_worker in ground (arith, string_eq.same_iff reg.payout_address "")),
  (unfold update_worker in refl),
)
