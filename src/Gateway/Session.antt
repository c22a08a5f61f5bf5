-- ===== src/Gateway/Session.antt =====
-- src/internal/gateway/session.go: the worker that a conversation sticks to. The clock's readings are
-- arguments.
pub mod Sticky
use openmodel_gateway.Prelude.{
  ℕ, ◌+◌, Bool, true, false, ◌||◌, List, [], ◌∷◌, String, Dict, lookup, insert, erase, Option, none,
  some, ◌==◌, string_eq, if◌then◌else◌, ltb,
}

pub record SessionEntry : Type 0 where
  pub worker_id : String
  pub expiry : ℕ

pub record SessionAffinity : Type 0 where
  pub sessions : Dict String SessionEntry
  pub ttl : ℕ

unfoldable pub get_worker : ℕ → String → SessionAffinity → Option String × SessionAffinity
get_worker now key s = if key == "" then (none, s) else elim (lookup key s.sessions) [
  | none ↦ (none, s)
  | some e ↦
      if ltb e.expiry now
      then (none, record { sessions = erase key s.sessions; ttl = s.ttl })
      else (some e.worker_id, s)
]

-- A key that the scan visits goes if its entry has expired.
unfoldable pub evict : ℕ → String → Dict String SessionEntry → Dict String SessionEntry
evict now key m = elim (lookup key m) [
  | none ↦ m
  | some e ↦ if ltb e.expiry now then erase key m else m
]

unfoldable pub evict_all : ℕ → List String → Dict String SessionEntry → Dict String SessionEntry
evict_all now [] m = m
evict_all now (key ∷ keys) m = evict_all now keys (evict now key m)

-- `scan` is the keys that the loop over the map visits, 64 at most, in the map's order; `made` and `now`
-- are the two readings of the clock.
unfoldable pub put_worker :
    ℕ → ℕ → List String → String → String → SessionAffinity → SessionAffinity
put_worker made now scan key worker s = if key == "" || worker == "" then s else record {
  sessions =
      evict_all now scan
        (insert key (record { worker_id = worker; expiry = made + s.ttl }) s.sessions);
  ttl = s.ttl;
}
