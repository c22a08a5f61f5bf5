-- ===== src/Worker/Lifecycle/Restart.antt =====
-- A restart reads back what the file holds: `NewRegistry` on the path of the registry that stopped.
use openmodel_gateway.Prelude.{
  ℕ, ◌<◌, ◌≡◌, refl, Bool, true, false, List, [], ◌∷◌, map, String, Option, none, some, All, lookup,
  insert, lookup-insert, arith, string_eq, ◌==◌, inl, inr, Bool-cases, Dict,
}
use openmodel_gateway.Prelude.Entries.{Entries, IsUnique}
use openmodel_gateway.Worker.State.{Worker}
use openmodel_gateway.Worker.Registry.Core.{
  Registry, PersistedWorker, revive, load_list, load_from_disk, new_registry,
}
use openmodel_gateway.Worker.Registry.Admin.{update_worker}
use openmodel_gateway.Worker.Registry.Runtime.{apply_report, start_switch, take_offline}
use openmodel_gateway.Worker.Lifecycle.{Event, run, run-keeps}
use openmodel_gateway.Worker.Lifecycle.Workers.{IsTimed, IsKept, run-AllKept}
use openmodel_gateway.Worker.Lifecycle.Durability.{
  forget, durable, stored, IsSynced, step-IsSynced, apply_report-durable, start_switch-durable,
  take_offline-durable,
}

-- A worker stands under its own ID and has a time of registration.
abbrev IsFiled : String → Worker → Type 0
IsFiled id w = (w.id ≡ id) × (0 < w.registered_at)

IsFiled-of_durable :
    (id : String) (v w : Worker) → durable v ≡ durable w → IsFiled id w → IsFiled id v
IsFiled-of_durable id v w e h = ground arith

Filed-IsKept : IsKept IsFiled
unfolding update_worker
Filed-IsKept = record {
  fresh = λ reg now t. (refl, t);
  updated = λ reg w h. h;
  banned = λ id w until reason h. h;
  verified = λ id w models now h. h;
  advertised = λ id w features key h. h;
  foreseen = λ id w seconds now h. h;
  failed = λ id w h. h;
  reported = λ id w timeout now rep h.
      IsFiled-of_durable id (apply_report timeout now rep w) w
        (apply_report-durable timeout now rep w) h;
  switched = λ id w target now h.
      IsFiled-of_durable id (start_switch target now w) w (start_switch-durable target now w) h;
  stopped = λ id w h. IsFiled-of_durable id (take_offline w) w (take_offline-durable w) h;
}

-- The durable part of a worker that may be there.
abbrev pub view : Option Worker → Option PersistedWorker
view none = none
view (some w) = some (durable w)

revive-durable :
    (now : ℕ) (p : PersistedWorker) (w : Worker)
    → forget p ≡ durable w
    → 0 < w.registered_at
    → durable (revive now p) ≡ durable w
unfolding revive
revive-durable now p w e h = ground arith

load_list-view :
    (now : ℕ) (ps : List PersistedWorker) (ws acc : Dict String Worker) (id : String)
    → map forget ps ≡ map (λ e. durable e.1) ws
    → Entries IsFiled ws
    → IsUnique ws
    → view (lookup id (load_list now ps acc))
      ≡ elim (lookup id ws) [ none ↦ view (lookup id acc) | some w ↦ some (durable w) ]
unfolding load_list
load_list-view now [] [] acc id e f u = refl
load_list-view now [] (x ∷ ws) acc id e f u = cc
load_list-view now (p ∷ ps) [] acc id e f u = cc
load_list-view now (p ∷ ps) ((k, w) ∷ ws) acc id e f u =
    let step = load_list-view now ps ws (insert p.id (revive now p) acc) id (cc) f.1 u.1 in
    let same = revive-durable now p w (cc) f.0.1 in
    let filed : p.id ≡ k = ground arith in
    elim (Bool-cases (k == id)) [
      | inl hit ↦
          ground
            (arith, step, same, string_eq.same_iff k id, lookup-insert p.id id (revive now p) acc)
      | inr miss ↦
          ground (arith, step, string_eq.same_iff k id, lookup-insert p.id id (revive now p) acc)
    ]

-- A registry with no worker yet and no file, or an empty one, on a path that can be written.
abbrev pub IsFresh : Registry → Type 0
IsFresh r =
    ((r.save_path == "") ≡ false) × (r.writable ≡ true) × (r.workers ≡ []) × (stored r.disk ≡ [])

fresh-IsSynced : (r : Registry) → IsFresh r → IsSynced r
fresh-IsSynced r h = record {
  on_disk = h.0;
  writes = h.1;
  unique = rw (h.2) tt;
  synced = rw (h.2) (h.3);
}

-- What is read of a file, or of none, is what was stored.
disk-view :
    (now : ℕ) (d : Option (List PersistedWorker)) (ws : Dict String Worker) (id : String)
    → stored d ≡ map (λ e. durable e.1) ws
    → Entries IsFiled ws
    → IsUnique ws
    → view (lookup id (elim d [ none ↦ [] | some ps ↦ load_list now ps [] ])) ≡ view (lookup id ws)
disk-view now none [] id e f u = refl
disk-view now none (x ∷ ws) id e f u = cc
disk-view now (some ps) ws id e f u = ground (arith, load_list-view now ps ws [] id e f u)

new_registry-view :
    (now : ℕ) (r : Registry) (id : String)
    → IsSynced r
    → Entries IsFiled r.workers
    → view (lookup id (new_registry r.save_path r.disk r.writable now).workers)
      ≡ view (lookup id r.workers)
unfolding new_registry load_from_disk
new_registry-view now r id s f =
    ground (arith, disk-view now r.disk r.workers id s.synced f s.unique)

-- After any run of events on a fresh registry whose file can be written, a registry opened on that
-- file knows the same workers, and of each the same ID, endpoints, token, miner and payout addresses,
-- supported and verified models, ban, and time of registration.
pub restart_keeps :
    (valid_url : String → Bool) (es : List Event) (r r' : Registry) (now : ℕ) (id : String)
    → All IsTimed es
    → IsFresh r
    → run valid_url es r ≡ some r'
    → view (lookup id (new_registry r'.save_path r'.disk r'.writable now).workers)
      ≡ view (lookup id r'.workers)
restart_keeps valid_url es r r' now id t fresh e =
    new_registry-view now r' id
      (run-keeps valid_url IsSynced IsTimed (λ e r r' _. step-IsSynced valid_url e r r') es r r' t
        (fresh-IsSynced r fresh) e)
      (run-AllKept IsFiled Filed-IsKept valid_url es r r' t (rw (fresh.2) tt) e)
