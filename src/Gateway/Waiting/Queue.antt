-- ===== src/Gateway/Waiting/Queue.antt =====
-- src/internal/gateway/gateway.go: the counter of waiting requests under any interleaving. `Add(1)` gives
-- each request its own reading, which decides whether it stays; who must go gives its place back later.
use openmodel_gateway.Prelude.{ℕ, suc, ◌+◌, ◌≡◌, refl, false, ◌&&◌, if◌then◌else◌, ltb, arith}

-- The counter, the requests that wait, and those that were turned away and still count.
pub record QueueState : Type 0 where
  pub queued : ℕ
  pub waiting : ℕ
  pub rejected : ℕ

-- `Add(1)` and the check of its result; a size of 0 is no limit.
unfoldable pub join_queue : ℕ → QueueState → QueueState
join_queue size s =
    if ltb 0 size && ltb size (suc s.queued)
    then record s { queued = suc s.queued; rejected = suc s.rejected }
    else record s { queued = suc s.queued; waiting = suc s.waiting }

pub data Step (size : ℕ) : QueueState → QueueState → Type 0 where
  joins : {s : QueueState} → Step size s (join_queue size s)
  gives_back :
      {n w k : ℕ}
      → Step size
          (record { queued = suc n; waiting = w; rejected = suc k })
          (record { queued = n; waiting = w; rejected = k })
  leaves :
      {n w k : ℕ}
      → Step size
          (record { queued = suc n; waiting = suc w; rejected = k })
          (record { queued = n; waiting = w; rejected = k })

pub data Run (size : ℕ) : QueueState → QueueState → Type 0 where
  stop : {s : QueueState} → Run size s s
  go : {s t u : QueueState} → Step size s t → Run size t u → Run size s u

abbrev pub empty_queue : QueueState
empty_queue = record { queued = 0; waiting = 0; rejected = 0 }

-- The counter counts both kinds, and no more wait than the queue's size.
pub record IsCounted (size : ℕ) (s : QueueState) : Type 0 where
  pub counted : s.queued ≡ s.waiting + s.rejected
  pub within : (ltb 0 size && ltb size s.waiting) ≡ false

Step-IsCounted : (size : ℕ) {s t : QueueState} → Step size s t → IsCounted size s → IsCounted size t
unfolding join_queue
Step-IsCounted size (joins {s}) h = record {
  counted = ground (arith, h.counted);
  within = ground (arith, h.counted, h.within);
}
Step-IsCounted size gives_back h = record { counted = ground (arith, h.counted); within = h.within }
Step-IsCounted size leaves h = record {
  counted = ground (arith, h.counted);
  within = ground (arith, h.within);
}

Run_keeps : (size : ℕ) {s t : QueueState} → Run size s t → IsCounted size s → IsCounted size t
Run_keeps size stop h = h
Run_keeps size (go step run) h = Run_keeps size run (Step-IsCounted size step h)

-- However requests join, are turned away and leave, from an empty queue: the counter is the number of those that wait and
-- those that still have to give their place back, and no more wait than the queue's size, if it has one.
pub Run-IsCounted : (size : ℕ) {s : QueueState} → Run size empty_queue s → IsCounted size s
Run-IsCounted size run = Run_keeps size run (record { counted = refl; within = ground arith })
