-- ===== src/Queue/Schedule.antt =====
-- A queue's life: the operations of `QueueStore` (src/istos/queue/store.py) in the order in which
-- they hold the lock, each with what it reads of the clock.
use istos.Prelude.{ℕ, ◌≤◌, Option, List, [], ◌∷◌}
use istos.Queue.Job.{Bytes}
use istos.Queue.State.{QueueStore}
use istos.Queue.Store.{Enqueue, add, claim, ack, Nack, nack}
use istos.Queue.Upkeep.{sweep, load}

pub data Op : Type 0 where
  adds : Enqueue → Op
  claims : ℕ → ℕ → Op
  acks : ℕ → Option Bytes → Option ℕ → ℕ → Op
  nacks : ℕ → Nack → Op
  sweeps : ℕ → Op
  loads : ℕ → Op

unfoldable pub step : QueueStore → Op → QueueStore
step s (adds q) = (add q s).0
step s (claims now lease_s) = (claim now lease_s s).0
step s (acks job_id result attempt now) = (ack job_id result attempt now s).0
step s (nacks job_id n) = (nack job_id n s).0
step s (sweeps now) = (sweep now s).0
step s (loads now) = load now s

unfoldable pub run : QueueStore → List Op → QueueStore
run s [] = s
run s (op ∷ ops) = run (step s op) ops

-- The clock when an operation sorts jobs into the heaps or takes them out.
abbrev pub reading : Op → ℕ
reading (adds q) = q.offered
reading (claims now lease_s) = now
reading (acks job_id result attempt now) = now
reading (nacks job_id n) = n.offered
reading (sweeps now) = now
reading (loads now) = now

-- The clock never goes back from one operation to the next.
abbrev pub InOrder : ℕ → List Op → Type 0
InOrder clock [] = Unit {0}
InOrder clock (op ∷ ops) = (clock ≤ reading op) × InOrder (reading op) ops

-- The last reading of a schedule.
abbrev pub last_reading : ℕ → List Op → ℕ
last_reading clock [] = clock
last_reading clock (op ∷ ops) = last_reading (reading op) ops
