-- ===== src/Queue/Live/Run.antt =====
-- The invariant over whole schedules.
use istos.Prelude.{ℕ, ◌≤◌, List, [], ◌∷◌, Option, number_key}
use istos.Dict.{get-empty}
use istos.Queue.Job.{JobRecord}
use istos.Queue.Disk.{Disk}
use istos.Queue.State.{QueueStore, Config, init}
use istos.Queue.Store.{ack}
use istos.Queue.Schedule.{
  Op, adds, claims, acks, nacks, sweeps, loads, step, run, InOrder, reading, last_reading,
}
use istos.Queue.Live.Defs.{IsLive, IsLive-later}
use istos.Queue.Live.Claims.{claim-IsLive}
use istos.Queue.Live.Purges.{add-IsLive, ack-IsLive, nack-IsLive, sweep-IsLive, load-IsLive}

step-IsLive :
    (clock : ℕ) (s : QueueStore) (op : Op)
    → clock ≤ reading op
    → IsLive clock s
    → IsLive (reading op) (step s op)
unfolding step
step-IsLive clock s (adds q) le h = add-IsLive clock q s le h
step-IsLive clock s (claims now lease_s) le h = claim-IsLive clock now lease_s s le h
step-IsLive clock s (acks i result attempt now) le h =
    IsLive-later clock now (ack i result attempt now s).0 le
      (ack-IsLive clock i now result attempt s h)
step-IsLive clock s (nacks i n) le h = nack-IsLive clock i n s le h
step-IsLive clock s (sweeps now) le h = sweep-IsLive clock now s le h
step-IsLive clock s (loads now) le h = load-IsLive clock now s le h

-- The jobs that a store has after a schedule whose clock does not go back are tracked by its heaps,
-- storage failures and recoveries included, if those were that it had before.
pub run-IsLive :
    (ops : List Op) (clock : ℕ) (s : QueueStore)
    → InOrder clock ops
    → IsLive clock s
    → IsLive (last_reading clock ops) (run s ops)
unfolding run
run-IsLive [] clock s in_order h = h
run-IsLive (op ∷ ops) clock s in_order h =
    run-IsLive ops (reading op) (step s op) in_order.1 (step-IsLive clock s op in_order.0 h)

pub init-IsLive : (c : Config) (storage : Option Disk) (clock : ℕ) → IsLive clock (init c storage)
unfolding init
init-IsLive c storage clock k r found = cc (get-empty {V = JobRecord} k)
